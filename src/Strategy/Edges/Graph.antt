-- ===== src/Strategy/Edges/Graph.antt =====
-- What `_has_cycle` says of the edges of a strategy graph in strategy_graph.py, as the validation calls it.
use Prim.Native.Nat.{◌≤◌}
use Prim.Native.String.{String}
use mathlib.Core.Path.{subst}
use text.Mathlib.Text.{◌==◌ as str_eq}
use text.Mathlib.TextEquality.{eq_iff}
use text.Mathlib.TextPositions.{eq_refl as str_eq-refl}
use goodmoneying.Prelude.{
  Bool, true, ◌&&◌, ◌≡◌, ◌↔◌, refl, sym, ◌∙◌, inl, inr, List, [], ◌∷◌, All, All-imp, any, count,
  map, Bool-cases, arith,
}
use goodmoneying.Prelude.Json.{Json, Fields}
use goodmoneying.Strategy.{node_ids}
use goodmoneying.Strategy.Keys.{node_ids-distinct}
use goodmoneying.Strategy.Cycle.{has_cycle}
use goodmoneying.Strategy.Cycle.Rounds.{occurs}
use goodmoneying.Strategy.Cycle.Kahn.{Edge, IsGraph, IsClosed, has_cycle_iff}
use goodmoneying.Strategy.Edges.{Links, ends_of}
use goodmoneying.Strategy.Edges.Built.{
  LinksHold, is_known_edge, build_links-LinksHold, any-build_links,
}
use goodmoneying.Strategy.Validate.{links_of}

-- `order edges node` lists the targets of a node, as iterating over its set does.
abbrev pub IsSetOrder : (List Edge → String → List String) → Type 0
IsSetOrder order =
    (edges : List Edge) (u v : String)
    → occurs v (order edges u) ≡ count (λ e. str_eq e.0 u && str_eq e.1 v) edges

All-of_occurs {κ} :
    (P : String → Type κ) (xs : List String) → ((v : String) → 1 ≤ occurs v xs → P v) → All P xs
All-of_occurs P [] f = tt
All-of_occurs P (x ∷ xs) f =
    (f x (ground (arith, str_eq-refl x)), All-of_occurs P xs (λ v h. f v (ground (arith, h))))

known_target :
    (ids : List String) (edges : List Edge) (u t : String)
    → All (λ e. (occurs e.0 ids ≡ 1) × (occurs e.1 ids ≡ 1)) edges
    → 1 ≤ count (λ e. str_eq e.0 u && str_eq e.1 t) edges
    → occurs t ids ≡ 1
known_target ids [] u t known h = absurd (omega (arith, h))
known_target ids (e ∷ edges) u t known h = elim (Bool-cases (str_eq e.1 t)) [
  | inl same ↦ subst (λ w. occurs w ids ≡ 1) ((eq_iff e.1 t).0 same) known.0.1
  | inr other ↦ known_target ids edges u t known.1 (ground (arith, h, other))
]

module _ (repr : Json → String) (nodes : List Fields) (order : List Edge → String → List String)
    (is_order : IsSetOrder order) where
  LinksHold-IsGraph :
      (links : Links)
      → LinksHold (node_ids repr [] nodes) links
      → IsGraph (node_ids repr [] nodes) links.graph_edges (order links.graph_edges) links.indegree
  LinksHold-IsGraph links hold = record {
    distinct = node_ids-distinct repr [] nodes;
    targets_known = λ u.
        All-of_occurs (λ t. occurs t (node_ids repr [] nodes) ≡ 1) (order links.graph_edges u)
          (λ t listed.
            known_target (node_ids repr [] nodes) links.graph_edges u t hold.ends_known
              (omega (arith, listed, is_order links.graph_edges u t)));
    sources_known =
        All-imp _ (λ e. occurs e.0 (node_ids repr [] nodes) ≡ 1) links.graph_edges
          (λ e both. both.0) hold.ends_known;
    targets_listed = is_order links.graph_edges;
    degrees = hold.counted;
  }

  pub links_of-IsGraph :
      (edges : List Fields)
      → IsGraph
          (node_ids repr [] nodes)
          (links_of repr nodes edges).graph_edges
          (order (links_of repr nodes edges).graph_edges)
          (links_of repr nodes edges).indegree
  unfolding links_of
  links_of-IsGraph edges =
      LinksHold-IsGraph (links_of repr nodes edges)
        (build_links-LinksHold repr nodes edges _ (record { ends_known = tt; counted = λ v. refl }))

  any-links_of :
      (p : Edge → Bool) (edges : List Fields)
      → All (λ edge. is_known_edge repr nodes edge ≡ true) edges
      → any p (links_of repr nodes edges).graph_edges ≡ any p (map (ends_of repr nodes) edges)
  unfolding links_of
  any-links_of p edges known = any-build_links repr nodes p edges _ known

  -- If the edges lead from node to node, the validation finds a cycle exactly if there is a set of nodes
  -- each of which has an edge from a node of the set.
  pub links_of-has_cycle_iff :
      (edges : List Fields)
      → All (λ edge. is_known_edge repr nodes edge ≡ true) edges
      → (has_cycle
            (order (links_of repr nodes edges).graph_edges)
            (node_ids repr [] nodes)
            (links_of repr nodes edges).indegree
          ≡ true)
        ↔ ((s : String → Bool) × (any s (node_ids repr [] nodes) ≡ true)
            × IsClosed (map (ends_of repr nodes) edges) s)
  links_of-has_cycle_iff edges known =
      let found = has_cycle_iff (links_of-IsGraph edges) in
      let same =
        λ (s : String → Bool) (v : String). any-links_of (λ e. str_eq e.1 v && s e.0) edges known in
      (
        λ cyclic.
            let (s, inhabited, closed) = found.0 cyclic in
            (s, inhabited, λ v member. sym (same s v) ∙ closed v member),
        λ (s, inhabited, closed). found.1 (s, inhabited, λ v member. same s v ∙ closed v member),
      )
