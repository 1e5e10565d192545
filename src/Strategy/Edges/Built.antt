-- ===== src/Strategy/Edges/Built.antt =====
-- The graph that `validate_strategy_graph` of strategy_graph.py builds of the edges, as `_has_cycle` gets it.
use Prim.Native.Nat.{◌+◌}
use Prim.Native.String.{String}
use mathlib.Core.Bool.{false≢true}
use text.Mathlib.Text.{◌==◌ as str_eq}
use text.Mathlib.TextEquality.{eq_iff}
use text.Mathlib.TextPositions.{eq_refl as str_eq-refl}
use goodmoneying.Prelude.{
  Bool, true, not, ◌&&◌, ◌||◌, ◌≡◌, refl, sym, ap, ◌∙◌, inl, inr, List, [], ◌∷◌, ◌++◌, All,
  All-append, any, count, count-append, map, Bool-cases, arith,
}
use goodmoneying.Prelude.Sort.{any-append}
use goodmoneying.Prelude.Json.{Json, Fields}
use goodmoneying.RateLimit.Keyed.{set-elim}
use goodmoneying.Strategy.{node_ids}
use goodmoneying.Strategy.Keys.{node_ids-known}
use goodmoneying.Strategy.Cycle.Rounds.{occurs}
use goodmoneying.Strategy.Cycle.Kahn.{Edge}
use goodmoneying.Strategy.Edges.{Links, same_edge, link, ends_of, is_node, build_links}

-- What the loop keeps: the edges lead from key to key, and the degrees count them.
pub record LinksHold (ids : List String) (links : Links) : Type 0 where
  pub ends_known : All (λ e. (occurs e.0 ids ≡ 1) × (occurs e.1 ids ≡ 1)) links.graph_edges
  pub counted : (v : String) → links.indegree v ≡ count (λ e. str_eq e.1 v) links.graph_edges

any-same_edge :
    (p : Edge → Bool) (e : Edge) (xs : List Edge)
    → any (same_edge e) xs ≡ true
    → p e ≡ true
    → any p xs ≡ true
any-same_edge p e [] h k = absurd (false≢true h)
any-same_edge p e (x ∷ xs) h k = elim (Bool-cases (same_edge e x)) [
  | inl same ↦
      let sources : e.0 ≡ x.0 = (eq_iff e.0 x.0).0 (ground (arith, same)) in
      let targets : e.1 ≡ x.1 = (eq_iff e.1 x.1).0 (ground (arith, same)) in
      let here : p x ≡ true =
        ap (λ s. p (s, x.1)) (sym sources) ∙ ap (λ t. p (e.0, t)) (sym targets) ∙ k in
      ground (arith, here)
  | inr other ↦ ground (arith, any-same_edge p e xs, h, k, other)
]

module _ (ids : List String) where
  link-LinksHold :
      (both_known : Bool) (e : Edge) (links : Links)
      → (both_known ≡ true → (occurs e.0 ids ≡ 1) × (occurs e.1 ids ≡ 1))
      → LinksHold ids links
      → LinksHold ids (link both_known e links)
  unfolding link
  link-LinksHold both_known e links known hold =
      elim (Bool-cases (both_known && not (any (same_edge e) links.graph_edges))) [
        | inr old ↦ rw old hold
        | inl new ↦ rw new (record {
          ends_known =
              All-append _ links.graph_edges (e ∷ []) hold.ends_known
                (known (ground (arith, new)), tt);
          counted =
              set-elim (λ v n. n ≡ count (λ x. str_eq x.1 v) (links.graph_edges ++ e ∷ [])) e.1
                (links.indegree e.1 + 1) links.indegree
                (let same = str_eq-refl e.1 in
                  let more = count-append (λ x. str_eq x.1 e.1) links.graph_edges (e ∷ []) in
                  let before = hold.counted e.1 in ground (arith, same, more, before))
                (λ v other.
                  let more = count-append (λ x. str_eq x.1 v) links.graph_edges (e ∷ []) in
                  let before = hold.counted v in ground (arith, more, before, other));
        })
      ]

  any-link :
      (p : Edge → Bool) (both_known : Bool) (e : Edge) (links : Links)
      → any p (link both_known e links).graph_edges ≡ (any p links.graph_edges || both_known && p e)
  unfolding link
  any-link p both_known e links = elim (Bool-cases (any (same_edge e) links.graph_edges)) [
    | inl old ↦ let seen = any-same_edge p e links.graph_edges old in ground (arith, old, seen)
    | inr new ↦ ground (arith, new, any-append p links.graph_edges (e ∷ []))
  ]

module _ (repr : Json → String) (nodes : List Fields) where
  -- The ids that an edge names are those of nodes.
  abbrev pub is_known_edge : Fields → Bool
  is_known_edge edge =
      is_node repr nodes (ends_of repr nodes edge).0
      && is_node repr nodes (ends_of repr nodes edge).1

  pub build_links-LinksHold :
      (edges : List Fields) (links : Links)
      → LinksHold (node_ids repr [] nodes) links
      → LinksHold (node_ids repr [] nodes) (build_links repr nodes edges links)
  unfolding build_links
  build_links-LinksHold [] links hold = hold
  build_links-LinksHold (edge ∷ edges) links hold =
      let e = ends_of repr nodes edge in
      build_links-LinksHold edges (link (is_known_edge edge) e links) (
        link-LinksHold (node_ids repr [] nodes) (is_known_edge edge) e links
          (λ known. (
            node_ids-known repr [] nodes e.0 (ground (arith, known)) refl,
            node_ids-known repr [] nodes e.1 (ground (arith, known)) refl,
          ))
          hold)

  pub any-build_links :
      (p : Edge → Bool) (edges : List Fields) (links : Links)
      → All (λ edge. is_known_edge edge ≡ true) edges
      → any p (build_links repr nodes edges links).graph_edges
        ≡ (any p links.graph_edges || any p (map (ends_of repr nodes) edges))
  unfolding build_links
  any-build_links p [] links known = ground arith
  any-build_links p (edge ∷ edges) links known =
      let e = ends_of repr nodes edge in
      let rest = any-build_links p edges (link (is_known_edge edge) e links) known.1 in
      let first = any-link (node_ids repr [] nodes) p (is_known_edge edge) e links in
      ground (arith, rest, first, known.0)
