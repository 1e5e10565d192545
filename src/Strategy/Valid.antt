-- ===== src/Strategy/Valid.antt =====
-- `validate_strategy_graph` of strategy_graph.py as a whole: which graphs are valid, and its list of errors.
use Prim.Native.String.{String}
use mathlib.Core.Bool.{false≢true}
use goodmoneying.Prelude.{
  is_some, is_empty, Bool, true, false, ◌≡◌, ◌↔◌, refl, sym, ◌∙◌, inl, inr, Option, none, some,
  List, [], ◌∷◌, ◌++◌, All, All-imp, any, map, Bool-cases, arith,
}
use goodmoneying.Prelude.Results.{ok, bind-returned}
use goodmoneying.Prelude.Json.{Json, Fields, get_or_null}
use goodmoneying.Strategy.{
  ValidationError, ValidationResult, mapping_list, find_port, text_of, node_at, node_ids,
}
use goodmoneying.Strategy.Hash.{CanonicalGraph}
use goodmoneying.Strategy.Nodes.{all_node_errors}
use goodmoneying.Strategy.Edges.{ends_of, edge_errors}
use goodmoneying.Strategy.Edges.Built.{is_known_edge}
use goodmoneying.Strategy.Edges.Graph.{IsSetOrder, links_of-has_cycle_iff}
use goodmoneying.Strategy.Cycle.{has_cycle}
use goodmoneying.Strategy.Cycle.Kahn.{Edge, IsClosed}
use goodmoneying.Strategy.Validate.{
  deduplicate_from, deduplicate_errors, output_errors, links_of, graph_errors,
  validate_strategy_graph,
}
use goodmoneying.Strategy.Sound.{
  both_ways, both_iff, report_if_iff, not-false_iff, ArePorts, SoundNode, SoundEdge,
  all_node_errors_iff, edge_errors_iff, find_port-is_node,
}

module _ (repr : Json → String) where
  abbrev pub SoundOutput : List Fields → Fields → Type 0
  SoundOutput nodes output =
      is_some (
        find_port (node_at repr nodes (text_of repr "node" output)) "output_ports"
          (get_or_null "port" output))
      ≡ true

  -- A graph that runs: something comes out of it, its parts fit, and no set of its nodes waits for itself.
  pub record IsSound (nodes edges outputs : List Fields) : Type 0 where
    pub has_outputs : is_empty outputs ≡ false
    pub nodes_sound : All (SoundNode repr) nodes
    pub edges_sound : All (SoundEdge repr nodes) edges
    pub acyclic :
        (s : String → Bool)
        → IsClosed (map (ends_of repr nodes) edges) s
        → any s (node_ids repr [] nodes) ≡ false
    pub outputs_sound : All (SoundOutput nodes) outputs

  output_errors_iff :
      (nodes outputs : List Fields)
      → (output_errors repr nodes outputs ≡ []) ↔ All (SoundOutput nodes) outputs
  unfolding output_errors
  output_errors_iff nodes [] = ground arith
  output_errors_iff nodes (output ∷ outputs) =
      both_iff _ _ _ _ (both_ways (report_if_iff _ _) (not-false_iff _))
        (output_errors_iff nodes outputs)

  ports_there :
      (from_port to_port : Option Fields)
      → ArePorts from_port to_port
      → ((f : Fields) × (from_port ≡ some f)) × ((t : Fields) × (to_port ≡ some t))
  ports_there none to_port h = absurd h
  ports_there (some f) none h = absurd h
  ports_there (some f) (some t) h = ((f, refl), (t, refl))

  -- The ends of an edge whose ports are there are nodes.
  SoundEdge-known :
      (nodes : List Fields) (edge : Fields)
      → SoundEdge repr nodes edge
      → is_known_edge repr nodes edge ≡ true
  SoundEdge-known nodes edge sound =
      let ((f, from_there), (t, to_there)) = ports_there _ _ sound in
      let source = find_port-is_node repr nodes _ "output_ports" _ from_there in
      let target = find_port-is_node repr nodes _ "input_ports" _ to_there in
      ground (arith, source, target)

  -- The five lists of errors in a row.
  five_iff :
      (a b c d e : List ValidationError)
      → (a ++ b ++ c ++ d ++ e ≡ []) ↔ ((a ≡ []) × (b ≡ []) × (c ≡ []) × (d ≡ []) × (e ≡ []))
  five_iff [] [] [] [] e = ground arith
  five_iff [] [] [] (x ∷ d) e = ground arith
  five_iff [] [] (x ∷ c) d e = ground arith
  five_iff [] (x ∷ b) c d e = ground arith
  five_iff (x ∷ a) b c d e = ground arith

  module _ (order : List Edge → String → List String) (is_order : IsSetOrder order)
      (digest : CanonicalGraph → String) where
    no_cycle_iff :
        (nodes edges : List Fields)
        → All (SoundEdge repr nodes) edges
        → (has_cycle
              (order (links_of repr nodes edges).graph_edges)
              (node_ids repr [] nodes)
              (links_of repr nodes edges).indegree
            ≡ false)
          ↔ ((s : String → Bool)
              → IsClosed (map (ends_of repr nodes) edges) s
              → any s (node_ids repr [] nodes) ≡ false)
    no_cycle_iff nodes edges sound =
        let found =
          links_of-has_cycle_iff repr nodes order is_order edges
            (All-imp _ _ edges (SoundEdge-known nodes) sound) in
        (
          λ none_found s closed. elim (Bool-cases (any s (node_ids repr [] nodes))) [
            | inr empty ↦ empty
            | inl inhabited ↦ absurd (false≢true (sym none_found ∙ found.1 (s, inhabited, closed)))
          ],
          λ acyclic.
              elim (Bool-cases (
                has_cycle (order (links_of repr nodes edges).graph_edges) (node_ids repr [] nodes)
                  (links_of repr nodes edges).indegree)) [
                    | inr none_found ↦ none_found
                    | inl cyclic ↦
                        let (s, inhabited, closed) = found.0 cyclic in
                        absurd (false≢true (sym (acyclic s closed) ∙ inhabited))
                  ],
        )

    graph_errors_iff :
        (nodes edges outputs : List Fields) {of_nodes : List ValidationError}
        → all_node_errors repr nodes ≡ ok of_nodes
        → (graph_errors repr digest order nodes edges outputs of_nodes ≡ [])
          ↔ IsSound nodes edges outputs
    unfolding graph_errors
    graph_errors_iff nodes edges outputs {of_nodes} made =
        let nodes_iff = all_node_errors_iff repr nodes made in
        let edges_iff = edge_errors_iff repr nodes 0 edges in
        let outputs_iff = output_errors_iff nodes outputs in
        let parts =
          five_iff _ of_nodes (edge_errors repr nodes 0 edges) _
            (output_errors repr nodes outputs) in
        (
          λ h.
              let (a, b, c, d, e) = parts.0 h in
              record {
                has_outputs = (report_if_iff _ _).0 a;
                nodes_sound = nodes_iff.0 b;
                edges_sound = edges_iff.0 c;
                acyclic = (no_cycle_iff nodes edges (edges_iff.0 c)).0 ((report_if_iff _ _).0 d);
                outputs_sound = outputs_iff.0 e;
              },
          λ sound. parts.1 (
            (report_if_iff _ _).1 sound.has_outputs,
            nodes_iff.1 sound.nodes_sound,
            edges_iff.1 sound.edges_sound,
            (report_if_iff _ _).1 ((no_cycle_iff nodes edges sound.edges_sound).1 sound.acyclic),
            outputs_iff.1 sound.outputs_sound,
          ),
        )

    deduplicate_iff :
        (errors : List ValidationError)
        → (is_empty (deduplicate_errors errors) ≡ true) ↔ (errors ≡ [])
    unfolding deduplicate_errors deduplicate_from
    deduplicate_iff [] = ground arith
    deduplicate_iff (e ∷ errors) = ground arith

    -- A graph that could be checked is valid exactly if it is sound.
    pub validate_strategy_graph-valid_iff :
        (graph : Fields) {result : ValidationResult}
        → validate_strategy_graph repr digest order graph ≡ ok result
        → (result.valid ≡ true)
          ↔ IsSound
              (mapping_list (get_or_null "nodes" graph))
              (mapping_list (get_or_null "edges" graph))
              (mapping_list (get_or_null "outputs" graph))
    unfolding validate_strategy_graph
    validate_strategy_graph-valid_iff graph {result} h =
        let (of_nodes, later, made) =
          bind-returned (all_node_errors repr (mapping_list (get_or_null "nodes" graph))) _ h in
        let e : is_empty (
              deduplicate_errors (
                graph_errors repr digest order (mapping_list (get_or_null "nodes" graph))
                  (mapping_list (get_or_null "edges" graph))
                  (mapping_list (get_or_null "outputs" graph)) of_nodes))
            ≡ result.valid =
          cc in
        let nothing = both_ways (deduplicate_iff _) (graph_errors_iff _ _ _ made) in
        (λ valid. nothing.0 (e ∙ valid), λ sound. sym e ∙ nothing.1 sound)
