-- ===== src/Strategy/Validate.antt =====
-- packages/shared/goodmoneying_shared/strategy_graph.py: `validate_strategy_graph`. The digest of
-- the canonical graph and the order of a set are arguments.
use Prim.Native.String.{String}
use text.Mathlib.Text.{◌==◌ as str_eq}
use goodmoneying.Prelude.{
  is_some, is_empty, ℕ, Bool, true, false, not, ◌&&◌, Option, none, some, List, [], ◌∷◌, ◌++◌, any,
  ◌==◌,
}
use goodmoneying.Prelude.Results.{Result, ok, ◌>>=◌}
use goodmoneying.Prelude.Json.{Json, Fields, get, get_or_null, str}
use goodmoneying.Strategy.{
  ValidationCode, cycle_detected, port_type_mismatch, timeframe_incompatible, look_ahead_detected,
  parameter_out_of_range, missing_data_policy_required, insufficient_warmup, missing_output,
  ValidationError, ValidationResult, graph_error, report_if, mapping_list, find_port, text_of,
  node_at, node_ids,
}
use goodmoneying.Strategy.Nodes.{Unhashable, all_node_errors}
use goodmoneying.Strategy.Edges.{Links, edge_errors, build_links}
use goodmoneying.Strategy.Cycle.{has_cycle}
use goodmoneying.Strategy.Hash.{CanonicalGraph, canonical_strategy_graph_hash}

abbrev pub code_number : ValidationCode → ℕ
code_number cycle_detected = 0
code_number port_type_mismatch = 1
code_number timeframe_incompatible = 2
code_number look_ahead_detected = 3
code_number parameter_out_of_range = 4
code_number missing_data_policy_required = 5
code_number insufficient_warmup = 6
code_number missing_output = 7

abbrev pub same_id : Option String → Option String → Bool
same_id none none = true
same_id (some a) (some b) = str_eq a b
same_id _ _ = false

abbrev pub same_index : Option ℕ → Option ℕ → Bool
same_index none none = true
same_index (some a) (some b) = a == b
same_index _ _ = false

-- The keys of two errors agree; their messages may differ.
abbrev pub same_key : ValidationError → ValidationError → Bool
same_key a b =
    (code_number a.code == code_number b.code)
    && same_id a.node_id b.node_id
    && same_index a.edge_index b.edge_index

-- `seen` are the errors kept so far. Every code is a valid one.
unfoldable pub deduplicate_from : List ValidationError → List ValidationError → List ValidationError
deduplicate_from seen [] = []
deduplicate_from seen (e ∷ errors) = elim (any (same_key e) seen) [
  | true ↦ deduplicate_from seen errors
  | false ↦ e ∷ deduplicate_from (e ∷ seen) errors
]

unfoldable pub deduplicate_errors : List ValidationError → List ValidationError
unfolding deduplicate_from
deduplicate_errors errors = deduplicate_from [] errors

-- `node_id or None`
abbrev pub id_or_none : String → Option String
id_or_none String.[] = none
id_or_none id = some id

module _ (repr : Json → String) where
  unfoldable pub output_errors : List Fields → List Fields → List ValidationError
  unfolding str get find_port node_at
  output_errors nodes [] = []
  output_errors nodes (output ∷ outputs) =
      let id = text_of repr "node" output in
      report_if
        (not
          (is_some (find_port (node_at repr nodes id) "output_ports" (get_or_null "port" output))))
        (record {
          code = missing_output;
          node_id = id_or_none id;
          edge_index = none;
          message = "출력이 존재하지 않는 node 또는 port를 참조한다.";
        })
      ++ output_errors nodes outputs

  unfoldable pub links_of : List Fields → List Fields → Links
  unfolding build_links
  links_of nodes edges =
      build_links repr nodes edges (record { graph_edges = []; indegree = λ _. 0 })

  module _ (digest : CanonicalGraph → String)
      (set_order : List (String × String) → String → List String) where
    unfoldable pub graph_errors :
        List Fields → List Fields → List Fields → List ValidationError → List ValidationError
    unfolding links_of edge_errors has_cycle node_ids output_errors
    graph_errors nodes edges outputs of_nodes =
        let links = links_of nodes edges in
        report_if (is_empty outputs) (graph_error missing_output "전략 그래프는 하나 이상의 실행 출력을 가져야 한다.")
        ++ of_nodes
        ++ edge_errors repr nodes 0 edges
        ++ report_if
            (has_cycle (set_order links.graph_edges) (node_ids repr [] nodes) links.indegree)
            (graph_error cycle_detected "전략 그래프는 순환을 가질 수 없다.")
        ++ output_errors nodes outputs

    unfoldable pub validate_strategy_graph : Fields → Result Unhashable ValidationResult
    unfolding graph_errors deduplicate_errors all_node_errors canonical_strategy_graph_hash
        mapping_list get
    validate_strategy_graph graph =
        let nodes = mapping_list (get_or_null "nodes" graph) in
        let edges = mapping_list (get_or_null "edges" graph) in
        let outputs = mapping_list (get_or_null "outputs" graph) in
        all_node_errors repr nodes >>= λ of_nodes.
        let stable_errors = deduplicate_errors (graph_errors nodes edges outputs of_nodes) in
        ok (record {
          valid = is_empty stable_errors;
          errors = stable_errors;
          graph_hash = canonical_strategy_graph_hash repr digest graph;
        })
