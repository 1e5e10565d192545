-- ===== src/Strategy/Tests.antt =====
-- Runs of the validation of strategy graphs, and what the theorems say of them.
use Prim.Native.String.{String}
use mathlib.Core.List.Permᴰ
use mathlib.Core.List.{Memᴰ, Permᴰ}
use text.Mathlib.Text.{◌==◌ as str_eq}
use goodmoneying.Prelude.{
  Bool, true, false, ◌≡◌, ◌↔◌, refl, sym, ◌∙◌, List, [], ◌∷◌, any, count, keep, map, arith,
}
use goodmoneying.Prelude.Int.{pos}
use goodmoneying.Prelude.Results.{ok}
use goodmoneying.Prelude.Json.{
  Json, null, boolean, integer, string, array, object, nil, cons, Fields, end, field, get,
  get_or_null, objects, json_eq, str,
}
use goodmoneying.Prelude.Order.{IsKeyed, sort_by_texts, str_lt, texts_lt}
use goodmoneying.Prelude.Sort.{sort_with, insert_with}
use goodmoneying.RateLimit.Keyed.{set}
use goodmoneying.Strategy.{
  ValidationResult, cycle_detected, graph_error, mapping, mapping_list, int_config,
  has_positive_lookahead, find_port, node_id_of, node_at, node_ids,
}
use goodmoneying.Strategy.Nodes.{
  not_in_policies, lacks_policy, sma_errors, threshold_errors, setting_errors, node_errors,
  all_node_errors,
}
use goodmoneying.Strategy.Edges.{port_errors, link, edge_errors, build_links}
use goodmoneying.Strategy.Edges.Graph.{IsSetOrder, links_of-IsGraph}
use goodmoneying.Strategy.Cycle.{release, drain, visit_all, has_cycle}
use goodmoneying.Strategy.Cycle.Kahn.{Edge, IsClosed, visit_all-ends, has_cycle_iff}
use goodmoneying.Strategy.Hash.{
  CanonicalGraph, canonical_graph, canonical_node, canonical_strategy_graph_hash, node_key,
  IsReordered, canonical_strategy_graph_hash-reordered,
}
use goodmoneying.Strategy.Validate.{
  same_key, deduplicate_from, deduplicate_errors, output_errors, links_of, graph_errors,
  validate_strategy_graph,
}
use goodmoneying.Strategy.Valid.{IsSound, validate_strategy_graph-valid_iff}
use goodmoneying.Strategy.Response.{to_api}
use goodmoneying.Strategy.Errors.{deduplicate_errors-once}

abbrev no_repr : Json → String
no_repr v = "?"

abbrev digest : CanonicalGraph → String
digest g = g.schema_version

-- Sets in the order in which their elements came.
abbrev by_insertion : List Edge → String → List String
by_insertion edges u = map (λ e. e.1) (keep (λ e. str_eq e.0 u) edges)

by_insertion-IsSetOrder : IsSetOrder by_insertion
by_insertion-IsSetOrder [] u v = refl
by_insertion-IsSetOrder (e ∷ edges) u v = ground (arith, by_insertion-IsSetOrder edges u v)

abbrev port : String → Json
port name = object (field "name" (string name) (field "dataType" (string "number") end))

abbrev candles : Json
candles = object (
    field "id" (string "candles") (
      field "type" (string "dataset.candles") (
        field "config" (object (field "missingDataPolicy" (string "drop") end))
          (field "output_ports" (array (cons (port "close") nil)) end))))

abbrev average : Json
average = object (
    field "id" (string "average") (
      field "type" (string "indicator.sma") (
        field "config"
          (object (
            field "windowPeriods" (integer (pos 20))
              (field "warmupPeriods" (integer (pos 20)) end)))
          (field "input_ports" (array (cons (port "in") nil))
            (field "output_ports" (array (cons (port "out") nil)) end)))))

abbrev to_average : Json
to_average = object (
    field "from_node" (string "candles") (
      field "from_port" (string "close")
        (field "to_node" (string "average") (field "to_port" (string "in") end))))

abbrev of_average : Json
of_average = object (field "node" (string "average") (field "port" (string "out") end))

abbrev with_nodes : Json → Json → Fields
with_nodes first second = field "schema_version" (string "1") (
    field "nodes" (array (cons first (cons second nil))) (
      field "edges" (array (cons to_average nil))
        (field "outputs" (array (cons of_average nil)) end)))

abbrev graph : Fields
graph = with_nodes candles average

abbrev accepted : ValidationResult
accepted = record { valid = true; errors = []; graph_hash = "1" }

graph-accepted : validate_strategy_graph no_repr digest by_insertion graph ≡ ok accepted
unfolding validate_strategy_graph graph_errors all_node_errors node_errors lacks_policy
    not_in_policies setting_errors sma_errors threshold_errors has_positive_lookahead int_config
    mapping mapping_list objects get edge_errors port_errors find_port json_eq node_at node_id_of
    node_ids links_of build_links link set has_cycle visit_all drain release output_errors
    deduplicate_errors deduplicate_from canonical_strategy_graph_hash canonical_graph sort_by_texts
    sort_with insert_with texts_lt str_lt str
graph-accepted = refl

validate_strategy_graph-valid_iff_example :
    (true ≡ true)
    ↔ IsSound no_repr
        (mapping_list (get_or_null "nodes" graph))
        (mapping_list (get_or_null "edges" graph))
        (mapping_list (get_or_null "outputs" graph))
validate_strategy_graph-valid_iff_example =
    validate_strategy_graph-valid_iff no_repr by_insertion by_insertion-IsSetOrder digest graph
      {result = accepted} graph-accepted

abbrev back : Json
back = object (
    field "from_node" (string "average") (
      field "from_port" (string "out")
        (field "to_node" (string "candles") (field "to_port" (string "in") end))))

abbrev two_nodes : List Fields
two_nodes = mapping candles ∷ mapping average ∷ []

has_cycle_iff_example :
    (has_cycle
        (by_insertion
          (links_of no_repr two_nodes (mapping to_average ∷ mapping back ∷ [])).graph_edges)
        (node_ids no_repr [] two_nodes)
        (links_of no_repr two_nodes (mapping to_average ∷ mapping back ∷ [])).indegree
      ≡ true)
    ↔ ((s : String → Bool) × (any s (node_ids no_repr [] two_nodes) ≡ true)
        × IsClosed
            (links_of no_repr two_nodes (mapping to_average ∷ mapping back ∷ [])).graph_edges
            s)
unfolding mapping
has_cycle_iff_example = has_cycle_iff (
    links_of-IsGraph no_repr two_nodes by_insertion by_insertion-IsSetOrder
      (mapping to_average ∷ mapping back ∷ []))

there_and_back :
    has_cycle
      (by_insertion
        (links_of no_repr two_nodes (mapping to_average ∷ mapping back ∷ [])).graph_edges)
      (node_ids no_repr [] two_nodes)
      (links_of no_repr two_nodes (mapping to_average ∷ mapping back ∷ [])).indegree
    ≡ true
unfolding mapping has_cycle visit_all drain release links_of build_links link set node_ids
    node_id_of node_at str get
there_and_back = refl

nothing_ready :
    (visit_all
      (by_insertion (links_of no_repr two_nodes (mapping to_average ∷ [])).graph_edges)
      (node_ids no_repr [] two_nodes)
      (links_of no_repr two_nodes (mapping to_average ∷ [])).indegree).1
    ≡ []
nothing_ready = visit_all-ends (
    links_of-IsGraph no_repr two_nodes by_insertion by_insertion-IsSetOrder
      (mapping to_average ∷ []))

reported_once :
    count
      (same_key (graph_error cycle_detected "a"))
      (deduplicate_errors (graph_error cycle_detected "a" ∷ graph_error cycle_detected "b" ∷ []))
    ≡ 1
reported_once =
    deduplicate_errors-once (graph_error cycle_detected "a")
      (graph_error cycle_detected "a" ∷ graph_error cycle_detected "b" ∷ [])

abbrev with_edges : Json → Json → Fields
with_edges first second =
    field "nodes" (array (cons average nil))
      (field "edges" (array (cons first (cons second nil))) end)

single-IsKeyed :
    IsKeyed node_key (
      map
        (canonical_node no_repr)
        (mapping_list (get_or_null "nodes" (with_edges to_average back))))
unfolding mapping_list objects get
single-IsKeyed a b (Memᴰ.head e) (Memᴰ.head e') same = e ∙ sym e'
single-IsKeyed a b (Memᴰ.head e) (Memᴰ.tail m) same = elim m [ ]
single-IsKeyed a b (Memᴰ.tail m) n same = elim m [ ]

edges_swapped : IsReordered no_repr (with_edges to_average back) (with_edges back to_average)
unfolding mapping_list objects get
edges_swapped = record {
  same_version = refl;
  nodes_permuted = Permᴰ.refl _;
  edges_permuted = Permᴰ.swap refl refl;
  outputs_permuted = Permᴰ.nil;
}

canonical_strategy_graph_hash-reordered_example :
    canonical_strategy_graph_hash no_repr digest (with_edges to_average back)
    ≡ canonical_strategy_graph_hash no_repr digest (with_edges back to_average)
canonical_strategy_graph_hash-reordered_example =
    canonical_strategy_graph_hash-reordered no_repr digest (with_edges to_average back)
      (with_edges back to_average) single-IsKeyed edges_swapped

one_error_answered :
    to_api
      (record { valid = false; errors = graph_error cycle_detected "a" ∷ []; graph_hash = "h" })
    ≡ field "valid" (boolean false) (
        field "errors"
          (array (
            cons
              (object (
                field "code" (string "cycle_detected") (
                  field "nodeId" null (field "edgeIndex" null (field "message" (string "a") end)))))
              nil))
          (field "graphHash" (string "h") end))
unfolding to_api
one_error_answered = refl
