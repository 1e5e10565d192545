-- ===== src/Strategy/Edges.antt =====
-- packages/shared/goodmoneying_shared/strategy_graph.py: the loop of `validate_strategy_graph` over the
-- edges, and the graph that it builds for `_has_cycle`.
pub mod Built
pub mod Graph
use Prim.Native.Nat.{◌+◌}
use Prim.Native.String.{String}
use text.Mathlib.Text.{◌==◌ as str_eq}
use goodmoneying.Prelude.{
  is_some, ℕ, suc, Bool, true, false, not, ◌&&◌, Option, none, some, List, [], ◌∷◌, ◌++◌, any,
  if◌then◌else◌,
}
use goodmoneying.Prelude.Json.{Json, null, Fields, get, get_or_null, json_eq, str}
use goodmoneying.RateLimit.Keyed.{set}
use goodmoneying.Strategy.{
  ValidationError, port_type_mismatch, timeframe_incompatible, edge_error, report_if, find_port,
  text_of, node_at,
}
use goodmoneying.Strategy.Cycle.Kahn.{Edge}

abbrev pub is_null : Json → Bool
is_null null = true
is_null _ = false

-- Both timeframes are set, and they differ.
abbrev pub is_incompatible : Json → Json → Bool
is_incompatible from_timeframe to_timeframe =
    not (is_null from_timeframe)
    && not (is_null to_timeframe)
    && not (json_eq from_timeframe to_timeframe)

-- The errors of an edge whose ports were looked up.
unfoldable pub port_errors : ℕ → Option Fields → Option Fields → List ValidationError
unfolding json_eq get
port_errors index (some from_port) (some to_port) =
    report_if (not (json_eq (get_or_null "dataType" from_port) (get_or_null "dataType" to_port)))
      (edge_error port_type_mismatch index "edge 양끝의 자료형이 다르다.")
    ++ report_if
        (is_incompatible (get_or_null "timeframe" from_port) (get_or_null "timeframe" to_port))
        (edge_error timeframe_incompatible index "edge 양끝의 시간 주기가 다르다.")
port_errors index _ _ = edge_error port_type_mismatch index "edge가 존재하지 않는 port를 참조한다." ∷ []

-- `graph_edges` as the list of its pairs, and `indegree`.
pub record Links : Type 0 where
  pub graph_edges : List Edge
  pub indegree : String → ℕ

abbrev pub same_edge : Edge → Edge → Bool
same_edge a b = str_eq a.0 b.0 && str_eq a.1 b.1

-- An edge between two nodes is entered once.
unfoldable pub link : Bool → Edge → Links → Links
unfolding set
link both_known edge links =
    if both_known && not (any (same_edge edge) links.graph_edges)
    then record {
      graph_edges = links.graph_edges ++ edge ∷ [];
      indegree = set edge.1 (links.indegree edge.1 + 1) links.indegree;
    }
    else links

module _ (repr : Json → String) (nodes : List Fields) where
  abbrev pub ends_of : Fields → Edge
  ends_of edge = (text_of repr "from_node" edge, text_of repr "to_node" edge)

  abbrev pub from_port_of : Fields → Option Fields
  from_port_of edge =
      find_port (node_at repr nodes (ends_of edge).0) "output_ports" (get_or_null "from_port" edge)

  abbrev pub to_port_of : Fields → Option Fields
  to_port_of edge =
      find_port (node_at repr nodes (ends_of edge).1) "input_ports" (get_or_null "to_port" edge)

  unfoldable pub edge_errors : ℕ → List Fields → List ValidationError
  unfolding port_errors str get find_port node_at
  edge_errors index [] = []
  edge_errors index (edge ∷ edges) =
      port_errors index (from_port_of edge) (to_port_of edge) ++ edge_errors (suc index) edges

  abbrev pub is_node : String → Bool
  is_node id = is_some (node_at repr nodes id)

  unfoldable pub build_links : List Fields → Links → Links
  unfolding link str get node_at
  build_links [] links = links
  build_links (edge ∷ edges) links =
      build_links edges
        (link (is_node (ends_of edge).0 && is_node (ends_of edge).1) (ends_of edge) links)
