-- ===== src/Strategy/Hash.antt =====
-- packages/shared/goodmoneying_shared/strategy_graph.py: the canonical form of a graph, whose JSON is
-- hashed. JSON values are canonical themselves: their keys are texts and they hold no decimals.
use Prim.Native.String.{String}
use mathlib.Core.List.Permᴰ
use mathlib.Core.List.{Permᴰ}
use goodmoneying.Prelude.{◌≡◌, Option, none, some, List, [], ◌∷◌, map}
use goodmoneying.Prelude.Json.{
  Json, null, string, object, Fields, end, get, get_or_null, or_default, str,
}
use goodmoneying.Prelude.Order.{IsKeyed, sort_by_texts, sort_by_texts-Permᴰ}
use goodmoneying.Strategy.{mapping_list, text_of}

pub record CanonicalPort : Type 0 where
  pub name : String
  pub data_type : String
  pub timeframe : Option String

pub record CanonicalNode : Type 0 where
  pub id : String
  pub node_type : String
  pub config : Json
  pub input_ports : List CanonicalPort
  pub output_ports : List CanonicalPort

pub record CanonicalEdge : Type 0 where
  pub from_node : String
  pub from_port : String
  pub to_node : String
  pub to_port : String

pub record CanonicalOutput : Type 0 where
  pub node : String
  pub port : String

pub record CanonicalGraph : Type 0 where
  pub schema_version : String
  pub nodes : List CanonicalNode
  pub edges : List CanonicalEdge
  pub outputs : List CanonicalOutput

abbrev pub node_key : CanonicalNode → List String
node_key node = node.id ∷ node.node_type ∷ []

abbrev pub edge_key : CanonicalEdge → List String
edge_key edge = edge.from_node ∷ edge.from_port ∷ edge.to_node ∷ edge.to_port ∷ []

abbrev pub output_key : CanonicalOutput → List String
output_key output = output.node ∷ output.port ∷ []

-- An edge and an output are their keys.
edge_key-injective : (a b : CanonicalEdge) → edge_key a ≡ edge_key b → a ≡ b
edge_key-injective a b same =
    let from_node : a.from_node ≡ b.from_node = cc in
    let from_port : a.from_port ≡ b.from_port = cc in
    let to_node : a.to_node ≡ b.to_node = cc in
    let to_port : a.to_port ≡ b.to_port = cc in
    λ i. record {
      from_node = from_node i;
      from_port = from_port i;
      to_node = to_node i;
      to_port = to_port i;
    }

output_key-injective : (a b : CanonicalOutput) → output_key a ≡ output_key b → a ≡ b
output_key-injective a b same =
    let node : a.node ≡ b.node = cc in
    let port : a.port ≡ b.port = cc in λ i. record { node = node i; port = port i }

module _ (repr : Json → String) where
  -- `None if timeframe is None else str(timeframe)`
  abbrev timeframe_of : Json → Option String
  timeframe_of null = none
  timeframe_of value = some (str repr value)

  abbrev pub canonical_port : Fields → CanonicalPort
  canonical_port port = record {
    name = text_of repr "name" port;
    data_type = text_of repr "dataType" port;
    timeframe = timeframe_of (get_or_null "timeframe" port);
  }

  abbrev pub canonical_ports : String → Fields → List CanonicalPort
  canonical_ports port_key node =
      sort_by_texts (λ port. port.name ∷ [])
        (map canonical_port (mapping_list (get_or_null port_key node)))

  abbrev pub canonical_node : Fields → CanonicalNode
  canonical_node node = record {
    id = text_of repr "id" node;
    node_type = text_of repr "type" node;
    config = or_default (object end) (get "config" node);
    input_ports = canonical_ports "input_ports" node;
    output_ports = canonical_ports "output_ports" node;
  }

  abbrev pub canonical_edge : Fields → CanonicalEdge
  canonical_edge edge = record {
    from_node = text_of repr "from_node" edge;
    from_port = text_of repr "from_port" edge;
    to_node = text_of repr "to_node" edge;
    to_port = text_of repr "to_port" edge;
  }

  abbrev pub canonical_output : Fields → CanonicalOutput
  canonical_output output = record {
    node = text_of repr "node" output;
    port = text_of repr "port" output;
  }

  -- `str(graph.get("schema_version", graph.get("schemaVersion", "")))`
  abbrev pub schema_version_of : Fields → String
  schema_version_of graph =
      str repr (
        or_default (or_default (string "") (get "schemaVersion" graph))
          (get "schema_version" graph))

  unfoldable pub canonical_graph : Fields → CanonicalGraph
  unfolding sort_by_texts mapping_list get str
  canonical_graph graph = record {
    schema_version = schema_version_of graph;
    nodes = sort_by_texts node_key (map canonical_node (mapping_list (get_or_null "nodes" graph)));
    edges = sort_by_texts edge_key (map canonical_edge (mapping_list (get_or_null "edges" graph)));
    outputs =
        sort_by_texts output_key
          (map canonical_output (mapping_list (get_or_null "outputs" graph)));
  }

  -- The SHA-256 of the graph's JSON with sorted keys is an argument.
  unfoldable pub canonical_strategy_graph_hash : (CanonicalGraph → String) → Fields → String
  unfolding canonical_graph
  canonical_strategy_graph_hash digest graph = digest (canonical_graph graph)

  -- What graphs have in common that differ in the order of their parts only.
  pub record IsReordered (g h : Fields) : Type 0 where
    pub same_version : schema_version_of g ≡ schema_version_of h
    pub nodes_permuted :
        Permᴰ (mapping_list (get_or_null "nodes" g)) (mapping_list (get_or_null "nodes" h))
    pub edges_permuted :
        Permᴰ (mapping_list (get_or_null "edges" g)) (mapping_list (get_or_null "edges" h))
    pub outputs_permuted :
        Permᴰ (mapping_list (get_or_null "outputs" g)) (mapping_list (get_or_null "outputs" h))

  -- If nodes with one id and type are the same, the hash does not see the order of nodes, edges and outputs.
  pub canonical_strategy_graph_hash-reordered :
      (digest : CanonicalGraph → String) (g h : Fields)
      → IsKeyed node_key (map canonical_node (mapping_list (get_or_null "nodes" g)))
      → IsReordered g h
      → canonical_strategy_graph_hash digest g ≡ canonical_strategy_graph_hash digest h
  unfolding canonical_strategy_graph_hash canonical_graph
  canonical_strategy_graph_hash-reordered digest g h keyed reordered =
      let nodes =
        sort_by_texts-Permᴰ node_key keyed (Permᴰ.map canonical_node reordered.nodes_permuted) in
      let edges =
        sort_by_texts-Permᴰ edge_key (λ a b _ _. edge_key-injective a b)
          (Permᴰ.map canonical_edge reordered.edges_permuted) in
      let outputs =
        sort_by_texts-Permᴰ output_key (λ a b _ _. output_key-injective a b)
          (Permᴰ.map canonical_output reordered.outputs_permuted) in
      λ i. digest (record {
        schema_version = reordered.same_version i;
        nodes = nodes i;
        edges = edges i;
        outputs = outputs i;
      })
