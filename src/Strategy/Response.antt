-- ===== src/Strategy/Response.antt =====
-- packages/shared/goodmoneying_shared/strategy_graph.py: StrategyValidationResult.to_api.
use Prim.Native.String.{String}
use goodmoneying.Prelude.{ℕ, Option, none, some, List, [], ◌∷◌}
use goodmoneying.Prelude.Int.{pos}
use goodmoneying.Prelude.Json.{
  Json, null, boolean, integer, string, array, object, Items, nil, cons, Fields, end, field,
}
use goodmoneying.Strategy.{
  ValidationCode, cycle_detected, port_type_mismatch, timeframe_incompatible, look_ahead_detected,
  parameter_out_of_range, missing_data_policy_required, insufficient_warmup, missing_output,
  ValidationError, ValidationResult,
}

abbrev code_text : ValidationCode → String
code_text cycle_detected = "cycle_detected"
code_text port_type_mismatch = "port_type_mismatch"
code_text timeframe_incompatible = "timeframe_incompatible"
code_text look_ahead_detected = "look_ahead_detected"
code_text parameter_out_of_range = "parameter_out_of_range"
code_text missing_data_policy_required = "missing_data_policy_required"
code_text insufficient_warmup = "insufficient_warmup"
code_text missing_output = "missing_output"

abbrev text_or_null : Option String → Json
text_or_null none = null
text_or_null (some s) = string s

abbrev index_or_null : Option ℕ → Json
index_or_null none = null
index_or_null (some n) = integer (pos n)

abbrev error_to_api : ValidationError → Json
error_to_api e = object (
    field "code" (string (code_text e.code)) (
      field "nodeId" (text_or_null e.node_id)
        (field "edgeIndex" (index_or_null e.edge_index) (field "message" (string e.message) end))))

abbrev errors_to_api : List ValidationError → Items
errors_to_api [] = nil
errors_to_api (e ∷ errors) = cons (error_to_api e) (errors_to_api errors)

unfoldable pub to_api : ValidationResult → Fields
to_api result = field "valid" (boolean result.valid) (
    field "errors" (array (errors_to_api result.errors))
      (field "graphHash" (string result.graph_hash) end))
