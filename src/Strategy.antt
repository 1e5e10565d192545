-- ===== src/Strategy.antt =====
-- packages/shared/goodmoneying_shared/strategy_graph.py: what the validation of a strategy graph reads
-- of its nodes, ports and settings, and the errors that it reports. A graph is a JSON object.
pub mod Cycle
pub mod Nodes
pub mod Edges
pub mod Keys
pub mod Validate
pub mod Sound
pub mod Valid
pub mod Hash
pub mod Errors
pub mod Response
mod Tests
use Prim.Native.Nat.{◌+◌}
use Prim.Native.String.{String}
use text.Mathlib.Text.{◌==◌ as str_eq, starts_with}
use goodmoneying.Prelude.{
  is_some, ℕ, suc, Bool, true, false, not, ◌&&◌, ◌||◌, Option, none, some, List, [], ◌∷◌, ◌++◌, any,
  find, leb, ◌==◌, if◌then◌else◌,
}
use goodmoneying.Prelude.Int.{ℤ, pos, negsuc, ltb_ℤ}
use goodmoneying.Prelude.Results.{Result, ok, err}
use goodmoneying.Prelude.Json.{
  Json, null, boolean, integer, float, string, array, object, Fields, end, get, get_or_null,
  objects, or_default, json_eq, str,
}
use goodmoneying.Prelude.DecimalText.{parse_decimal}

pub data ValidationCode : Type 0 where
  cycle_detected port_type_mismatch timeframe_incompatible look_ahead_detected : ValidationCode
  parameter_out_of_range missing_data_policy_required insufficient_warmup : ValidationCode
  missing_output : ValidationCode

pub record ValidationError : Type 0 where
  pub code : ValidationCode
  pub node_id : Option String
  pub edge_index : Option ℕ
  pub message : String

pub record ValidationResult : Type 0 where
  pub valid : Bool
  pub errors : List ValidationError
  pub graph_hash : String

abbrev pub graph_error : ValidationCode → String → ValidationError
graph_error c text_ = record { code = c; node_id = none; edge_index = none; message = text_ }

abbrev pub node_error : ValidationCode → String → String → ValidationError
node_error c id text_ = record { code = c; node_id = some id; edge_index = none; message = text_ }

abbrev pub edge_error : ValidationCode → ℕ → String → ValidationError
edge_error c index text_ = record {
  code = c;
  node_id = none;
  edge_index = some index;
  message = text_;
}

-- `if b: errors.append(e)`
abbrev pub report_if : Bool → ValidationError → List ValidationError
report_if true e = e ∷ []
report_if false e = []

unfoldable pub mapping : Json → Fields
mapping (object fs) = fs
mapping _ = end

unfoldable pub mapping_list : Json → List Fields
unfolding objects
mapping_list (array xs) = objects xs
mapping_list _ = []

unfoldable pub int_config : Fields → String → Option ℤ
unfolding get
int_config config key = elim (get_or_null key config) [ integer i ↦ some i | _ ↦ none ]

abbrev pub is_positive : Option ℤ → Bool
is_positive none = false
is_positive (some i) = ltb_ℤ (pos 0) i

abbrev pub is_negative : Option ℤ → Bool
is_negative none = false
is_negative (some i) = ltb_ℤ i (pos 0)

unfoldable pub has_positive_lookahead : Fields → Bool
unfolding int_config
has_positive_lookahead config =
    is_positive (int_config config "lookAheadPeriods")
    || is_positive (int_config config "futureOffsetPeriods")
    || is_negative (int_config config "offsetPeriods")

unfoldable pub is_decimal_string_or_number : Json → Bool
unfolding parse_decimal
is_decimal_string_or_number (boolean _) = false
is_decimal_string_or_number (integer _) = true
is_decimal_string_or_number (float _) = true
is_decimal_string_or_number (string s) = is_some (parse_decimal s)
is_decimal_string_or_number _ = false

unfoldable pub find_port : Option Fields → String → Json → Option Fields
unfolding mapping_list get json_eq
find_port none port_key port_name = none
find_port (some node) port_key port_name =
    find (λ port. json_eq (get_or_null "name" port) port_name)
      (mapping_list (get_or_null port_key node))

module _ (repr : Json → String) where
  -- `str(value.get(key, ""))`
  abbrev pub text_of : String → Fields → String
  text_of key fs = str repr (or_default (string "") (get key fs))

  -- The key of a node in `nodes_by_id`, if it gets one.
  unfoldable pub node_id_of : Fields → Option String
  unfolding str get
  node_id_of node = elim (get_or_null "id" node) [ null ↦ none | v ↦ some (str repr v) ]

  abbrev pub has_id : String → Fields → Bool
  has_id id node = elim (node_id_of node) [ none ↦ false | some i ↦ str_eq i id ]

  -- `nodes_by_id.get(id)`: the last node with the id.
  unfoldable pub node_at : List Fields → String → Option Fields
  node_at [] id = none
  node_at (node ∷ nodes) id = elim (node_at nodes id) [
    | some later ↦ some later
    | none ↦ if has_id id node then some node else none
  ]

  -- The keys of `nodes_by_id`, in the order in which they come first.
  unfoldable pub node_ids : List String → List Fields → List String
  node_ids seen [] = []
  node_ids seen (node ∷ nodes) = elim (node_id_of node) [
    | none ↦ node_ids seen nodes
    | some id ↦ elim (any (str_eq id) seen) [
      | true ↦ node_ids seen nodes
      | false ↦ id ∷ node_ids (id ∷ seen) nodes
    ]
  ]
