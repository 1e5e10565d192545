-- ===== src/Strategy/Nodes.antt =====
-- packages/shared/goodmoneying_shared/strategy_graph.py: the loop of `validate_strategy_graph` over the
-- nodes.
use Prim.Native.String.{String}
use text.Mathlib.Text.{◌==◌ as str_eq, starts_with}
use goodmoneying.Prelude.{
  Bool, true, false, not, ◌||◌, Option, none, some, List, [], ◌∷◌, ◌++◌, any, if◌then◌else◌,
}
use goodmoneying.Prelude.Int.{ℤ, pos, ltb_ℤ}
use goodmoneying.Prelude.Results.{Result, ok, err, ◌>>=◌}
use goodmoneying.Prelude.Json.{Json, null, string, array, object, Fields, get, get_or_null, str}
use goodmoneying.Strategy.{
  ValidationError, missing_data_policy_required, look_ahead_detected, parameter_out_of_range,
  insufficient_warmup, node_error, report_if, mapping, int_config, has_positive_lookahead,
  is_decimal_string_or_number, text_of,
}

-- `TypeError`: a list or a dictionary is looked up in a set.
pub data Unhashable : Type 0 where
  unhashable : Unhashable

abbrev pub missing_data_policies : List String
missing_data_policies = "fail" ∷ "null" ∷ "drop" ∷ []

-- `value not in _MISSING_DATA_POLICIES`
unfoldable pub not_in_policies : Json → Result Unhashable Bool
not_in_policies (array _) = err unhashable
not_in_policies (object _) = err unhashable
not_in_policies (string s) = ok (not (any (str_eq s) missing_data_policies))
not_in_policies _ = ok true

unfoldable pub lacks_policy : String → Fields → Result Unhashable Bool
unfolding not_in_policies get
lacks_policy node_type config =
    if starts_with node_type "dataset."
    then not_in_policies (get_or_null "missingDataPolicy" config)
    else ok false

abbrev pub is_out_of_range : Option ℤ → Bool
is_out_of_range none = true
is_out_of_range (some window) = ltb_ℤ window (pos 1) || ltb_ℤ (pos 10000) window

abbrev pub is_below : Option ℤ → Option ℤ → Bool
is_below (some warmup) (some window) = ltb_ℤ warmup window
is_below _ _ = false

unfoldable pub sma_errors : String → Fields → List ValidationError
unfolding int_config
sma_errors node_id config =
    let window = int_config config "windowPeriods" in
    let warmup = int_config config "warmupPeriods" in
    report_if (is_out_of_range window)
      (node_error parameter_out_of_range node_id "SMA windowPeriods는 1 이상 10000 이하여야 한다.")
    ++ report_if (is_below warmup window)
        (node_error insufficient_warmup node_id "warmupPeriods는 windowPeriods 이상이어야 한다.")

abbrev pub is_bad_threshold : Json → Bool
is_bad_threshold null = false
is_bad_threshold threshold = not (is_decimal_string_or_number threshold)

unfoldable pub threshold_errors : String → Fields → List ValidationError
unfolding is_decimal_string_or_number get
threshold_errors node_id config =
    report_if (is_bad_threshold (get_or_null "threshold" config))
      (node_error parameter_out_of_range node_id "비교 임계값은 decimal 문자열 또는 숫자여야 한다.")

-- The errors of a node, once its policy has been looked up.
unfoldable pub setting_errors : String → String → Fields → Bool → List ValidationError
unfolding has_positive_lookahead sma_errors threshold_errors
setting_errors node_id node_type config lacking =
    report_if lacking
      (node_error missing_data_policy_required node_id "dataset 입력 노드는 결측 정책을 명시해야 한다.")
    ++ report_if (has_positive_lookahead config)
        (node_error look_ahead_detected node_id "미래 값을 참조하는 look-ahead 설정은 허용하지 않는다.")
    ++ (if str_eq node_type "indicator.sma" then sma_errors node_id config else [])
    ++ (if str_eq node_type "condition.greater_than" then threshold_errors node_id config else [])

module _ (repr : Json → String) where
  unfoldable pub node_errors : Fields → Result Unhashable (List ValidationError)
  unfolding lacks_policy setting_errors mapping get str
  node_errors node =
      let node_type = text_of repr "type" node in
      let config = mapping (get_or_null "config" node) in
      lacks_policy node_type config >>= λ lacking.
      ok (setting_errors (text_of repr "id" node) node_type config lacking)

  unfoldable pub all_node_errors : List Fields → Result Unhashable (List ValidationError)
  unfolding node_errors
  all_node_errors [] = ok []
  all_node_errors (node ∷ nodes) = do
    first ← node_errors node
    rest ← all_node_errors nodes
    ok (first ++ rest)
