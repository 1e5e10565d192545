-- ===== src/Policy/Tests.antt =====
-- A policy that passes, and one that names a type twice.
use goodmoneying.Prelude.{◌≡◌, refl, ◌↔◌, true, some, [], ◌∷◌}
use goodmoneying.Prelude.Int.{pos, negsuc}
use goodmoneying.Prelude.Results.{ok, err}
use goodmoneying.Policy.{
  MarketCollectionPolicySettings, repeated_data_type, retention_out_of_range, priority_out_of_range,
  distinct_texts, validate, IsPolicy, validate_iff,
}

abbrev policy : MarketCollectionPolicySettings
policy = record {
  start_at = 5;
  data_types = "source_candle" ∷ "trade_event" ∷ [];
  candle_unit = "1m";
  retention_days = some (pos 30);
  priority = pos 100;
  continuous = true;
}

passes : validate policy 10 ≡ ok tt
unfolding validate distinct_texts
passes = refl

repeats :
    validate (record policy { data_types = "trade_event" ∷ "trade_event" ∷ [] }) 10
    ≡ err repeated_data_type
unfolding validate distinct_texts
repeats = refl

below_all : validate (record policy { priority = negsuc 4 }) 10 ≡ err priority_out_of_range
unfolding validate distinct_texts
below_all = refl

kept_for_less :
    validate (record policy { retention_days = some (negsuc 0) }) 10 ≡ err retention_out_of_range
unfolding validate distinct_texts
kept_for_less = refl

validate_iff_example : (validate policy 10 ≡ ok tt) ↔ IsPolicy policy 10
validate_iff_example = validate_iff policy 10
