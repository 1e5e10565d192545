-- ===== src/Policy.antt =====
-- MarketCollectionPolicySettings.validate of packages/shared/goodmoneying_shared/data_foundation.py:
-- what a policy for the collection of a market must say. Instants are in UTC by their type, so the
-- errors about zones do not occur.
mod Tests
use Prim.Native.String.{String}
use text.Mathlib.Text.{◌==◌ as str_eq}
use goodmoneying.Prelude.{
  is_empty, ℕ, suc, ◌≤◌, ◌<◌, ◌≡◌, refl, ◌↔◌, inl, inr, Bool, true, false, not, ◌&&◌, ◌||◌, Option,
  none, some, List, [], ◌∷◌, length, any, ltb, leb, ◌==◌, if◌then◌else◌, All, Bool-cases, arith,
}
use goodmoneying.Prelude.Int.{ℤ, pos, ltb_ℤ, ◌≤ℤ◌}
use goodmoneying.Prelude.Results.{Result, ok, err, ◌>>◌, raise_if}

pub data PolicyError : Type 0 where
  start_not_before_change no_data_types repeated_data_type unknown_data_type : PolicyError
  unknown_candle_unit retention_out_of_range priority_out_of_range : PolicyError

pub record MarketCollectionPolicySettings : Type 0 where
  pub start_at : ℕ
  pub data_types : List String
  pub candle_unit : String
  pub retention_days : Option ℤ
  pub priority : ℤ
  pub continuous : Bool

-- `set(data_types)`
unfoldable pub distinct_texts : List String → List String
distinct_texts [] = []
distinct_texts (x ∷ xs) =
    let rest = distinct_texts xs in if any (str_eq x) xs then rest else x ∷ rest

abbrev pub is_allowed_type : String → Bool
is_allowed_type name =
    any (str_eq name)
      ("source_candle" ∷ "trade_event" ∷ "orderbook_snapshot" ∷ "ticker_snapshot" ∷ [])

-- `set(data_types).issubset(ALLOWED_COLLECTION_DATA_TYPES)`
abbrev pub all_allowed : List String → Bool
all_allowed [] = true
all_allowed (x ∷ xs) = is_allowed_type x && all_allowed xs

-- `1 <= value <= limit`
abbrev pub in_range : ℤ → ℕ → Bool
in_range value limit = not (ltb_ℤ value (pos 1)) && not (ltb_ℤ (pos limit) value)

abbrev pub retention_in_range : Option ℤ → Bool
retention_in_range none = true
retention_in_range (some days) = in_range days 36500

unfoldable pub validate : MarketCollectionPolicySettings → ℕ → Result PolicyError (Unit {0})
validate policy changed_at = do
  raise_if (leb changed_at policy.start_at) start_not_before_change
  raise_if (is_empty policy.data_types) no_data_types
  raise_if (not (length policy.data_types == length (distinct_texts policy.data_types)))
      repeated_data_type
  raise_if (not (all_allowed policy.data_types)) unknown_data_type
  raise_if (not (str_eq policy.candle_unit "1m")) unknown_candle_unit
  raise_if (not (retention_in_range policy.retention_days)) retention_out_of_range
  raise_if (not (in_range policy.priority 1000)) priority_out_of_range

-- No text occurs twice.
abbrev pub HasNoRepeats : List String → Type 0
HasNoRepeats [] = Unit
HasNoRepeats (x ∷ xs) = (any (str_eq x) xs ≡ false) × HasNoRepeats xs

length-distinct_texts : (xs : List String) → length (distinct_texts xs) ≤ length xs
unfolding distinct_texts
length-distinct_texts [] = omega arith
length-distinct_texts (x ∷ xs) = ground (arith, length-distinct_texts xs)

same_length : (xs : List String) → length xs ≡ length (distinct_texts xs) → HasNoRepeats xs
unfolding distinct_texts
same_length [] h = tt
same_length (x ∷ xs) h = elim (Bool-cases (any (str_eq x) xs)) [
  | inl again ↦ absurd (ground (arith, h, again, length-distinct_texts xs))
  | inr once ↦ (once, same_length xs (ground (arith, h, once)))
]

length-eq-no_repeats : (xs : List String) → HasNoRepeats xs → length xs ≡ length (distinct_texts xs)
unfolding distinct_texts
length-eq-no_repeats [] h = refl
length-eq-no_repeats (x ∷ xs) h = ground (arith, h.0, length-eq-no_repeats xs h.1)

all_allowed-All :
    (xs : List String) → all_allowed xs ≡ true → All (λ x. is_allowed_type x ≡ true) xs
all_allowed-All [] h = tt
all_allowed-All (x ∷ xs) h = (ground arith, all_allowed-All xs (ground arith))

All-all_allowed :
    (xs : List String) → All (λ x. is_allowed_type x ≡ true) xs → all_allowed xs ≡ true
All-all_allowed [] h = refl
All-all_allowed (x ∷ xs) h = ground (arith, h.0, All-all_allowed xs h.1)

abbrev pub IsBetween : ℕ → ℕ → ℤ → Type 0
IsBetween low high value = (pos low ≤ℤ value) × (value ≤ℤ pos high)

-- For ever, or for 1 to 36500 days.
abbrev pub KeepsFor : Option ℤ → Type 0
KeepsFor none = Unit
KeepsFor (some days) = IsBetween 1 36500 days

in_range_iff : (value : ℤ) (limit : ℕ) → (in_range value limit ≡ true) ↔ IsBetween 1 limit value
in_range_iff value limit = ((λ h. (ground (arith, h), ground (arith, h))), (λ h. ground (arith, h)))

retention_iff : (days : Option ℤ) → (retention_in_range days ≡ true) ↔ KeepsFor days
retention_iff none = ((λ _. tt), (λ _. refl))
retention_iff (some days) = in_range_iff days 36500

-- What a policy must say.
abbrev pub IsPolicy : MarketCollectionPolicySettings → ℕ → Type 0
IsPolicy policy changed_at =
    (policy.start_at < changed_at)
    × (0 < length policy.data_types)
    × HasNoRepeats policy.data_types
    × All (λ x. is_allowed_type x ≡ true) policy.data_types
    × (str_eq policy.candle_unit "1m" ≡ true)
    × KeepsFor policy.retention_days
    × IsBetween 1 1000 policy.priority

empty-length : (xs : List String) → (is_empty xs ≡ false) ↔ (0 < length xs)
empty-length [] = ((λ h. cc), (λ h. absurd (omega (arith, h))))
empty-length (x ∷ xs) = ((λ _. omega arith), (λ _. refl))

-- A policy passes exactly if it starts before the change, names at least one data type, each of them
-- allowed and none twice, has minute candles, keeps data for 1 to 36500 days or for ever, and has a
-- priority from 1 to 1000.
pub validate_iff :
    (policy : MarketCollectionPolicySettings) (changed_at : ℕ)
    → (validate policy changed_at ≡ ok tt) ↔ IsPolicy policy changed_at
unfolding validate
validate_iff policy changed_at = (
  (λ h.
      let lengths : length policy.data_types ≡ length (distinct_texts policy.data_types) =
        ground (arith, h) in
      let allowed : all_allowed policy.data_types ≡ true = ground (arith, h) in
      let nonempty : is_empty policy.data_types ≡ false = ground (arith, h) in
      let kept : retention_in_range policy.retention_days ≡ true = ground (arith, h) in
      let ranked : in_range policy.priority 1000 ≡ true = ground (arith, h) in
      (
        ground (arith, h),
        (empty-length policy.data_types).0 nonempty,
        same_length policy.data_types lengths,
        all_allowed-All policy.data_types allowed,
        ground (arith, h),
        (retention_iff policy.retention_days).0 kept,
        (in_range_iff policy.priority 1000).0 ranked,
      )),
  (λ (start, some_type, once, allowed, candle, retention, priority).
      let lengths = length-eq-no_repeats policy.data_types once in
      let all = All-all_allowed policy.data_types allowed in
      let nonempty = (empty-length policy.data_types).1 some_type in
      let kept = (retention_iff policy.retention_days).1 retention in
      let ranked = (in_range_iff policy.priority 1000).1 priority in
      ground (arith, start, nonempty, lengths, all, candle, kept, ranked)),
)
