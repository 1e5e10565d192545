-- ===== src/Reconcile/Refusals.antt =====
-- How upbit_myorder.py refuses an event.
use Prim.Native.String.{String}
use text.Mathlib.Text.{◌==◌ as str_eq}
use text.Mathlib.TextEquality.{eq_iff}
use mathlib.Core.Bool.{false≢true}
use goodmoneying.Prelude.Decimal.{decimal_lt}
use goodmoneying.Prelude.{
  Bool, true, false, ◌≡◌, refl, sym, ap, ◌∙◌, ◌⊎◌, inl, inr, Option, none, some, List, [], ◌∷◌, any,
  if◌then◌else◌, Bool-cases, arith,
}
use goodmoneying.Prelude.Results.{Result, ok, err, ◌>>=◌, ◌>>◌, raise_if, err-injective}
use goodmoneying.Prelude.Json.{
  Json, null, boolean, integer, float, string, array, object, Fields, get_or_null, str,
}
use goodmoneying.Prelude.DecimalText.{Number, finite, infinite, nan, parse_decimal}
use goodmoneying.Reconcile.{
  ReconcileError, invalid, invalid_operation, OrderState, amount, zero_decimal, state_named,
  state_names, state_of, optional_str, optional_bool, not_negative, converted, optional_decimal,
}
use goodmoneying.Reconcile.MyOrder.{parse_myorder_event}

abbrev pub reads_nan : Option Number → Bool
reads_nan (some nan) = true
reads_nan _ = false

abbrev pub decimal_fields : List String
decimal_fields =
    "volume" ∷ "remaining_volume" ∷ "executed_volume" ∷ "trade_fee" ∷ "prevented_volume"
    ∷ "prevented_locked" ∷ []

any-of_listed :
    (p : String → Bool) (key : String) (keys : List String)
    → any (str_eq key) keys ≡ true
    → p key ≡ true
    → any p keys ≡ true
any-of_listed p key [] listed h = absurd (false≢true listed)
any-of_listed p key (k ∷ keys) listed h = elim (Bool-cases (str_eq key k)) [
  | inl same ↦
      let here : p k ≡ true = ap p (sym ((eq_iff key k).0 same)) ∙ h in ground (arith, here)
  | inr other ↦ ground (arith, any-of_listed p key keys, listed, other, h)
]

module _ (repr : Json → String) where
  -- The field's text is one of a NaN.
  abbrev pub has_nan : Fields → String → Bool
  has_nan payload key = reads_nan (parse_decimal (str repr (get_or_null key payload)))

  module _ (payload : Fields) where
    -- The module's own error; or that of decimals, for a NaN.
    abbrev pub Refusal : ReconcileError → Type 0
    Refusal e =
        (e ≡ invalid) ⊎ ((e ≡ invalid_operation) × (any (has_nan payload) decimal_fields ≡ true))

    abbrev Refuses : {A : Type 0} → Result ReconcileError A → Type 0
    Refuses call = (e : ReconcileError) → call ≡ err e → Refusal e

    module _ {A : Type 0} where
      invalid-Refuses : Refuses {A = A} (err invalid)
      invalid-Refuses e h = inl (sym (err-injective h))

      ok-Refuses : (a : A) → Refuses (ok a)
      ok-Refuses a e h = cc

      if-Refuses :
          (b : Bool) (x y : Result ReconcileError A)
          → Refuses x
          → Refuses y
          → Refuses (if b then x else y)
      if-Refuses true x y f g = f
      if-Refuses false x y f g = g

      raise_if-Refuses :
          (b : Bool) (next : Result ReconcileError A)
          → Refuses next
          → Refuses (raise_if b invalid >> next)
      raise_if-Refuses true next f e h = inl (sym (err-injective h))
      raise_if-Refuses false next f e h = f e h

      module _ {B : Type 0} where
        bind-Refuses :
            (call : Result ReconcileError A) (next : A → Result ReconcileError B)
            → Refuses call
            → ((a : A) → Refuses (next a))
            → Refuses (call >>= next)
        bind-Refuses (err f) next first later e h = first e (ap err (err-injective h))
        bind-Refuses (ok a) next first later e h = later a e h

    state_named-Refuses :
        (names : List (String × OrderState)) (value : String) → Refuses (state_named value names)
    state_named-Refuses [] value = invalid-Refuses
    state_named-Refuses ((name, state) ∷ names) value =
        if-Refuses (str_eq value name) (ok state) (state_named value names) (ok-Refuses state)
          (state_named-Refuses names value)

    state_of-Refuses : (value : Json) → Refuses (state_of value)
    unfolding state_of
    state_of-Refuses (string s) = state_named-Refuses state_names s
    state_of-Refuses null = invalid-Refuses
    state_of-Refuses (boolean b) = invalid-Refuses
    state_of-Refuses (integer i) = invalid-Refuses
    state_of-Refuses (float d) = invalid-Refuses
    state_of-Refuses (array xs) = invalid-Refuses
    state_of-Refuses (object fs) = invalid-Refuses

    optional_str-Refuses : (value : Json) → Refuses (optional_str value)
    unfolding optional_str
    optional_str-Refuses null = ok-Refuses none
    optional_str-Refuses (string s) =
        if-Refuses (str_eq s "") (err invalid) (ok (some s)) invalid-Refuses (ok-Refuses (some s))
    optional_str-Refuses (boolean b) = invalid-Refuses
    optional_str-Refuses (integer i) = invalid-Refuses
    optional_str-Refuses (float d) = invalid-Refuses
    optional_str-Refuses (array xs) = invalid-Refuses
    optional_str-Refuses (object fs) = invalid-Refuses

    optional_bool-Refuses : (value : Json) → Refuses (optional_bool value)
    unfolding optional_bool
    optional_bool-Refuses null = ok-Refuses none
    optional_bool-Refuses (boolean b) = ok-Refuses (some b)
    optional_bool-Refuses (string s) = invalid-Refuses
    optional_bool-Refuses (integer i) = invalid-Refuses
    optional_bool-Refuses (float d) = invalid-Refuses
    optional_bool-Refuses (array xs) = invalid-Refuses
    optional_bool-Refuses (object fs) = invalid-Refuses

    converted-Refuses :
        (read : Option Number)
        → (reads_nan read ≡ true → any (has_nan payload) decimal_fields ≡ true)
        → Refuses (converted read)
    unfolding not_negative
    converted-Refuses none found e h = invalid-Refuses e h
    converted-Refuses (some nan) found e h = inr (sym (err-injective h), found refl)
    converted-Refuses (some (infinite true)) found e h = invalid-Refuses e h
    converted-Refuses (some (infinite false)) found e h = ok-Refuses _ e h
    converted-Refuses (some (finite d)) found e h =
        if-Refuses (decimal_lt d zero_decimal) (err invalid) (ok (some (amount d))) invalid-Refuses
          (ok-Refuses _) e h

    optional_decimal-Refuses :
        (value : Json)
        → (reads_nan (parse_decimal (str repr value)) ≡ true
            → any (has_nan payload) decimal_fields ≡ true)
        → Refuses (optional_decimal repr value)
    unfolding optional_decimal
    optional_decimal-Refuses null found = ok-Refuses none
    optional_decimal-Refuses (string s) found = converted-Refuses _ found
    optional_decimal-Refuses (boolean b) found = converted-Refuses _ found
    optional_decimal-Refuses (integer i) found = converted-Refuses _ found
    optional_decimal-Refuses (float d) found = converted-Refuses _ found
    optional_decimal-Refuses (array xs) found = converted-Refuses _ found
    optional_decimal-Refuses (object fs) found = converted-Refuses _ found

    field-Refuses :
        (key : String)
        → any (str_eq key) decimal_fields ≡ true
        → Refuses (optional_decimal repr (get_or_null key payload))
    field-Refuses key listed =
        optional_decimal-Refuses (get_or_null key payload)
          (any-of_listed (has_nan payload) key decimal_fields listed)

    -- An event is refused with the module's own error, or, if one of its numbers is a NaN, with that of decimals.
    pub parse_myorder_event-Refuses :
        (e : ReconcileError) → parse_myorder_event repr payload ≡ err e → Refusal e
    unfolding parse_myorder_event
    parse_myorder_event-Refuses =
        let read = λ (key : String). get_or_null key payload in
        raise_if-Refuses _ _ (
          bind-Refuses (state_of (read "state")) _ (state_of-Refuses _) (λ _.
            bind-Refuses (optional_str (read "code")) _ (optional_str-Refuses _) (λ _.
              bind-Refuses (optional_str (read "uuid")) _ (optional_str-Refuses _) (λ _.
                bind-Refuses (optional_str (read "identifier")) _ (optional_str-Refuses _) (λ _.
                  bind-Refuses (optional_decimal repr (read "volume")) _
                    (field-Refuses "volume" refl)
                    (λ _.
                      bind-Refuses (optional_decimal repr (read "remaining_volume")) _
                        (field-Refuses "remaining_volume" refl)
                        (λ _.
                          bind-Refuses (optional_decimal repr (read "executed_volume")) _
                            (field-Refuses "executed_volume" refl)
                            (λ _.
                              bind-Refuses (optional_decimal repr (read "trade_fee")) _
                                (field-Refuses "trade_fee" refl)
                                (λ _.
                                  bind-Refuses (optional_bool (read "is_maker")) _
                                    (optional_bool-Refuses _)
                                    (λ _.
                                      bind-Refuses (optional_decimal repr (read "prevented_volume"))
                                        _ (field-Refuses "prevented_volume" refl)
                                        (λ _.
                                          bind-Refuses
                                            (optional_decimal repr (read "prevented_locked")) _
                                            (field-Refuses "prevented_locked" refl)
                                            (λ _. ok-Refuses _))))))))))))
