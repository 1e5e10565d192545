-- ===== src/LiveOrder/Derived.antt =====
-- The identifiers that live_order_identity.py derives have the form that it checks, so it never refuses one.
use Prim.Native.String.{String, ◌++◌}
use mathlib.Core.Path.{subst}
use text.Mathlib.Text.{◌==◌ as str_eq}
use goodmoneying.Prelude.{
  ℕ, zero, suc, ◌+◌, ◌-◌, ◌*◌, ◌/◌, ◌%◌, ◌^◌, ◌≡◌, refl, Bool, true, false, ◌&&◌, List, [], ◌∷◌,
  length, arith,
}
use goodmoneying.Prelude.Results.{ok}
use goodmoneying.Prelude.Text.{strip}
use goodmoneying.LiveOrder.Rehearsal.{is_base32, all_base32, is_live_identifier}
use goodmoneying.LiveOrder.Identity.{
  non_blank, alphabet, letter, digits_32, forty_bits, encode, identifier_of,
  derive_upbit_live_order_identifier,
}

abbrev all_base32_letters : String → Bool
all_base32_letters String.[] = true
all_base32_letters (String.◌∷◌ c s) = is_base32 c && all_base32_letters s

letter-is_base32 :
    (s : String) (n : ℕ) → all_base32_letters s ≡ true → is_base32 (letter s n) ≡ true
letter-is_base32 String.[] n h = refl
letter-is_base32 (String.◌∷◌ c s) zero h = ground (arith, h)
letter-is_base32 (String.◌∷◌ c s) (suc n) h = letter-is_base32 s n (ground (arith, h))

abbrev HasDigits : ℕ → String → Type 0
HasDigits n s = all_base32 n s ≡ true

digits_32-HasDigits :
    (n place k m : ℕ) (rest : String)
    → HasDigits m rest
    → HasDigits (k + m) (digits_32 n place k rest)
digits_32-HasDigits n place zero m rest h = subst (λ t. HasDigits t rest) (omega arith) h
digits_32-HasDigits n place (suc k) m rest h =
    let first = letter-is_base32 alphabet (n / 2 ^ place % 32) refl in
    let later = digits_32-HasDigits n (place - 5) k m rest h in
    let longer : suc (k + m) ≡ suc k + m = omega arith in
    let here : HasDigits (suc (k + m)) (digits_32 n place (suc k) rest) = rw first later in
    subst (λ t. HasDigits t (digits_32 n place (suc k) rest)) longer here

-- Groups of five bytes and two bytes more.
encode-HasDigits :
    (k : ℕ) (bytes : List ℕ) → length bytes ≡ 5 * k + 2 → HasDigits (8 * k + 4) (encode bytes)
unfolding encode
encode-HasDigits k [] h = absurd (omega (arith, h))
encode-HasDigits k (a ∷ []) h = absurd (omega (arith, h))
encode-HasDigits k (a ∷ b ∷ []) h =
    let none_before : 4 + 0 ≡ 8 * k + 4 = omega (arith, h) in
    subst (λ t. HasDigits t (encode (a ∷ b ∷ []))) none_before
      (digits_32-HasDigits (forty_bits a b 0 0 0) 35 4 0 String.[] refl)
encode-HasDigits k (a ∷ b ∷ c ∷ []) h = absurd (omega (arith, h))
encode-HasDigits k (a ∷ b ∷ c ∷ d ∷ []) h = absurd (omega (arith, h))
encode-HasDigits zero (a ∷ b ∷ c ∷ d ∷ e ∷ bytes) h = absurd (omega (arith, h))
encode-HasDigits (suc k) (a ∷ b ∷ c ∷ d ∷ e ∷ bytes) h =
    let longer : 8 + (8 * k + 4) ≡ 8 * suc k + 4 = omega arith in
    subst (λ t. HasDigits t (encode (a ∷ b ∷ c ∷ d ∷ e ∷ bytes))) longer
      (digits_32-HasDigits (forty_bits a b c d e) 35 8 (8 * k + 4) (encode bytes)
        (encode-HasDigits k bytes (omega (arith, h))))

non_blank-kept :
    (value : String)
    → str_eq value "" ≡ false
    → str_eq value (strip value) ≡ true
    → non_blank value ≡ ok value
unfolding non_blank
non_blank-kept value h k = rw (h, k) refl

module _ (sha256 : String → List ℕ) (digest_length : (s : String) → length (sha256 s) ≡ 32) where
  identifier_of-is_live :
      (account key : String) → is_live_identifier (identifier_of sha256 account key) ≡ true
  unfolding is_live_identifier
  identifier_of-is_live account key =
      encode-HasDigits 6 (sha256 (account ++ ":" ++ key)) (digest_length (account ++ ":" ++ key))

  -- For an account and a key that are not empty and have no white space around them the derivation returns an
  -- identifier, which is a live one.
  pub derive_upbit_live_order_identifier-live :
      (account key : String)
      → str_eq account "" ≡ false
      → str_eq account (strip account) ≡ true
      → str_eq key "" ≡ false
      → str_eq key (strip key) ≡ true
      → (identifier : String) × (derive_upbit_live_order_identifier sha256 account key
          ≡ ok identifier)
        × (is_live_identifier identifier ≡ true)
  unfolding derive_upbit_live_order_identifier
  derive_upbit_live_order_identifier-live account key a a' k k' =
      let live = identifier_of-is_live account key in
      (
        identifier_of sha256 account key,
        rw (non_blank-kept account a a', non_blank-kept key k k', live) refl,
        live,
      )
