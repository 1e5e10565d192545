-- ===== src/LiveOrder/Identity.antt =====
-- packages/shared/goodmoneying_shared/live_order_identity.py: the identifier of a live order. SHA-256 is an
-- argument: the list of the bytes of a text's digest.
use Prim.Native.Char.{Char}
use Prim.Native.String.{String, ◌++◌}
use text.Mathlib.Text.{◌==◌ as str_eq}
use goodmoneying.Prelude.{ℕ, zero, suc, ◌+◌, ◌-◌, ◌*◌, ◌/◌, ◌%◌, ◌^◌, not, List, [], ◌∷◌}
use goodmoneying.Prelude.Results.{Result, ok, ◌>>=◌, ◌>>◌, raise_if}
use goodmoneying.Prelude.Text.{strip}
use goodmoneying.LiveOrder.Rehearsal.{is_live_identifier}

pub data IdentityError : Type 0 where
  empty padded bad_format : IdentityError

unfoldable pub non_blank : String → Result IdentityError String
unfolding strip
non_blank value = do
  raise_if (str_eq value "") empty
  raise_if (not (str_eq value (strip value))) padded
  ok value

-- The alphabet of `base64.b32encode` in lower case.
abbrev pub alphabet : String
alphabet = "abcdefghijklmnopqrstuvwxyz234567"

-- The character at a place; `a` stands behind the end.
abbrev pub letter : String → ℕ → Char
letter String.[] n = "a"
letter (String.◌∷◌ c s) zero = c
letter (String.◌∷◌ c s) (suc n) = letter s n

-- So many of the eight digits to the base 32 of a number of 40 bits, from the first, in front of a text.
abbrev pub digits_32 : ℕ → ℕ → ℕ → String → String
digits_32 n place zero rest = rest
digits_32 n place (suc k) rest =
    String.◌∷◌ (letter alphabet (n / 2 ^ place % 32)) (digits_32 n (place - 5) k rest)

abbrev pub forty_bits : ℕ → ℕ → ℕ → ℕ → ℕ → ℕ
forty_bits a b c d e = a * 2 ^ 32 + b * 2 ^ 24 + c * 2 ^ 16 + d * 2 ^ 8 + e

-- `b32encode(digest).lower().rstrip("=")`: five bytes are eight characters, and of a shorter last group the
-- characters that hold its bits are kept.
unfoldable pub encode : List ℕ → String
encode [] = String.[]
encode (a ∷ []) = digits_32 (forty_bits a 0 0 0 0) 35 2 String.[]
encode (a ∷ b ∷ []) = digits_32 (forty_bits a b 0 0 0) 35 4 String.[]
encode (a ∷ b ∷ c ∷ []) = digits_32 (forty_bits a b c 0 0) 35 5 String.[]
encode (a ∷ b ∷ c ∷ d ∷ []) = digits_32 (forty_bits a b c d 0) 35 7 String.[]
encode (a ∷ b ∷ c ∷ d ∷ e ∷ bytes) = digits_32 (forty_bits a b c d e) 35 8 (encode bytes)

abbrev pub gm1 : String → String
gm1 encoded = String.◌∷◌ "g" (String.◌∷◌ "m" (String.◌∷◌ "1" (String.◌∷◌ "_" encoded)))

module _ (sha256 : String → List ℕ) where
  -- `f"gm1_{encoded}"`
  abbrev pub identifier_of : String → String → String
  identifier_of account key = gm1 (encode (sha256 (account ++ ":" ++ key)))

  unfoldable pub derive_upbit_live_order_identifier : String → String → Result IdentityError String
  unfolding non_blank encode
  derive_upbit_live_order_identifier exchange_account_stable_id idempotency_key = do
    account ← non_blank exchange_account_stable_id
    key ← non_blank idempotency_key
    raise_if (not (is_live_identifier (identifier_of account key))) bad_format
    ok (identifier_of account key)
