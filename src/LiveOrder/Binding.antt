-- ===== src/LiveOrder/Binding.antt =====
-- packages/shared/goodmoneying_shared/upbit_live_order_binding.py: the guards of the binding of a live order.
-- Lower case is ASCII's: no other character has a digit, a letter from a to f or a dash as its lower case.
use Prim.Native.Char.{Char, code}
use Prim.Native.String.{String, char_at}
use text.Mathlib.Text.{◌==◌ as str_eq}
use goodmoneying.Prelude.{
  ℕ, zero, suc, ◌-◌, Bool, true, false, not, ◌&&◌, ◌||◌, List, [], ◌∷◌, any, leb, ◌==◌,
  if◌then◌else◌,
}
use goodmoneying.Prelude.Results.{Result, ok, err, ◌>>=◌, ◌>>◌, raise_if}
use goodmoneying.Prelude.Json.{Json, string}
use goodmoneying.Prelude.Text.{is_blank, strip}
use goodmoneying.LiveOrder.Rehearsal.{is_live_identifier}

pub data BindingError : Type 0 where
  blank not_live_identifier not_uuid not_allowed_source : BindingError

pub record UpbitLiveOrderBindingCandidate : Type 0 where
  pub upbit_order_uuid : String
  pub upbit_identifier : String
  pub source : String
  pub can_reconcile : Bool
  pub can_submit : Bool
  pub can_cancel : Bool
  pub can_resubmit : Bool

abbrev pub allowed_sources : List String
allowed_sources = "order_submit_response" ∷ "rest_order_snapshot" ∷ "myorder_event" ∷ []

-- `[0-9a-f]`
abbrev pub is_hex : Char → Bool
is_hex c = leb 48 (code c) && leb (code c) 57 || leb 97 (code c) && leb (code c) 102

abbrev pub is_dash : Char → Bool
is_dash c = code c == 45

-- So many hexadecimal digits, and what the rest must match.
abbrev pub hex_then : ℕ → (String → Bool) → String → Bool
hex_then zero rest s = rest s
hex_then (suc n) rest String.[] = false
hex_then (suc n) rest (String.◌∷◌ c s) = is_hex c && hex_then n rest s

abbrev pub dash_then : (String → Bool) → String → Bool
dash_then rest String.[] = false
dash_then rest (String.◌∷◌ c s) = is_dash c && rest s

abbrev pub nothing_more : String → Bool
nothing_more String.[] = true
nothing_more (String.◌∷◌ c s) = false

-- `^[0-9a-f]{8}-[0-9a-f]{4}-[0-9a-f]{4}-[0-9a-f]{4}-[0-9a-f]{12}$`
unfoldable pub is_order_uuid : String → Bool
is_order_uuid = hex_then 8 (
    dash_then (
      hex_then 4
        (dash_then (hex_then 4 (dash_then (hex_then 4 (dash_then (hex_then 12 nothing_more))))))))

-- `text.lower()`
unfoldable pub lower_char : Char → Char
lower_char c =
    if leb 65 (code c) && leb (code c) 90
    then char_at "abcdefghijklmnopqrstuvwxyz" (code c - 65)
    else c

unfoldable pub lower : String → String
lower String.[] = String.[]
lower (String.◌∷◌ c s) = String.◌∷◌ (lower_char c) (lower s)

abbrev pub stripped : String → Result BindingError String
stripped value = if is_blank value then err blank else ok (strip value)

unfoldable pub non_blank : Json → Result BindingError String
unfolding strip
non_blank (string value) = stripped value
non_blank _ = err blank

unfoldable pub live_identifier : Json → Result BindingError String
live_identifier value = do
  identifier ← non_blank value
  raise_if (not (is_live_identifier identifier)) not_live_identifier
  ok identifier

abbrev pub checked_uuid : String → Result BindingError String
checked_uuid uuid = raise_if (not (is_order_uuid uuid)) not_uuid >> ok uuid

unfoldable pub order_uuid : Json → Result BindingError String
order_uuid value = do uuid ← non_blank value; checked_uuid (lower uuid)

unfoldable pub source_of : Json → Result BindingError String
source_of value = do
  source ← non_blank value
  raise_if (not (any (str_eq source) allowed_sources)) not_allowed_source
  ok source

unfoldable pub build_upbit_live_order_binding_candidate :
    Json → Json → Json → Result BindingError UpbitLiveOrderBindingCandidate
build_upbit_live_order_binding_candidate uuid identifier source = do
  normalized_uuid ← order_uuid uuid
  normalized_identifier ← live_identifier identifier
  normalized_source ← source_of source
  ok (record {
    upbit_order_uuid = normalized_uuid;
    upbit_identifier = normalized_identifier;
    source = normalized_source;
    can_reconcile = true;
    can_submit = false;
    can_cancel = false;
    can_resubmit = false;
  })
