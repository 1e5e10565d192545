-- ===== src/LiveOrder/Rehearsal.antt =====
-- packages/shared/goodmoneying_shared/upbit_order_submit_rehearsal.py: the checks that an order
-- passes before it may be rehearsed. A payload is a mapping from names to values, of which only the
-- texts matter; the two hashes of the result are parameters.
pub mod Contract
use Prim.Native.Char.{Char, code}
use Prim.Native.String.{String, ◌++◌}
use text.Mathlib.Text.{◌==◌ as str_eq}
use goodmoneying.Prelude.{
  ℕ, zero, suc, Bool, true, false, not, ◌&&◌, ◌||◌, Option, none, some, List, [], ◌∷◌, any, leb,
  ◌==◌, if◌then◌else◌,
}
use goodmoneying.Prelude.Results.{Result, ok, err, ◌>>=◌, ◌>>◌, raise_if, or_raise}
use goodmoneying.Prelude.Text.{is_blank, strip}

pub data PayloadValue : Type 0 where
  text_value : String → PayloadValue
  null other : PayloadValue

abbrev pub OrderPayload : Type 0
OrderPayload = List (String × PayloadValue)

pub data RehearsalError : Type 0 where
  unknown_field not_a_text missing_field not_allowed bad_identifier : RehearsalError
  post_only_with_smp_type market_with_time_in_force limit_shape price_shape : RehearsalError
  market_shape best_time_in_force best_bid_shape best_ask_shape : RehearsalError

-- The dictionary `normalized`, by its possible keys.
pub record NormalizedOrder : Type 0 where
  pub market : Option String
  pub side : Option String
  pub volume : Option String
  pub price : Option String
  pub ord_type : Option String
  pub identifier : Option String
  pub time_in_force : Option String
  pub smp_type : Option String

abbrev pub one_of : List String → String → Bool
one_of allowed value = any (str_eq value) allowed

abbrev pub field_order : List String
field_order =
    "market" ∷ "side" ∷ "volume" ∷ "price" ∷ "ord_type" ∷ "identifier" ∷ "time_in_force"
    ∷ "smp_type" ∷ []

abbrev pub get_field : String → OrderPayload → Option PayloadValue
get_field field [] = none
get_field field ((key, value) ∷ payload) =
    let rest = get_field field payload in if str_eq key field then some value else rest

unfoldable pub normalize_value : Option PayloadValue → Result RehearsalError (Option String)
unfolding strip
normalize_value none = ok none
normalize_value (some null) = ok none
normalize_value (some other) = err not_a_text
normalize_value (some (text_value value)) =
    if is_blank value then err not_a_text else ok (some (strip value))

-- `[a-z2-7]{52}` to the end of the text
abbrev pub is_base32 : Char → Bool
is_base32 c = leb 97 (code c) && leb (code c) 122 || leb 50 (code c) && leb (code c) 55

abbrev pub all_base32 : ℕ → String → Bool
all_base32 zero String.[] = true
all_base32 zero (String.◌∷◌ _ _) = false
all_base32 (suc n) String.[] = false
all_base32 (suc n) (String.◌∷◌ c s) = is_base32 c && all_base32 n s

-- `^gm1_[a-z2-7]{52}$`
unfoldable pub is_live_identifier : String → Bool
is_live_identifier (String.◌∷◌ g (String.◌∷◌ m (String.◌∷◌ one (String.◌∷◌ underscore rest)))) =
    (code g == 103)
    && (code m == 109)
    && (code one == 49)
    && (code underscore == 95)
    && all_base32 52 rest
is_live_identifier _ = false

-- `field in payload`
abbrev pub has : Option String → Bool
has none = false
has (some _) = true

-- `payload.get(field) == value`
abbrev pub equals : Option String → String → Bool
equals none value = false
equals (some v) value = str_eq v value

-- `payload.get(field) in values`
abbrev pub among : Option String → List String → Bool
among none values = false
among (some v) values = one_of values v

unfoldable pub validate_order_shape :
    String → String → NormalizedOrder → Result RehearsalError (Unit {0})
validate_order_shape ord_type side n = do
  raise_if (one_of ("price" ∷ "market" ∷ []) ord_type && has n.time_in_force)
      market_with_time_in_force
  raise_if (str_eq ord_type "limit" && not (has n.price && has n.volume)) limit_shape
  raise_if (str_eq ord_type "price" && not (str_eq side "bid" && has n.price && not (has n.volume)))
      price_shape
  raise_if
      (str_eq ord_type "market" && not (str_eq side "ask" && has n.volume && not (has n.price)))
      market_shape
  raise_if (str_eq ord_type "best" && not (among n.time_in_force ("ioc" ∷ "fok" ∷ [])))
      best_time_in_force
  raise_if (str_eq ord_type "best" && str_eq side "bid" && not (has n.price && not (has n.volume)))
      best_bid_shape
  raise_if (str_eq ord_type "best" && str_eq side "ask" && not (has n.volume && not (has n.price)))
      best_ask_shape

-- `_enum`, of a field that may be missing.
abbrev pub is_allowed : Option String → List String → Bool
is_allowed none values = true
is_allowed (some v) values = one_of values v

unfoldable pub normalize : OrderPayload → Result RehearsalError NormalizedOrder
unfolding normalize_value
normalize payload = do
  market ← normalize_value (get_field "market" payload)
  side ← normalize_value (get_field "side" payload)
  volume ← normalize_value (get_field "volume" payload)
  price ← normalize_value (get_field "price" payload)
  ord_type ← normalize_value (get_field "ord_type" payload)
  identifier ← normalize_value (get_field "identifier" payload)
  time_in_force ← normalize_value (get_field "time_in_force" payload)
  smp_type ← normalize_value (get_field "smp_type" payload)
  ok (record {
    market = market;
    side = side;
    volume = volume;
    price = price;
    ord_type = ord_type;
    identifier = identifier;
    time_in_force = time_in_force;
    smp_type = smp_type;
  })

-- The checks of a normalized order that has the required fields.
unfoldable pub check_fields :
    String → String → String → NormalizedOrder → Result RehearsalError NormalizedOrder
check_fields side ord_type identifier n = do
  raise_if (not (one_of ("bid" ∷ "ask" ∷ []) side)) not_allowed
  raise_if (not (one_of ("limit" ∷ "price" ∷ "market" ∷ "best" ∷ []) ord_type)) not_allowed
  raise_if (not (is_allowed n.time_in_force ("ioc" ∷ "fok" ∷ "post_only" ∷ []))) not_allowed
  raise_if (not (is_allowed n.smp_type ("cancel_maker" ∷ "cancel_taker" ∷ "reduce" ∷ [])))
      not_allowed
  raise_if (not (is_live_identifier identifier)) bad_identifier
  raise_if (equals n.time_in_force "post_only" && has n.smp_type) post_only_with_smp_type
  validate_order_shape ord_type side n
  ok n

unfoldable pub check_order : NormalizedOrder → Result RehearsalError NormalizedOrder
check_order n = do
  market ← or_raise n.market missing_field
  side ← or_raise n.side missing_field
  ord_type ← or_raise n.ord_type missing_field
  identifier ← or_raise n.identifier missing_field
  check_fields side ord_type identifier n

-- `_canonical_payload`
unfoldable pub canonical_payload : OrderPayload → Result RehearsalError NormalizedOrder
canonical_payload payload = do
  raise_if (any (λ entry. not (one_of field_order entry.0)) payload) unknown_field
  n ← normalize payload
  check_order n

-- The fields that are there, in the order of `_FIELD_ORDER`.
abbrev query_parts : List (String × Option String) → List String
query_parts [] = []
query_parts ((name, none) ∷ fields) = query_parts fields
query_parts ((name, some value) ∷ fields) = (name ++ "=" ++ value) ∷ query_parts fields

-- `"&".join(parts)`
abbrev join_parts : List String → String
join_parts [] = ""
join_parts (part ∷ []) = part
join_parts (part ∷ next ∷ parts) = part ++ "&" ++ join_parts (next ∷ parts)

unfoldable pub query_string : NormalizedOrder → String
query_string n = join_parts (
    query_parts (
      ("market", n.market)
      ∷ ("side", n.side)
      ∷ ("volume", n.volume)
      ∷ ("price", n.price)
      ∷ ("ord_type", n.ord_type)
      ∷ ("identifier", n.identifier)
      ∷ ("time_in_force", n.time_in_force)
      ∷ ("smp_type", n.smp_type)
      ∷ []))

pub record UpbitOrderSubmitRehearsal : Type 0 where
  pub endpoint_key : String
  pub http_method : String
  pub request_path : String
  pub canonical_payload : NormalizedOrder
  pub request_hash : String
  pub query_string : String
  pub query_hash : String
  pub rehearsed_at : ℕ
  pub actual_request_sent : Bool
  pub would_submit : Bool
  pub can_bind_response : Bool

-- The hash of the JSON text of the payload, and that of the query string, are arguments.
module _ (request_digest : NormalizedOrder → String) (query_digest : String → String) where
  unfoldable pub build_upbit_order_submit_rehearsal :
      OrderPayload → ℕ → Result RehearsalError UpbitOrderSubmitRehearsal
  unfolding canonical_payload query_string
  build_upbit_order_submit_rehearsal payload rehearsed_at = do
    n ← canonical_payload payload
    ok (record {
      endpoint_key = "rest.new-order";
      http_method = "POST";
      request_path = "/v1/orders";
      canonical_payload = n;
      request_hash = request_digest n;
      query_string = query_string n;
      query_hash = query_digest (query_string n);
      rehearsed_at = rehearsed_at;
      actual_request_sent = false;
      would_submit = false;
      can_bind_response = false;
    })
