-- ===== src/LiveOrder/Rehearsal/Contract.antt =====
-- What an order that passes the checks of upbit_order_submit_rehearsal.py looks like.
use Prim.Native.String.{String}
use text.Mathlib.Text.{◌==◌ as str_eq}
use text.Mathlib.TextEquality.{eq_iff}
use mathlib.Core.Path.{subst}
use goodmoneying.Prelude.{
  ◌≡◌, refl, ◌⊎◌, inl, inr, true, false, ◌&&◌, not, any, ap, ◌∙◌, ◌↔◌, Option, none, some, [], ◌∷◌,
  Bool-cases, arith,
}
use goodmoneying.Prelude.Results.{
  ok, ◌>>=◌, or_raise, raise_if-returned, bind-returned, or_raise-returned,
}
use goodmoneying.LiveOrder.Rehearsal.{
  OrderPayload, missing_field, NormalizedOrder, one_of, field_order, is_live_identifier, has,
  equals, among, is_allowed, validate_order_shape, normalize, check_fields, check_order,
  canonical_payload,
}

-- The four kinds of orders, by what they carry.
abbrev IsLimit : NormalizedOrder → String → Type 0
IsLimit n ord_type = (str_eq ord_type "limit" ≡ true) × (has n.price ≡ true) × (has n.volume ≡ true)

abbrev HasPriceOnly : NormalizedOrder → Type 0
HasPriceOnly n = (has n.price ≡ true) × (has n.volume ≡ false)

abbrev HasVolumeOnly : NormalizedOrder → Type 0
HasVolumeOnly n = (has n.price ≡ false) × (has n.volume ≡ true)

abbrev IsMarketBuy : NormalizedOrder → String → String → Type 0
IsMarketBuy n side ord_type =
    (str_eq ord_type "price" ≡ true)
    × (str_eq side "bid" ≡ true)
    × HasPriceOnly n
    × (has n.time_in_force ≡ false)

abbrev IsMarketSell : NormalizedOrder → String → String → Type 0
IsMarketSell n side ord_type =
    (str_eq ord_type "market" ≡ true)
    × (str_eq side "ask" ≡ true)
    × HasVolumeOnly n
    × (has n.time_in_force ≡ false)

abbrev IsBest : NormalizedOrder → String → String → Type 0
IsBest n side ord_type =
    (str_eq ord_type "best" ≡ true)
    × (among n.time_in_force ("ioc" ∷ "fok" ∷ []) ≡ true)
    × (((str_eq side "bid" ≡ true) × HasPriceOnly n)
        ⊎ ((str_eq side "ask" ≡ true) × HasVolumeOnly n))

abbrev pub IsOrder : NormalizedOrder → String → String → Type 0
IsOrder n side ord_type =
    IsLimit n ord_type
    ⊎ IsMarketBuy n side ord_type
    ⊎ IsMarketSell n side ord_type
    ⊎ IsBest n side ord_type

validate_order_shape-IsOrder :
    (ord_type side : String) (n : NormalizedOrder)
    → one_of ("bid" ∷ "ask" ∷ []) side ≡ true
    → one_of ("limit" ∷ "price" ∷ "market" ∷ "best" ∷ []) ord_type ≡ true
    → validate_order_shape ord_type side n ≡ ok tt
    → IsOrder n side ord_type
unfolding validate_order_shape
validate_order_shape-IsOrder ord_type side n known_side known_type h =
    elim (Bool-cases (str_eq ord_type "limit")) [
      | inl limit ↦ inl (limit, ground arith, ground arith)
      | inr not_limit ↦ elim (Bool-cases (str_eq ord_type "price")) [
        | inl buy ↦ inr (inl (buy, ground arith, (ground arith, ground arith), ground arith))
        | inr not_buy ↦ elim (Bool-cases (str_eq ord_type "market")) [
          | inl sell ↦
              inr (inr (inl (sell, ground arith, (ground arith, ground arith), ground arith)))
          | inr not_sell ↦
              let best : str_eq ord_type "best" ≡ true = ground arith in
              elim (Bool-cases (str_eq side "bid")) [
                | inl bid ↦
                    inr (inr (inr (best, ground arith, inl (bid, (ground arith, ground arith)))))
                | inr not_bid ↦ inr (
                    inr
                      (inr (best, ground arith, inr (ground arith, (ground arith, ground arith)))))
              ]
        ]
      ]
    ]

-- What the checks ensure of an order: known sides and types, one of our identifiers, the fields of
-- its type, and no self-trade rule on a post-only order.
abbrev pub Accepted : String → String → String → NormalizedOrder → Type 0
Accepted side ord_type identifier n =
    (one_of ("bid" ∷ "ask" ∷ []) side ≡ true)
    × (is_live_identifier identifier ≡ true)
    × IsOrder n side ord_type
    × (is_allowed n.time_in_force ("ioc" ∷ "fok" ∷ "post_only" ∷ []) ≡ true)
    × (is_allowed n.smp_type ("cancel_maker" ∷ "cancel_taker" ∷ "reduce" ∷ []) ≡ true)
    × ((equals n.time_in_force "post_only" && has n.smp_type) ≡ false)

check_fields-Accepted :
    (side ord_type identifier : String) (n : NormalizedOrder) {m : NormalizedOrder}
    → check_fields side ord_type identifier n ≡ ok m
    → (n ≡ m) × Accepted side ord_type identifier n
unfolding check_fields
check_fields-Accepted side ord_type identifier n h =
    let known_side : one_of ("bid" ∷ "ask" ∷ []) side ≡ true = ground arith in
    let known_type : one_of ("limit" ∷ "price" ∷ "market" ∷ "best" ∷ []) ord_type ≡ true =
      ground arith in
    let shape : validate_order_shape ord_type side n ≡ ok tt = ground arith in
    (
      ground arith,
      (
        known_side,
        ground arith,
        validate_order_shape-IsOrder ord_type side n known_side known_type shape,
        ground arith,
        ground arith,
        ground arith,
      ),
    )

abbrev pub Passes : NormalizedOrder → Type 0
Passes n =
    (has n.market ≡ true)
    × ((side : String) × (ord_type : String) × (identifier : String) × (n.side ≡ some side)
        × (n.ord_type ≡ some ord_type)
        × (n.identifier ≡ some identifier)
        × Accepted side ord_type identifier n)

check_order-Passes : (m : NormalizedOrder) {n : NormalizedOrder} → check_order m ≡ ok n → Passes n
unfolding check_order
check_order-Passes m {n} h =
    let (market, h1, has_market) = bind-returned (or_raise m.market missing_field) _ h in
    let (side, h2, has_side) = bind-returned (or_raise m.side missing_field) _ h1 in
    let (ord_type, h3, has_type) = bind-returned (or_raise m.ord_type missing_field) _ h2 in
    let (identifier, h4, has_identifier) =
      bind-returned (or_raise m.identifier missing_field) _ h3 in
    let (same, accepted) = check_fields-Accepted side ord_type identifier m h4 in
    subst Passes same (
      (rw (or_raise-returned m.market missing_field has_market) refl),
      (
        side,
        ord_type,
        identifier,
        or_raise-returned m.side missing_field has_side,
        or_raise-returned m.ord_type missing_field has_type,
        or_raise-returned m.identifier missing_field has_identifier,
        accepted,
      ),
    )

check_order-same : (m : NormalizedOrder) {n : NormalizedOrder} → check_order m ≡ ok n → m ≡ n
unfolding check_order
check_order-same m {n} h =
    let (market, h1, _) = bind-returned (or_raise m.market missing_field) _ h in
    let (side, h2, _) = bind-returned (or_raise m.side missing_field) _ h1 in
    let (ord_type, h3, _) = bind-returned (or_raise m.ord_type missing_field) _ h2 in
    let (identifier, h4, _) = bind-returned (or_raise m.identifier missing_field) _ h3 in
    (check_fields-Accepted side ord_type identifier m h4).0

-- An order whose payload passes the checks has a market, a known side and type, one of our
-- identifiers, the fields of its type, an allowed time in force and self-trade rule, and no self-trade
-- rule if it is post-only.
pub canonical_payload-Passes :
    (payload : OrderPayload) {n : NormalizedOrder} → canonical_payload payload ≡ ok n → Passes n
unfolding canonical_payload
canonical_payload-Passes payload {n} h =
    let passed : (normalize payload >>= check_order) ≡ ok n = ground arith in
    let (m, checked, _) = bind-returned (normalize payload) check_order passed in
    check_order-Passes m checked

-- The order's type decides which of the shapes is asked for.
IsOrder-validate_order_shape :
    (ord_type side : String) (n : NormalizedOrder)
    → IsOrder n side ord_type
    → (one_of ("limit" ∷ "price" ∷ "market" ∷ "best" ∷ []) ord_type ≡ true)
      × (validate_order_shape ord_type side n ≡ ok tt)
unfolding validate_order_shape
IsOrder-validate_order_shape ord_type side n (inl (limit, price, volume)) =
    let e = (eq_iff ord_type "limit").0 limit in rw e (refl, ground arith)
IsOrder-validate_order_shape ord_type side n
      (inr (inl (buy, bid, (price, volume), time_in_force))) =
    let e = (eq_iff ord_type "price").0 buy in rw e (refl, ground arith)
IsOrder-validate_order_shape ord_type side n
      (inr (inr (inl (sell, ask, (price, volume), time_in_force)))) =
    let e = (eq_iff ord_type "market").0 sell in rw e (refl, ground arith)
IsOrder-validate_order_shape ord_type side n
      (inr (inr (inr (best, time_in_force, inl (bid, (price, volume)))))) =
    let e = (eq_iff ord_type "best").0 best in
    let e' = (eq_iff side "bid").0 bid in rw (e, e') (refl, ground arith)
IsOrder-validate_order_shape ord_type side n
      (inr (inr (inr (best, time_in_force, inr (ask, (price, volume)))))) =
    let e = (eq_iff ord_type "best").0 best in
    let e' = (eq_iff side "ask").0 ask in rw (e, e') (refl, ground arith)

Accepted-check_fields :
    (side ord_type identifier : String) (n : NormalizedOrder)
    → Accepted side ord_type identifier n
    → check_fields side ord_type identifier n ≡ ok n
unfolding check_fields
Accepted-check_fields side ord_type identifier n
      (known_side, live, order, time_in_force, smp_type, post_only) =
    let (known_type, shape) = IsOrder-validate_order_shape ord_type side n order in
    rw (known_side, known_type, live, time_in_force, smp_type, post_only, shape) refl

has-some : (o : Option String) → has o ≡ true → (v : String) × (o ≡ some v)
has-some none h = cc
has-some (some v) h = (v, refl)

Passes-check_order : (n : NormalizedOrder) → Passes n → check_order n ≡ ok n
unfolding check_order
Passes-check_order n
      (market, (side, ord_type, identifier, has_side, has_type, has_identifier, accepted)) =
    let (m, there) = has-some n.market market in
    simp (there, has_side, has_type, has_identifier)
      (Accepted-check_fields side ord_type identifier n accepted)

-- A payload is accepted with this order exactly if it has known fields only, the order is what it is after
-- normalization, and the order has a market, a known side and type, one of our identifiers, the fields of its type, an
-- allowed time in force and self-trade rule, and no self-trade rule if it is post-only.
pub canonical_payload_iff :
    (payload : OrderPayload) (n : NormalizedOrder)
    → (canonical_payload payload ≡ ok n) ↔ (
        (any (λ entry. not (one_of field_order entry.0)) payload ≡ false)
        × (normalize payload ≡ ok n)
        × Passes n)
unfolding canonical_payload
canonical_payload_iff payload n = (
  (λ h.
      let (known, passed) = raise_if-returned _ _ _ h in
      let (m, checked, made) = bind-returned (normalize payload) check_order passed in
      let same = check_order-same m checked in
      (known, made ∙ ap ok same, check_order-Passes m checked)),
  (λ (known, made, passes). rw (known, made) (Passes-check_order n passes)),
)
