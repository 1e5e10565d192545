-- ===== src/Reconcile/Fills.antt =====
-- The fills of a snapshot in upbit_rest_reconciliation.py: one for each trade, with a share of the fee.
use Prim.Native.Nat.{◌+◌, ◌<◌}
use goodmoneying.Prelude.{
  ℕ, zero, suc, ◌≡◌, ◌≤◌, refl, sym, ap, ◌∙◌, inl, inr, Option, none, some, List, [], ◌∷◌, map,
  length, Bool-cases, arith,
}
use goodmoneying.Prelude.Results.{
  ok, ◌>>=◌, or_raise, bind-returned, raise_if-returned, or_raise-returned, ok-injective,
}
use goodmoneying.Reconcile.{invalid, Amount, zero_amount}
use goodmoneying.Reconcile.Snapshot.{UpbitRestTradeSnapshot, UpbitRestOrderSnapshot}
use goodmoneying.Reconcile.Request.{element, Fill, fill_of, fills_from, reconciliation_fills}
use goodmoneying.Reconcile.Fees.{
  with_fund, all_funds, shares, share_among, distributed_fees, subtract, multiply, divide,
  is_zero_amount, sum_from, add,
}

-- A call that returns a list of the given length, or raises.
length-shares :
    (paid total assigned : Amount) (funds : List Amount) {fees : List Amount}
    → shares paid total assigned funds ≡ ok fees
    → length fees ≡ length funds
unfolding shares
length-shares paid total assigned [] h = sym (ap length (ok-injective h))
length-shares paid total assigned (fund ∷ []) h =
    let (fee, made, _) = bind-returned (subtract paid assigned) _ h in
    sym (ap length (ok-injective made))
length-shares paid total assigned (fund ∷ next ∷ funds) h =
    let (weighted, h1, _) = bind-returned (multiply paid fund) _ h in
    let (fee, h2, _) = bind-returned (divide weighted total) _ h1 in
    let (rest, made, rest_made) =
      bind-returned (shares paid total (add assigned fee) (next ∷ funds)) _ h2 in
    omega (
      arith,
      length-shares paid total (add assigned fee) (next ∷ funds) rest_made,
      ap length (ok-injective made),
    )

with_fund-some :
    (fund : Option Amount) (rest : Option (List Amount)) {funds : List Amount}
    → with_fund fund rest ≡ some funds
    → (later : List Amount) × (rest ≡ some later) × (length funds ≡ suc (length later))
with_fund-some none rest h = cc
with_fund-some (some fund) none h = cc
with_fund-some (some fund) (some later) {funds} h =
    let e : fund ∷ later ≡ funds = cc in (later, refl, sym (ap length e))

length-all_funds :
    (trades : List UpbitRestTradeSnapshot) {funds : List Amount}
    → all_funds trades ≡ some funds
    → length funds ≡ length trades
length-all_funds [] {funds} h = let e : [] ≡ funds = cc in sym (ap length e)
length-all_funds (t ∷ trades) h =
    let (later, rest, longer) = with_fund-some t.funds (all_funds trades) h in
    omega (arith, longer, length-all_funds trades rest)

length-map :
    (trades : List UpbitRestTradeSnapshot) → length (map (λ _. zero_amount) trades) ≡ length trades
length-map [] = refl
length-map (t ∷ trades) = omega (arith, length-map trades)

length-distributed_fees :
    (paid : Amount) (trades : List UpbitRestTradeSnapshot) {fees : List Amount}
    → distributed_fees paid trades ≡ ok fees
    → length fees ≡ length trades
unfolding distributed_fees share_among
length-distributed_fees paid [] h = sym (ap length (ok-injective h))
length-distributed_fees paid (t ∷ []) h = sym (ap length (ok-injective h))
length-distributed_fees paid (t ∷ u ∷ trades) {fees} h = elim (Bool-cases (is_zero_amount paid)) [
  | inl free ↦
      let made : ok (map (λ _. zero_amount) (t ∷ u ∷ trades)) ≡ ok fees =
        rw (free, distributed_fees) at h in
      sym (ap length (ok-injective made)) ∙ length-map (t ∷ u ∷ trades)
  | inr charged ↦
      let shared : (or_raise (all_funds (t ∷ u ∷ trades)) invalid >>= share_among paid) ≡ ok fees =
        rw (charged, distributed_fees) at h in
      let (funds, later, found) =
        bind-returned (or_raise (all_funds (t ∷ u ∷ trades)) invalid) (share_among paid) shared in
      let (_, made) =
        raise_if-returned _ invalid (shares paid (sum_from zero_amount funds) zero_amount funds)
          later in
      length-shares paid (sum_from zero_amount funds) zero_amount funds made
      ∙ length-all_funds (t ∷ u ∷ trades)
          (or_raise-returned (all_funds (t ∷ u ∷ trades)) invalid found)
]

element-some {ℓ} :
    {A : Type ℓ} (n : ℕ) (xs : List A) → n < length xs → (a : A) × (element n xs ≡ some a)
element-some n [] h = absurd (omega (arith, h))
element-some zero (x ∷ xs) h = (x, refl)
element-some (suc n) (x ∷ xs) h = element-some n xs (omega (arith, h))

-- A fill says what its trade says, and comes in its place.
abbrev pub Matches : ℕ → Fill → UpbitRestTradeSnapshot → Type 0
Matches n fill t =
    (fill.fill_sequence ≡ n)
    × (fill.side ≡ t.side)
    × (fill.filled_quantity ≡ t.volume)
    × (fill.fill_price ≡ t.price)
    × (fill.occurred_at ≡ t.occurred_at)

abbrev pub AllMatch : ℕ → List Fill → List UpbitRestTradeSnapshot → Type 0
AllMatch n [] [] = Unit
AllMatch n (fill ∷ fills) (t ∷ trades) = Matches (suc n) fill t × AllMatch (suc n) fills trades
AllMatch n _ _ = ⊥

-- With enough fees the loop returns.
fills_from-AllMatch :
    (s : UpbitRestOrderSnapshot) (fees : List Amount) (n : ℕ) (trades : List UpbitRestTradeSnapshot)
    → n + length trades ≤ length fees
    → (fills : List Fill) × (fills_from s fees n trades ≡ ok fills) × AllMatch n fills trades
unfolding fills_from
fills_from-AllMatch s fees n [] h = ([], refl, tt)
fills_from-AllMatch s fees n (t ∷ trades) h =
    let (fee, found) = element-some n fees (omega (arith, h)) in
    let (fills, made, matches) = fills_from-AllMatch s fees (suc n) trades (omega (arith, h)) in
    (
      fill_of s (suc n) t fee ∷ fills,
      rw (found, made) refl,
      ((refl, refl, refl, refl, refl), matches),
    )

-- Once the fees are distributed, there is a fill for each trade: no index is out of range.
pub reconciliation_fills-AllMatch :
    (s : UpbitRestOrderSnapshot) {fees : List Amount}
    → distributed_fees s.paid_fee s.trades ≡ ok fees
    → (fills : List Fill) × (reconciliation_fills s ≡ ok fills) × AllMatch 0 fills s.trades
unfolding reconciliation_fills
reconciliation_fills-AllMatch s {fees} h =
    let (fills, made, matches) =
      fills_from-AllMatch s fees 0 s.trades
        (omega (arith, length-distributed_fees s.paid_fee s.trades h)) in
    (fills, rw h made, matches)
