-- ===== src/Reconcile/Fees.antt =====
-- packages/shared/goodmoneying_shared/upbit_rest_reconciliation.py: how the paid fee is divided among the trades.
use goodmoneying.Prelude.{
  Bool, true, false, not, Option, none, some, List, [], ◌∷◌, map, if◌then◌else◌,
}
use goodmoneying.Prelude.Results.{Result, ok, err, ◌>>=◌, ◌>>◌, raise_if, or_raise}
use goodmoneying.Prelude.Decimal.{is_zero, ◌+ᵈ◌, ◌-ᵈ◌, ◌*ᵈ◌, ◌/ᵈ◌}
use goodmoneying.Reconcile.{
  ReconcileError, invalid, invalid_operation, Amount, amount, unbounded, zero_amount, exceeds_zero,
}
use goodmoneying.Reconcile.Snapshot.{UpbitRestTradeSnapshot}

-- Decimals as the context computes them when infinity may occur. A finite result may be negative.
abbrev pub add : Amount → Amount → Amount
add (amount a) (amount b) = amount (a +ᵈ b)
add _ _ = unbounded

-- Infinity is subtracted only from itself: the assigned fees are infinite only if the paid one is.
abbrev pub subtract : Amount → Amount → Result ReconcileError Amount
subtract (amount a) (amount b) = ok (amount (a -ᵈ b))
subtract unbounded (amount b) = ok unbounded
subtract a unbounded = err invalid_operation

abbrev pub multiply : Amount → Amount → Result ReconcileError Amount
multiply (amount a) (amount b) = ok (amount (a *ᵈ b))
multiply (amount a) unbounded = if is_zero a then err invalid_operation else ok unbounded
multiply unbounded (amount b) = if is_zero b then err invalid_operation else ok unbounded
multiply unbounded unbounded = ok unbounded

-- The divisor is not 0.
abbrev pub divide : Amount → Amount → Result ReconcileError Amount
divide (amount a) (amount b) = ok (amount (a /ᵈ b))
divide (amount a) unbounded = ok zero_amount
divide unbounded (amount b) = ok unbounded
divide unbounded unbounded = err invalid_operation

-- `sum(funds)`
abbrev pub sum_from : Amount → List Amount → Amount
sum_from total [] = total
sum_from total (fund ∷ funds) = sum_from (add total fund) funds

abbrev pub with_fund : Option Amount → Option (List Amount) → Option (List Amount)
with_fund none rest = none
with_fund (some fund) none = none
with_fund (some fund) (some funds) = some (fund ∷ funds)

-- The funds of all trades, if each has them.
abbrev pub all_funds : List UpbitRestTradeSnapshot → Option (List Amount)
all_funds [] = some []
all_funds (t ∷ trades) = with_fund t.funds (all_funds trades)

-- The loop over the funds: each share is rounded, and the last one is what is left of the fee.
unfoldable pub shares : Amount → Amount → Amount → List Amount → Result ReconcileError (List Amount)
unfolding ◌+ᵈ◌ ◌-ᵈ◌ ◌*ᵈ◌ ◌/ᵈ◌
shares paid total assigned [] = ok []
shares paid total assigned (fund ∷ []) = do fee ← subtract paid assigned; ok (fee ∷ [])
shares paid total assigned (fund ∷ next ∷ funds) = do
  weighted ← multiply paid fund
  fee ← divide weighted total
  rest ← shares paid total (add assigned fee) (next ∷ funds)
  ok (fee ∷ rest)

abbrev pub is_zero_amount : Amount → Bool
is_zero_amount (amount d) = is_zero d
is_zero_amount unbounded = false

unfoldable pub share_among : Amount → List Amount → Result ReconcileError (List Amount)
unfolding shares ◌+ᵈ◌
share_among paid funds = do
  raise_if (not (exceeds_zero (some (sum_from zero_amount funds)))) invalid
  shares paid (sum_from zero_amount funds) zero_amount funds

unfoldable pub distributed_fees :
    Amount → List UpbitRestTradeSnapshot → Result ReconcileError (List Amount)
unfolding share_among
distributed_fees paid [] = ok []
distributed_fees paid (first ∷ []) = ok ((if is_zero_amount paid then zero_amount else paid) ∷ [])
distributed_fees paid (first ∷ second ∷ trades) =
    let zeros = map (λ _. zero_amount) (first ∷ second ∷ trades) in
    elim (is_zero_amount paid) [
      | true ↦ ok zeros
      | false ↦ or_raise (all_funds (first ∷ second ∷ trades)) invalid >>= share_among paid
    ]
