-- ===== src/Prelude/Query.antt =====
-- `SELECT … WHERE p ORDER BY … LIMIT 1`, with the order as a Boolean test `before a b`: row `a` is
-- listed strictly before row `b`.
use mathlib.Core.Path.{◌≡◌, refl, subst, ◌∙◌}
use mathlib.Core.Logic.{◌⊎◌, inl, inr}
use mathlib.Core.Bool.{Bool, true, false}
use mathlib.Core.Option.{Option, none, some}
use mathlib.Core.List.{List, [], ◌∷◌, Memᴰ}
use goodmoneying.Prelude.Tests.{if◌then◌else◌, Bool-cases}
use goodmoneying.Prelude.Lists.{All, keep, Memᴰ-keep, All-of_keep, keep-eq-nil}

-- A strict weak order, as SQL's comparison of keys is.
pub record IsRowOrder {ℓ} {A : Type ℓ} (before : A → A → Bool) : Type ℓ where
  pub irrefl : (a : A) → before a a ≡ false
  pub asym : (a b : A) → before a b ≡ true → before b a ≡ false
  pub trans : (a b c : A) → before b a ≡ false → before c b ≡ false → before c a ≡ false

module _ {ℓ} {A : Type ℓ} (before : A → A → Bool) where
  unfoldable pub pick : A → A → A
  pick a b = if before b a then b else a

  unfoldable pub first_from : A → List A → A
  unfolding pick
  first_from best [] = best
  first_from best (r ∷ rows) = first_from (pick best r) rows

  unfoldable pub first_by : List A → Option A
  unfolding first_from
  first_by [] = none
  first_by (r ∷ rows) = some (first_from r rows)

  unfoldable pub select_first : (A → Bool) → List A → Option A
  unfolding first_by
  select_first p table = first_by (keep p table)

-- `r` is a row of the table that passes the test, and no row that passes stands before it.
pub record IsFirst {ℓ} {A : Type ℓ} (before : A → A → Bool) (p : A → Bool) (table : List A) (r : A)
    : Type ℓ where
  pub listed : Memᴰ r table
  pub passes : p r ≡ true
  pub unbeaten : All (λ s. p s ≡ true → before s r ≡ false) table

listed_either {ℓ} :
    {A : Type ℓ} {x c a b : A} {rows : List A}
    → (c ≡ a) ⊎ (c ≡ b)
    → Memᴰ x (c ∷ rows)
    → Memᴰ x (a ∷ b ∷ rows)
listed_either (inl e) (Memᴰ.head h) = Memᴰ.head (h ∙ e)
listed_either (inr e) (Memᴰ.head h) = Memᴰ.tail (Memᴰ.head (h ∙ e))
listed_either _ (Memᴰ.tail m) = Memᴰ.tail (Memᴰ.tail m)

module _ {ℓ} {A : Type ℓ} (before : A → A → Bool) where
  pick_cases : (a b : A) → (pick before a b ≡ a) ⊎ (pick before a b ≡ b)
  unfolding pick
  pick_cases a b = elim (Bool-cases (before b a)) [
    | inl earlier ↦ inr (rw earlier)
    | inr kept ↦ inl (rw kept)
  ]

  first_from_listed : (best : A) (rows : List A) → Memᴰ (first_from before best rows) (best ∷ rows)
  unfolding first_from
  first_from_listed best [] = Memᴰ.head refl
  first_from_listed best (r ∷ rows) =
      listed_either (pick_cases best r) (first_from_listed (pick before best r) rows)

  first_by-none : (rows : List A) → first_by before rows ≡ none → rows ≡ []
  unfolding first_by
  first_by-none [] h = refl
  first_by-none (a ∷ rows) h = cc

  -- No row is selected only if none passes the test.
  pub select_first-none :
      (p : A → Bool) (table : List A)
      → select_first before p table ≡ none
      → All (λ s. p s ≡ false) table
  unfolding select_first
  select_first-none p table h = keep-eq-nil p table (first_by-none (keep p table) h)

module _ {ℓ} {A : Type ℓ} {before : A → A → Bool} (order : IsRowOrder before) where
  pick_unbeaten :
      (a b : A) → (before a (pick before a b) ≡ false) × (before b (pick before a b) ≡ false)
  unfolding pick
  pick_unbeaten a b = elim (Bool-cases (before b a)) [
    | inl earlier ↦ rw earlier (order.asym b a earlier, order.irrefl b)
    | inr kept ↦ rw kept (order.irrefl a, kept)
  ]

  first_from_old : (best : A) (rows : List A) → before best (first_from before best rows) ≡ false
  unfolding first_from
  first_from_old best [] = order.irrefl best
  first_from_old best (r ∷ rows) =
      order.trans (first_from before (pick before best r) rows) (pick before best r) best
        (first_from_old (pick before best r) rows) (pick_unbeaten best r).0

  first_from_unbeaten :
      (best : A) (rows : List A) → All (λ s. before s (first_from before best rows) ≡ false) rows
  unfolding first_from
  first_from_unbeaten best [] = tt
  first_from_unbeaten best (r ∷ rows) = (
    order.trans (first_from before (pick before best r) rows) (pick before best r) r
        (first_from_old (pick before best r) rows) (pick_unbeaten best r).1,
    first_from_unbeaten (pick before best r) rows,
  )

  first_by_best :
      (rows : List A) {r : A}
      → first_by before rows ≡ some r
      → Memᴰ r rows × All (λ s. before s r ≡ false) rows
  unfolding first_by
  first_by_best [] h = cc
  first_by_best (a ∷ rows) {r} h =
      let e : first_from before a rows ≡ r = cc in
      subst (λ t. Memᴰ t (a ∷ rows) × All (λ s. before s t ≡ false) (a ∷ rows)) e
        (first_from_listed before a rows, (first_from_old a rows, first_from_unbeaten a rows))

  -- The selected row is a first one of those that pass the test.
  pub select_first-IsFirst :
      (p : A → Bool) (table : List A) {r : A}
      → select_first before p table ≡ some r
      → IsFirst before p table r
  unfolding select_first
  select_first-IsFirst p table {r} h =
      let (kept, best) = first_by_best (keep p table) h in
      let (there, passes) = Memᴰ-keep p table kept in
      record {
        listed = there;
        passes = passes;
        unbeaten = All-of_keep p (λ s. before s r ≡ false) table best;
      }
