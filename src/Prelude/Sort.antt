-- ===== src/Prelude/Sort.antt =====
-- `sorted(rows, key=…)`: a stable insertion sort by the order of the keys. `any` over a list does
-- not see its order.
use Prim.Native.Nat.{ℕ, ◌≤◌}
use mathlib.Core.Path.{◌≡◌, refl, ap, ◌∙◌}
use mathlib.Core.Logic.{inl, inr}
use mathlib.Core.Bool.{Bool, true, false, ◌&&◌, ◌||◌}
use mathlib.Core.List.{List, [], ◌∷◌, ◌++◌}
use native.Mathlib.Omega.{arith}
use goodmoneying.Prelude.Tests.{ltb, if◌then◌else◌, Bool-cases}
use goodmoneying.Prelude.Lists.{All, All-imp, any, keep}

module _ {ℓ} {A : Type ℓ} where
  pub any-append : (p : A → Bool) (xs ys : List A) → any p (xs ++ ys) ≡ (any p xs || any p ys)
  any-append p [] ys = refl
  any-append p (x ∷ xs) ys = ground (arith, any-append p xs ys)

  pub any-keep : (p q : A → Bool) (xs : List A) → any p (keep q xs) ≡ any (λ x. q x && p x) xs
  any-keep p q [] = refl
  any-keep p q (x ∷ xs) = ground (arith, any-keep p q xs)

  pub any-or : (p q : A → Bool) (xs : List A) → (any p xs || any q xs) ≡ any (λ x. p x || q x) xs
  any-or p q [] = refl
  any-or p q (x ∷ xs) = ground (arith, any-or p q xs)

  pub any-and : (b : Bool) (p : A → Bool) (xs : List A) → any (λ x. b && p x) xs ≡ (b && any p xs)
  any-and true p xs = refl
  any-and false p [] = refl
  any-and false p (x ∷ xs) = any-and false p xs

  -- Two tests that agree on every element of the list.
  pub any-congr : (p q : A → Bool) (xs : List A) → All (λ x. p x ≡ q x) xs → any p xs ≡ any q xs
  any-congr p q [] h = refl
  any-congr p q (x ∷ xs) h = ground (arith, any-congr p q xs h.1)

  -- `lt` is `<` on the keys.
  module _ (lt : A → A → Bool) where
    unfoldable pub insert_with : A → List A → List A
    insert_with a [] = a ∷ []
    insert_with a (x ∷ xs) = if lt x a then x ∷ insert_with a xs else a ∷ x ∷ xs

    unfoldable pub sort_with : List A → List A
    unfolding insert_with
    sort_with [] = []
    sort_with (x ∷ xs) = insert_with x (sort_with xs)

    any-insert_with :
        (p : A → Bool) (a : A) (xs : List A) → any p (insert_with a xs) ≡ (p a || any p xs)
    unfolding insert_with
    any-insert_with p a [] = refl
    any-insert_with p a (x ∷ xs) = ground (arith, any-insert_with p a xs)

    pub any-sort_with : (p : A → Bool) (xs : List A) → any p (sort_with xs) ≡ any p xs
    unfolding sort_with
    any-sort_with p [] = refl
    any-sort_with p (x ∷ xs) =
        any-insert_with p x (sort_with xs) ∙ ap (λ b. p x || b) (any-sort_with p xs)

    All-insert_with {κ} :
        (P : A → Type κ) (a : A) (xs : List A) → P a → All P xs → All P (insert_with a xs)
    unfolding insert_with
    All-insert_with P a [] h k = (h, tt)
    All-insert_with P a (x ∷ xs) h k = elim (Bool-cases (lt x a)) [
      | inl less ↦ rw less (k.0, All-insert_with P a xs h k.1)
      | inr not_less ↦ rw not_less (h, (k.0, k.1))
    ]

    pub All-sort_with {κ} : (P : A → Type κ) (xs : List A) → All P xs → All P (sort_with xs)
    unfolding sort_with
    All-sort_with P [] h = tt
    All-sort_with P (x ∷ xs) h = All-insert_with P x (sort_with xs) h.0 (All-sort_with P xs h.1)

    All-of_insert_with {κ} :
        (P : A → Type κ) (a : A) (xs : List A) → All P (insert_with a xs) → P a × All P xs
    unfolding insert_with
    All-of_insert_with P a [] h = h
    All-of_insert_with P a (x ∷ xs) h = elim (Bool-cases (lt x a)) [
      | inl less ↦
          let (first, rest) : P x × All P (insert_with a xs) = rw (less, insert_with) at h in
          let (mine, others) = All-of_insert_with P a xs rest in (mine, (first, others))
      | inr not_less ↦ let all_of : P a × All P (x ∷ xs) = rw (not_less, insert_with) at h in all_of
    ]

    pub All-of_sort_with {κ} : (P : A → Type κ) (xs : List A) → All P (sort_with xs) → All P xs
    unfolding sort_with
    All-of_sort_with P [] h = tt
    All-of_sort_with P (x ∷ xs) h =
        let (first, rest) = All-of_insert_with P x (sort_with xs) h in
        (first, All-of_sort_with P xs rest)

  -- In ascending order of the key.
  abbrev pub IsSorted : (A → ℕ) → List A → Type 0
  IsSorted key [] = Unit
  IsSorted key (x ∷ xs) = All (λ y. key x ≤ key y) xs × IsSorted key xs

  -- An order whose first part is the key.
  module _ (lt : A → A → Bool) (key : A → ℕ) (less : (a b : A) → lt a b ≡ true → key a ≤ key b)
      (not_less : (a b : A) → lt a b ≡ false → key b ≤ key a) where
    insert_with-IsSorted :
        (a : A) (xs : List A) → IsSorted key xs → IsSorted key (insert_with lt a xs)
    unfolding insert_with
    insert_with-IsSorted a [] h = (tt, tt)
    insert_with-IsSorted a (x ∷ xs) h = elim (Bool-cases (lt x a)) [
      | inl x_first ↦ rw x_first (
        All-insert_with lt (λ y. key x ≤ key y) a xs (less x a x_first) h.0,
        insert_with-IsSorted a xs h.1,
      )
      | inr a_first ↦
          let first = not_less x a a_first in
          rw a_first ((first, All-imp _ _ xs (λ y le. omega (arith, first, le)) h.0), h)
    ]

    pub sort_with-IsSorted : (xs : List A) → IsSorted key (sort_with lt xs)
    unfolding sort_with
    sort_with-IsSorted [] = tt
    sort_with-IsSorted (x ∷ xs) = insert_with-IsSorted x (sort_with lt xs) (sort_with-IsSorted xs)

  module _ (key : A → ℕ) where
    abbrev pub key_lt : A → A → Bool
    key_lt a b = ltb (key a) (key b)

    unfoldable pub sort_by : List A → List A
    unfolding sort_with
    sort_by = sort_with key_lt

    pub any-sort_by : (p : A → Bool) (xs : List A) → any p (sort_by xs) ≡ any p xs
    unfolding sort_by
    any-sort_by p xs = any-sort_with key_lt p xs

    pub All-sort_by : (P : A → Type 0) (xs : List A) → All P xs → All P (sort_by xs)
    unfolding sort_by
    All-sort_by P xs h = All-sort_with key_lt P xs h

    pub All-of_sort_by : (P : A → Type 0) (xs : List A) → All P (sort_by xs) → All P xs
    unfolding sort_by
    All-of_sort_by P xs h = All-of_sort_with key_lt P xs h

    pub sort_by-IsSorted : (xs : List A) → IsSorted key (sort_by xs)
    unfolding sort_by
    sort_by-IsSorted xs =
        sort_with-IsSorted key_lt key (λ a b h. ground arith) (λ a b h. ground arith) xs
