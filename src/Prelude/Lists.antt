-- ===== src/Prelude/Lists.antt =====
-- Lists measured by native numbers, predicates on them by recursion, and a Boolean filter.
use Prim.Native.Nat.{ℕ, suc, ◌+◌, ◌≤◌}
use mathlib.Core.Path.{◌≡◌, refl, sym, ap, ◌∙◌, subst}
use mathlib.Core.Logic.{◌⊎◌, inl, inr}
use mathlib.Core.Bool.{Bool, true, false, ◌||◌, false≢true}
use mathlib.Core.List.{List, [], ◌∷◌, ◌++◌, Memᴰ}
use mathlib.Core.Option.{Option, none, some}
use native.Mathlib.Omega.{arith}
use goodmoneying.Prelude.Tests.{if◌then◌else◌, Bool-cases}

module _ {ℓ} {A : Type ℓ} where
  abbrev pub length : List A → ℕ
  length [] = 0
  length (x ∷ xs) = suc (length xs)

  -- `not items`
  abbrev pub is_empty : List A → Bool
  is_empty [] = true
  is_empty (_ ∷ _) = false

  -- A conjunction over the elements, which the tactics read as a tuple.
  abbrev pub All {κ} : (A → Type κ) → List A → Type κ
  All P [] = Unit
  All P (x ∷ xs) = P x × All P xs

  abbrev pub any : (A → Bool) → List A → Bool
  any p [] = false
  any p (x ∷ xs) = p x || any p xs

  -- The elements that pass a Boolean test, in their order.
  abbrev pub keep : (A → Bool) → List A → List A
  keep p [] = []
  keep p (x ∷ xs) = if p x then x ∷ keep p xs else keep p xs

  abbrev pub find : (A → Bool) → List A → Option A
  find p [] = none
  find p (x ∷ xs) = if p x then some x else find p xs

  abbrev pub count : (A → Bool) → List A → ℕ
  count p [] = 0
  count p (x ∷ xs) = if p x then suc (count p xs) else count p xs

  pub count-append : (p : A → Bool) (xs ys : List A) → count p (xs ++ ys) ≡ count p xs + count p ys
  count-append p [] ys = omega arith
  count-append p (x ∷ xs) ys = ground (arith, count-append p xs ys)

  pub count_le_length : (p : A → Bool) (xs : List A) → count p xs ≤ length xs
  count_le_length p [] = omega arith
  count_le_length p (x ∷ xs) = ground (arith, count_le_length p xs)

  pub count-imp :
      (p q : A → Bool) (xs : List A) → ((x : A) → p x ≡ true → q x ≡ true) → count p xs ≤ count q xs
  count-imp p q [] h = omega arith
  count-imp p q (x ∷ xs) h = ground (arith, count-imp p q xs h, h x)

  pub length-append : (xs ys : List A) → length (xs ++ ys) ≡ length xs + length ys
  length-append [] ys = omega arith
  length-append (x ∷ xs) ys = omega (arith, length-append xs ys)

  pub All-append {κ} : (P : A → Type κ) (xs ys : List A) → All P xs → All P ys → All P (xs ++ ys)
  All-append P [] ys hx hy = hy
  All-append P (x ∷ xs) ys hx hy = (hx.0, All-append P xs ys hx.1 hy)

  pub length-keep : (p : A → Bool) (xs : List A) → length (keep p xs) ≤ length xs
  length-keep p [] = omega arith
  length-keep p (x ∷ xs) = ground (arith, length-keep p xs)

module _ {ℓ} {A : Type ℓ} (p : A → Bool) where
  mem_if :
      {x y : A} {ys : List A} (b : Bool)
      → Memᴰ x (if b then y ∷ ys else ys)
      → ((x ≡ y) × (b ≡ true)) ⊎ Memᴰ x ys
  mem_if true (Memᴰ.head e) = inl (e, refl)
  mem_if true (Memᴰ.tail m) = inr m
  mem_if false m = inr m

  pub Memᴰ-keep : {x : A} (xs : List A) → Memᴰ x (keep p xs) → Memᴰ x xs × (p x ≡ true)
  Memᴰ-keep [] m = elim m [ ]
  Memᴰ-keep (y ∷ ys) m = elim (mem_if (p y) m) [
    | inl (e, h) ↦ (Memᴰ.head e, ap p e ∙ h)
    | inr rest ↦ (Memᴰ.tail (Memᴰ-keep ys rest).0, (Memᴰ-keep ys rest).1)
  ]

  -- What holds of all kept elements holds of all that pass the test.
  pub All-of_keep {κ} :
      (P : A → Type κ) (xs : List A) → All P (keep p xs) → All (λ x. p x ≡ true → P x) xs
  All-of_keep P [] h = tt
  All-of_keep P (x ∷ xs) h = elim (Bool-cases (p x)) [
    | inl passed ↦
        let h' : P x × All P (keep p xs) = rw (passed, keep) at h in
        (λ _. h'.0, All-of_keep P xs h'.1)
    | inr failed ↦
        let h' : All P (keep p xs) = rw (failed, keep) at h in
        (λ passed. absurd (false≢true (sym failed ∙ passed)), All-of_keep P xs h')
  ]

  pub keep-eq-nil : (xs : List A) → keep p xs ≡ [] → All (λ x. p x ≡ false) xs
  keep-eq-nil [] h = tt
  keep-eq-nil (x ∷ xs) h = ground (arith, keep-eq-nil xs)

module _ {ℓ} {A : Type ℓ} where
  pub All-imp {κ μ} :
      (P : A → Type κ) (Q : A → Type μ) (xs : List A) → ((x : A) → P x → Q x) → All P xs → All Q xs
  All-imp P Q [] f h = tt
  All-imp P Q (x ∷ xs) f h = (f x h.0, All-imp P Q xs f h.1)

  pub All-both {κ μ} :
      (P : A → Type κ) (Q : A → Type μ) (xs : List A)
      → All P xs
      → All Q xs
      → All (λ x. P x × Q x) xs
  All-both P Q [] h k = tt
  All-both P Q (x ∷ xs) h k = ((h.0, k.0), All-both P Q xs h.1 k.1)

  pub All-always {κ} : (P : A → Type κ) (xs : List A) → ((x : A) → P x) → All P xs
  All-always P [] f = tt
  All-always P (x ∷ xs) f = (f x, All-always P xs f)

  pub All-mem {κ} : (P : A → Type κ) {x : A} (xs : List A) → All P xs → Memᴰ x xs → P x
  All-mem P [] h m = elim m [ ]
  All-mem P (y ∷ ys) h (Memᴰ.head e) = subst P (sym e) h.0
  All-mem P (y ∷ ys) h (Memᴰ.tail m) = All-mem P ys h.1 m

  -- `find` gives an element of the list that passes the test.
  pub find-some :
      (p : A → Bool) (xs : List A) {x : A} → find p xs ≡ some x → Memᴰ x xs × (p x ≡ true)
  find-some p [] h = cc
  find-some p (y ∷ ys) {x} h = elim (Bool-cases (p y)) [
    | inl passes ↦ let e : y ≡ x = ground arith in (Memᴰ.head (sym e), ap p (sym e) ∙ passes)
    | inr fails ↦
        let rest : find p ys ≡ some x = rw (fails, find) at h in
        let (m, q) = find-some p ys rest in (Memᴰ.tail m, q)
  ]

  pub find-none : (p : A → Bool) (xs : List A) → All (λ x. p x ≡ false) xs → find p xs ≡ none
  find-none p [] h = refl
  find-none p (x ∷ xs) h = ground (arith, find-none p xs h.1)

  pub find-eq-none : (p : A → Bool) (xs : List A) → find p xs ≡ none → All (λ x. p x ≡ false) xs
  find-eq-none p [] h = tt
  find-eq-none p (x ∷ xs) h = ground (arith, find-eq-none p xs)
