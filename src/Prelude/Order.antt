-- ===== src/Prelude/Order.antt =====
-- The order of texts by their code points, of tuples of texts, and sorting by it: lists that are
-- permutations of one another are sorted alike.
use Prim.Native.Nat.{compare, Ordering}
use Prim.Native.Char.{Char, code}
use Prim.Native.String.{String}
use mathlib.Core.Path.{◌≡◌, refl, subst, sym, ap, ◌∙◌}
use mathlib.Core.Logic.{inl, inr}
use mathlib.Core.Bool.{Bool, true, false, not, ◌&&◌, ◌||◌}
use mathlib.Core.List.{List, [], ◌∷◌, Memᴰ, Permᴰ}
use text.Mathlib.TextEquality.{codes_equal}
use native.Mathlib.Omega.{arith}
use goodmoneying.Prelude.Tests.{ltb, ◌==◌, Bool-cases}
use goodmoneying.Prelude.Sort.{insert_with, sort_with}

-- `s < t`
unfoldable pub str_lt : String → String → Bool
str_lt s String.[] = false
str_lt String.[] (String.◌∷◌ d t) = true
str_lt (String.◌∷◌ c s) (String.◌∷◌ d t) = ltb (code c) (code d) || (code c == code d) && str_lt s t

-- Tuples of texts, by the first place where they differ.
unfoldable pub texts_lt : List String → List String → Bool
unfolding str_lt
texts_lt ss [] = false
texts_lt [] (t ∷ ts) = true
texts_lt (s ∷ ss) (t ∷ ts) = str_lt s t || not (str_lt t s) && texts_lt ss ts

code_compare : (c d : Char) → code c ≡ code d → compare (code c) (code d) ≡ Ordering.eq
code_compare c d h = ground (arith, h)

level :
    (c d : Char) (s t : String)
    → (ltb (code c) (code d) || (code c == code d) && str_lt s t) ≡ false
    → (ltb (code d) (code c) || (code d == code c) && str_lt t s) ≡ false
    → (c ≡ d) × (str_lt s t ≡ false) × (str_lt t s ≡ false)
level c d s t h k =
    let same : code c ≡ code d = ground (arith, h, k) in
    (
      codes_equal c d (code_compare c d same),
      ground (arith, h, k, same),
      ground (arith, h, k, same),
    )

-- A total order, as a Boolean test.
pub record IsTotalOrder {ℓ} {A : Type ℓ} (lt : A → A → Bool) : Type ℓ where
  pub asym : (a b : A) → lt a b ≡ true → lt b a ≡ false
  pub trans : (a b c : A) → lt a b ≡ true → lt b c ≡ true → lt a c ≡ true
  pub connex : (a b : A) → lt a b ≡ false → lt b a ≡ false → a ≡ b

str_lt_asym : (s t : String) → str_lt s t ≡ true → str_lt t s ≡ false
unfolding str_lt
str_lt_asym s String.[] h = cc
str_lt_asym String.[] (String.◌∷◌ d t) h = refl
str_lt_asym (String.◌∷◌ c s) (String.◌∷◌ d t) h = ground (arith, str_lt_asym s t)

str_lt_trans : (r s t : String) → str_lt r s ≡ true → str_lt s t ≡ true → str_lt r t ≡ true
unfolding str_lt
str_lt_trans r String.[] t h k = cc
str_lt_trans r (String.◌∷◌ c s) String.[] h k = cc
str_lt_trans String.[] (String.◌∷◌ c s) (String.◌∷◌ d t) h k = refl
str_lt_trans (String.◌∷◌ b r) (String.◌∷◌ c s) (String.◌∷◌ d t) h k =
    ground (arith, str_lt_trans r s t)

str_lt_connex : (s t : String) → str_lt s t ≡ false → str_lt t s ≡ false → s ≡ t
unfolding str_lt
str_lt_connex String.[] String.[] h k = refl
str_lt_connex String.[] (String.◌∷◌ d t) h k = cc
str_lt_connex (String.◌∷◌ c s) String.[] h k = cc
str_lt_connex (String.◌∷◌ c s) (String.◌∷◌ d t) h k =
    let (first, s_t, t_s) = level c d s t h k in
    λ i. String.◌∷◌ (first i) (str_lt_connex s t s_t t_s i)

pub str_lt-IsTotalOrder : IsTotalOrder str_lt
str_lt-IsTotalOrder = record { asym = str_lt_asym; trans = str_lt_trans; connex = str_lt_connex }

pub not_less_trans {ℓ} :
    {A : Type ℓ} {lt : A → A → Bool}
    → IsTotalOrder lt
    → (a b c : A) → lt a b ≡ false
    → lt b c ≡ false
    → lt a c ≡ false
not_less_trans {lt = lt} order a b c h k = elim (Bool-cases (lt b a)) [
  | inr not_less ↦ subst (λ d. lt d c ≡ false) (sym (order.connex a b h not_less)) k
  | inl less ↦ elim (Bool-cases (lt c b)) [
    | inr not_less ↦ subst (λ d. lt a d ≡ false) (order.connex b c k not_less) h
    | inl less' ↦ order.asym c a (order.trans c b a less' less)
  ]
]

texts_lt_asym : (ss ts : List String) → texts_lt ss ts ≡ true → texts_lt ts ss ≡ false
unfolding texts_lt
texts_lt_asym ss [] h = cc
texts_lt_asym [] (t ∷ ts) h = refl
texts_lt_asym (s ∷ ss) (t ∷ ts) h =
    ground (arith, texts_lt_asym ss ts, str_lt_asym s t, str_lt_asym t s)

texts_lt_trans :
    (rs ss ts : List String) → texts_lt rs ss ≡ true → texts_lt ss ts ≡ true → texts_lt rs ts ≡ true
unfolding texts_lt
texts_lt_trans rs [] ts h k = cc
texts_lt_trans rs (s ∷ ss) [] h k = cc
texts_lt_trans [] (s ∷ ss) (t ∷ ts) h k = refl
texts_lt_trans (r ∷ rs) (s ∷ ss) (t ∷ ts) h k = ground (
  arith,
  texts_lt_trans rs ss ts,
  str_lt_trans r s t,
  str_lt_asym r t,
  str_lt_asym r s,
  str_lt_asym s t,
  not_less_trans str_lt-IsTotalOrder s r t,
  not_less_trans str_lt-IsTotalOrder r t s,
  not_less_trans str_lt-IsTotalOrder t s r,
  h,
  k,
)

texts_lt_connex : (ss ts : List String) → texts_lt ss ts ≡ false → texts_lt ts ss ≡ false → ss ≡ ts
unfolding texts_lt
texts_lt_connex [] [] h k = refl
texts_lt_connex [] (t ∷ ts) h k = cc
texts_lt_connex (s ∷ ss) [] h k = cc
texts_lt_connex (s ∷ ss) (t ∷ ts) h k =
    let first : s ≡ t = str_lt_connex s t (ground (arith, h)) (ground (arith, k)) in
    let s_t : str_lt s t ≡ false = ground (arith, h) in
    let t_s : str_lt t s ≡ false = ground (arith, k) in
    let rest : ss ≡ ts =
      texts_lt_connex ss ts (ground (arith, h, s_t, t_s)) (ground (arith, k, s_t, t_s)) in
    λ i. first i ∷ rest i

pub texts_lt-IsTotalOrder : IsTotalOrder texts_lt
texts_lt-IsTotalOrder = record {
  asym = texts_lt_asym;
  trans = texts_lt_trans;
  connex = texts_lt_connex;
}

module _ {ℓ} {A : Type ℓ} (key : A → List String) where
  -- `sorted(…, key=…)` by a tuple of texts
  unfoldable pub sort_by_texts : List A → List A
  sort_by_texts = sort_with (λ a b. texts_lt (key a) (key b))

  -- Elements of the list with one key are the same.
  abbrev pub IsKeyed : List A → Type ℓ
  IsKeyed xs = (a b : A) → Memᴰ a xs → Memᴰ b xs → key a ≡ key b → a ≡ b

  abbrev insert : A → List A → List A
  insert = insert_with (λ a b. texts_lt (key a) (key b))

  insert-past :
      (a x : A) (xs : List A)
      → texts_lt (key x) (key a) ≡ true
      → insert a (x ∷ xs) ≡ x ∷ insert a xs
  unfolding insert_with
  insert-past a x xs less = rw less refl

  insert-here :
      (a x : A) (xs : List A) → texts_lt (key x) (key a) ≡ false → insert a (x ∷ xs) ≡ a ∷ x ∷ xs
  unfolding insert_with
  insert-here a x xs not_less = rw not_less refl

  -- Of two elements with different keys, it does not matter which is inserted first.
  insert-insert_less :
      (a b : A) (xs : List A)
      → texts_lt (key a) (key b) ≡ true
      → insert a (insert b xs) ≡ insert b (insert a xs)
  unfolding insert_with
  insert-insert_less a b [] less =
      insert-here a b [] (texts_lt_asym (key a) (key b) less) ∙ sym (insert-past b a [] less)
  insert-insert_less a b (x ∷ xs) less = elim (Bool-cases (texts_lt (key x) (key a))) [
    | inl x_a ↦
        let x_b = texts_lt_trans (key x) (key a) (key b) x_a less in
        ap (insert a) (insert-past b x xs x_b)
        ∙ insert-past a x (insert b xs) x_a
        ∙ ap (λ l. x ∷ l) (insert-insert_less a b xs less)
        ∙ sym (insert-past b x (insert a xs) x_b)
        ∙ ap (insert b) (sym (insert-past a x xs x_a))
    | inr not_x_a ↦
        let right : insert b (insert a (x ∷ xs)) ≡ a ∷ insert b (x ∷ xs) =
          ap (insert b) (insert-here a x xs not_x_a) ∙ insert-past b a (x ∷ xs) less in
        elim (Bool-cases (texts_lt (key x) (key b))) [
          | inl x_b ↦
              ap (insert a) (insert-past b x xs x_b)
              ∙ insert-here a x (insert b xs) not_x_a
              ∙ ap (λ l. a ∷ l) (sym (insert-past b x xs x_b))
              ∙ sym right
          | inr not_x_b ↦
              ap (insert a) (insert-here b x xs not_x_b)
              ∙ insert-here a b (x ∷ xs) (texts_lt_asym (key a) (key b) less)
              ∙ ap (λ l. a ∷ l) (sym (insert-here b x xs not_x_b))
              ∙ sym right
        ]
  ]

  insert-insert :
      (a b : A) (xs : List A)
      → (key a ≡ key b → a ≡ b)
      → insert a (insert b xs) ≡ insert b (insert a xs)
  insert-insert a b xs keyed = elim (Bool-cases (texts_lt (key a) (key b))) [
    | inl less ↦ insert-insert_less a b xs less
    | inr not_less ↦ elim (Bool-cases (texts_lt (key b) (key a))) [
      | inl less ↦ sym (insert-insert_less b a xs less)
      | inr not_less' ↦
          let same = keyed (texts_lt_connex (key a) (key b) not_less not_less') in
          subst (λ c. insert a (insert c xs) ≡ insert c (insert a xs)) same refl
    ]
  ]

  Memᴰ-Permᴰ : {x : A} {xs ys : List A} → Permᴰ xs ys → Memᴰ x ys → Memᴰ x xs
  Memᴰ-Permᴰ Permᴰ.nil m = m
  Memᴰ-Permᴰ (Permᴰ.cons e p) (Memᴰ.head h) = Memᴰ.head (h ∙ sym e)
  Memᴰ-Permᴰ (Permᴰ.cons e p) (Memᴰ.tail m) = Memᴰ.tail (Memᴰ-Permᴰ p m)
  Memᴰ-Permᴰ (Permᴰ.swap e e') (Memᴰ.head h) = Memᴰ.tail (Memᴰ.head (h ∙ sym e'))
  Memᴰ-Permᴰ (Permᴰ.swap e e') (Memᴰ.tail (Memᴰ.head h)) = Memᴰ.head (h ∙ sym e)
  Memᴰ-Permᴰ (Permᴰ.swap e e') (Memᴰ.tail (Memᴰ.tail m)) = Memᴰ.tail (Memᴰ.tail m)
  Memᴰ-Permᴰ (Permᴰ.trans p q) m = Memᴰ-Permᴰ p (Memᴰ-Permᴰ q m)

  -- The order of a list whose elements have distinct keys does not matter.
  pub sort_by_texts-Permᴰ :
      {xs ys : List A} → IsKeyed xs → Permᴰ xs ys → sort_by_texts xs ≡ sort_by_texts ys
  unfolding sort_by_texts sort_with
  sort_by_texts-Permᴰ keyed Permᴰ.nil = refl
  sort_by_texts-Permᴰ keyed (Permᴰ.cons {a = a} {l₂ = rest} e p) =
      ap (insert a) (sort_by_texts-Permᴰ (λ x y m n. keyed x y (Memᴰ.tail m) (Memᴰ.tail n)) p)
      ∙ ap (λ c. insert c (sort_by_texts rest)) e
  sort_by_texts-Permᴰ keyed (Permᴰ.swap {a = a} {b = b} {l = l} e e') =
      insert-insert a b (sort_by_texts l) (keyed a b (Memᴰ.head refl) (Memᴰ.tail (Memᴰ.head refl)))
      ∙ (λ i. insert (e' i) (insert (e i) (sort_by_texts l)))
  sort_by_texts-Permᴰ keyed (Permᴰ.trans p q) =
      sort_by_texts-Permᴰ keyed p
      ∙ sort_by_texts-Permᴰ (λ x y m n. keyed x y (Memᴰ-Permᴰ p m) (Memᴰ-Permᴰ p n)) q
