-- ===== src/Strategy/Cycle/Rounds.antt =====
-- One round of `_has_cycle` in strategy_graph.py: what a node that is taken from the queue releases.
use Prim.Native.Nat.{◌+◌, ◌-◌, ◌≤◌}
use Prim.Native.String.{String}
use text.Mathlib.Text.{◌==◌ as str_eq}
use text.Mathlib.TextEquality.{eq_iff}
use text.Mathlib.TextPositions.{eq_refl as str_eq-refl}
use mathlib.Core.Path.{subst}
use mathlib.Core.Bool.{false≢true}
use goodmoneying.Prelude.{
  ℕ, zero, suc, Bool, true, false, ◌≡◌, refl, sym, ap, ◌∙◌, ◌⊎◌, inl, inr, List, [], ◌∷◌, ◌++◌,
  length, All, count, count-append, length-append, ◌==◌, if◌then◌else◌, Bool-cases, arith,
}
use goodmoneying.RateLimit.Keyed.{set, set-same, set-other, set-elim}
use goodmoneying.Strategy.Cycle.{release}

abbrev pub occurs : String → List String → ℕ
occurs v xs = count (λ x. str_eq x v) xs

-- The number of nodes that wait for nothing.
abbrev pub free : (String → ℕ) → List String → ℕ
free remaining nodes = count (λ v. remaining v == 0) nodes

pub str_eq_comm : (a b : String) → str_eq a b ≡ str_eq b a
str_eq_comm a b = elim (Bool-cases (str_eq a b)) [
  | inl same ↦ same ∙ sym ((eq_iff b a).1 (sym ((eq_iff a b).0 same)))
  | inr other ↦ elim (Bool-cases (str_eq b a)) [
    | inl same ↦ absurd (false≢true (sym other ∙ (eq_iff a b).1 (sym ((eq_iff b a).0 same))))
    | inr other' ↦ other ∙ sym other'
  ]
]

one_or_more : (m : ℕ) → 1 ≤ m → (m ≡ 1) ⊎ ((n : ℕ) × (m ≡ suc (suc n)))
one_or_more zero h = absurd (omega (arith, h))
one_or_more (suc zero) h = inl refl
one_or_more (suc (suc n)) h = inr (n, refl)

free-set-zero :
    (t : String) (r : String → ℕ) (xs : List String)
    → r t ≡ 1
    → free (set t 0 r) xs ≡ free r xs + occurs t xs
free-set-zero t r [] one = omega arith
free-set-zero t r (x ∷ xs) one =
    let rest = free-set-zero t r xs one in
    let flip = str_eq_comm x t in
    elim (Bool-cases (str_eq t x)) [
      | inl same ↦
          let e : t ≡ x = (eq_iff t x).0 same in
          let new : set t 0 r x ≡ 0 = subst (λ y. set t 0 r y ≡ 0) e (set-same t 0 r) in
          let old : r x ≡ 1 = ap r (sym e) ∙ one in ground (arith, rest, flip, same, new, old)
      | inr other ↦
          let kept : set t 0 r x ≡ r x = set-other t x 0 r other in
          ground (arith, rest, flip, other, kept)
    ]

free-set-suc :
    (t : String) (n : ℕ) (r : String → ℕ) (xs : List String)
    → r t ≡ suc (suc n)
    → free (set t (suc n) r) xs ≡ free r xs
free-set-suc t n r [] more = omega arith
free-set-suc t n r (x ∷ xs) more =
    let rest = free-set-suc t n r xs more in
    elim (Bool-cases (str_eq t x)) [
      | inl same ↦
          let e : t ≡ x = (eq_iff t x).0 same in
          let new : set t (suc n) r x ≡ suc n =
            subst (λ y. set t (suc n) r y ≡ suc n) e (set-same t (suc n) r) in
          let old : r x ≡ suc (suc n) = ap r (sym e) ∙ more in ground (arith, rest, new, old)
      | inr other ↦
          let kept : set t (suc n) r x ≡ r x = set-other t x (suc n) r other in
          ground (arith, rest, kept)
    ]

-- The queue and the visited nodes are the nodes that wait for nothing, each of them once.
pub record Stands (nodes done : List String) (remaining : String → ℕ) (ready : List String)
    (visited : ℕ) : Type 0 where
  pub listed :
      (v : String)
      → occurs v ready + occurs v done ≡ (if remaining v == 0 then occurs v nodes else 0)
  pub counted : visited + length ready ≡ free remaining nodes

module _ (nodes done : List String) (visited : ℕ) (rest : String → ℕ) where
  -- A target that waited for one node more is ready now.
  Stands-freed :
      (t : String) (remaining : String → ℕ) (ready : List String)
      → remaining t ≡ 1
      → occurs t nodes ≡ 1
      → Stands nodes done remaining ready visited
      → Stands nodes done (set t 0 remaining) (ready ++ t ∷ []) visited
  Stands-freed t remaining ready one known stands = record {
    listed =
        set-elim
          (λ v r.
            occurs v (ready ++ t ∷ []) + occurs v done ≡ (if r == 0 then occurs v nodes else 0))
          t 0 remaining
          (let refl_t = str_eq-refl t in
            ground (
              arith,
              refl_t,
              known,
              one,
              stands.listed t,
              count-append (λ x. str_eq x t) ready (t ∷ []),
            ))
          (λ v other.
            ground (arith, other, stands.listed v, count-append (λ x. str_eq x v) ready (t ∷ [])));
    counted = omega (
      arith,
      stands.counted,
      length-append ready (t ∷ []),
      free-set-zero t remaining nodes one,
      known,
    );
  }

  Stands-waiting :
      (t : String) (n : ℕ) (remaining : String → ℕ) (ready : List String)
      → remaining t ≡ suc (suc n)
      → Stands nodes done remaining ready visited
      → Stands nodes done (set t (suc n) remaining) ready visited
  Stands-waiting t n remaining ready more stands = record {
    listed =
        set-elim (λ v r. occurs v ready + occurs v done ≡ (if r == 0 then occurs v nodes else 0)) t
          (suc n) remaining (ground (arith, more, stands.listed t)) (λ v other. stands.listed v);
    counted = stands.counted ∙ sym (free-set-suc t n remaining nodes more);
  }

  module _ (targets : String → List String) where
    abbrev pub Released : List String → (String → ℕ) → List String → Type 0
    Released ts remaining ready =
        ((v : String) → (release targets ts remaining ready).0 v ≡ rest v)
        × Stands nodes done (release targets ts remaining ready).0
            (release targets ts remaining ready).1 visited

    -- The loop's step, by what becomes of the count of the target and of the test on it.
    Released-step :
        (t : String) (ts : List String) (remaining : String → ℕ) (ready : List String) (n : ℕ)
        (b : Bool)
        → remaining t - 1 ≡ n
        → (remaining t == 1) ≡ b
        → Released ts (set t n remaining) (if b then ready ++ t ∷ [] else ready)
        → Released (t ∷ ts) remaining ready
    unfolding release
    Released-step t ts remaining ready n b count_is test_is h =
        subst
          (λ k.
            Released ts (set t k remaining) (if remaining t == 1 then ready ++ t ∷ [] else ready))
          (sym count_is)
          (subst (λ c. Released ts (set t n remaining) (if c then ready ++ t ∷ [] else ready))
            (sym test_is) h)

    waits-set :
        (t : String) (ts : List String) (remaining : String → ℕ) (n : ℕ)
        → remaining t ≡ suc n
        → ((v : String) → remaining v ≡ occurs v (t ∷ ts) + rest v)
        → (v : String) → set t n remaining v ≡ occurs v ts + rest v
    waits-set t ts remaining n more waits =
        set-elim (λ v r. r ≡ occurs v ts + rest v) t n remaining
          (ground (arith, waits t, more, str_eq-refl t)) (λ v other. ground (arith, waits v, other))

    -- `rest` is what the nodes wait for once all the targets are released.
    pub release-Released :
        (ts : List String) (remaining : String → ℕ) (ready : List String)
        → All (λ t. occurs t nodes ≡ 1) ts
        → ((v : String) → remaining v ≡ occurs v ts + rest v)
        → Stands nodes done remaining ready visited
        → Released ts remaining ready
    unfolding release
    release-Released [] remaining ready known waits stands = (λ v. omega (arith, waits v), stands)
    release-Released (t ∷ ts) remaining ready known waits stands =
        let here : 1 ≤ remaining t = ground (arith, waits t, str_eq-refl t) in
        elim (one_or_more (remaining t) here) [
          | inl one ↦
              Released-step t ts remaining ready 0 true (omega (arith, one)) (ground (arith, one)) (
                release-Released ts (set t 0 remaining) (ready ++ t ∷ []) known.1
                  (waits-set t ts remaining 0 one waits)
                  (Stands-freed t remaining ready one known.0 stands))
          | inr (n, more) ↦
              Released-step t ts remaining ready (suc n) false (omega (arith, more))
                (ground (arith, more))
                (release-Released ts (set t (suc n) remaining) ready known.1
                  (waits-set t ts remaining (suc n) more waits)
                  (Stands-waiting t n remaining ready more stands))
        ]
