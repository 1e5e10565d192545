-- ===== src/RateLimit/Keyed.antt =====
-- `dict` and `defaultdict` with texts as keys, as functions.
use Prim.Native.String.{String}
use mathlib.Core.Path.{◌≡◌, refl, sym, subst}
use mathlib.Core.Logic.{inl, inr}
use text.Mathlib.TextEquality.{eq_iff}
use text.Mathlib.Text.{◌==◌ as str_eq}
use text.Mathlib.TextPositions.{eq_refl as str_eq-refl}
use goodmoneying.Prelude.{false, if◌then◌else◌, Bool-cases}

module _ {ℓ} {A : Type ℓ} where
  unfoldable pub set : String → A → (String → A) → String → A
  set key value f k = if str_eq key k then value else f k

  pub set-same : (key : String) (value : A) (f : String → A) → set key value f key ≡ value
  unfolding set
  set-same key value f = rw (str_eq-refl key) refl

  pub set-other :
      (key k : String) (value : A) (f : String → A) → str_eq key k ≡ false → set key value f k ≡ f k
  unfolding set
  set-other key k value f h = rw h refl

  -- What holds of the new value under its key, and of the old values under the other keys.
  pub set-elim {κ} :
      (P : String → A → Type κ) (key : String) (value : A) (f : String → A)
      → P key value
      → ((k : String) → str_eq key k ≡ false → P k (f k))
      → (k : String) → P k (set key value f k)
  set-elim P key value f here there k = elim (Bool-cases (str_eq key k)) [
    | inl same ↦
        let e : key ≡ k = (eq_iff key k).0 same in
        subst (λ j. P j (set key value f j)) e (subst (P key) (sym (set-same key value f)) here)
    | inr other ↦ subst (P k) (sym (set-other key k value f other)) (there k other)
  ]
