-- ===== src/Prelude/Results.antt =====
-- Python's exceptions as values: a call raises an error of the component's own type, or returns.
use mathlib.Core.Path.{◌≡◌, refl}
use mathlib.Core.Bool.{Bool, true, false}
use mathlib.Core.Option.{Option, none, some}

pub data Result {ℓ κ} (E : Type ℓ) (A : Type κ) : Type (ℓ ⊔ κ) where
  err : E → Result E A
  ok : A → Result E A

-- The sections of a function's body are chained; what follows a `raise` is not run.
infixl 5 ◌>>=◌ ◌>>◌
abbrev pub ◌>>=◌ {ℓ κ μ} :
    {E : Type ℓ} {A : Type κ} {B : Type μ} → Result E A → (A → Result E B) → Result E B
◌>>=◌ call next = elim call [ err e ↦ err e | ok a ↦ next a ]

abbrev pub ◌>>◌ {ℓ κ} : {E : Type ℓ} {B : Type κ} → Result E (Unit {0}) → Result E B → Result E B
◌>>◌ call next = elim call [ err e ↦ err e | ok _ ↦ next ]

-- `if b: raise e`
abbrev pub raise_if {ℓ} : {E : Type ℓ} → Bool → E → Result E (Unit {0})
raise_if true e = err e
raise_if false e = ok tt

abbrev pub or_raise {ℓ κ} : {E : Type ℓ} {A : Type κ} → Option A → E → Result E A
or_raise none e = err e
or_raise (some a) e = ok a

module _ {ℓ κ} {E : Type ℓ} {A : Type κ} where
  -- A chain that returned: its first call did, and then the rest.
  pub bind-returned {μ} :
      {B : Type μ} (call : Result E A) (next : A → Result E B) {b : B}
      → (call >>= next) ≡ ok b
      → (a : A) × (next a ≡ ok b) × (call ≡ ok a)
  bind-returned (err e) next returned = cc
  bind-returned (ok a) next returned = (a, returned, refl)

  pub or_raise-returned : (o : Option A) (e : E) {a : A} → or_raise o e ≡ ok a → o ≡ some a
  or_raise-returned none e returned = cc
  or_raise-returned (some b) e returned = cc

  -- What follows a test that did not raise.
  pub raise_if-returned :
      (b : Bool) (e : E) (next : Result E A) {a : A}
      → (raise_if b e >> next) ≡ ok a
      → (b ≡ false) × (next ≡ ok a)
  raise_if-returned true e next returned = cc
  raise_if-returned false e next returned = (refl, returned)

  pub ok-injective : {a b : A} → Path (Result E A) (ok a) (ok b) → a ≡ b
  ok-injective h = cc

  pub err-injective : {e f : E} → Path (Result E A) (err e) (err f) → e ≡ f
  err-injective h = cc
