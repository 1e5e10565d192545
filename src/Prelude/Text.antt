-- ===== src/Prelude/Text.antt =====
-- What the sources use of `str`: `strip()` and its emptiness, over code points.
use Prim.Native.Char.{code}
use Prim.Native.String.{String}
use Prim.Native.Nat.{ℕ}
use mathlib.Core.Bool.{Bool, true, false, ◌&&◌, ◌||◌}
use mathlib.Core.Path.{◌≡◌, refl}
use native.Mathlib.Omega.{arith}
use mathlib.Core.Logic.{inl, inr}
use goodmoneying.Prelude.Tests.{leb, ◌==◌, Bool-cases}

-- `str.isspace` of one character.
abbrev pub is_space : ℕ → Bool
is_space c =
    leb 9 c && leb c 13
    || leb 28 c && leb c 32
    || c == 0x85
    || c == 0xa0
    || c == 0x1680
    || leb 0x2000 c && leb c 0x200a
    || c == 0x2028
    || c == 0x2029
    || c == 0x202f
    || c == 0x205f
    || c == 0x3000

-- `not text.strip()`
abbrev pub is_blank : String → Bool
is_blank String.[] = true
is_blank (String.◌∷◌ c s) = is_space (code c) && is_blank s

abbrev pub strip_left : String → String
strip_left String.[] = String.[]
strip_left (String.◌∷◌ c s) = elim (is_space (code c)) [
  | true ↦ strip_left s
  | false ↦ String.◌∷◌ c s
]

-- `text.rstrip()`: a suffix of white space goes.
abbrev pub strip_right : String → String
strip_right String.[] = String.[]
strip_right (String.◌∷◌ c s) = elim (is_blank (String.◌∷◌ c s)) [
  | true ↦ String.[]
  | false ↦ String.◌∷◌ c (strip_right s)
]

unfoldable pub strip : String → String
strip s = strip_right (strip_left s)

-- `btrim(text) = ''` of PostgreSQL: nothing but the character 32.
abbrev pub is_trimmed_away : String → Bool
is_trimmed_away String.[] = true
is_trimmed_away (String.◌∷◌ c s) = (code c == 32) && is_trimmed_away s

not_trimmed_away : (s : String) → is_blank s ≡ false → is_trimmed_away s ≡ false
not_trimmed_away String.[] h = cc
not_trimmed_away (String.◌∷◌ c s) h = elim (Bool-cases (code c == 32)) [
  | inl space ↦ ground (arith, h, space, not_trimmed_away s)
  | inr other ↦ rw other refl
]

strip_left-not_blank : (s : String) → is_blank s ≡ false → is_blank (strip_left s) ≡ false
strip_left-not_blank String.[] h = h
strip_left-not_blank (String.◌∷◌ c s) h = elim (Bool-cases (is_space (code c))) [
  | inl space ↦ ground (arith, h, space, strip_left-not_blank s)
  | inr other ↦ ground (arith, h, other)
]

strip_right-not_blank : (s : String) → is_blank s ≡ false → is_blank (strip_right s) ≡ false
strip_right-not_blank String.[] h = h
strip_right-not_blank (String.◌∷◌ c s) h = elim (Bool-cases (is_space (code c))) [
  | inl space ↦
      let rest : is_blank s ≡ false = rw space at h in
      ground (arith, space, rest, strip_right-not_blank s rest)
  | inr other ↦ ground (arith, other)
]

-- What is left of a text that is not blank is more than spaces.
pub strip-not_trimmed_away : (s : String) → is_blank s ≡ false → is_trimmed_away (strip s) ≡ false
unfolding strip
strip-not_trimmed_away s h =
    not_trimmed_away (strip s) (strip_right-not_blank (strip_left s) (strip_left-not_blank s h))
