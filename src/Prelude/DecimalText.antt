-- ===== src/Prelude/DecimalText.antt =====
-- `Decimal(text)`: white space around the text and underscores do not count, nor does case. A digit is
-- any of Unicode's decimal digits. The limits on exponents are left out.
use Prim.Native.Nat.{ℕ, zero, suc, ◌+◌, ◌-◌, ◌*◌, ◌^◌}
use Prim.Native.Char.{code}
use Prim.Native.String.{String}
use mathlib.Core.Bool.{Bool, true, false, ◌&&◌, ◌||◌}
use mathlib.Core.List.{List, [], ◌∷◌}
use mathlib.Core.Option.{Option, none, some}
use goodmoneying.Prelude.Tests.{leb, ltb, ◌==◌, if◌then◌else◌}
use goodmoneying.Prelude.Lists.{find}
use goodmoneying.Prelude.Int.{ℤ, pos}
use goodmoneying.Prelude.Decimal.{Decimal, negative}
use goodmoneying.Prelude.Text.{strip}

pub data Number : Type 0 where
  finite : Decimal → Number
  infinite : Bool → Number
  nan : Number

-- The zeros of the decimal digits of Unicode 15, each followed by the other nine.
abbrev zeros : List ℕ
zeros =
    0x30 ∷ 0x660 ∷ 0x6f0 ∷ 0x7c0 ∷ 0x966 ∷ 0x9e6 ∷ 0xa66 ∷ 0xae6 ∷ 0xb66 ∷ 0xbe6 ∷ 0xc66 ∷ 0xce6
    ∷ 0xd66 ∷ 0xde6 ∷ 0xe50 ∷ 0xed0 ∷ 0xf20 ∷ 0x1040 ∷ 0x1090 ∷ 0x17e0 ∷ 0x1810 ∷ 0x1946 ∷ 0x19d0
    ∷ 0x1a80 ∷ 0x1a90 ∷ 0x1b50 ∷ 0x1bb0 ∷ 0x1c40 ∷ 0x1c50 ∷ 0xa620 ∷ 0xa8d0 ∷ 0xa900 ∷ 0xa9d0
    ∷ 0xa9f0 ∷ 0xaa50 ∷ 0xabf0 ∷ 0xff10 ∷ 0x104a0 ∷ 0x10d30 ∷ 0x11066 ∷ 0x110f0 ∷ 0x11136 ∷ 0x111d0
    ∷ 0x112f0 ∷ 0x11450 ∷ 0x114d0 ∷ 0x11650 ∷ 0x116c0 ∷ 0x11730 ∷ 0x118e0 ∷ 0x11950 ∷ 0x11c50
    ∷ 0x11d50 ∷ 0x11da0 ∷ 0x11f50 ∷ 0x16a60 ∷ 0x16ac0 ∷ 0x16b50 ∷ 0x1d7ce ∷ 0x1d7d8 ∷ 0x1d7e2
    ∷ 0x1d7ec ∷ 0x1d7f6 ∷ 0x1e140 ∷ 0x1e2f0 ∷ 0x1e4d0 ∷ 0x1e950 ∷ 0x1fbf0 ∷ []

-- The code in ASCII of what counts of a character: a digit, a small letter, or the character itself.
abbrev pub plain_code : ℕ → ℕ
plain_code c = elim (find (λ z. leb z c && ltb c (z + 10)) zeros) [
  | some z ↦ 48 + (c - z)
  | none ↦ if leb 65 c && leb c 90 then c + 32 else c
]

abbrev plain : String → List ℕ
plain String.[] = []
plain (String.◌∷◌ c s) =
    let rest = plain s in if code c == 95 then rest else plain_code (code c) ∷ rest

abbrev pub is_digit : ℕ → Bool
is_digit c = leb 48 c && leb c 57

abbrev DigitRun : Type 0
DigitRun = ℕ × ℕ × List ℕ

-- The value of the digits read so far and those in front of the text, how many these are, and the rest.
abbrev read_digits : ℕ → List ℕ → DigitRun
read_digits value [] = (value, 0, [])
read_digits value (c ∷ cs) = elim (is_digit c) [
  | true ↦ let (v, n, rest) = read_digits (10 * value + (c - 48)) cs in (v, suc n, rest)
  | false ↦ (value, 0, c ∷ cs)
]

abbrev signed : Bool → ℕ → ℤ
signed negated n = if negated then negative n else pos n

-- value / 10 ^ places * 10 ^ exponent, or 10 ^ -exponent
abbrev shifted : Bool → ℕ → ℕ → Bool → ℕ → Decimal
shifted negated value places true exponent = record {
  coefficient = signed negated value;
  scale = places + exponent;
}
shifted negated value places false exponent = record {
  coefficient = signed negated (value * 10 ^ (exponent - places));
  scale = places - exponent;
}

-- A sign that may be missing: whether it is a minus, and the rest.
abbrev pub read_sign : List ℕ → Bool × List ℕ
read_sign [] = (false, [])
read_sign (c ∷ cs) =
    if c == 45 then (true, cs) else if c == 43 then (false, cs) else (false, c ∷ cs)

abbrev nothing_left : DigitRun → Option ℕ
nothing_left (v, zero, rest) = none
nothing_left (v, suc n, []) = some v
nothing_left (v, suc n, c ∷ rest) = none

abbrev read_exponent : Bool → ℕ → ℕ → List ℕ → Option Number
read_exponent negated value places [] = some (finite (shifted negated value places false 0))
read_exponent negated value places (c ∷ cs) =
    let (down, digits) = read_sign cs in
    elim (c == 101) [
      | false ↦ none
      | true ↦ elim (nothing_left (read_digits 0 digits)) [
        | none ↦ none
        | some exponent ↦ some (finite (shifted negated value places down exponent))
      ]
    ]

abbrev read_fraction : ℕ → List ℕ → DigitRun
read_fraction value [] = (value, 0, [])
read_fraction value (c ∷ cs) = if c == 46 then read_digits value cs else (value, 0, c ∷ cs)

abbrev read_finite : Bool → List ℕ → Option Number
read_finite negated cs =
    let (whole, before, rest) = read_digits 0 cs in
    let (value, places, rest') = read_fraction whole rest in
    if before + places == 0 then none else read_exponent negated value places rest'

-- The rest behind a word.
abbrev after : List ℕ → List ℕ → Option (List ℕ)
after [] cs = some cs
after (w ∷ word) [] = none
after (w ∷ word) (c ∷ cs) = if w == c then after word cs else none

abbrev all_digits : List ℕ → Bool
all_digits [] = true
all_digits (c ∷ cs) = is_digit c && all_digits cs

abbrev ends_there : Option (List ℕ) → Bool
ends_there (some []) = true
ends_there _ = false

abbrev digits_follow : Option (List ℕ) → Bool
digits_follow (some cs) = all_digits cs
digits_follow none = false

abbrev read_unsigned : Bool → List ℕ → Option Number
read_unsigned negated cs =
    if ends_there (after (plain "inf") cs) || ends_there (after (plain "infinity") cs)
    then some (infinite negated)
    else if digits_follow (after (plain "nan") cs) || digits_follow (after (plain "snan") cs)
    then some nan
    else read_finite negated cs

-- `none` is `InvalidOperation`.
unfoldable pub parse_decimal : String → Option Number
unfolding strip
parse_decimal s = let (negated, cs) = read_sign (plain (strip s)) in read_unsigned negated cs
