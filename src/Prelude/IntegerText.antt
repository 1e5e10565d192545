-- ===== src/Prelude/IntegerText.antt =====
-- `int(value)` of a text: white space around it does not count, and single underscores may stand between
-- digits.
use Prim.Native.Nat.{ℕ, ◌+◌, ◌-◌, ◌*◌}
use Prim.Native.Char.{code}
use Prim.Native.String.{String}
use mathlib.Core.Bool.{Bool, true, false, ◌&&◌}
use mathlib.Core.List.{List, [], ◌∷◌}
use mathlib.Core.Option.{Option, none, some}
use goodmoneying.Prelude.Tests.{◌==◌, if◌then◌else◌}
use goodmoneying.Prelude.Int.{ℤ, pos}
use goodmoneying.Prelude.Decimal.{negative}
use goodmoneying.Prelude.DecimalText.{plain_code, is_digit, read_sign}
use goodmoneying.Prelude.Text.{strip}

abbrev codes_of : String → List ℕ
codes_of String.[] = []
codes_of (String.◌∷◌ c s) = plain_code (code c) ∷ codes_of s

-- The digits behind one that was read.
abbrev more_digits : ℕ → List ℕ → Option ℕ
more_digits value [] = some value
more_digits value (c ∷ []) = if is_digit c then some (10 * value + (c - 48)) else none
more_digits value (c ∷ d ∷ cs) =
    let next = more_digits (10 * value + (c - 48)) (d ∷ cs) in
    let behind_underscore = more_digits (10 * value + (d - 48)) cs in
    if is_digit c then next else if (c == 95) && is_digit d then behind_underscore else none

abbrev all_read : List ℕ → Option ℕ
all_read [] = none
all_read (c ∷ cs) = if is_digit c then more_digits (c - 48) cs else none

abbrev signed_integer : Bool → Option ℕ → Option ℤ
signed_integer negated none = none
signed_integer true (some n) = some (negative n)
signed_integer false (some n) = some (pos n)

-- `none` is `ValueError`.
unfoldable pub parse_integer : String → Option ℤ
unfolding strip
parse_integer s =
    let (negated, cs) = read_sign (codes_of (strip s)) in signed_integer negated (all_read cs)
