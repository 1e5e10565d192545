-- ===== src/LiveOrder/Again.antt =====
-- What upbit_live_order_binding.py makes of the parts of a binding that it has made: the same.
use Prim.Native.Char.{Char, code}
use Prim.Native.String.{String}
use mathlib.Core.Path.{subst}
use mathlib.Core.Bool.{false≢true}
use text.Mathlib.Text.{◌==◌ as str_eq}
use text.Mathlib.TextEquality.{eq_iff}
use goodmoneying.Prelude.{
  ℕ, zero, suc, ◌≡◌, ◌≢◌, refl, sym, ap, ◌∙◌, inl, inr, Bool, true, false, not, ◌&&◌, List, [], ◌∷◌,
  any, leb, All, Bool-cases, arith,
}
use goodmoneying.Prelude.Results.{ok, bind-returned, raise_if-returned, ok-injective}
use goodmoneying.Prelude.Json.{Json, string}
use goodmoneying.Prelude.Text.{is_space, strip_left, strip_right, strip}
use goodmoneying.LiveOrder.Rehearsal.{all_base32, is_live_identifier}
use goodmoneying.LiveOrder.Binding.{
  not_live_identifier, not_uuid, not_allowed_source, UpbitLiveOrderBindingCandidate,
  allowed_sources, hex_then, dash_then, nothing_more, is_order_uuid, lower_char, lower, non_blank,
  live_identifier, checked_uuid, order_uuid, source_of, build_upbit_live_order_binding_candidate,
}

-- A text whose characters all pass a test.
abbrev EachIs : (Char → Bool) → String → Type 0
EachIs p String.[] = Unit
EachIs p (String.◌∷◌ c s) = (p c ≡ true) × EachIs p s

-- Neither white space nor a capital letter.
abbrev is_plain : Char → Bool
is_plain c = not (is_space (code c)) && not (leb 65 (code c) && leb (code c) 90)

neither : (a b : Bool) → (not a && not b) ≡ true → (a ≡ false) × (b ≡ false)
neither true b h = absurd (false≢true h)
neither false true h = absurd (false≢true h)
neither false false h = (refl, refl)

plain-visible : (c : Char) → is_plain c ≡ true → is_space (code c) ≡ false
plain-visible c h = (neither (is_space (code c)) _ h).0

plain-small : (c : Char) → is_plain c ≡ true → (leb 65 (code c) && leb (code c) 90) ≡ false
plain-small c h = (neither _ (leb 65 (code c) && leb (code c) 90) h).1

strip_right-plain : (s : String) → EachIs is_plain s → strip_right s ≡ s
strip_right-plain String.[] h = refl
strip_right-plain (String.◌∷◌ c s) h =
    let visible = plain-visible c h.0 in
    rw (visible, strip_right) (ap (λ t. String.◌∷◌ c t) (strip_right-plain s h.1))

strip-plain : (s : String) → EachIs is_plain s → strip s ≡ s
unfolding strip
strip-plain String.[] h = refl
strip-plain (String.◌∷◌ c s) h =
    let visible = plain-visible c h.0 in
    rw (visible, strip_left) (strip_right-plain (String.◌∷◌ c s) h)

lower_char-small : (c : Char) → (leb 65 (code c) && leb (code c) 90) ≡ false → lower_char c ≡ c
unfolding lower_char
lower_char-small c small = rw small refl

lower-plain : (s : String) → EachIs is_plain s → lower s ≡ s
unfolding lower
lower-plain String.[] h = refl
lower-plain (String.◌∷◌ c s) h =
    let small = plain-small c h.0 in
    subst (λ d. String.◌∷◌ d (lower s) ≡ String.◌∷◌ c s) (sym (lower_char-small c small))
      (ap (λ t. String.◌∷◌ c t) (lower-plain s h.1))

hex_then-plain :
    (n : ℕ) (rest : String → Bool) (s : String)
    → ((t : String) → rest t ≡ true → EachIs is_plain t)
    → hex_then n rest s ≡ true
    → EachIs is_plain s
hex_then-plain zero rest s later h = later s h
hex_then-plain (suc n) rest String.[] later h = tt
hex_then-plain (suc n) rest (String.◌∷◌ c s) later h =
    (ground (arith, h), hex_then-plain n rest s later (ground (arith, h)))

dash_then-plain :
    (rest : String → Bool) (s : String)
    → ((t : String) → rest t ≡ true → EachIs is_plain t)
    → dash_then rest s ≡ true
    → EachIs is_plain s
dash_then-plain rest String.[] later h = tt
dash_then-plain rest (String.◌∷◌ c s) later h = (ground (arith, h), later s (ground (arith, h)))

nothing_more-plain : (s : String) → nothing_more s ≡ true → EachIs is_plain s
nothing_more-plain String.[] h = tt
nothing_more-plain (String.◌∷◌ c s) h = absurd (false≢true h)

is_order_uuid-plain : (s : String) → is_order_uuid s ≡ true → EachIs is_plain s
unfolding is_order_uuid
is_order_uuid-plain s = hex_then-plain 8 _ s (λ s1. dash_then-plain _ s1 (λ s2.
    hex_then-plain 4 _ s2 (λ s3. dash_then-plain _ s3 (λ s4. hex_then-plain 4 _ s4 (λ s5.
      dash_then-plain _ s5 (λ s6.
        hex_then-plain 4 _ s6
          (λ s7. dash_then-plain _ s7 (λ s8. hex_then-plain 12 _ s8 nothing_more-plain))))))))

all_base32-plain : (n : ℕ) (s : String) → all_base32 n s ≡ true → EachIs is_plain s
all_base32-plain zero String.[] h = tt
all_base32-plain zero (String.◌∷◌ c s) h = absurd (false≢true h)
all_base32-plain (suc n) String.[] h = tt
all_base32-plain (suc n) (String.◌∷◌ c s) h =
    (ground (arith, h), all_base32-plain n s (ground (arith, h)))

is_live_identifier-plain : (s : String) → is_live_identifier s ≡ true → EachIs is_plain s
unfolding is_live_identifier
is_live_identifier-plain String.[] h = tt
is_live_identifier-plain (String.◌∷◌ g String.[]) h = absurd (false≢true h)
is_live_identifier-plain (String.◌∷◌ g (String.◌∷◌ m String.[])) h = absurd (false≢true h)
is_live_identifier-plain (String.◌∷◌ g (String.◌∷◌ m (String.◌∷◌ one String.[]))) h =
    absurd (false≢true h)
is_live_identifier-plain (String.◌∷◌ g (String.◌∷◌ m (String.◌∷◌ one (String.◌∷◌ underscore rest))))
      h =
    (
      ground (arith, h),
      (
        ground (arith, h),
        (ground (arith, h), (ground (arith, h), all_base32-plain 52 rest (ground (arith, h)))),
      ),
    )

-- What a guard returns, it returns again: the texts are plain and not blank.
non_blank-plain : (s : String) → EachIs is_plain s → s ≢ "" → non_blank (string s) ≡ ok s
unfolding non_blank
non_blank-plain String.[] h k = absurd (k refl)
non_blank-plain (String.◌∷◌ c s) h k =
    let visible = plain-visible c h.0 in rw visible (ap ok (strip-plain (String.◌∷◌ c s) h))

order_uuid-form : (value : Json) {u : String} → order_uuid value ≡ ok u → is_order_uuid u ≡ true
unfolding order_uuid
order_uuid-form value h =
    let (read, later, _) = bind-returned (non_blank value) _ h in
    let (matches, returned) =
      raise_if-returned (not (is_order_uuid (lower read))) not_uuid (ok (lower read)) later in
    subst (λ t. is_order_uuid t ≡ true) (ok-injective returned) (ground (arith, matches))

not_empty : (p : String → Bool) (s : String) → p "" ≡ false → p s ≡ true → s ≢ ""
not_empty p s h k e = false≢true (sym h ∙ ap p (sym e) ∙ k)

order_uuid-again : (u : String) → is_order_uuid u ≡ true → order_uuid (string u) ≡ ok u
unfolding order_uuid is_order_uuid
order_uuid-again u h =
    let plain = is_order_uuid-plain u h in
    let read = non_blank-plain u plain (not_empty is_order_uuid u refl h) in
    let passed : checked_uuid u ≡ ok u = rw h refl in
    rw read (ap checked_uuid (lower-plain u plain) ∙ passed)

live_identifier-form :
    (value : Json) {s : String} → live_identifier value ≡ ok s → is_live_identifier s ≡ true
unfolding live_identifier
live_identifier-form value h =
    let (read, later, _) = bind-returned (non_blank value) _ h in
    let (matches, returned) =
      raise_if-returned (not (is_live_identifier read)) not_live_identifier (ok read) later in
    subst (λ t. is_live_identifier t ≡ true) (ok-injective returned) (ground (arith, matches))

live_identifier-again :
    (s : String) → is_live_identifier s ≡ true → live_identifier (string s) ≡ ok s
unfolding live_identifier is_live_identifier
live_identifier-again s h =
    let read =
      non_blank-plain s (is_live_identifier-plain s h) (not_empty is_live_identifier s refl h) in
    rw (read, h) refl

source_of-form :
    (value : Json) {s : String} → source_of value ≡ ok s → any (str_eq s) allowed_sources ≡ true
unfolding source_of
source_of-form value h =
    let (read, later, _) = bind-returned (non_blank value) _ h in
    let (matches, returned) =
      raise_if-returned (not (any (str_eq read) allowed_sources)) not_allowed_source (ok read)
        later in
    subst (λ t. any (str_eq t) allowed_sources ≡ true) (ok-injective returned)
      (ground (arith, matches))

any-cases :
    (s : String) (allowed : List String) (P : String → Type 0)
    → All P allowed
    → any (str_eq s) allowed ≡ true
    → P s
any-cases s [] P h k = absurd (false≢true k)
any-cases s (a ∷ allowed) P h k = elim (Bool-cases (str_eq s a)) [
  | inl same ↦ subst P (sym ((eq_iff s a).0 same)) h.0
  | inr other ↦ any-cases s allowed P h.1 (ground (arith, k, other))
]

source_of-again : (s : String) → any (str_eq s) allowed_sources ≡ true → source_of (string s) ≡ ok s
unfolding source_of non_blank strip
source_of-again s h =
    any-cases s allowed_sources (λ t. source_of (string t) ≡ ok t) (refl, (refl, (refl, tt))) h

-- A binding that has been built is built again from its own parts.
pub build_upbit_live_order_binding_candidate-again :
    (uuid identifier source : Json) {c : UpbitLiveOrderBindingCandidate}
    → build_upbit_live_order_binding_candidate uuid identifier source ≡ ok c
    → build_upbit_live_order_binding_candidate
        (string c.upbit_order_uuid)
        (string c.upbit_identifier)
        (string c.source)
      ≡ ok c
unfolding build_upbit_live_order_binding_candidate
build_upbit_live_order_binding_candidate-again uuid identifier source h =
    let (u, h1, u_made) = bind-returned (order_uuid uuid) _ h in
    let (i, h2, i_made) = bind-returned (live_identifier identifier) _ h1 in
    let (s, made, s_made) = bind-returned (source_of source) _ h2 in
    let u_again = order_uuid-again u (order_uuid-form uuid u_made) in
    let i_again = live_identifier-again i (live_identifier-form identifier i_made) in
    let s_again = source_of-again s (source_of-form source s_made) in
    subst
      (λ b.
        build_upbit_live_order_binding_candidate (string b.upbit_order_uuid)
          (string b.upbit_identifier) (string b.source)
        ≡ ok b)
      (ok-injective made) (rw (u_again, i_again, s_again) refl)
