-- ===== src/Strategy/Errors.antt =====
-- `_deduplicate_errors` of strategy_graph.py: what is left of the list of errors.
use Prim.Native.String.{String}
use text.Mathlib.TextEquality.{eq_iff}
use text.Mathlib.TextPositions.{eq_refl as str_eq-refl}
use mathlib.Core.Bool.{false≢true}
use goodmoneying.Prelude.Sort.{any-congr}
use goodmoneying.Prelude.{
  ℕ, true, ◌≡◌, refl, sym, ap, ◌∙◌, inl, inr, Option, none, some, List, [], ◌∷◌, All-always, any,
  count, if◌then◌else◌, Bool-cases, arith,
}
use goodmoneying.Strategy.{ValidationError}
use goodmoneying.Strategy.Validate.{
  same_id, same_index, same_key, deduplicate_from, deduplicate_errors,
}

same_id_congr : (a b c : Option String) → same_id a b ≡ true → same_id c a ≡ same_id c b
same_id_congr none none c h = refl
same_id_congr (some a) none c h = cc
same_id_congr none (some b) c h = cc
same_id_congr (some a) (some b) c h = ap (λ x. same_id c (some x)) ((eq_iff a b).0 h)

same_index_congr : (a b c : Option ℕ) → same_index a b ≡ true → same_index c a ≡ same_index c b
same_index_congr none none c h = refl
same_index_congr (some a) none c h = cc
same_index_congr none (some b) c h = cc
same_index_congr (some a) (some b) none h = refl
same_index_congr (some a) (some b) (some c) h = ground (arith, h)

same_key_congr : (a b c : ValidationError) → same_key a b ≡ true → same_key c a ≡ same_key c b
same_key_congr a b c h =
    let ids = same_id_congr a.node_id b.node_id c.node_id (ground (arith, h)) in
    let indices = same_index_congr a.edge_index b.edge_index c.edge_index (ground (arith, h)) in
    ground (arith, h, ids, indices)

same_id_refl : (a : Option String) → same_id a a ≡ true
same_id_refl none = refl
same_id_refl (some a) = str_eq-refl a

same_key_refl : (a : ValidationError) → same_key a a ≡ true
same_key_refl a = ground (arith, same_id_refl a.node_id)

same_key_sym : (a b : ValidationError) → same_key a b ≡ true → same_key b a ≡ true
same_key_sym a b h = same_key_congr a b b h ∙ same_key_refl b

same_key_comm : (a b : ValidationError) → same_key a b ≡ same_key b a
same_key_comm a b = elim (Bool-cases (same_key a b)) [
  | inl same ↦ same ∙ sym (same_key_sym a b same)
  | inr other ↦ elim (Bool-cases (same_key b a)) [
    | inl same ↦ absurd (false≢true (sym other ∙ same_key_sym b a same))
    | inr other' ↦ other ∙ sym other'
  ]
]

-- Errors with one key agree with the same errors.
any-same_key :
    (k e : ValidationError) (xs : List ValidationError)
    → same_key k e ≡ true
    → any (same_key k) xs ≡ any (same_key e) xs
any-same_key k e xs h =
    any-congr (same_key k) (same_key e) xs
      (All-always _ xs (λ x. same_key_comm k x ∙ same_key_congr k e x h ∙ same_key_comm x e))

count-deduplicate_from :
    (k : ValidationError) (seen errors : List ValidationError)
    → count (same_key k) (deduplicate_from seen errors)
      ≡ (if any (same_key k) seen then 0 else if any (same_key k) errors then 1 else 0)
unfolding deduplicate_from
count-deduplicate_from k seen [] = ground arith
count-deduplicate_from k seen (e ∷ errors) =
    let skipped = count-deduplicate_from k seen errors in
    let kept = count-deduplicate_from k (e ∷ seen) errors in
    elim (Bool-cases (same_key k e)) [
      | inl same ↦
          let alike = any-same_key k e seen same in ground (arith, same, alike, skipped, kept)
      | inr other ↦ ground (arith, other, skipped, kept)
    ]

-- Of the errors with one code, node and edge the validation reports one, if there are any.
pub deduplicate_errors-once :
    (k : ValidationError) (errors : List ValidationError)
    → count (same_key k) (deduplicate_errors errors) ≡ (if any (same_key k) errors then 1 else 0)
unfolding deduplicate_errors
deduplicate_errors-once k errors = count-deduplicate_from k [] errors
