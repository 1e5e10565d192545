-- ===== src/Rollup/Partition.antt =====
-- How aggregate_candles of aggregation.py groups candles: each bucket once, with all the candles in it.
use Prim.Native.String.{String}
use mathlib.Core.Path.{subst}
use goodmoneying.Prelude.{
  ℕ, ◌+◌, ◌≤◌, ◌≡◌, refl, sym, ap, ◌∙◌, inl, inr, Bool, true, false, ◌&&◌, List, [], ◌∷◌, ◌++◌, map,
  keep, count, ◌==◌, if◌then◌else◌, Bool-cases, arith, ==_iff,
}
use goodmoneying.Prelude.Sort.{sort_by, sort_with, insert_with, key_lt, IsSorted, sort_by-IsSorted}
use goodmoneying.Rollup.{RollupUnit, rollup_bucket_start}
use goodmoneying.Rollup.Candles.{
  SourceCandle, CoverageSlice, CandleView, Candle, of_source, started_at, HashedInput,
}
use goodmoneying.Rollup.Aggregate.{Group, views_of, aggregate_groups}
use goodmoneying.Rollup.Derive.{
  add_to_group, group_into, group_by_bucket, minutes_of, expected_size, of_minutes,
}

abbrev times : ℕ → List ℕ → ℕ
times b ks = count (λ k. k == b) ks

abbrev add_key : ℕ → List ℕ → List ℕ
add_key b [] = b ∷ []
add_key b (k ∷ ks) = let rest = add_key b ks in if k == b then k ∷ ks else k ∷ rest

times-add_key :
    (b c : ℕ) (ks : List ℕ)
    → times c (add_key b ks) ≡ times c ks + (if (b == c) && (times b ks == 0) then 1 else 0)
times-add_key b c [] = ground arith
times-add_key b c (k ∷ ks) = ground (arith, times-add_key b c ks)

keep-append {ℓ} :
    {A : Type ℓ} (p : A → Bool) (xs ys : List A) → keep p (xs ++ ys) ≡ keep p xs ++ keep p ys
keep-append p [] ys = refl
keep-append p (x ∷ xs) ys = ground (arith, keep-append p xs ys)

append_nil {ℓ} : {A : Type ℓ} (xs : List A) → xs ++ [] ≡ xs
append_nil [] = refl
append_nil (x ∷ xs) = ap (λ l. x ∷ l) (append_nil xs)

append_assoc {ℓ} :
    {A : Type ℓ} (xs : List A) (y : A) (ys : List A) → (xs ++ y ∷ []) ++ ys ≡ xs ++ y ∷ ys
append_assoc [] y ys = refl
append_assoc (x ∷ xs) y ys = ap (λ l. x ∷ l) (append_assoc xs y ys)

module _ (unit : RollupUnit) where
  abbrev pub bucket_of : Candle → ℕ
  bucket_of c = rollup_bucket_start unit (started_at c)

  -- The items of a bucket, in their order.
  abbrev pub in_bucket : ℕ → List Candle → List Candle
  in_bucket b items = keep (λ c. bucket_of c == b) items

  abbrev pub group_of : List Candle → ℕ → Group
  group_of items b = (b, in_bucket b items)

  in_bucket-same :
      (items : List Candle) (x : Candle) (b : ℕ)
      → (bucket_of x == b) ≡ true
      → in_bucket b (items ++ x ∷ []) ≡ in_bucket b items ++ x ∷ []
  in_bucket-same items x b h = keep-append (λ c. bucket_of c == b) items (x ∷ []) ∙ rw h refl

  in_bucket-other :
      (items : List Candle) (x : Candle) (b : ℕ)
      → (bucket_of x == b) ≡ false
      → in_bucket b (items ++ x ∷ []) ≡ in_bucket b items
  in_bucket-other items x b h =
      keep-append (λ c. bucket_of c == b) items (x ∷ []) ∙ rw h (append_nil _)

  -- A candle leaves the groups of other buckets as they are.
  groups-other :
      (items : List Candle) (x : Candle) (ks : List ℕ)
      → times (bucket_of x) ks ≡ 0
      → map (group_of (items ++ x ∷ [])) ks ≡ map (group_of items) ks
  groups-other items x [] h = refl
  groups-other items x (k ∷ ks) h =
      let other : (bucket_of x == k) ≡ false = ground (arith, h) in
      let rest : times (bucket_of x) ks ≡ 0 = ground (arith, h) in
      λ i. (k, in_bucket-other items x k other i) ∷ groups-other items x ks rest i

  add_to_group-groups :
      (items : List Candle) (x : Candle) (ks : List ℕ)
      → times (bucket_of x) ks ≤ 1
      → (times (bucket_of x) ks ≡ 0 → in_bucket (bucket_of x) items ≡ [])
      → add_to_group (bucket_of x) x (map (group_of items) ks)
        ≡ map (group_of (items ++ x ∷ [])) (add_key (bucket_of x) ks)
  unfolding add_to_group
  add_to_group-groups items x [] once fresh =
      let here = in_bucket-same items x (bucket_of x) ((==_iff _ _).1 refl) in
      let new : in_bucket (bucket_of x) (items ++ x ∷ []) ≡ x ∷ [] =
        here ∙ ap (λ l. l ++ x ∷ []) (fresh refl) in
      λ i. (bucket_of x, sym new i) ∷ []
  add_to_group-groups items x (k ∷ ks) once fresh = elim (Bool-cases (k == bucket_of x)) [
    | inl same ↦
        let flip : (bucket_of x == k) ≡ true = ground (arith, same) in
        let no_more : times (bucket_of x) ks ≡ 0 = ground (arith, once, same) in
        rw same
          (sym (λ i. (k, in_bucket-same items x k flip i) ∷ groups-other items x ks no_more i))
    | inr other ↦
        let flip : (bucket_of x == k) ≡ false = ground (arith, other) in
        let rest =
          add_to_group-groups items x ks (ground (arith, once, other))
            (λ absent. fresh (ground (arith, absent, other))) in
        rw other (λ i. (k, sym (in_bucket-other items x k flip) i) ∷ rest i)
  ]

  -- The keys of the groups, in the order in which their first candles come.
  abbrev pub keys_into : List Candle → List ℕ → List ℕ
  keys_into [] ks = ks
  keys_into (x ∷ items) ks = keys_into items (add_key (bucket_of x) ks)

  -- Each key stands once, and every bucket with a candle has one.
  abbrev AreKeys : List Candle → List ℕ → Type 0
  AreKeys items ks = (b : ℕ) → (times b ks ≤ 1) × (times b ks ≡ 0 → in_bucket b items ≡ [])

  AreKeys-add_key :
      (items : List Candle) (x : Candle) (ks : List ℕ)
      → AreKeys items ks
      → AreKeys (items ++ x ∷ []) (add_key (bucket_of x) ks)
  AreKeys-add_key items x ks keys b =
      let more = times-add_key (bucket_of x) b ks in
      let old = keys b in
      elim (Bool-cases (bucket_of x == b)) [
        | inl same ↦
            let e : bucket_of x ≡ b = (==_iff _ _).0 same in
            let alike : times (bucket_of x) ks ≡ times b ks = ap (λ c. times c ks) e in
            (
              ground (arith, more, old.0, same, alike),
              λ absent. absurd (ground (arith, more, absent, same, alike)),
            )
        | inr other ↦ (
          ground (arith, more, old.0, other),
          λ absent. in_bucket-other items x b other ∙ old.1 (ground (arith, more, absent, other)),
        )
      ]

  group_into-groups :
      (items done : List Candle) (ks : List ℕ)
      → AreKeys done ks
      → group_into unit items (map (group_of done) ks)
        ≡ map (group_of (done ++ items)) (keys_into items ks)
  unfolding group_into
  group_into-groups [] done ks keys = ap (λ l. map (group_of l) ks) (sym (append_nil done))
  group_into-groups (x ∷ items) done ks keys =
      let first = add_to_group-groups done x ks (keys (bucket_of x)).0 (keys (bucket_of x)).1 in
      let rest =
        group_into-groups items (done ++ x ∷ []) (add_key (bucket_of x) ks)
          (AreKeys-add_key done x ks keys) in
      ap (group_into unit items) first
      ∙ rest
      ∙ ap (λ l. map (group_of l) (keys_into items (add_key (bucket_of x) ks)))
          (append_assoc done x items)

  -- The buckets of the candles.
  abbrev pub buckets : List Candle → List ℕ
  buckets items = keys_into items []

  buckets-AreKeys :
      (items done : List Candle) (ks : List ℕ)
      → AreKeys done ks
      → AreKeys (done ++ items) (keys_into items ks)
  buckets-AreKeys [] done ks keys = subst (λ l. AreKeys l ks) (sym (append_nil done)) keys
  buckets-AreKeys (x ∷ items) done ks keys =
      subst (λ l. AreKeys l (keys_into items (add_key (bucket_of x) ks)))
        (append_assoc done x items)
        (buckets-AreKeys items (done ++ x ∷ []) (add_key (bucket_of x) ks)
          (AreKeys-add_key done x ks keys))

  group_by_bucket-groups :
      (items : List Candle) → group_by_bucket unit items ≡ map (group_of items) (buckets items)
  unfolding group_by_bucket
  group_by_bucket-groups items = group_into-groups items [] [] (λ b. (omega arith, λ absent. refl))

  abbrev self : ℕ → ℕ
  self b = b

  abbrev key_of : Group → ℕ
  key_of group = group.0

  insert-groups :
      (items : List Candle) (b : ℕ) (ks : List ℕ)
      → insert_with (key_lt key_of) (group_of items b) (map (group_of items) ks)
        ≡ map (group_of items) (insert_with (key_lt self) b ks)
  unfolding insert_with
  insert-groups items b [] = refl
  insert-groups items b (k ∷ ks) = elim (Bool-cases (key_lt self k b)) [
    | inl before ↦ rw before (ap (λ l. group_of items k ∷ l) (insert-groups items b ks))
    | inr behind ↦ rw behind refl
  ]

  sort-groups :
      (items : List Candle) (ks : List ℕ)
      → sort_by key_of (map (group_of items) ks) ≡ map (group_of items) (sort_by self ks)
  unfolding sort_by sort_with
  sort-groups items [] = refl
  sort-groups items (k ∷ ks) =
      ap (insert_with (key_lt key_of) (group_of items k)) (sort-groups items ks)
      ∙ insert-groups items k (sort_by self ks)

  times-insert :
      (b k : ℕ) (ks : List ℕ) → times b (insert_with (key_lt self) k ks) ≡ times b (k ∷ ks)
  unfolding insert_with
  times-insert b k [] = refl
  times-insert b k (j ∷ ks) = ground (arith, times-insert b k ks)

  times-sort : (b : ℕ) (ks : List ℕ) → times b (sort_by self ks) ≡ times b ks
  unfolding sort_by sort_with
  times-sort b [] = refl
  times-sort b (k ∷ ks) = ground (arith, times-insert b k (sort_by self ks), times-sort b ks)

-- The candles of a unit are made of the groups of its buckets, in ascending order and each bucket once; a
-- bucket that has none of the candles has no group, and a group has all the candles of its bucket, in their order.
pub record ArePartitioned (digest : List HashedInput → String) (unit : RollupUnit)
    (coverage : List CoverageSlice) (items : List Candle) (views : List CandleView) : Type 0 where
  pub keys : List ℕ
  pub ascending : IsSorted (λ b. b) keys
  pub once : (b : ℕ) → count (λ k. k == b) keys ≤ 1
  pub all_there : (b : ℕ) → count (λ k. k == b) keys ≡ 0 → in_bucket unit b items ≡ []
  pub made_of :
      views ≡ views_of digest unit (expected_size unit) coverage (map (group_of unit items) keys)

module _ (digest : List HashedInput → String) (coverage : List CoverageSlice)
    (source : List SourceCandle) where
  -- The candles that are derived from minutes partition the minute candles into buckets: each bucket that has
  -- any gives its candle, in ascending order, of all its minute candles.
  pub of_minutes-ArePartitioned :
      (unit : RollupUnit)
      → ArePartitioned digest unit coverage
          (map of_source (minutes_of source))
          (of_minutes digest coverage source unit)
  unfolding of_minutes aggregate_groups
  of_minutes-ArePartitioned unit =
      let items = map of_source (minutes_of source) in
      let ks = buckets unit items in
      let keys = buckets-AreKeys unit items [] [] (λ b. (omega arith, λ absent. refl)) in
      record {
        keys = sort_by (λ b. b) ks;
        ascending = sort_by-IsSorted (λ b. b) ks;
        once = λ b. omega (arith, times-sort unit b ks, (keys b).0);
        all_there = λ b absent. (keys b).1 (omega (arith, times-sort unit b ks, absent));
        made_of = ap (views_of digest unit (expected_size unit) coverage) (
            ap (sort_by (λ group. group.0)) (group_by_bucket-groups unit items)
            ∙ sort-groups unit items ks);
      }
