-- ===== src/Strategy/Cycle/Kahn.antt =====
-- `_has_cycle` of strategy_graph.py as a whole: the loop ends, and what its count says of the graph.
use Prim.Native.Nat.{◌+◌, ◌≤◌, ◌<◌}
use Prim.Native.String.{String}
use mathlib.Core.Path.{subst}
use mathlib.Core.Bool.{false≢true}
use text.Mathlib.Text.{◌==◌ as str_eq}
use text.Mathlib.TextEquality.{eq_iff}
use text.Mathlib.TextPositions.{eq_refl as str_eq-refl}
use goodmoneying.Prelude.{
  ℕ, zero, suc, Bool, true, not, ◌&&◌, ◌≡◌, ◌↔◌, refl, sym, ap, ◌∙◌, inl, inr, List, [], ◌∷◌,
  length, All, All-imp, any, keep, count, count-imp, count_le_length, ◌==◌, if◌then◌else◌,
  Bool-cases, arith,
}
use goodmoneying.Strategy.Cycle.{release, drain, visit_all, has_cycle}
use goodmoneying.Strategy.Cycle.Rounds.{occurs, free, str_eq_comm, Stands, release-Released}

abbrev pub Edge : Type 0
Edge = String × String

-- The edges lead from node to node, and the tables that the loop gets are made of them.
pub record IsGraph (nodes : List String) (edges : List Edge) (targets : String → List String)
    (indegree : String → ℕ) : Type 0 where
  pub distinct : (v : String) → occurs v nodes ≤ 1
  pub targets_known : (u : String) → All (λ t. occurs t nodes ≡ 1) (targets u)
  pub sources_known : All (λ e. occurs e.0 nodes ≡ 1) edges
  pub targets_listed :
      (u v : String) → occurs v (targets u) ≡ count (λ e. str_eq e.0 u && str_eq e.1 v) edges
  pub degrees : (v : String) → indegree v ≡ count (λ e. str_eq e.1 v) edges

-- Each node of the set has an edge from a node of the set.
abbrev pub IsClosed : List Edge → (String → Bool) → Type 0
IsClosed edges s = (v : String) → s v ≡ true → any (λ e. str_eq e.1 v && s e.0) edges ≡ true

-- The edges into a node from nodes that are not visited yet.
abbrev waiting : List Edge → List String → String → ℕ
waiting edges done v = count (λ e. str_eq e.1 v && (occurs e.0 done == 0)) edges

pub count-of_any {ℓ} : {A : Type ℓ} (p : A → Bool) (xs : List A) → any p xs ≡ true → 1 ≤ count p xs
count-of_any p [] h = absurd (false≢true h)
count-of_any p (x ∷ xs) h = ground (arith, count-of_any p xs)

pub any-of_count {ℓ} :
    {A : Type ℓ} (p q : A → Bool) (xs : List A)
    → 1 ≤ count p xs
    → All (λ x. p x ≡ true → q x ≡ true) xs
    → any q xs ≡ true
any-of_count p q [] h k = absurd (omega (arith, h))
any-of_count p q (x ∷ xs) h k = ground (arith, any-of_count p q xs, k.0, k.1)

waiting-visit :
    (edges : List Edge) (done : List String) (u v : String)
    → occurs u done ≡ 0
    → waiting edges done v
      ≡ count (λ e. str_eq e.0 u && str_eq e.1 v) edges + waiting edges (u ∷ done) v
waiting-visit [] done u v h = omega arith
waiting-visit (e ∷ edges) done u v h =
    let rest = waiting-visit edges done u v h in
    let flip = str_eq_comm u e.0 in
    elim (Bool-cases (str_eq u e.0)) [
      | inl same ↦
          let unseen : occurs e.0 done ≡ 0 =
            subst (λ w. occurs w done ≡ 0) ((eq_iff u e.0).0 same) h in
          ground (arith, rest, flip, same, unseen)
      | inr other ↦ ground (arith, rest, flip, other)
    ]

waiting-start :
    (edges : List Edge) (v : String) → count (λ e. str_eq e.1 v) edges ≡ waiting edges [] v
waiting-start [] v = refl
waiting-start (e ∷ edges) v = ground (arith, waiting-start edges v)

occurs-keep :
    (indegree : String → ℕ) (nodes : List String) (v : String)
    → occurs v (keep (λ node. indegree node == 0) nodes)
      ≡ (if indegree v == 0 then occurs v nodes else 0)
occurs-keep indegree [] v = ground arith
occurs-keep indegree (x ∷ nodes) v =
    let rest = occurs-keep indegree nodes v in
    elim (Bool-cases (str_eq x v)) [
      | inl same ↦
          let e : indegree x ≡ indegree v = ap indegree ((eq_iff x v).0 same) in
          ground (arith, rest, same, e)
      | inr other ↦ ground (arith, rest, other)
    ]

length-keep-count {ℓ} : {A : Type ℓ} (p : A → Bool) (xs : List A) → length (keep p xs) ≡ count p xs
length-keep-count p [] = refl
length-keep-count p (x ∷ xs) = ground (arith, length-keep-count p xs)

any-of_free :
    (r : String → ℕ) (nodes : List String)
    → free r nodes < length nodes
    → any (λ v. not (r v == 0)) nodes ≡ true
any-of_free r [] h = absurd (omega (arith, h))
any-of_free r (x ∷ nodes) h = ground (arith, any-of_free r nodes)

free-below :
    (r : String → ℕ) (s : String → Bool) (nodes : List String)
    → any s nodes ≡ true
    → ((v : String) → s v ≡ true → 1 ≤ r v)
    → free r nodes < length nodes
free-below r s [] h f = absurd (false≢true h)
free-below r s (x ∷ nodes) h f =
    let rest = free-below r s nodes in
    let bound = count_le_length (λ v. r v == 0) nodes in
    elim (Bool-cases (s x)) [
      | inl member ↦ let here = f x member in ground (arith, bound, here)
      | inr outside ↦
          let later : any s nodes ≡ true = rw (outside, any) at h in
          let below = rest later f in ground (arith, below)
    ]

module _ {nodes : List String} {edges : List Edge} {targets : String → List String}
    {indegree : String → ℕ} (graph : IsGraph nodes edges targets indegree) where
  -- The loop's invariant.
  abbrev Inv : List String → (String → ℕ) → List String → ℕ → Type 0
  Inv done remaining ready visited =
      ((v : String) → remaining v ≡ waiting edges done v)
      × Stands nodes done remaining ready visited

  Inv-start : Inv [] indegree (keep (λ node. indegree node == 0) nodes) 0
  Inv-start = (
    λ v. graph.degrees v ∙ waiting-start edges v,
    record {
      listed = λ v. omega (arith, occurs-keep indegree nodes v);
      counted = omega (arith, length-keep-count (λ node. indegree node == 0) nodes);
    },
  )

  -- The node that comes next waits for nothing and is not visited.
  Inv-next :
      {node : String} {done ready : List String} {remaining : String → ℕ} {visited : ℕ}
      → Inv done remaining (node ∷ ready) visited
      → (remaining node ≡ 0) × (occurs node done ≡ 0)
  Inv-next {node} (waits, stands) =
      ground (arith, stands.listed node, graph.distinct node, str_eq-refl node)

  Inv-round :
      {node : String} {done ready : List String} {remaining : String → ℕ} {visited : ℕ}
      → Inv done remaining (node ∷ ready) visited
      → Inv
          (node ∷ done)
          (release targets (targets node) remaining ready).0
          (release targets (targets node) remaining ready).1
          (suc visited)
  Inv-round {node} {done} {ready} {remaining} {visited} (waits, stands) =
      let unseen = (Inv-next (waits, stands)).1 in
      release-Released nodes (node ∷ done) (suc visited) (waiting edges (node ∷ done)) targets
        (targets node) remaining ready (graph.targets_known node)
        (λ v.
          omega
            (arith, waits v, waiting-visit edges done node v unseen, graph.targets_listed node v))
        (record {
          listed = λ v. ground (arith, stands.listed v);
          counted = omega (arith, stands.counted);
        })

  -- No member of a closed set is visited.
  abbrev Avoids : (String → Bool) → List String → Type 0
  Avoids s done = (v : String) → s v ≡ true → occurs v done ≡ 0

  closed_waits :
      (s : String → Bool) (done : List String)
      → IsClosed edges s
      → Avoids s done
      → (v : String) → s v ≡ true
      → 1 ≤ waiting edges done v
  closed_waits s done closed avoids v member = omega (
    arith,
    count-of_any (λ e. str_eq e.1 v && s e.0) edges (closed v member),
    count-imp (λ e. str_eq e.1 v && s e.0) (λ e. str_eq e.1 v && (occurs e.0 done == 0)) edges
        (λ e passes. ground (arith, avoids e.0, passes)),
  )

  Avoids-round :
      {node : String} {done ready : List String} {remaining : String → ℕ} {visited : ℕ}
      → Inv done remaining (node ∷ ready) visited
      → (s : String → Bool) → IsClosed edges s
      → Avoids s done
      → Avoids s (node ∷ done)
  Avoids-round {node} {done} (waits, stands) s closed avoids v member =
      elim (Bool-cases (str_eq node v)) [
        | inl same ↦
            let e : v ≡ node = sym ((eq_iff node v).0 same) in
            let some_left = closed_waits s done closed avoids v member in
            let none_left = (Inv-next (waits, stands)).0 in
            absurd (
              omega (
                arith,
                some_left,
                subst (λ u. waiting edges done u ≡ 0) (sym e) (sym (waits node) ∙ none_left),
              ))
        | inr other ↦ ground (arith, avoids v member, other)
      ]

  -- How the loop ends.
  record Ends (result : ℕ × List String) : Type 0 where
    done : List String
    remaining : String → ℕ
    inv : Inv done remaining [] result.0
    empty : result.1 ≡ []
    avoids : (s : String → Bool) → IsClosed edges s → Avoids s done

  drain-Ends :
      (fuel : ℕ) (done : List String) (remaining : String → ℕ) (ready : List String) (visited : ℕ)
      → length nodes < fuel + visited
      → Inv done remaining ready visited
      → ((s : String → Bool) → IsClosed edges s → Avoids s done)
      → Ends (drain targets fuel remaining ready visited)
  unfolding drain
  drain-Ends zero done remaining ready visited enough inv avoids =
      absurd (omega (arith, enough, inv.1.counted, count_le_length (λ v. remaining v == 0) nodes))
  drain-Ends (suc fuel) done remaining [] visited enough inv avoids = record {
    done = done;
    remaining = remaining;
    inv = inv;
    empty = refl;
    avoids = avoids;
  }
  drain-Ends (suc fuel) done remaining (node ∷ ready) visited enough inv avoids =
      drain-Ends fuel (node ∷ done) (release targets (targets node) remaining ready).0
        (release targets (targets node) remaining ready).1 (suc visited) (omega (arith, enough))
        (Inv-round inv) (λ s closed. Avoids-round inv s closed (avoids s closed))

  visit_all-Ends : Ends (visit_all targets nodes indegree)
  unfolding visit_all
  visit_all-Ends =
      drain-Ends (suc (length nodes)) [] indegree (keep (λ node. indegree node == 0) nodes) 0
        (omega arith) Inv-start (λ s closed v member. refl)

  -- The loop ends because nothing is ready, not because the fuel is used up.
  pub visit_all-ends : (visit_all targets nodes indegree).1 ≡ []
  visit_all-ends = visit_all-Ends.empty

  -- The nodes that still wait for another one at the end.
  left_over-IsClosed :
      (done : List String) (remaining : String → ℕ) (visited : ℕ)
      → Inv done remaining [] visited
      → IsClosed edges (λ v. not (remaining v == 0))
  left_over-IsClosed done remaining visited (waits, stands) v member =
      any-of_count (λ e. str_eq e.1 v && (occurs e.0 done == 0))
        (λ e. str_eq e.1 v && not (remaining e.0 == 0)) edges (ground (arith, waits v, member))
        (All-imp (λ e. occurs e.0 nodes ≡ 1) _ edges
          (λ e known passes. ground (arith, stands.listed e.0, known, passes)) graph.sources_known)

  -- The test finds a cycle exactly if there is a closed set with a node in it.
  pub has_cycle_iff :
      (has_cycle targets nodes indegree ≡ true)
      ↔ ((s : String → Bool) × (any s nodes ≡ true) × IsClosed edges s)
  unfolding has_cycle
  has_cycle_iff =
      let ends = visit_all-Ends in
      let visited = (visit_all targets nodes indegree).0 in
      let counted : visited + 0 ≡ free ends.remaining nodes = ends.inv.1.counted in
      let bound = count_le_length (λ v. ends.remaining v == 0) nodes in
      (
        λ cyclic. (
          λ v. not (ends.remaining v == 0),
          any-of_free ends.remaining nodes (ground (arith, cyclic, counted, bound)),
          left_over-IsClosed ends.done ends.remaining visited ends.inv,
        ),
        λ (s, inhabited, closed).
            let below = free-below ends.remaining s nodes inhabited (λ v member. omega (
              arith,
              ends.inv.0 v,
              closed_waits s ends.done closed (ends.avoids s closed) v member,
            )) in
            ground (arith, below, counted),
      )
