-- ===== src/Strategy/Keys.antt =====
-- The keys of `nodes_by_id` in `validate_strategy_graph` of strategy_graph.py: each id once.
use Prim.Native.Nat.{◌≤◌}
use Prim.Native.String.{String}
use mathlib.Core.Path.{subst}
use mathlib.Core.Bool.{false≢true}
use text.Mathlib.Text.{◌==◌ as str_eq}
use text.Mathlib.TextEquality.{eq_iff}
use goodmoneying.Prelude.{
  is_some, true, false, ◌||◌, ◌≡◌, refl, sym, ap, ◌∙◌, inl, inr, none, some, List, [], ◌∷◌, any,
  Bool-cases, Option-cases, arith,
}
use goodmoneying.Prelude.Json.{Json, Fields}
use goodmoneying.Strategy.{has_id, node_id_of, node_at, node_ids}
use goodmoneying.Strategy.Cycle.Rounds.{occurs, str_eq_comm}

other_key :
    (i v : String) (seen : List String)
    → any (str_eq v) seen ≡ true
    → any (str_eq i) seen ≡ false
    → str_eq i v ≡ false
other_key i v seen h k = elim (Bool-cases (str_eq i v)) [
  | inr other ↦ other
  | inl same ↦
      absurd
        (false≢true (sym k ∙ subst (λ u. any (str_eq u) seen ≡ true) (sym ((eq_iff i v).0 same)) h))
]

module _ (repr : Json → String) where
  -- The keys, by the id of the first node.
  node_ids-keyless :
      (seen : List String) (node : Fields) (nodes : List Fields)
      → node_id_of repr node ≡ none
      → node_ids repr seen (node ∷ nodes) ≡ node_ids repr seen nodes
  unfolding node_ids
  node_ids-keyless seen node nodes h = rw (h, node_ids) refl

  node_ids-seen :
      (seen : List String) (node : Fields) (nodes : List Fields) {i : String}
      → node_id_of repr node ≡ some i
      → any (str_eq i) seen ≡ true
      → node_ids repr seen (node ∷ nodes) ≡ node_ids repr seen nodes
  unfolding node_ids
  node_ids-seen seen node nodes h k = rw (h, k, node_ids) refl

  node_ids-fresh :
      (seen : List String) (node : Fields) (nodes : List Fields) {i : String}
      → node_id_of repr node ≡ some i
      → any (str_eq i) seen ≡ false
      → node_ids repr seen (node ∷ nodes) ≡ i ∷ node_ids repr (i ∷ seen) nodes
  unfolding node_ids
  node_ids-fresh seen node nodes h k = rw (h, k, node_ids) refl

  occurs-seen :
      (seen : List String) (nodes : List Fields) (v : String)
      → any (str_eq v) seen ≡ true
      → occurs v (node_ids repr seen nodes) ≡ 0
  unfolding node_ids
  occurs-seen seen [] v h = refl
  occurs-seen seen (node ∷ nodes) v h = elim (Option-cases (node_id_of repr node)) [
    | inl keyless ↦
        ap (occurs v) (node_ids-keyless seen node nodes keyless) ∙ occurs-seen seen nodes v h
    | inr (i, keyed) ↦ elim (Bool-cases (any (str_eq i) seen)) [
      | inl known ↦
          ap (occurs v) (node_ids-seen seen node nodes keyed known) ∙ occurs-seen seen nodes v h
      | inr fresh ↦
          let rest = occurs-seen (i ∷ seen) nodes v (ground (arith, h)) in
          let other = other_key i v seen h fresh in
          ap (occurs v) (node_ids-fresh seen node nodes keyed fresh) ∙ ground (arith, rest, other)
    ]
  ]

  pub node_ids-distinct :
      (seen : List String) (nodes : List Fields) (v : String)
      → occurs v (node_ids repr seen nodes) ≤ 1
  unfolding node_ids
  node_ids-distinct seen [] v = omega arith
  node_ids-distinct seen (node ∷ nodes) v = elim (Option-cases (node_id_of repr node)) [
    | inl keyless ↦ omega (
      arith,
      node_ids-distinct seen nodes v,
      ap (occurs v) (node_ids-keyless seen node nodes keyless),
    )
    | inr (i, keyed) ↦ elim (Bool-cases (any (str_eq i) seen)) [
      | inl known ↦ omega (
        arith,
        node_ids-distinct seen nodes v,
        ap (occurs v) (node_ids-seen seen node nodes keyed known),
      )
      | inr fresh ↦
          let e = ap (occurs v) (node_ids-fresh seen node nodes keyed fresh) in
          let rest = node_ids-distinct (i ∷ seen) nodes v in
          elim (Bool-cases (str_eq i v)) [
            | inl same ↦
                let none_left =
                  occurs-seen (i ∷ seen) nodes v (ground (arith, same, str_eq_comm i v)) in
                ground (arith, e, none_left, same)
            | inr other ↦ ground (arith, e, rest, other)
          ]
    ]
  ]

  has_id-keyless :
      (id : String) (node : Fields) → node_id_of repr node ≡ none → has_id repr id node ≡ false
  has_id-keyless id node h = rw (h, has_id) refl

  has_id-keyed :
      (id : String) (node : Fields) {i : String}
      → node_id_of repr node ≡ some i
      → has_id repr id node ≡ str_eq i id
  has_id-keyed id node h = rw (h, has_id) refl

  node_at-cons :
      (id : String) (node : Fields) (nodes : List Fields)
      → is_some (node_at repr (node ∷ nodes) id)
        ≡ (is_some (node_at repr nodes id) || has_id repr id node)
  unfolding node_at
  node_at-cons id node nodes = ground arith

  -- A node that `nodes_by_id` has is one of its keys, once.
  pub node_ids-known :
      (seen : List String) (nodes : List Fields) (id : String)
      → is_some (node_at repr nodes id) ≡ true
      → any (str_eq id) seen ≡ false
      → occurs id (node_ids repr seen nodes) ≡ 1
  unfolding node_at
  node_ids-known seen [] id h k = absurd (false≢true h)
  node_ids-known seen (node ∷ nodes) id h k =
      let split = sym (node_at-cons id node nodes) ∙ h in
      elim (Option-cases (node_id_of repr node)) [
        | inl keyless ↦
            let later : is_some (node_at repr nodes id) ≡ true =
              ground (arith, split, has_id-keyless id node keyless) in
            ap (occurs id) (node_ids-keyless seen node nodes keyless)
            ∙ node_ids-known seen nodes id later k
        | inr (i, keyed) ↦ elim (Bool-cases (any (str_eq i) seen)) [
          | inl known ↦
              let other = other_key id i seen known k in
              let later : is_some (node_at repr nodes id) ≡ true =
                ground (arith, split, has_id-keyed id node keyed, other, str_eq_comm id i) in
              ap (occurs id) (node_ids-seen seen node nodes keyed known)
              ∙ node_ids-known seen nodes id later k
          | inr fresh ↦
              let e = ap (occurs id) (node_ids-fresh seen node nodes keyed fresh) in
              elim (Bool-cases (str_eq i id)) [
                | inl same ↦
                    let none_left =
                      occurs-seen (i ∷ seen) nodes id (ground (arith, same, str_eq_comm i id)) in
                    ground (arith, e, none_left, same)
                | inr other ↦
                    let later : is_some (node_at repr nodes id) ≡ true =
                      ground (arith, split, has_id-keyed id node keyed, other) in
                    let rest =
                      node_ids-known (i ∷ seen) nodes id later
                        (ground (arith, k, other, str_eq_comm i id)) in
                    ground (arith, e, rest, other)
              ]
        ]
      ]
