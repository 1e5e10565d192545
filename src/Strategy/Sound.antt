-- ===== src/Strategy/Sound.antt =====
-- What strategy_graph.py means by a strategy graph without errors: its nodes, edges and outputs.
use Prim.Native.String.{String}
use mathlib.Core.Bool.{false≢true}
use text.Mathlib.Text.{◌==◌ as str_eq, starts_with}
use goodmoneying.Prelude.{
  is_some, ℕ, suc, Bool, true, false, not, ◌||◌, ◌≡◌, ◌↔◌, refl, sym, ap, ◌∙◌, inl, inr, Option,
  none, some, List, [], ◌∷◌, ◌++◌, All, any, if◌then◌else◌, Bool-cases, Option-cases, arith,
}
use goodmoneying.Prelude.Int.{ℤ, pos, ◌≤ℤ◌}
use goodmoneying.Prelude.Results.{ok, bind-returned}
use goodmoneying.Prelude.Json.{
  Json, null, boolean, integer, float, string, array, object, Fields, get_or_null, json_eq,
}
use goodmoneying.Strategy.{
  ValidationError, report_if, mapping, int_config, is_positive, is_negative, has_positive_lookahead,
  is_decimal_string_or_number, find_port, text_of, node_at,
}
use goodmoneying.Strategy.Nodes.{
  is_out_of_range, is_below, is_bad_threshold, missing_data_policies, not_in_policies, lacks_policy,
  sma_errors, threshold_errors, setting_errors, node_errors, all_node_errors,
}
use goodmoneying.Strategy.Edges.{
  is_incompatible, port_errors, from_port_of, to_port_of, edge_errors, is_node,
}

-- The setting is no integer, or it is an integer of this kind.
abbrev IfSet : Option ℤ → (ℤ → Type 0) → Type 0
IfSet none P = Unit
IfSet (some i) P = P i

abbrev pub HasNoLookahead : Fields → Type 0
HasNoLookahead config =
    IfSet (int_config config "lookAheadPeriods") (λ i. i ≤ℤ pos 0)
    × IfSet (int_config config "futureOffsetPeriods") (λ i. i ≤ℤ pos 0)
    × IfSet (int_config config "offsetPeriods") (λ i. pos 0 ≤ℤ i)

-- A window of 1 to 10000 periods, and no shorter warm-up.
abbrev IsWindow : Option ℤ → Option ℤ → Type 0
IsWindow none warmup = ⊥
IsWindow (some w) warmup = (pos 1 ≤ℤ w) × (w ≤ℤ pos 10000) × IfSet warmup (λ m. w ≤ℤ m)

abbrev pub HasWindow : Fields → Type 0
HasWindow config = IsWindow (int_config config "windowPeriods") (int_config config "warmupPeriods")

abbrev IsPolicy : Json → Type 0
IsPolicy (string s) = any (str_eq s) missing_data_policies ≡ true
IsPolicy _ = ⊥

abbrev IsThreshold : Json → Type 0
IsThreshold null = Unit
IsThreshold v = is_decimal_string_or_number v ≡ true

-- What a node of the given type with the given settings must have.
abbrev pub IsSoundNode : String → Fields → Type 0
IsSoundNode node_type config =
    (starts_with node_type "dataset." ≡ true → IsPolicy (get_or_null "missingDataPolicy" config))
    × HasNoLookahead config
    × (str_eq node_type "indicator.sma" ≡ true → HasWindow config)
    × (str_eq node_type "condition.greater_than" ≡ true
        → IsThreshold (get_or_null "threshold" config))

-- The two ports of an edge are there, with one type of data and no two timeframes.
abbrev pub ArePorts : Option Fields → Option Fields → Type 0
ArePorts (some from_port) (some to_port) =
    (json_eq (get_or_null "dataType" from_port) (get_or_null "dataType" to_port) ≡ true)
    × (is_incompatible (get_or_null "timeframe" from_port) (get_or_null "timeframe" to_port)
        ≡ false)
ArePorts _ _ = ⊥

pub both_ways {ℓ κ μ} : {A : Type ℓ} {B : Type κ} {C : Type μ} → A ↔ B → B ↔ C → A ↔ C
both_ways f g = (λ a. g.0 (f.0 a), λ c. f.1 (g.1 c))

pub not-false_iff : (b : Bool) → (not b ≡ false) ↔ (b ≡ true)
not-false_iff b = ground arith

pub report_if_iff : (b : Bool) (e : ValidationError) → (report_if b e ≡ []) ↔ (b ≡ false)
report_if_iff b e = ground arith

append-eq_nil {ℓ} : {A : Type ℓ} (xs ys : List A) → (xs ++ ys ≡ []) ↔ ((xs ≡ []) × (ys ≡ []))
append-eq_nil [] ys = ground arith
append-eq_nil (x ∷ xs) ys = ground arith

settings_iff :
    (ahead future offset : Option ℤ)
    → ((is_positive ahead || is_positive future || is_negative offset) ≡ false) ↔ (
        IfSet ahead (λ i. i ≤ℤ pos 0)
        × IfSet future (λ i. i ≤ℤ pos 0)
        × IfSet offset (λ i. pos 0 ≤ℤ i))
settings_iff ahead future offset = ground arith

lookahead_iff : (config : Fields) → (has_positive_lookahead config ≡ false) ↔ HasNoLookahead config
unfolding has_positive_lookahead
lookahead_iff config =
    settings_iff (int_config config "lookAheadPeriods") (int_config config "futureOffsetPeriods")
      (int_config config "offsetPeriods")

IsWindow-iff :
    (window warmup : Option ℤ) (e e' : ValidationError)
    → (report_if (is_out_of_range window) e ++ report_if (is_below warmup window) e' ≡ [])
      ↔ IsWindow window warmup
IsWindow-iff window warmup e e' = ground arith

sma_iff : (id : String) (config : Fields) → (sma_errors id config ≡ []) ↔ HasWindow config
unfolding sma_errors
sma_iff id config =
    IsWindow-iff (int_config config "windowPeriods") (int_config config "warmupPeriods") _ _

bad-IsThreshold_iff : (v : Json) → (is_bad_threshold v ≡ false) ↔ IsThreshold v
bad-IsThreshold_iff null = ground arith
bad-IsThreshold_iff (boolean b) = ground arith
bad-IsThreshold_iff (integer i) = ground arith
bad-IsThreshold_iff (float d) = ground arith
bad-IsThreshold_iff (string s) = ground arith
bad-IsThreshold_iff (array xs) = ground arith
bad-IsThreshold_iff (object fs) = ground arith

IsThreshold-iff :
    (id : String) (config : Fields)
    → (threshold_errors id config ≡ []) ↔ IsThreshold (get_or_null "threshold" config)
unfolding threshold_errors
IsThreshold-iff id config =
    both_ways (report_if_iff _ _) (bad-IsThreshold_iff (get_or_null "threshold" config))

not_in_policies_iff : (v : Json) {b : Bool} → not_in_policies v ≡ ok b → (b ≡ false) ↔ IsPolicy v
unfolding not_in_policies
not_in_policies_iff null h = ground arith
not_in_policies_iff (boolean c) h = ground arith
not_in_policies_iff (integer i) h = ground arith
not_in_policies_iff (float d) h = ground arith
not_in_policies_iff (string s) h = ground arith
not_in_policies_iff (array xs) h = ground arith
not_in_policies_iff (object fs) h = ground arith

lacks_policy_iff :
    (node_type : String) (config : Fields) {b : Bool}
    → lacks_policy node_type config ≡ ok b
    → (b ≡ false) ↔ (
        starts_with node_type "dataset." ≡ true → IsPolicy (get_or_null "missingDataPolicy" config))
unfolding lacks_policy
lacks_policy_iff node_type config {b} h = elim (Bool-cases (starts_with node_type "dataset.")) [
  | inl dataset ↦
      let looked_up : not_in_policies (get_or_null "missingDataPolicy" config) ≡ ok b =
        rw dataset at h in
      let iff = not_in_policies_iff (get_or_null "missingDataPolicy" config) looked_up in
      (λ fine _. iff.0 fine, λ policy. iff.1 (policy dataset))
  | inr other ↦
      let passed : ok false ≡ ok b = rw other at h in
      (λ fine yes. absurd (false≢true (sym other ∙ yes)), λ policy. cc)
]

if_errors_iff {κ} :
    (test : Bool) (errors : List ValidationError) (P : Type κ)
    → (errors ≡ []) ↔ P
    → ((if test then errors else []) ≡ []) ↔ (test ≡ true → P)
if_errors_iff true errors P iff = (λ h _. iff.0 h, λ h. iff.1 (h refl))
if_errors_iff false errors P iff = (λ h no. absurd (false≢true no), λ h. refl)

pub both_iff {κ μ} :
    (xs ys : List ValidationError) (P : Type κ) (Q : Type μ)
    → (xs ≡ []) ↔ P
    → (ys ≡ []) ↔ Q
    → (xs ++ ys ≡ []) ↔ (P × Q)
both_iff xs ys P Q first second =
    let split = append-eq_nil xs ys in
    (λ h. (first.0 (split.0 h).0, second.0 (split.0 h).1), λ h. split.1 (first.1 h.0, second.1 h.1))

setting_errors_iff :
    (id node_type : String) (config : Fields) (lacking : Bool)
    → (setting_errors id node_type config lacking ≡ []) ↔ (
        (lacking ≡ false)
        × HasNoLookahead config
        × (str_eq node_type "indicator.sma" ≡ true → HasWindow config)
        × (str_eq node_type "condition.greater_than" ≡ true
            → IsThreshold (get_or_null "threshold" config)))
unfolding setting_errors
setting_errors_iff id node_type config lacking =
    let first =
      both_iff _ _ _ _ (report_if_iff lacking _)
        (both_ways (report_if_iff _ _) (lookahead_iff config)) in
    let sma =
      if_errors_iff (str_eq node_type "indicator.sma") (sma_errors id config) _
        (sma_iff id config) in
    let threshold =
      if_errors_iff (str_eq node_type "condition.greater_than") (threshold_errors id config) _
        (IsThreshold-iff id config) in
    let all = both_iff _ _ _ _ (both_iff _ _ _ _ first sma) threshold in
    (λ h. let (((p, q), r), t) = all.0 h in (p, q, r, t), λ (p, q, r, t). all.1 (((p, q), r), t))

port_errors_iff :
    (index : ℕ) (from_port to_port : Option Fields)
    → (port_errors index from_port to_port ≡ []) ↔ ArePorts from_port to_port
unfolding port_errors
port_errors_iff index none to_port = ground arith
port_errors_iff index (some f) none = ground arith
port_errors_iff index (some f) (some t) =
    both_iff _ _ _ _
      (both_ways (report_if_iff _ _)
        (not-false_iff (json_eq (get_or_null "dataType" f) (get_or_null "dataType" t))))
      (report_if_iff _ _)

module _ (repr : Json → String) where
  -- The node's type and settings, as the validation reads them.
  abbrev pub SoundNode : Fields → Type 0
  SoundNode node = IsSoundNode (text_of repr "type" node) (mapping (get_or_null "config" node))

  node_errors_iff :
      (node : Fields) {errors : List ValidationError}
      → node_errors repr node ≡ ok errors
      → (errors ≡ []) ↔ SoundNode node
  unfolding node_errors
  node_errors_iff node {errors} h =
      let node_type = text_of repr "type" node in
      let config = mapping (get_or_null "config" node) in
      let (lacking, made, looked_up) = bind-returned (lacks_policy node_type config) _ h in
      let e : setting_errors (text_of repr "id" node) node_type config lacking ≡ errors = cc in
      let settings = setting_errors_iff (text_of repr "id" node) node_type config lacking in
      let policy = lacks_policy_iff node_type config looked_up in
      (
        λ none_left.
            let sound = settings.0 (e ∙ none_left) in (policy.0 sound.0, sound.1, sound.2, sound.3),
        λ sound. sym e ∙ settings.1 (policy.1 sound.0, sound.1, sound.2, sound.3),
      )

  pub all_node_errors_iff :
      (nodes : List Fields) {errors : List ValidationError}
      → all_node_errors repr nodes ≡ ok errors
      → (errors ≡ []) ↔ All SoundNode nodes
  unfolding all_node_errors
  all_node_errors_iff [] h = ground arith
  all_node_errors_iff (node ∷ nodes) {errors} h =
      let (first, later, first_made) = bind-returned (node_errors repr node) _ h in
      let (rest, made, rest_made) = bind-returned (all_node_errors repr nodes) _ later in
      let e : first ++ rest ≡ errors = cc in
      let both =
        both_iff first rest _ _ (node_errors_iff node first_made)
          (all_node_errors_iff nodes rest_made) in
      (λ none_left. both.0 (e ∙ none_left), λ sound. sym e ∙ both.1 sound)

  module _ (nodes : List Fields) where
    abbrev pub SoundEdge : Fields → Type 0
    SoundEdge edge = ArePorts (from_port_of repr nodes edge) (to_port_of repr nodes edge)

    pub edge_errors_iff :
        (index : ℕ) (edges : List Fields)
        → (edge_errors repr nodes index edges ≡ []) ↔ All SoundEdge edges
    unfolding edge_errors
    edge_errors_iff index [] = ground arith
    edge_errors_iff index (edge ∷ edges) =
        both_iff _ _ _ _
          (port_errors_iff index (from_port_of repr nodes edge) (to_port_of repr nodes edge))
          (edge_errors_iff (suc index) edges)

    -- Ports are found only at nodes.
    pub find_port-is_node :
        (id port_key : String) (port_name : Json) {port : Fields}
        → find_port (node_at repr nodes id) port_key port_name ≡ some port
        → is_node repr nodes id ≡ true
    unfolding find_port
    find_port-is_node id port_key port_name h = elim (Option-cases (node_at repr nodes id)) [
      | inl missing ↦ let e : none ≡ some _ = rw missing at h in cc
      | inr (node, there) ↦ ap is_some there
    ]
