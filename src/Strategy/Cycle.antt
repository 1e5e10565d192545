-- ===== src/Strategy/Cycle.antt =====
-- packages/shared/goodmoneying_shared/strategy_graph.py: `_has_cycle`, Kahn's algorithm. The order in
-- which a set of targets is listed is an argument.
pub mod Rounds
pub mod Kahn
use Prim.Native.Nat.{◌+◌, ◌-◌}
use Prim.Native.String.{String}
use text.Mathlib.Text.{◌==◌ as str_eq}
use goodmoneying.Prelude.{
  ℕ, zero, suc, Bool, true, false, not, List, [], ◌∷◌, ◌++◌, length, keep, ◌==◌, if◌then◌else◌,
}
use goodmoneying.RateLimit.Keyed.{set}

module _ (targets : String → List String) where
  -- The loop over the targets of a node: `remaining` and `ready` after it. No count is ever below 0.
  unfoldable pub release : List String → (String → ℕ) → List String → (String → ℕ) × List String
  unfolding set
  release [] remaining ready = (remaining, ready)
  release (target ∷ rest) remaining ready =
      let before = remaining target in
      release rest (set target (before - 1) remaining)
        (if before == 1 then ready ++ target ∷ [] else ready)

  -- The `while` loop, on fuel: the number of visited nodes, and what is still ready.
  unfoldable pub drain : ℕ → (String → ℕ) → List String → ℕ → ℕ × List String
  unfolding release
  drain zero remaining ready visited = (visited, ready)
  drain (suc fuel) remaining [] visited = (visited, [])
  drain (suc fuel) remaining (node ∷ ready) visited =
      let (remaining', ready') = release (targets node) remaining ready in
      drain fuel remaining' ready' (suc visited)

  -- `nodes` are the keys of `indegree`.
  unfoldable pub visit_all : List String → (String → ℕ) → ℕ × List String
  unfolding drain
  visit_all nodes indegree =
      drain (suc (length nodes)) indegree (keep (λ node. indegree node == 0) nodes) 0

  unfoldable pub has_cycle : List String → (String → ℕ) → Bool
  unfolding visit_all
  has_cycle nodes indegree = not ((visit_all nodes indegree).0 == length nodes)
