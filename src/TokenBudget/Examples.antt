-- ===== src/TokenBudget/Examples.antt =====
-- A recall of three results at a budget.
use agent_working_memory.Base.{
  ℕ, ◌+◌, ◌*◌, ◌-◌, ◌/◌, ◌≤◌, ◌≢◌, max, Bool, some, List, [], ◌∷◌, Text, codes, arith, ltb, All,
}
use agent_working_memory.TokenBudget.{
  estimate_tokens, word_count, measure, pack_recall_by_budget, effective,
}
use agent_working_memory.TokenBudget.Packing.{sum_lines, IsPlaced, recall_bounded, recall-IsPlaced}

-- A result is its text and its score, here a number.
abbrev results : List (Text × ℕ)
results =
    (codes "the best match of all", 9)
    ∷ (codes "a long and less relevant result", 5)
    ∷ (codes "short", 4)
    ∷ []

abbrev score : Text × ℕ → ℕ
score r = r.1

abbrev format : Text × ℕ → ℕ → Text
format r i = r.0

abbrev scale : ℕ → ℕ
scale n = (n * 13 + 9) / 10

-- `y / max(n, 1)` is more than `x / max(m, 1)`.
abbrev behind : ℕ → ℕ → ℕ → ℕ → Bool
behind x m y n = ltb (x * max n 1) (y * max m 1)

abbrev budget : ℕ
budget = 12

full : budget ≢ 0
full = ground arith

recall_bounded_example :
    sum_lines
      (estimate_tokens scale)
      (pack_recall_by_budget score scale format behind results (some budget) 2).lines
    ≤ budget - 2
recall_bounded_example = recall_bounded score scale format behind results budget 2 full

recall-IsPlaced_example :
    All
      (IsPlaced
        (effective (some budget) 2)
        (pack_recall_by_budget score scale format behind results (some budget) 2))
      (measure score scale format 0 results)
recall-IsPlaced_example = recall-IsPlaced score scale format behind results (some budget) 2

fits : estimate_tokens scale (codes "short") ≤ 20 - 2
unfolding estimate_tokens word_count
fits = ground arith
