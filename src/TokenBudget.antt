-- ===== src/TokenBudget.antt =====
-- The token budget of a recall: src/core/token-budget.ts (estimateTokens, packRecallByBudget). A
-- score and the two floating-point computations on it and on word counts are parameters.
pub mod Selection
pub mod Packing
mod Examples
use agent_working_memory.Base.{
  is_space, ℕ, zero, suc, ◌+◌, ◌-◌, ◌/◌, max, Bool, true, false, ◌&&◌, ◌||◌, Option, none, some,
  List, [], ◌∷◌, ◌++◌, map, length, Text, if◌then◌else◌, ◌==◌, ltb, leb, sort,
}

-- The words of a text; the Boolean says that the last code unit was one of a word.
words_from : Bool → Text → ℕ
words_from inside [] = 0
words_from inside (c ∷ s) =
    let rest = words_from (if is_space c then false else true) s in
    if is_space c then rest else if inside then rest else suc rest

-- `text.split(/\s+/).filter(Boolean).length`.
unfoldable pub word_count : Text → ℕ
unfolding words_from
word_count s = words_from false s

-- `scale n` is `Math.ceil(n * 1.3)`.
unfoldable pub estimate_tokens : (ℕ → ℕ) → Text → ℕ
estimate_tokens scale s = max (scale (word_count s)) ((length s + 3) / 4)

pub record PackedRecall : Type 0 where
  lines : List Text
  kept : ℕ
  total : ℕ
  tokens : ℕ
  withheld_tokens : ℕ

pub record Measured (S : Type 0) : Type 0 where
  line : Text
  tokens : ℕ
  score : S
  order : ℕ

-- `unbudgeted || allTokens <= effectiveBudget`.
abbrev pub is_free : Option ℕ → ℕ → ℕ → Bool
is_free none reserved all_tokens = true
is_free (some budget) reserved all_tokens = (budget == 0) || leb all_tokens (budget - reserved)

abbrev pub effective : Option ℕ → ℕ → ℕ
effective none reserved = 0
effective (some budget) reserved = budget - reserved

module _ {S : Type 0} where
  abbrev pub sum_tokens : List (Measured S) → ℕ
  sum_tokens [] = 0
  sum_tokens (m ∷ ms) = m.tokens + sum_tokens ms

  -- The loop over the candidates; one that does not fit is skipped and the loop goes on.
  unfoldable pub pick : ℕ → List (Measured S) → ℕ → List (Measured S) × ℕ
  pick budget [] spent = ([], spent)
  pick budget (m ∷ ms) spent =
      let rest =
        pick budget ms (if ltb budget (spent + m.tokens) then spent else spent + m.tokens) in
      if ltb budget (spent + m.tokens) then rest else (m ∷ rest.0, rest.1)

  abbrev pub by_order : Measured S → Measured S → Bool
  by_order a b = ltb b.order a.order

  -- `behind x m y n`: `y / max(n, 1) - x / max(m, 1)` is positive.
  abbrev pub by_density : (S → ℕ → S → ℕ → Bool) → Measured S → Measured S → Bool
  by_density behind a b = behind a.score a.tokens b.score b.tokens

  -- The greedy selection: the first result if it fits, then the others by density.
  unfoldable pub choose : (S → ℕ → S → ℕ → Bool) → ℕ → List (Measured S) → List (Measured S) × ℕ
  choose behind budget [] = ([], 0)
  choose behind budget (top ∷ others) =
      let rest =
        pick budget (sort (by_density behind) others)
          (if leb top.tokens budget then top.tokens else 0) in
      if leb top.tokens budget then (top ∷ rest.0, rest.1) else rest

  abbrev pub packed : ℕ → ℕ → List (Measured S) × ℕ → PackedRecall
  packed total all_tokens chosen = record {
    lines = map (λ (m : Measured S). m.line) (sort by_order chosen.0);
    kept = length chosen.0;
    total = total;
    tokens = chosen.1;
    withheld_tokens = all_tokens - chosen.1;
  }

  -- Every result is returned, as without a budget.
  abbrev pub everything : List (Measured S) → PackedRecall
  everything ms = record {
    lines = map (λ (m : Measured S). m.line) ms;
    kept = length ms;
    total = length ms;
    tokens = sum_tokens ms;
    withheld_tokens = 0;
  }

  unfoldable pub pack : (S → ℕ → S → ℕ → Bool) → List (Measured S) → Option ℕ → ℕ → PackedRecall
  pack behind ms budget reserved =
      if is_free budget reserved (sum_tokens ms)
      then everything ms
      else packed (length ms) (sum_tokens ms) (choose behind (effective budget reserved) ms)

module _ {R S : Type 0} (score : R → S) (scale : ℕ → ℕ) (format : R → ℕ → Text) where
  abbrev pub measure : ℕ → List R → List (Measured S)
  measure i [] = []
  measure i (r ∷ rs) =
      record {
        line = format r i;
        tokens = estimate_tokens scale (format r i);
        score = score r;
        order = i;
      }
      ∷ measure (suc i) rs

  -- On no results at all the two branches of the source agree.
  abbrev pub pack_recall_by_budget : (S → ℕ → S → ℕ → Bool) → List R → Option ℕ → ℕ → PackedRecall
  pack_recall_by_budget behind rs budget reserved = pack behind (measure 0 rs) budget reserved
