-- ===== src/TokenBudget/Packing.antt =====
-- What a packed recall holds, and what it leaves out.
use agent_working_memory.Base.{
  ℕ, suc, ◌+◌, ◌-◌, ◌≤◌, ◌<◌, ◌≡◌, ◌≢◌, ◌⊎◌, inl, inr, refl, ap, sym, ◌∙◌, Bool, true, Option, none,
  some, List, [], ◌∷◌, map, length, head?, any, Text, text_eq, text_eq_refl, sort, insert_sorted,
  All, All-map, subst, Bool-cases, arith, length-map,
}
use agent_working_memory.TokenBudget.Selection.{
  has_line, IsSettled, any-sort, any-map_line, length-sort, sort-sum, choose_bounded, choose-sum,
  choose-IsSettled, choose_top, All-sort_intro, All-choose,
}
use agent_working_memory.TokenBudget.{
  Measured, PackedRecall, estimate_tokens, sum_tokens, pick, choose, by_order, by_density, packed,
  everything, is_free, effective, pack, measure, pack_recall_by_budget,
}

-- The tokens of lines, by an estimate.
abbrev pub sum_lines : (Text → ℕ) → List Text → ℕ
sum_lines est [] = 0
sum_lines est (l ∷ ls) = est l + sum_lines est ls

module _ {S : Type 0} where
  IsEstimated : (Text → ℕ) → Measured S → Type 0
  IsEstimated est m = m.tokens ≡ est m.line

  sum_lines-sum_tokens :
      (est : Text → ℕ) (ms : List (Measured S))
      → All (IsEstimated est) ms
      → sum_lines est (map (λ (m : Measured S). m.line) ms) ≡ sum_tokens ms
  unfolding IsEstimated
  sum_lines-sum_tokens est [] h = refl
  sum_lines-sum_tokens est (m ∷ ms) h = omega (arith, h.0, sum_lines-sum_tokens est ms h.1)

  -- The two ways a recall is packed.
  pack_cases :
      (behind : S → ℕ → S → ℕ → Bool) (ms : List (Measured S)) (budget : Option ℕ) (reserved : ℕ)
      → (pack behind ms budget reserved ≡ everything ms)
        ⊎ ((effective budget reserved < sum_tokens ms)
            × (pack behind ms budget reserved
                ≡ packed
                    (length ms)
                    (sum_tokens ms)
                    (choose behind (effective budget reserved) ms)))
  unfolding pack
  pack_cases behind ms none reserved = inl refl
  pack_cases behind ms (some budget) reserved =
      elim (Bool-cases (is_free (some budget) reserved (sum_tokens ms))) [
        | inl e ↦ inl (rw e refl)
        | inr e ↦ inr (ground arith, rw e refl)
      ]

  -- What the packing promises of a recall, whatever the scores are.
  abbrev pub IsAccounted : (Text → ℕ) → List (Measured S) → PackedRecall → Type 0
  IsAccounted est ms p =
      (p.tokens ≡ sum_lines est p.lines)
      × (p.kept ≡ length p.lines)
      × (p.total ≡ length ms)
      × (p.tokens + p.withheld_tokens ≡ sum_tokens ms)

  packed-IsAccounted :
      (est : Text → ℕ) (behind : S → ℕ → S → ℕ → Bool) (budget : ℕ) (ms : List (Measured S))
      → budget < sum_tokens ms
      → All (IsEstimated est) ms
      → IsAccounted est ms (packed (length ms) (sum_tokens ms) (choose behind budget ms))
  packed-IsAccounted est behind budget ms low h =
      let kept = (choose behind budget ms).0 in
      let bounded = choose_bounded behind budget ms in
      (
        omega (
          arith,
          choose-sum behind budget ms,
          sort-sum by_order kept,
          sum_lines-sum_tokens est (sort by_order kept) (
              All-sort_intro (IsEstimated est) by_order kept
                (All-choose (IsEstimated est) behind budget ms h)),
        ),
        omega (
          arith,
          length-map (λ (m : Measured S). m.line) (sort by_order kept),
          length-sort by_order kept,
        ),
        refl,
        omega arith,
      )

  everything-IsAccounted :
      (est : Text → ℕ) (ms : List (Measured S))
      → All (IsEstimated est) ms
      → IsAccounted est ms (everything ms)
  everything-IsAccounted est ms h = (
    sym (sum_lines-sum_tokens est ms h),
    sym (length-map (λ (m : Measured S). m.line) ms),
    refl,
    omega arith,
  )

  pack-IsAccounted :
      (est : Text → ℕ) (behind : S → ℕ → S → ℕ → Bool) (ms : List (Measured S)) (budget : Option ℕ)
      (reserved : ℕ)
      → All (IsEstimated est) ms
      → IsAccounted est ms (pack behind ms budget reserved)
  pack-IsAccounted est behind ms budget reserved h = elim (pack_cases behind ms budget reserved) [
    | inl e ↦ subst (IsAccounted est ms) (sym e) (everything-IsAccounted est ms h)
    | inr c ↦
        subst (IsAccounted est ms) (sym c.1)
          (packed-IsAccounted est behind (effective budget reserved) ms c.0 h)
  ]

  -- A recall with a budget stays inside what the reserve leaves of it: the tokens that it counts are
  -- at most the difference, and so nothing where the reserve takes it all.
  pack_bounded :
      (behind : S → ℕ → S → ℕ → Bool) (ms : List (Measured S)) (budget reserved : ℕ)
      → budget ≢ 0
      → (pack behind ms (some budget) reserved).tokens ≤ budget - reserved
  unfolding pack
  pack_bounded behind ms budget reserved h =
      ground (arith, choose_bounded behind (budget - reserved) ms)

  -- The candidate is among the lines, or its tokens on top of those spent overrun the budget.
  abbrev pub IsPlaced : ℕ → PackedRecall → Measured S → Type 0
  IsPlaced budget p m =
      (any (λ l. text_eq l m.line) p.lines ≡ true) ⊎ (budget < p.tokens + m.tokens)

  All-present :
      (xs ms : List (Measured S))
      → ((t : Text) → has_line t ms ≡ true → has_line t xs ≡ true)
      → All (λ m. has_line m.line xs ≡ true) ms
  All-present xs [] h = tt
  All-present xs (m ∷ ms) h = (
    h m.line (ground (arith, text_eq_refl m.line)),
    All-present xs ms (λ t e. h t (ground arith)),
  )

  All-IsPlaced : (budget : ℕ) (ms : List (Measured S)) → All (IsPlaced budget (everything ms)) ms
  All-IsPlaced budget ms =
      All-map (λ m. has_line m.line ms ≡ true) (IsPlaced budget (everything ms))
        (λ m e. ground (arith, any-map_line m.line ms)) ms (All-present ms ms (λ t e. e))

  settled-IsPlaced :
      (budget total all_tokens : ℕ) (chosen : List (Measured S) × ℕ) (m : Measured S)
      → IsSettled budget chosen m
      → IsPlaced budget (packed total all_tokens chosen) m
  settled-IsPlaced budget total all_tokens chosen m h = ground (
    arith,
    any-map_line m.line (sort by_order chosen.0),
    any-sort (λ k. text_eq k.line m.line) by_order chosen.0,
  )

  pack-IsPlaced :
      (behind : S → ℕ → S → ℕ → Bool) (ms : List (Measured S)) (budget : Option ℕ) (reserved : ℕ)
      → All (IsPlaced (effective budget reserved) (pack behind ms budget reserved)) ms
  pack-IsPlaced behind ms budget reserved = elim (pack_cases behind ms budget reserved) [
    | inl e ↦
        subst (λ p. All (IsPlaced (effective budget reserved) p) ms) (sym e)
          (All-IsPlaced (effective budget reserved) ms)
    | inr c ↦
        subst (λ p. All (IsPlaced (effective budget reserved) p) ms) (sym c.1)
          (All-map
            (IsSettled (effective budget reserved) (choose behind (effective budget reserved) ms))
            (IsPlaced (effective budget reserved)
              (packed (length ms) (sum_tokens ms) (choose behind (effective budget reserved) ms)))
            (λ m.
              settled-IsPlaced (effective budget reserved) (length ms) (sum_tokens ms)
                (choose behind (effective budget reserved) ms) m)
            ms (choose-IsSettled behind (effective budget reserved) ms))
  ]

  insert_first :
      (m : Measured S) (ks : List (Measured S)) → m.order ≡ 0 → insert_sorted by_order m ks ≡ m ∷ ks
  insert_first m [] first = refl
  insert_first m (k ∷ ks) first = ground arith

  packed_first :
      (total all_tokens spent : ℕ) (m : Measured S) (ms : List (Measured S))
      → m.order ≡ 0
      → head? (packed total all_tokens (m ∷ ms, spent)).lines ≡ some m.line
  packed_first total all_tokens spent m ms first =
      ap (λ ks. head? (map (λ (k : Measured S). k.line) ks))
        (insert_first m (sort by_order ms) first)

  pack_first :
      (behind : S → ℕ → S → ℕ → Bool) (m : Measured S) (ms : List (Measured S)) (budget : Option ℕ)
      (reserved : ℕ)
      → m.order ≡ 0
      → m.tokens ≤ effective budget reserved
      → head? (pack behind (m ∷ ms) budget reserved).lines ≡ some m.line
  pack_first behind m ms budget reserved first fits =
      elim (pack_cases behind (m ∷ ms) budget reserved) [
        | inl e ↦ ap (λ p. head? p.lines) e
        | inr c ↦
            subst (λ p. head? p.lines ≡ some m.line)
              (sym (
                c.1
                ∙ ap (packed (suc (length ms)) (sum_tokens (m ∷ ms)))
                    (choose_top behind (effective budget reserved) m ms (ground arith))))
              (packed_first (suc (length ms)) (sum_tokens (m ∷ ms))
                (pick (effective budget reserved) (sort (by_density behind) ms) m.tokens).1 m
                (pick (effective budget reserved) (sort (by_density behind) ms) m.tokens).0 first)
      ]

module _ {R S : Type 0} (score : R → S) (scale : ℕ → ℕ) (format : R → ℕ → Text)
    (behind : S → ℕ → S → ℕ → Bool) where
  measure-IsEstimated :
      (i : ℕ) (rs : List R)
      → All (IsEstimated (estimate_tokens scale)) (measure score scale format i rs)
  unfolding IsEstimated
  measure-IsEstimated i [] = tt
  measure-IsEstimated i (r ∷ rs) = (refl, measure-IsEstimated (suc i) rs)

  -- A recall's account is right, with a budget or without one: its tokens are those of its lines,
  -- `kept` and `total` count its lines and all results, and the tokens spent and withheld make up
  -- those of all results.
  pub recall-IsAccounted :
      (rs : List R) (budget : Option ℕ) (reserved : ℕ)
      → IsAccounted
          (estimate_tokens scale)
          (measure score scale format 0 rs)
          (pack_recall_by_budget score scale format behind rs budget reserved)
  recall-IsAccounted rs budget reserved =
      pack-IsAccounted (estimate_tokens scale) behind (measure score scale format 0 rs) budget
        reserved (measure-IsEstimated 0 rs)

  -- A recall with a budget that is not zero stays inside it: the tokens of its lines are at most what
  -- the reserve leaves of the budget, so there are none where the reserve takes it all.
  pub recall_bounded :
      (rs : List R) (budget reserved : ℕ)
      → budget ≢ 0
      → sum_lines
          (estimate_tokens scale)
          (pack_recall_by_budget score scale format behind rs (some budget) reserved).lines
        ≤ budget - reserved
  recall_bounded rs budget reserved h = omega (
    arith,
    (recall-IsAccounted rs (some budget) reserved).0,
    pack_bounded behind (measure score scale format 0 rs) budget reserved h,
  )

  -- The selection is greedy to the end: each result is among the lines of the recall, or its tokens on
  -- top of those that were spent are more than the reserve leaves of the budget.
  pub recall-IsPlaced :
      (rs : List R) (budget : Option ℕ) (reserved : ℕ)
      → All
          (IsPlaced
            (effective budget reserved)
            (pack_recall_by_budget score scale format behind rs budget reserved))
          (measure score scale format 0 rs)
  recall-IsPlaced rs budget reserved =
      pack-IsPlaced behind (measure score scale format 0 rs) budget reserved

  -- The best result is the first line of the recall whenever it fits in what the reserve leaves of
  -- the budget, however long it is.
  pub recall_best_first :
      (r : R) (rs : List R) (budget reserved : ℕ)
      → estimate_tokens scale (format r 0) ≤ budget - reserved
      → head?
          (pack_recall_by_budget score scale format behind (r ∷ rs) (some budget) reserved).lines
        ≡ some (format r 0)
  recall_best_first r rs budget reserved fits =
      pack_first behind
        (record {
          line = format r 0;
          tokens = estimate_tokens scale (format r 0);
          score = score r;
          order = 0;
        })
        (measure score scale format 1 rs) (some budget) reserved refl fits
