-- ===== src/TokenBudget/Selection.antt =====
-- The greedy selection of a recall's results: its sum, its bound and what it passes over.
use agent_working_memory.Base.{
  ℕ, suc, ◌+◌, ◌≤◌, ◌<◌, ◌≡◌, ◌⊎◌, inl, inr, refl, sym, Bool, true, false, ◌||◌, List, [], ◌∷◌, map,
  length, any, Text, text_eq, text_eq_refl, if◌then◌else◌, ltb, leb, sort, insert_sorted, All,
  All-map, subst, Bool-cases, arith,
}
use agent_working_memory.TokenBudget.{Measured, sum_tokens, pick, choose, by_density}

module _ {S : Type 0} where
  pick_bounded :
      (budget : ℕ) (ms : List (Measured S)) (spent : ℕ)
      → spent ≤ budget
      → (pick budget ms spent).1 ≤ budget
  unfolding pick
  pick_bounded budget [] spent h = h
  pick_bounded budget (m ∷ ms) spent h = ground (
    arith,
    pick_bounded budget ms (if ltb budget (spent + m.tokens) then spent else spent + m.tokens),
  )

  pub pick-sum :
      (budget : ℕ) (ms : List (Measured S)) (spent : ℕ)
      → (pick budget ms spent).1 ≡ spent + sum_tokens (pick budget ms spent).0
  unfolding pick
  pick-sum budget [] spent = omega arith
  pick-sum budget (m ∷ ms) spent = ground (
    arith,
    pick-sum budget ms (if ltb budget (spent + m.tokens) then spent else spent + m.tokens),
  )

  pick_grows : (budget : ℕ) (ms : List (Measured S)) (spent : ℕ) → spent ≤ (pick budget ms spent).1
  pick_grows budget ms spent = omega (arith, pick-sum budget ms spent)

  abbrev pub has_line : Text → List (Measured S) → Bool
  has_line t ms = any (λ m. text_eq m.line t) ms

  -- The candidate is taken, or it would overrun the budget even at the end.
  abbrev pub IsSettled : ℕ → List (Measured S) × ℕ → Measured S → Type 0
  IsSettled budget chosen m = (has_line m.line chosen.0 ≡ true) ⊎ (budget < chosen.1 + m.tokens)

  IsSettled-more :
      (budget : ℕ) (k : Measured S) (chosen : List (Measured S) × ℕ) (m : Measured S)
      → IsSettled budget chosen m
      → IsSettled budget (k ∷ chosen.0, chosen.1) m
  IsSettled-more budget k chosen m h = ground arith

  pick_end : (budget spent : ℕ) → pick {S = S} budget [] spent ≡ ([], spent)
  unfolding pick
  pick_end budget spent = refl

  pick_skip :
      (budget : ℕ) (m : Measured S) (ms : List (Measured S)) (spent : ℕ)
      → ltb budget (spent + m.tokens) ≡ true
      → pick budget (m ∷ ms) spent ≡ pick budget ms spent
  unfolding pick
  pick_skip budget m ms spent e = rw e refl

  pick_take :
      (budget : ℕ) (m : Measured S) (ms : List (Measured S)) (spent : ℕ)
      → ltb budget (spent + m.tokens) ≡ false
      → pick budget (m ∷ ms) spent
        ≡ (m ∷ (pick budget ms (spent + m.tokens)).0, (pick budget ms (spent + m.tokens)).1)
  unfolding pick
  pick_take budget m ms spent e = rw e refl

  -- Taking one more candidate, which is then settled, keeps the others settled.
  IsSettled-cons :
      (budget : ℕ) (m : Measured S) (ms : List (Measured S)) (chosen : List (Measured S) × ℕ)
      → All (IsSettled budget chosen) ms
      → All (IsSettled budget (m ∷ chosen.0, chosen.1)) (m ∷ ms)
  IsSettled-cons budget m ms chosen h = (
    inl (ground (arith, text_eq_refl m.line)),
    All-map (IsSettled budget chosen) (IsSettled budget (m ∷ chosen.0, chosen.1))
        (λ k. IsSettled-more budget m chosen k) ms h,
  )

  pick-IsSettled :
      (budget : ℕ) (ms : List (Measured S)) (spent : ℕ)
      → All (IsSettled budget (pick budget ms spent)) ms
  pick-IsSettled budget [] spent = tt
  pick-IsSettled budget (m ∷ ms) spent = elim (Bool-cases (ltb budget (spent + m.tokens))) [
    | inl e ↦
        subst (λ c. All (IsSettled budget c) (m ∷ ms)) (sym (pick_skip budget m ms spent e))
          (inr (ground (arith, pick_grows budget ms spent)), pick-IsSettled budget ms spent)
    | inr e ↦
        subst (λ c. All (IsSettled budget c) (m ∷ ms)) (sym (pick_take budget m ms spent e))
          (IsSettled-cons budget m ms (pick budget ms (spent + m.tokens))
            (pick-IsSettled budget ms (spent + m.tokens)))
  ]

  All-insert_sorted :
      (P : Measured S → Type 0) (after : Measured S → Measured S → Bool) (m : Measured S)
      (ms : List (Measured S))
      → All P (insert_sorted after m ms)
      → P m × All P ms
  All-insert_sorted P after m [] h = h
  All-insert_sorted P after m (k ∷ ms) h = elim (Bool-cases (after m k)) [
    | inl e ↦
        let g = subst (λ b. All P (if b then k ∷ insert_sorted after m ms else m ∷ k ∷ ms)) e h in
        let r = All-insert_sorted P after m ms g.1 in (r.0, (g.0, r.1))
    | inr e ↦ subst (λ b. All P (if b then k ∷ insert_sorted after m ms else m ∷ k ∷ ms)) e h
  ]

  All-sort :
      (P : Measured S → Type 0) (after : Measured S → Measured S → Bool) (ms : List (Measured S))
      → All P (sort after ms)
      → All P ms
  All-sort P after [] h = tt
  All-sort P after (m ∷ ms) h =
      let r = All-insert_sorted P after m (sort after ms) h in (r.0, All-sort P after ms r.1)

  any-insert_sorted :
      (p : Measured S → Bool) (after : Measured S → Measured S → Bool) (m : Measured S)
      (ms : List (Measured S))
      → any p (insert_sorted after m ms) ≡ (p m || any p ms)
  any-insert_sorted p after m [] = refl
  any-insert_sorted p after m (k ∷ ms) = ground (arith, any-insert_sorted p after m ms)

  pub any-sort :
      (p : Measured S → Bool) (after : Measured S → Measured S → Bool) (ms : List (Measured S))
      → any p (sort after ms) ≡ any p ms
  any-sort p after [] = refl
  any-sort p after (m ∷ ms) =
      ground (arith, any-insert_sorted p after m (sort after ms), any-sort p after ms)

  pub any-map_line :
      (t : Text) (ms : List (Measured S))
      → any (λ l. text_eq l t) (map (λ (m : Measured S). m.line) ms) ≡ has_line t ms
  any-map_line t [] = refl
  any-map_line t (m ∷ ms) = ground (arith, any-map_line t ms)

  length-insert_sorted :
      (after : Measured S → Measured S → Bool) (m : Measured S) (ms : List (Measured S))
      → length (insert_sorted after m ms) ≡ suc (length ms)
  length-insert_sorted after m [] = refl
  length-insert_sorted after m (k ∷ ms) = ground (arith, length-insert_sorted after m ms)

  pub length-sort :
      (after : Measured S → Measured S → Bool) (ms : List (Measured S))
      → length (sort after ms) ≡ length ms
  length-sort after [] = refl
  length-sort after (m ∷ ms) =
      omega (arith, length-insert_sorted after m (sort after ms), length-sort after ms)

  insert_sorted-sum :
      (after : Measured S → Measured S → Bool) (m : Measured S) (ms : List (Measured S))
      → sum_tokens (insert_sorted after m ms) ≡ m.tokens + sum_tokens ms
  insert_sorted-sum after m [] = refl
  insert_sorted-sum after m (k ∷ ms) = ground (arith, insert_sorted-sum after m ms)

  pub sort-sum :
      (after : Measured S → Measured S → Bool) (ms : List (Measured S))
      → sum_tokens (sort after ms) ≡ sum_tokens ms
  sort-sum after [] = refl
  sort-sum after (m ∷ ms) =
      omega (arith, insert_sorted-sum after m (sort after ms), sort-sum after ms)

  module _ (behind : S → ℕ → S → ℕ → Bool) (budget : ℕ) where
    pub choose_bounded : (ms : List (Measured S)) → (choose behind budget ms).1 ≤ budget
    unfolding choose
    choose_bounded [] = omega arith
    choose_bounded (m ∷ ms) = ground (
      arith,
      pick_bounded budget (sort (by_density behind) ms)
          (if leb m.tokens budget then m.tokens else 0),
    )

    pub choose-sum :
        (ms : List (Measured S))
        → (choose behind budget ms).1 ≡ sum_tokens (choose behind budget ms).0
    unfolding choose
    choose-sum [] = refl
    choose-sum (m ∷ ms) = ground (
      arith,
      pick-sum budget (sort (by_density behind) ms) (if leb m.tokens budget then m.tokens else 0),
    )

    picked-IsSettled :
        (ms : List (Measured S)) (spent : ℕ)
        → All (IsSettled budget (pick budget (sort (by_density behind) ms) spent)) ms
    picked-IsSettled ms spent =
        All-sort (IsSettled budget (pick budget (sort (by_density behind) ms) spent))
          (by_density behind) ms (pick-IsSettled budget (sort (by_density behind) ms) spent)

    pub choose_top :
        (m : Measured S) (ms : List (Measured S))
        → leb m.tokens budget ≡ true
        → choose behind budget (m ∷ ms) ≡ (
          m ∷ (pick budget (sort (by_density behind) ms) m.tokens).0,
          (pick budget (sort (by_density behind) ms) m.tokens).1,
        )
    unfolding choose
    choose_top m ms e = rw e refl

    choose_not_top :
        (m : Measured S) (ms : List (Measured S))
        → leb m.tokens budget ≡ false
        → choose behind budget (m ∷ ms) ≡ pick budget (sort (by_density behind) ms) 0
    unfolding choose
    choose_not_top m ms e = rw e refl

    pub choose-IsSettled :
        (ms : List (Measured S)) → All (IsSettled budget (choose behind budget ms)) ms
    choose-IsSettled [] = tt
    choose-IsSettled (m ∷ ms) = elim (Bool-cases (leb m.tokens budget)) [
      | inl e ↦
          subst (λ c. All (IsSettled budget c) (m ∷ ms)) (sym (choose_top m ms e))
            (IsSettled-cons budget m ms (pick budget (sort (by_density behind) ms) m.tokens)
              (picked-IsSettled ms m.tokens))
      | inr e ↦
          subst (λ c. All (IsSettled budget c) (m ∷ ms)) (sym (choose_not_top m ms e))
            (inr (ground arith), picked-IsSettled ms 0)
    ]

  -- What holds of all candidates holds of those that are taken.
  All-pick :
      (P : Measured S → Type 0) (budget : ℕ) (ms : List (Measured S)) (spent : ℕ)
      → All P ms
      → All P (pick budget ms spent).0
  All-pick P budget [] spent h = subst (λ c. All P c.0) (sym (pick_end budget spent)) tt
  All-pick P budget (m ∷ ms) spent h = elim (Bool-cases (ltb budget (spent + m.tokens))) [
    | inl e ↦
        subst (λ c. All P c.0) (sym (pick_skip budget m ms spent e))
          (All-pick P budget ms spent h.1)
    | inr e ↦
        subst (λ c. All P c.0) (sym (pick_take budget m ms spent e))
          (h.0, All-pick P budget ms (spent + m.tokens) h.1)
  ]

  All-insert_sorted_intro :
      (P : Measured S → Type 0) (after : Measured S → Measured S → Bool) (m : Measured S)
      (ms : List (Measured S))
      → P m
      → All P ms
      → All P (insert_sorted after m ms)
  All-insert_sorted_intro P after m [] hm h = (hm, tt)
  All-insert_sorted_intro P after m (k ∷ ms) hm h = elim (Bool-cases (after m k)) [
    | inl e ↦ rw e (h.0, All-insert_sorted_intro P after m ms hm h.1)
    | inr e ↦ rw e (hm, h)
  ]

  pub All-sort_intro :
      (P : Measured S → Type 0) (after : Measured S → Measured S → Bool) (ms : List (Measured S))
      → All P ms
      → All P (sort after ms)
  All-sort_intro P after [] h = tt
  All-sort_intro P after (m ∷ ms) h =
      All-insert_sorted_intro P after m (sort after ms) h.0 (All-sort_intro P after ms h.1)

  pub All-choose :
      (P : Measured S → Type 0) (behind : S → ℕ → S → ℕ → Bool) (budget : ℕ)
      (ms : List (Measured S))
      → All P ms
      → All P (choose behind budget ms).0
  unfolding choose
  All-choose P behind budget [] h = tt
  All-choose P behind budget (m ∷ ms) h = elim (Bool-cases (leb m.tokens budget)) [
    | inl e ↦
        subst (λ c. All P c.0) (sym (choose_top behind budget m ms e))
          (
            h.0,
            All-pick P budget (sort (by_density behind) ms) m.tokens
                (All-sort_intro P (by_density behind) ms h.1),
          )
    | inr e ↦
        subst (λ c. All P c.0) (sym (choose_not_top behind budget m ms e))
          (All-pick P budget (sort (by_density behind) ms) 0
            (All-sort_intro P (by_density behind) ms h.1))
  ]
