-- ===== src/Rerank/Window.antt =====
-- Which part of a memory a reranker is shown, in src/core/rerank-window.ts.
use agent_working_memory.Base.{
  ℕ, zero, suc, ◌+◌, ◌≤◌, ◌<◌, ◌≡◌, ◌⊎◌, refl, Bool, true, false, Option, none, some, List, [], ◌∷◌,
  ◌++◌, length, take, drop, any, All, length-append, length-take-le, sort, insert_sorted, Text,
  includes, starts_with, subst, if◌then◌else◌, ltb, leb, Bool-cases, inl, inr, arith,
}
use agent_working_memory.Rerank.{
  index_of_from, hits_of, terms, covered, anchor, exceeds, best_start, snap, dots, window_at,
  after_last, densest_window,
}
use agent_working_memory.Rerank.Hits.{stands, hits_of_total, hits_of-none, All-terms}

All-insert_sorted :
    (P : ℕ → Type 0) (x : ℕ) (ys : List ℕ) → P x → All P ys → All P (insert_sorted after_last x ys)
All-insert_sorted P x [] hx h = (hx, tt)
All-insert_sorted P x (y ∷ ys) hx h = elim (Bool-cases (after_last x y)) [
  | inl e ↦ rw e (h.0, All-insert_sorted P x ys hx h.1)
  | inr e ↦ rw e (hx, h)
]

All-sort : (P : ℕ → Type 0) (xs : List ℕ) → All P xs → All P (sort after_last xs)
All-sort P [] h = tt
All-sort P (x ∷ xs) h = All-insert_sorted P x (sort after_last xs) h.0 (All-sort P xs h.1)

-- The loop's start is the anchor of a hit.
abbrev Anchored : (ℕ → Type 0) → ℕ → ℕ → Type 0
Anchored P budget start = (h : ℕ) × P h × (start ≡ anchor budget h)

best_start-Anchored :
    (P : ℕ → Type 0) (budget : ℕ) (hs : List ℕ) (start : ℕ) (best : Option ℕ)
    → All P hs
    → Anchored P budget start
    → Anchored P budget (best_start budget hs start best)
unfolding best_start
best_start-Anchored P budget [] start best a k = k
best_start-Anchored P budget (h ∷ hs) start best a k =
    elim (Bool-cases (exceeds (covered (anchor budget h) budget (h ∷ hs)) best)) [
      | inl e ↦
          rw (best_start, e)
            (best_start-Anchored P budget hs (anchor budget h) _ a.1 (h, a.0, refl))
      | inr e ↦ rw (best_start, e) (best_start-Anchored P budget hs start best a.1 k)
    ]

best_start-first :
    (P : ℕ → Type 0) (budget h : ℕ) (hs : List ℕ)
    → All P (h ∷ hs)
    → Anchored P budget (best_start budget (h ∷ hs) 0 none)
unfolding best_start
best_start-first P budget h hs a =
    best_start-Anchored P budget hs (anchor budget h) _ a.1 (h, a.0, refl)

snap_bounds :
    (content : Text) (start : ℕ) → (start ≤ snap content start) × (snap content start ≤ start + 40)
unfolding snap index_of_from
snap_bounds content start = ground arith

snap-zero : (content : Text) → snap content 0 ≡ 0
unfolding snap
snap-zero content = refl

dots_bounded : (b : Bool) → length (if b then dots else []) ≤ 1
dots_bounded true = omega arith
dots_bounded false = omega arith

window_at_bounded :
    (budget : ℕ) (content : Text) (start : ℕ) → length (window_at budget content start) ≤ budget + 2
unfolding window_at
window_at_bounded budget content start =
    let before = if ltb 0 start then dots else [] in
    let slice = take budget (drop start content) in
    let behind = if ltb (start + budget) (length content) then dots else [] in
    omega (
      arith,
      dots_bounded (ltb 0 start),
      dots_bounded (ltb (start + budget) (length content)),
      length-append before (slice ++ behind),
      length-append slice behind,
      length-take-le budget (drop start content),
    )

is_longer :
    (budget : ℕ) (content : Text) → budget < length content → leb (length content) budget ≡ false
is_longer budget content h = ground arith

unhit :
    (lower : Text → Text) (fuel : ℕ) (content query : Text) (budget : ℕ)
    → budget < length content
    → hits_of fuel (terms lower query) (lower content) ≡ some []
    → densest_window lower fuel content query budget ≡ some (take budget content)
unfolding densest_window
unhit lower fuel content query budget long e =
    rw (densest_window, is_longer budget content long, e) refl

hit :
    (lower : Text → Text) (fuel : ℕ) (content query : Text) (budget : ℕ) {h : ℕ} {hs : List ℕ}
    → budget < length content
    → hits_of fuel (terms lower query) (lower content) ≡ some (h ∷ hs)
    → densest_window lower fuel content query budget
      ≡ some (
          window_at budget content
            (snap content (best_start budget (sort after_last (h ∷ hs)) 0 none)))
unfolding densest_window
hit lower fuel content query budget long e =
    rw (densest_window, is_longer budget content long, e) refl

insert_sorted_some :
    (x : ℕ) (ys : List ℕ) → (k : ℕ) × (ks : List ℕ) × (insert_sorted after_last x ys ≡ k ∷ ks)
insert_sorted_some x [] = (x, [], refl)
insert_sorted_some x (y ∷ ys) = elim (Bool-cases (after_last x y)) [
  | inl e ↦ (y, insert_sorted after_last x ys, rw e refl)
  | inr e ↦ (x, y ∷ ys, rw e refl)
]

sorted_some : (h : ℕ) (hs : List ℕ) → (k : ℕ) × (ks : List ℕ) × (sort after_last (h ∷ hs) ≡ k ∷ ks)
sorted_some h hs = insert_sorted_some h (sort after_last hs)

best_start-sorted :
    (P : ℕ → Type 0) (budget : ℕ) (is : List ℕ)
    → (k : ℕ) × (ks : List ℕ) × (is ≡ k ∷ ks)
    → All P is
    → Anchored P budget (best_start budget is 0 none)
best_start-sorted P budget [] (k, ks, e) a = absurd (cc)
best_start-sorted P budget (h ∷ hs) w a = best_start-first P budget h hs a

-- How the window comes about where the content is longer than the budget.
densest_window-cases :
    (lower : Text → Text) (fuel : ℕ) (content query : Text) (budget : ℕ)
    → budget < length content
    → length (lower content) < fuel
    → (densest_window lower fuel content query budget ≡ some (take budget content))
        × (any (λ t. includes t (lower content)) (terms lower query) ≡ false)
      ⊎ (start : ℕ) × (densest_window lower fuel content query budget
          ≡ some (window_at budget content (snap content start)))
        × Anchored (λ h. stands (terms lower query) (lower content) h ≡ true) budget start
densest_window-cases lower fuel content query budget long enough =
    let (is, e, a) =
      hits_of_total fuel (terms lower query) (lower content) (All-terms lower query) enough in
    by_hits is e a
  where
    by_hits :
        (is : List ℕ)
        → hits_of fuel (terms lower query) (lower content) ≡ some is
        → All (λ h. stands (terms lower query) (lower content) h ≡ true) is
        → (densest_window lower fuel content query budget ≡ some (take budget content))
            × (any (λ t. includes t (lower content)) (terms lower query) ≡ false)
          ⊎ (start : ℕ) × (densest_window lower fuel content query budget
              ≡ some (window_at budget content (snap content start)))
            × Anchored (λ h. stands (terms lower query) (lower content) h ≡ true) budget start
    by_hits [] e a = inl (
      unhit lower fuel content query budget long e,
      hits_of-none fuel (terms lower query) (lower content) e,
    )
    by_hits (h ∷ hs) e a = inr (
      best_start budget (sort after_last (h ∷ hs)) 0 none,
      hit lower fuel content query budget long e,
      best_start-sorted _ budget (sort after_last (h ∷ hs)) (sorted_some h hs)
          (All-sort _ (h ∷ hs) a),
    )

near :
    (content : Text) (start h budget : ℕ)
    → 200 ≤ budget
    → start ≡ anchor budget h
    → snap content start ≤ h
near content zero h budget wide q = rw (snap-zero content) (omega arith)
near content (suc start) h budget wide q = omega (arith, snap_bounds content (suc start))

reached :
    (content : Text) (start h budget : ℕ)
    → 200 ≤ budget
    → start ≡ anchor budget h
    → h < snap content start + budget
reached content start h budget wide q = omega (arith, snap_bounds content start)

-- The window is found: where the fuel exceeds the length of the content in lower case the loops end, and the passage has at most the budget's
-- characters and two marks for text that is left out.
pub densest_window_bounded :
    (lower : Text → Text) (fuel : ℕ) (content query : Text) (budget : ℕ)
    → length (lower content) < fuel
    → (w : Text) × (densest_window lower fuel content query budget ≡ some w)
      × (length w ≤ budget + 2)
densest_window_bounded lower fuel content query budget enough =
    elim (Bool-cases (leb (length content) budget)) [
      | inl e ↦ (content, unfold densest_window in rw (densest_window, e) refl, ground arith)
      | inr e ↦ elim (densest_window-cases lower fuel content query budget (ground arith) enough) [
        | inl c ↦ (take budget content, c.0, omega (arith, length-take-le budget content))
        | inr (start, c, k) ↦ (
          window_at budget content (snap content start),
          c,
          window_at_bounded budget content (snap content start),
        )
      ]
    ]

-- The lower case of the content is made place by place: what stands behind a place of it is the lower case of
-- what stands behind the same place of the content.
abbrev pub IsAligned : (Text → Text) → Text → Type 0
IsAligned lower content = (i : ℕ) → drop i (lower content) ≡ lower (drop i content)

-- The window holds a place at which a term of the query stands, for a budget of 200 and more characters and content that is
-- longer than the budget and is put into lower case place by place: it is a slice of the content that starts at or before
-- a place of the content at which, in lower case, a term stands, and ends behind it, or it is the content's head where no
-- term stands anywhere.
pub densest_window_hit :
    (lower : Text → Text) (fuel : ℕ) (content query : Text) (budget : ℕ)
    → 200 ≤ budget
    → budget < length content
    → length (lower content) < fuel
    → IsAligned lower content
    → (densest_window lower fuel content query budget ≡ some (take budget content))
        × (any (λ t. includes t (lower content)) (terms lower query) ≡ false)
      ⊎ (start : ℕ) × (h : ℕ) × (densest_window lower fuel content query budget
          ≡ some (window_at budget content start))
        × (start ≤ h)
        × (h < start + budget)
        × (any (λ t. starts_with t (lower (drop h content))) (terms lower query) ≡ true)
densest_window_hit lower fuel content query budget wide long enough aligned =
    elim (densest_window-cases lower fuel content query budget long enough) [
      | inl c ↦ inl c
      | inr (start, c, k) ↦
          let (h, p, q) = k in
          inr (
            snap content start,
            h,
            c,
            near content start h budget wide q,
            reached content start h budget wide q,
            subst (λ s. any (λ t. starts_with t s) (terms lower query) ≡ true) (aligned h) p,
          )
    ]
