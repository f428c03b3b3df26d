-- ===== src/Rerank/Examples.antt =====
-- The window of a memory for a query.
use agent_working_memory.Base.{
  ℕ, ◌+◌, ◌≤◌, ◌<◌, ◌≡◌, ◌⊎◌, refl, true, false, some, [], ◌∷◌, ◌++◌, length, take, drop, any, Text,
  codes, includes, starts_with, to_lower, length-to_lower, zero, suc, text_eq, arith,
}
use agent_working_memory.Rerank.{terms, densest_window, window_at}
use agent_working_memory.Rerank.Window.{IsAligned, densest_window_bounded, densest_window_hit}

abbrev memory : Text
memory = codes "The build server was moved. Its address is written on the board."

abbrev query : Text
query = codes "What is the address of the Build?"

terms_kept : terms to_lower query ≡ codes "address" ∷ codes "build" ∷ []
unfolding terms to_lower text_eq
terms_kept = refl

windowed :
    densest_window to_lower 100 memory query 20 ≡ some (codes "The build server was" ++ 8230 ∷ [])
unfolding densest_window terms to_lower text_eq starts_with
windowed = refl

enough : length (to_lower memory) < 100
enough = omega (arith, length-to_lower memory)

densest_window_bounded_example :
    (w : Text) × (densest_window to_lower 100 memory query 20 ≡ some w) × (length w ≤ 20 + 2)
densest_window_bounded_example = densest_window_bounded to_lower 100 memory query 20 enough

abbrev long_memory : Text
long_memory = memory ++ (memory ++ (memory ++ memory))

long_enough : length (to_lower long_memory) < 300
long_enough = omega (arith, length-to_lower long_memory)

-- On ASCII letters the lower case is made place by place.
aligned : (s : Text) → IsAligned to_lower s
unfolding to_lower
aligned [] zero = refl
aligned [] (suc i) = refl
aligned (c ∷ s) zero = refl
aligned (c ∷ s) (suc i) = aligned s i

longer : 200 < length long_memory
longer = omega arith

densest_window_hit_example :
    (densest_window to_lower 300 long_memory query 200 ≡ some (take 200 long_memory))
      × (any (λ t. includes t (to_lower long_memory)) (terms to_lower query) ≡ false)
    ⊎ (start : ℕ) × (h : ℕ) × (densest_window to_lower 300 long_memory query 200
        ≡ some (window_at 200 long_memory start))
      × (start ≤ h)
      × (h < start + 200)
      × (any (λ t. starts_with t (to_lower (drop h long_memory))) (terms to_lower query) ≡ true)
densest_window_hit_example =
    densest_window_hit to_lower 300 long_memory query 200 (omega arith) longer long_enough
      (aligned long_memory)
