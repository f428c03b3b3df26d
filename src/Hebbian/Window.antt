-- ===== src/Hebbian/Window.antt =====
-- The ring buffer of co-activations.
use agent_working_memory.Base.{
  ℕ, ◌-◌, ◌≤◌, ◌≡◌, refl, Bool, true, ◌&&◌, List, [], ◌∷◌, ◌++◌, length, drop, any, All, All-append,
  All-map, All-if_cons, Text, text_eq, text_eq_refl, arith, length-append,
}
use agent_working_memory.Hebbian.{
  Pair, Activation, push, push_batch, together, pairs_with, co_activated_pairs,
}

length-drop_one : (xs : List Activation) → length (drop 1 xs) ≡ length xs - 1
length-drop_one [] = refl
length-drop_one (x ∷ xs) = omega arith

push_bounded :
    (max_size now : ℕ) (i : Text) (buffer : List Activation)
    → length buffer ≤ max_size
    → length (push max_size now i buffer) ≤ max_size
unfolding push
push_bounded max_size now i buffer h = ground (
  arith,
  length-append buffer (record { engram_id = i; timestamp = now } ∷ []),
  length-drop_one (buffer ++ record { engram_id = i; timestamp = now } ∷ []),
)

-- A buffer that holds no more entries than its size holds no more of them after a batch of any number.
pub push_batch_bounded :
    (max_size now : ℕ) (is : List Text) (buffer : List Activation)
    → length buffer ≤ max_size
    → length (push_batch max_size now is buffer) ≤ max_size
push_batch_bounded max_size now [] buffer h = h
push_batch_bounded max_size now (i ∷ is) buffer h =
    push_batch_bounded max_size now is (push max_size now i buffer)
      (push_bounded max_size now i buffer h)

-- Two entries of the buffer that were activated together and have the pair's engrams.
abbrev pub is_pair_of : ℕ → Pair → Activation → Activation → Bool
is_pair_of window p a b =
    together window a b && (text_eq a.engram_id p.0 && text_eq b.engram_id p.1)

abbrev pub comes_from : ℕ → List Activation → Pair → Bool
comes_from window buffer p = any (λ a. any (is_pair_of window p a) buffer) buffer

any_monotone :
    (f g : Activation → Bool) (xs : List Activation)
    → ((x : Activation) → f x ≡ true → g x ≡ true)
    → any f xs ≡ true
    → any g xs ≡ true
any_monotone f g [] h e = e
any_monotone f g (x ∷ xs) h e = ground (arith, h x, any_monotone f g xs h)

comes_from_more :
    (window : ℕ) (x : Activation) (buffer : List Activation) (p : Pair)
    → comes_from window buffer p ≡ true
    → comes_from window (x ∷ buffer) p ≡ true
comes_from_more window x buffer p h = ground (
  arith,
  any_monotone (λ a. any (is_pair_of window p a) buffer)
      (λ a. any (is_pair_of window p a) (x ∷ buffer)) buffer (λ a e. ground arith) h,
)

pairs_with_sound :
    (window : ℕ) (a : Activation) (bs : List Activation)
    → All (λ p. any (is_pair_of window p a) bs ≡ true) (pairs_with window a bs)
pairs_with_sound window a [] = tt
pairs_with_sound window a (b ∷ bs) =
    All-if_cons (λ p. any (is_pair_of window p a) (b ∷ bs) ≡ true) (together window a b)
      (a.engram_id, b.engram_id) (pairs_with window a bs)
      (λ e. ground (arith, text_eq_refl a.engram_id, text_eq_refl b.engram_id))
      (All-map (λ p. any (is_pair_of window p a) bs ≡ true)
        (λ p. any (is_pair_of window p a) (b ∷ bs) ≡ true) (λ p h. ground arith)
        (pairs_with window a bs) (pairs_with_sound window a bs))

-- Each pair that is reported is of two entries of the buffer, with different engrams, whose times
-- are no further apart than the window.
pub co_activated_pairs_sound :
    (window : ℕ) (buffer : List Activation)
    → All (λ p. comes_from window buffer p ≡ true) (co_activated_pairs window buffer)
co_activated_pairs_sound window [] = tt
co_activated_pairs_sound window (a ∷ rest) =
    All-append (λ p. comes_from window (a ∷ rest) p ≡ true) (pairs_with window a rest)
      (co_activated_pairs window rest)
      (All-map (λ p. any (is_pair_of window p a) rest ≡ true)
        (λ p. comes_from window (a ∷ rest) p ≡ true) (λ p h. ground arith)
        (pairs_with window a rest) (pairs_with_sound window a rest))
      (All-map (λ p. comes_from window rest p ≡ true) (λ p. comes_from window (a ∷ rest) p ≡ true)
        (λ p h. comes_from_more window a rest p h) (co_activated_pairs window rest)
        (co_activated_pairs_sound window rest))
