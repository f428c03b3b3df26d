-- ===== src/Hebbian/Examples.antt =====
-- The co-activation buffers at concrete inputs.
use agent_working_memory.Base.{
  refl, ℕ, ◌≤◌, ◌≡◌, true, false, List, [], ◌∷◌, Text, arith, All, length, text_eq, text_lt, ◌++◌,
}
use agent_working_memory.Hebbian.{Activation, Update, unique, resolve_feedback}
use agent_working_memory.Hebbian.Pairs.{IsPlain}
use agent_working_memory.Hebbian.Feedback.{
  IsApart, is_among, is_recorded, is_meant, resolved_pairs, feedback_consumed,
}

abbrev entry : ℕ → ℕ → Activation
entry i t = record { engram_id = i ∷ []; timestamp = t }

abbrev buffer : List Activation
buffer = entry 1 1000 ∷ entry 2 2000 ∷ entry 1 9000 ∷ []

abbrev batch : List Text
batch = (3 ∷ []) ∷ (4 ∷ []) ∷ []

small : length buffer ≤ 3
small = ground arith

abbrev waiting : List Update
waiting =
    record {
      pairs = (1 ∷ [], 2 ∷ []) ∷ (2 ∷ [], 1 ∷ []) ∷ [];
      engram_ids = (1 ∷ []) ∷ (2 ∷ []) ∷ [];
      timestamp = 1000;
    }
    ∷ []

abbrev recent : Update
recent = record {
  pairs = (2 ∷ [], 1 ∷ []) ∷ (1 ∷ [], 3 ∷ []) ∷ [];
  engram_ids = (1 ∷ []) ∷ (2 ∷ []) ∷ (3 ∷ []) ∷ [];
  timestamp = 8000;
}

resolved :
    (resolve_feedback 9000 (1 ∷ []) true (waiting ++ recent ∷ [])).1.pairs
    ≡ (1 ∷ [], 2 ∷ []) ∷ (1 ∷ [], 3 ∷ []) ∷ []
unfolding resolve_feedback unique text_eq text_lt
resolved = refl

plain : All (λ v. All IsPlain v.pairs) (waiting ++ recent ∷ [])
plain = ground arith

names_it : is_meant 9000 (1 ∷ []) recent ≡ true
unfolding text_eq
names_it = refl

resolved_pairs_example :
    IsApart (resolve_feedback 9000 (1 ∷ []) true (waiting ++ recent ∷ [])).1.pairs
    × All
        (λ p. is_recorded 9000 (1 ∷ []) p (waiting ++ recent ∷ []) ≡ true)
        (resolve_feedback 9000 (1 ∷ []) true (waiting ++ recent ∷ [])).1.pairs
    × All
        (λ p.
          is_among p (resolve_feedback 9000 (1 ∷ []) true (waiting ++ recent ∷ [])).1.pairs ≡ true)
        recent.pairs
resolved_pairs_example = resolved_pairs 9000 (1 ∷ []) true waiting recent [] plain names_it

feedback_consumed_example :
    (resolve_feedback 9500 (1 ∷ []) false (resolve_feedback 9000 (1 ∷ []) true waiting).0).1.pairs
    ≡ []
feedback_consumed_example = feedback_consumed 9000 9500 (1 ∷ []) true false waiting
