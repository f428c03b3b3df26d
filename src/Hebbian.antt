-- ===== src/Hebbian.antt =====
-- The co-activation buffers of src/core/hebbian.ts. The two weight formulas there are floating-point
-- and not part of this. Times are in milliseconds.
pub mod Feedback
pub mod Pairs
pub mod Unique
pub mod Window
mod Examples
use agent_working_memory.Base.{
  ℕ, zero, suc, ◌+◌, ◌-◌, Bool, true, false, not, ◌&&◌, ◌||◌, List, [], ◌∷◌, ◌++◌, length, drop,
  select, any, Text, text_eq, text_lt, if◌then◌else◌, ltb, leb,
}

abbrev pub Pair : Type 0
Pair = Text × Text

-- An entry of the ring buffer.
pub record Activation : Type 0 where
  pub engram_id : Text
  pub timestamp : ℕ

-- `CoActivationBuffer.push`.
unfoldable pub push : ℕ → ℕ → Text → List Activation → List Activation
push max_size now i buffer =
    let more = buffer ++ record { engram_id = i; timestamp = now } ∷ [] in
    if ltb max_size (length more) then drop 1 more else more

-- `pushBatch`, all at one time.
abbrev pub push_batch : ℕ → ℕ → List Text → List Activation → List Activation
push_batch max_size now [] buffer = buffer
push_batch max_size now (i ∷ is) buffer = push_batch max_size now is (push max_size now i buffer)

-- `Math.abs(a.timestamp - b.timestamp) <= windowMs`, of two different engrams.
abbrev pub together : ℕ → Activation → Activation → Bool
together window a b =
    not (text_eq a.engram_id b.engram_id)
    && (leb (a.timestamp - b.timestamp) window && leb (b.timestamp - a.timestamp) window)

-- The inner loop, at an entry and those behind it.
abbrev pub pairs_with : ℕ → Activation → List Activation → List Pair
pairs_with window a [] = []
pairs_with window a (b ∷ bs) =
    let rest = pairs_with window a bs in
    if together window a b then (a.engram_id, b.engram_id) ∷ rest else rest

-- `getCoActivatedPairs`.
abbrev pub co_activated_pairs : ℕ → List Activation → List Pair
co_activated_pairs window [] = []
co_activated_pairs window (a ∷ rest) = pairs_with window a rest ++ co_activated_pairs window rest

-- `PendingHebbianUpdate`.
pub record Update : Type 0 where
  pub pairs : List Pair
  pub engram_ids : List Text
  pub timestamp : ℕ

abbrev pub gate_timeout : ℕ
gate_timeout = 60000

-- `ValidationGatedBuffer.addPending`, with the two readings of the clock.
unfoldable pub add_pending : ℕ → ℕ → List Text → List Pair → List Update → List Update
add_pending stamp now engram_ids pairs pending =
    select (λ u. ltb now (u.timestamp + gate_timeout))
      (pending ++ record { pairs = pairs; engram_ids = engram_ids; timestamp = stamp } ∷ [])

abbrev pub has_id : Text → List Text → Bool
has_id i ids = any (λ j. text_eq j i) ids

abbrev pub is_expired : ℕ → Update → Bool
is_expired now u = ltb (u.timestamp + gate_timeout) now

abbrev pub is_matched : ℕ → Text → Update → Bool
is_matched now i u = not (is_expired now u) && has_id i u.engram_ids

-- `matching.push(...p.pairs)` over the updates that the feedback is about.
abbrev pub matching : ℕ → Text → List Update → List Pair
matching now i [] = []
matching now i (u ∷ us) =
    let rest = matching now i us in if is_matched now i u then u.pairs ++ rest else rest

-- The key under which a pair and its reverse are the same.
abbrev pub key : Pair → Text
key (a, b) = if text_lt a b then a ++ b':' ∷ b else b ++ b':' ∷ a

-- The loop that keeps the first pair of each key; `seen` is a set, here a list.
unfoldable pub unique : List Text → List Pair → List Pair
unique seen [] = []
unique seen (p ∷ ps) =
    let rest = unique (if has_id (key p) seen then seen else key p ∷ seen) ps in
    if has_id (key p) seen then rest else p ∷ rest

-- The signal of a feedback: 1.0 or -0.3.
pub data Signal : Type 0 where
  strengthen weaken : Signal

pub record Resolved : Type 0 where
  pub pairs : List Pair
  pub signal : Signal

-- `resolveFeedback`.
unfoldable pub resolve_feedback : ℕ → Text → Bool → List Update → List Update × Resolved
resolve_feedback now i useful pending = (
  select (λ u. not (is_expired now u) && not (has_id i u.engram_ids)) pending,
  record {
    pairs = unique [] (matching now i pending);
    signal = if useful then strengthen else weaken;
  },
)
