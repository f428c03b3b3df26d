-- ===== src/Coordination/RateLimit/Window.antt =====
-- How many requests pass in a window of time.
use agent_working_memory.Base.{
  ℕ, ◌+◌, ◌≤◌, ◌<◌, ◌≡◌, refl, subst, ap, Bool, true, false, ◌&&◌, none, some, List, [], ◌∷◌, ◌++◌,
  Text, text_eq, text_eq_iff, text_eq_refl, length, if◌then◌else◌, ltb, leb, select, update_where,
  any, find?, count_where, Bool-cases, inl, inr, ◌⊎◌, ltb→lt, arith, find?-update_where_other,
}
use agent_working_memory.Coordination.RateLimit.{
  rate_limit, rate_window, Bucket, has_key, times_of, timestamps_of, is_fresh, set_bucket, Incoming,
  key_of, Verdict, allowed, hit, check_rate, sweep, is_empty,
}

abbrev pub is_within : ℕ → ℕ → Bool
is_within s t = leb s t && ltb t (s + rate_window)

-- The requests on record in the window that starts at `s`.
abbrev recorded : ℕ → List ℕ → ℕ
recorded s ts = count_where (is_within s) ts

recorded-fresh :
    (s now : ℕ) (ts : List ℕ)
    → now < s + rate_window
    → recorded s (select (is_fresh now) ts) ≡ recorded s ts
recorded-fresh s now [] h = refl
recorded-fresh s now (t ∷ ts) h = ground (arith, recorded-fresh s now ts h)

recorded-snoc :
    (s now : ℕ) (ts : List ℕ)
    → recorded s (ts ++ now ∷ []) ≡ recorded s ts + (if is_within s now then 1 else 0)
recorded-snoc s now [] = ground arith
recorded-snoc s now (t ∷ ts) = ground (arith, recorded-snoc s now ts)

recorded-le : (s : ℕ) (ts : List ℕ) → recorded s ts ≤ length ts
recorded-le s [] = omega arith
recorded-le s (t ∷ ts) = ground (arith, recorded-le s ts)

set_found_other :
    (j k : Text) (ts : List ℕ) (bs : List Bucket)
    → text_eq j k ≡ false
    → find? (has_key k) (update_where (has_key j) (λ b. record b { timestamps = ts }) bs)
      ≡ find? (has_key k) bs
set_found_other j k ts bs ne =
    find?-update_where_other (has_key k) (has_key j) (λ b. record b { timestamps = ts })
      (λ b e. ground (arith, text_eq_iff b.key j, text_eq_iff b.key k, text_eq_iff j k))
      (λ b e. ground (arith, text_eq_iff b.key j, text_eq_iff b.key k, text_eq_iff j k)) bs

find?-snoc :
    (k : Text) (b : Bucket) (bs : List Bucket)
    → find? (has_key k) (bs ++ b ∷ [])
      ≡ (if any (has_key k) bs then find? (has_key k) bs else if has_key k b then some b else none)
find?-snoc k b [] = ground arith
find?-snoc k b (c ∷ bs) = ground (arith, find?-snoc k b bs)

find?-none :
    (k : Text) (bs : List Bucket) → any (has_key k) bs ≡ false → find? (has_key k) bs ≡ none
find?-none k [] h = refl
find?-none k (b ∷ bs) h = ground (arith, find?-none k bs)

timestamps_of-set_other :
    (j k : Text) (ts : List ℕ) (bs : List Bucket)
    → text_eq j k ≡ false
    → timestamps_of k (set_bucket j ts bs) ≡ timestamps_of k bs
timestamps_of-set_other j k ts bs ne = elim (Bool-cases (any (has_key j) bs)) [
  | inl e ↦ rw e (ap times_of (set_found_other j k ts bs ne))
  | inr e ↦
      rw e (ground (arith, find?-snoc k (record { key = j; timestamps = ts }) bs, find?-none k bs))
]

timestamps_of-update :
    (k : Text) (ts : List ℕ) (bs : List Bucket)
    → any (has_key k) bs ≡ true
    → times_of (find? (has_key k) (update_where (has_key k) (λ b. record b { timestamps = ts }) bs))
      ≡ ts
timestamps_of-update k ts [] h = cc
timestamps_of-update k ts (b ∷ bs) h = ground (arith, timestamps_of-update k ts bs)

timestamps_of-set_same :
    (k : Text) (ts : List ℕ) (bs : List Bucket) → timestamps_of k (set_bucket k ts bs) ≡ ts
timestamps_of-set_same k ts bs = elim (Bool-cases (any (has_key k) bs)) [
  | inl e ↦ rw e (timestamps_of-update k ts bs e)
  | inr e ↦
      rw e (ground (arith, find?-snoc k (record { key = k; timestamps = ts }) bs, text_eq_refl k))
]

find?-count_none :
    (k : Text) (bs : List Bucket) → count_where (has_key k) bs ≡ 0 → find? (has_key k) bs ≡ none
find?-count_none k [] h = refl
find?-count_none k (b ∷ bs) h = ground (arith, find?-count_none k bs)

count-sweep-le :
    (now : ℕ) (k : Text) (bs : List Bucket)
    → count_where (has_key k) (sweep now bs) ≤ count_where (has_key k) bs
unfolding sweep
count-sweep-le now k [] = omega arith
count-sweep-le now k (b ∷ bs) = ground (arith, count-sweep-le now k bs)

is_empty_lem : (ts : List ℕ) → is_empty ts ≡ true → ts ≡ []
is_empty_lem [] h = refl
is_empty_lem (t ∷ ts) h = cc

timestamps_of-sweep :
    (now : ℕ) (k : Text) (bs : List Bucket)
    → count_where (has_key k) bs ≤ 1
    → timestamps_of k (sweep now bs) ≡ select (is_fresh now) (timestamps_of k bs)
unfolding sweep
timestamps_of-sweep now k [] h = refl
timestamps_of-sweep now k (b ∷ bs) h = ground (
  arith,
  find?-count_none k (sweep now bs),
  find?-count_none k bs,
  count-sweep-le now k bs,
  is_empty_lem (select (is_fresh now) b.timestamps),
  timestamps_of-sweep now k bs,
)

count-update :
    (j k : Text) (ts : List ℕ) (bs : List Bucket)
    → count_where (has_key k) (update_where (has_key j) (λ b. record b { timestamps = ts }) bs)
      ≡ count_where (has_key k) bs
count-update j k ts [] = refl
count-update j k ts (b ∷ bs) = ground (arith, count-update j k ts bs)

count-snoc :
    (k : Text) (b : Bucket) (bs : List Bucket)
    → count_where (has_key k) (bs ++ b ∷ [])
      ≡ count_where (has_key k) bs + (if has_key k b then 1 else 0)
count-snoc k b [] = ground arith
count-snoc k b (c ∷ bs) = ground (arith, count-snoc k b bs)

count_of_any :
    (k : Text) (bs : List Bucket) → any (has_key k) bs ≡ false → count_where (has_key k) bs ≡ 0
count_of_any k [] h = refl
count_of_any k (b ∷ bs) h = ground (arith, count_of_any k bs)

count-set_bucket :
    (j k : Text) (ts : List ℕ) (bs : List Bucket)
    → count_where (has_key k) bs ≤ 1
    → count_where (has_key k) (set_bucket j ts bs) ≤ 1
count-set_bucket j k ts bs h = elim (Bool-cases (any (has_key j) bs)) [
  | inl e ↦ rw e (omega (arith, count-update j k ts bs))
  | inr e ↦ rw e (
      ground (
        arith,
        text_eq_iff j k,
        count-snoc k (record { key = j; timestamps = ts }) bs,
        count_of_any j bs,
      ))
]

-- What happens to the map, in the order of time.
pub data Event : Type 0 where
  requests : Incoming → Event
  sweeps : ℕ → Event

abbrev pub time_of : Event → ℕ
time_of (requests r) = r.now
time_of (sweeps now) = now

abbrev pub IsInOrder : ℕ → List Event → Type 0
IsInOrder from [] = Unit
IsInOrder from (e ∷ es) = (from ≤ time_of e) × IsInOrder (time_of e) es

abbrev pub is_allowed : Verdict → Bool
is_allowed allowed = true
is_allowed _ = false

abbrev after : Event → List Bucket → List Bucket
after (requests r) bs = (check_rate r bs).0
after (sweeps now) bs = sweep now bs

-- The event is a request under the key, in the window, that is let through.
abbrev passes : Text → ℕ → Event → List Bucket → Bool
passes k s (requests r) bs =
    is_allowed (check_rate r bs).1 && (text_eq (key_of r) k && is_within s r.now)
passes k s (sweeps now) bs = false

-- The number of requests under a key that are let through in the window that starts at `s`.
abbrev pub passed : Text → ℕ → List Event → List Bucket → ℕ
passed k s [] bs = 0
passed k s (e ∷ es) bs = (if passes k s e bs then 1 else 0) + passed k s es (after e bs)

-- One bucket at most for a key, as in a map.
IsKeyed : List Bucket → Type 0
IsKeyed bs = (k : Text) → count_where (has_key k) bs ≤ 1

after-IsKeyed : (e : Event) (bs : List Bucket) → IsKeyed bs → IsKeyed (after e bs)
unfolding IsKeyed check_rate hit
after-IsKeyed (requests r) bs h k = ground (
  arith,
  h k,
  count-set_bucket (key_of r) k
      (select (is_fresh r.now) (timestamps_of (key_of r) bs) ++ r.now ∷ []) bs,
)
after-IsKeyed (sweeps now) bs h k = omega (arith, h k, count-sweep-le now k bs)

-- What an event before the end of the window does to the record of a key, and what it means that the
-- event passes.
abbrev IsRecorded : ℕ → Event → List Bucket → Text → Type 0
IsRecorded s e bs k =
    (recorded s (timestamps_of k bs) + (if passes k s e bs then 1 else 0)
      ≤ recorded s (timestamps_of k (after e bs)))
    × (recorded s (timestamps_of k (after e bs)) ≤ recorded s (timestamps_of k bs) + 1)
    × (passes k s e bs ≡ true → recorded s (timestamps_of k (after e bs)) ≤ rate_limit)

abbrev recent : Incoming → List Bucket → List ℕ
recent r bs = select (is_fresh r.now) (timestamps_of (key_of r) bs) ++ r.now ∷ []

own-IsRecorded :
    (s : ℕ) (r : Incoming) (bs : List Bucket)
    → r.now < s + rate_window
    → IsRecorded s (requests r) bs (key_of r)
unfolding check_rate hit
own-IsRecorded s r bs early = ground (
  arith,
  timestamps_of-set_same (key_of r) (recent r bs) bs,
  recorded-snoc s r.now (select (is_fresh r.now) (timestamps_of (key_of r) bs)),
  recorded-fresh s r.now (timestamps_of (key_of r) bs) early,
  recorded-le s (recent r bs),
  text_eq_refl (key_of r),
)

other-IsRecorded :
    (k : Text) (s : ℕ) (r : Incoming) (bs : List Bucket)
    → text_eq (key_of r) k ≡ false
    → IsRecorded s (requests r) bs k
unfolding check_rate hit
other-IsRecorded k s r bs other =
    ground (arith, timestamps_of-set_other (key_of r) k (recent r bs) bs other)

event-IsRecorded :
    (k : Text) (s : ℕ) (e : Event) (bs : List Bucket)
    → IsKeyed bs
    → time_of e < s + rate_window
    → IsRecorded s e bs k
unfolding IsKeyed
event-IsRecorded k s (sweeps now) bs h early =
    ground (arith, timestamps_of-sweep now k bs (h k), recorded-fresh s now (timestamps_of k bs))
event-IsRecorded k s (requests r) bs h early = elim (Bool-cases (text_eq (key_of r) k)) [
  | inl same ↦
      subst (IsRecorded s (requests r) bs) ((text_eq_iff (key_of r) k).0 same)
        (own-IsRecorded s r bs early)
  | inr other ↦ other-IsRecorded k s r bs other
]

-- After the end of the window nothing passes in it.
passed-late :
    (k : Text) (s from : ℕ) (es : List Event) (bs : List Bucket)
    → IsInOrder from es
    → s + rate_window ≤ from
    → passed k s es bs ≡ 0
passed-late k s from [] bs o h = refl
passed-late k s from (requests r ∷ es) bs o h =
    ground (arith, o.0, passed-late k s r.now es (after (requests r) bs) o.1)
passed-late k s from (sweeps now ∷ es) bs o h =
    ground (arith, o.0, passed-late k s now es (after (sweeps now) bs) o.1)

-- An event at or after the end of the window does not pass in it.
passes-late :
    (k : Text) (s : ℕ) (e : Event) (bs : List Bucket)
    → s + rate_window ≤ time_of e
    → passes k s e bs ≡ false
passes-late k s (requests r) bs h = ground arith
passes-late k s (sweeps now) bs h = refl

passed_bounded :
    (k : Text) (s from : ℕ) (es : List Event) (bs : List Bucket)
    → IsKeyed bs
    → IsInOrder from es
    → (passed k s es bs ≡ 0) ⊎ (passed k s es bs + recorded s (timestamps_of k bs) ≤ rate_limit)
passed_bounded k s from [] bs h o = inl refl
passed_bounded k s from (e ∷ es) bs h o = elim (Bool-cases (ltb (time_of e) (s + rate_window))) [
  | inr late ↦
      inl (ground (arith, passes-late k s e bs, passed-late k s (time_of e) es (after e bs) o.1))
  | inl early ↦
      let r = event-IsRecorded k s e bs h (ltb→lt (time_of e) (s + rate_window) early) in
      let rest = passed_bounded k s (time_of e) es (after e bs) (after-IsKeyed e bs h) o.1 in
      ground (arith, r, rest)
]

-- A key gets no more than its limit: whatever requests under any keys arrive and whenever the sweep
-- runs, in the order of time and from an empty map, at most 300 requests under one key are let
-- through in any window of 60 seconds.
pub rate_limit_kept :
    (k : Text) (s from : ℕ) (es : List Event) → IsInOrder from es → passed k s es [] ≤ rate_limit
unfolding IsKeyed
rate_limit_kept k s from es o = elim (passed_bounded k s from es [] (λ j. omega arith) o) [
  | inl none_passed ↦ omega arith
  | inr few ↦ omega arith
]
