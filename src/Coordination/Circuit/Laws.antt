-- ===== src/Coordination/Circuit/Laws.antt =====
-- What the circuit breaker does to one worker, and to no other.
use agent_working_memory.Base.{
  ℕ, ◌+◌, ◌-◌, ◌*◌, ◌≤◌, ◌<◌, ◌≡◌, refl, ◌≢◌, ◌↔◌, Bool, true, false, not, ◌&&◌, Option, none, some,
  List, [], ◌∷◌, ◌++◌, arith, Option-cases, if◌then◌else◌, ◌==◌, any, find?, update_where, length,
  Bool-cases, is_some, inl, inr,
}
use mathlib.Core.Option
use agent_working_memory.Coordination.Schema.{
  AgentId, closed, opened, half_open, CircuitRow, Db, datetime,
}
use agent_working_memory.Coordination.Circuit.{
  circuit_row, count_failure, first_failure, upsert, reset, fresh_row, record_failure,
  record_success, get_state, is_available, observed, is_opened, was_opened, half_open_delay_ms,
}

-- What an upsert makes of an agent's row.
abbrev pub changed : (CircuitRow → CircuitRow) → CircuitRow → Option CircuitRow → Option CircuitRow
changed f new none = some new
changed f new (some r) = some (f r)

module _ (a : AgentId) (f : CircuitRow → CircuitRow)
    (keeps : (r : CircuitRow) → (f r).agent_id ≡ r.agent_id) where
  find?-update_row :
      (b : AgentId) (rs : List CircuitRow)
      → find? (λ r. r.agent_id == b) (update_where (λ r. r.agent_id == a) f rs) ≡ (
          if a == b
          then Option.map f (find? (λ r. r.agent_id == b) rs)
          else find? (λ r. r.agent_id == b) rs)
  find?-update_row b [] = ground arith
  find?-update_row b (r ∷ rs) = ground (arith, keeps r, find?-update_row b rs)

find?-snoc :
    (b : AgentId) (new : CircuitRow) (rs : List CircuitRow)
    → find? (λ r. r.agent_id == b) (rs ++ new ∷ []) ≡ (
        if any (λ r. r.agent_id == b) rs
        then find? (λ r. r.agent_id == b) rs
        else if new.agent_id == b
        then some new
        else none)
find?-snoc b new [] = ground arith
find?-snoc b new (r ∷ rs) = ground (arith, find?-snoc b new rs)

find?-none :
    (b : AgentId) (rs : List CircuitRow)
    → any (λ r. r.agent_id == b) rs ≡ is_some (find? (λ r. r.agent_id == b) rs)
find?-none b [] = refl
find?-none b (r ∷ rs) = ground (arith, find?-none b rs)

circuit_row-upsert :
    (a : AgentId) (f : CircuitRow → CircuitRow)
    (keeps : (r : CircuitRow) → (f r).agent_id ≡ r.agent_id) (new : CircuitRow)
    (mine : new.agent_id ≡ a) (b : AgentId) (db : Db)
    → circuit_row b (upsert a f new db)
      ≡ (if a == b then changed f new (circuit_row b db) else circuit_row b db)
circuit_row-upsert a f keeps new mine b db = ground (
  arith,
  find?-update_row a f keeps b db.circuits,
  find?-snoc b new db.circuits,
  find?-none b db.circuits,
  find?-none a db.circuits,
)

-- The row of every worker after a failure of `a`: `a`'s counts it, the others stay.
pub circuit_row-record_failure :
    (now : ℕ) (a b : AgentId) (db : Db)
    → circuit_row b (record_failure now a db) ≡ (
        if a == b
        then changed (count_failure now) (first_failure a now) (circuit_row b db)
        else circuit_row b db)
unfolding record_failure
circuit_row-record_failure now a b db =
    circuit_row-upsert a (count_failure now) (λ r. refl) (first_failure a now) refl b db

-- The row of every worker after a success of `a`: `a`'s is closed, the others stay.
pub circuit_row-record_success :
    (now : ℕ) (a b : AgentId) (db : Db)
    → circuit_row b (record_success now a db) ≡ (
        if a == b
        then changed (reset now) (fresh_row a now) (circuit_row b db)
        else circuit_row b db)
unfolding record_success
circuit_row-record_success now a b db =
    circuit_row-upsert a (reset now) (λ r. refl) (fresh_row a now) refl b db

-- Reading a worker's state changes no other worker's row.
pub circuit_row-get_state_other :
    (now : ℕ) (a b : AgentId) (db : Db)
    → (a == b) ≡ false
    → circuit_row b (get_state now a db).1 ≡ circuit_row b db
unfolding get_state
circuit_row-get_state_other now a b db ne = ground (
  arith,
  find?-update_row a (λ r. record r { state = half_open; last_transition_at = datetime now })
      (λ r. refl) b db.circuits,
)

-- What the updates keep true of every row: a circuit is open or half open only after the threshold's
-- failures and with the time at which it opened; a closed one is below the threshold.
pub record IsSound (r : CircuitRow) : Type 0 where
  pub closed_low : r.state ≡ closed → r.consecutive_failures ≤ 4
  pub tripped_high : r.state ≢ closed → 5 ≤ r.consecutive_failures
  pub tripped_time : r.state ≢ closed → is_some r.opened_at ≡ true

count_failure-IsSound : (now : ℕ) (r : CircuitRow) → IsSound r → IsSound (count_failure now r)
count_failure-IsSound now r v = ground arith

abbrev pub IsSoundRow : Option CircuitRow → Type 0
IsSoundRow none = Unit
IsSoundRow (some r) = IsSound r

-- Every worker's row, if there is one, is sound.
abbrev pub IsSoundTable : Db → Type 0
IsSoundTable db = (b : AgentId) → IsSoundRow (circuit_row b db)

changed-IsSoundRow :
    (f : CircuitRow → CircuitRow) (new : CircuitRow)
    → ((r : CircuitRow) → IsSound r → IsSound (f r))
    → IsSound new
    → (o : Option CircuitRow) → IsSoundRow o
    → IsSoundRow (changed f new o)
changed-IsSoundRow f new keep first none v = first
changed-IsSoundRow f new keep first (some r) v = keep r v

if-IsSoundRow :
    (c : Bool) (o p : Option CircuitRow)
    → IsSoundRow o
    → IsSoundRow p
    → IsSoundRow (if c then o else p)
if-IsSoundRow true o p v w = v
if-IsSoundRow false o p v w = w

-- The row that `get_state` leaves for the worker it asks about.
abbrev half_open_row : ℕ → CircuitRow → CircuitRow
half_open_row now r = record r { state = half_open; last_transition_at = datetime now }

half_opened-IsSoundRow :
    (now : ℕ) (o : Option CircuitRow)
    → was_opened o ≡ true
    → IsSoundRow o
    → IsSoundRow (Option.map (half_open_row now) o)
half_opened-IsSoundRow now none e v = tt
half_opened-IsSoundRow now (some r) e v = ground arith

get_state-IsSoundTable :
    (now : ℕ) (a : AgentId) (db : Db) → IsSoundTable db → IsSoundTable (get_state now a db).1
unfolding get_state
get_state-IsSoundTable now a db v b =
    elim (Bool-cases
      (was_opened (circuit_row a db) && not (is_opened (observed now (circuit_row a db))))) [
        | inl e ↦
            rw (e, find?-update_row a (half_open_row now) (λ r. refl) b db.circuits)
              (elim (Bool-cases (a == b)) [
                | inl same ↦ rw same (half_opened-IsSoundRow now _ (ground arith) (v b))
                | inr other ↦ rw other (v b)
              ])
        | inr e ↦ rw e (v b)
      ]

-- A failure, a success and a reading of a worker's circuit keep every worker's row sound: open or half
-- open only with five failures or more and a time at which it opened, closed only with fewer.
pub breaker-IsSoundTable :
    (now : ℕ) (a : AgentId) (db : Db)
    → IsSoundTable db
    → IsSoundTable (record_failure now a db)
      × IsSoundTable (record_success now a db)
      × IsSoundTable (get_state now a db).1
breaker-IsSoundTable now a db v = (
  λ b. rw (circuit_row-record_failure now a b db) (
      if-IsSoundRow (a == b) _ _
        (changed-IsSoundRow _ _ (count_failure-IsSound now) (ground arith) _ (v b)) (v b)),
  λ b. rw (circuit_row-record_success now a b db) (
      if-IsSoundRow (a == b) _ _
        (changed-IsSoundRow _ _ (λ r s. ground arith) (ground arith) _ (v b)) (v b)),
  get_state-IsSoundTable now a db v,
)

-- A run of failures of one worker, at the times given.
abbrev pub fail_at : AgentId → List ℕ → Db → Db
fail_at a [] db = db
fail_at a (t ∷ ts) db = fail_at a ts (record_failure t a db)

abbrev pub failures : Option CircuitRow → ℕ
failures none = 0
failures (some r) = r.consecutive_failures

pub failures-record_failure :
    (now : ℕ) (a : AgentId) (db : Db)
    → failures (circuit_row a (record_failure now a db)) ≡ failures (circuit_row a db) + 1
failures-record_failure now a db = ground (arith, circuit_row-record_failure now a a db)

failures-fail_at :
    (a : AgentId) (ts : List ℕ) (db : Db)
    → failures (circuit_row a (fail_at a ts db)) ≡ failures (circuit_row a db) + length ts
failures-fail_at a [] db = omega arith
failures-fail_at a (t ∷ ts) db =
    omega (arith, failures-fail_at a ts (record_failure t a db), failures-record_failure t a db)

fail_at-IsSoundTable :
    (a : AgentId) (ts : List ℕ) (db : Db) → IsSoundTable db → IsSoundTable (fail_at a ts db)
fail_at-IsSoundTable a [] db v = v
fail_at-IsSoundTable a (t ∷ ts) db v =
    fail_at-IsSoundTable a ts (record_failure t a db) (breaker-IsSoundTable t a db v).0

observed-closed_iff :
    (now : ℕ) (o : Option CircuitRow) → IsSoundRow o → (observed now o ≡ closed) ↔ (failures o < 5)
observed-closed_iff now none v = ground arith
observed-closed_iff now (some r) v = ground arith

-- In a table of sound rows the breaker trips at the fifth failure in a row and not before: after a
-- success and any failures since, the worker's circuit reads closed exactly when there were fewer
-- than five.
pub trips_at_threshold :
    (a : AgentId) (t now : ℕ) (ts : List ℕ) (db : Db)
    → IsSoundTable db
    → ((get_state now a (fail_at a ts (record_success t a db))).0 ≡ closed) ↔ (length ts < 5)
unfolding get_state
trips_at_threshold a t now ts db v =
    let start = record_success t a db in
    let o = circuit_row a (fail_at a ts start) in
    let (to, from) =
      observed-closed_iff now o
        (fail_at-IsSoundTable a ts start (breaker-IsSoundTable t a db v).1 a) in
    let n : failures o ≡ length ts =
      ground (arith, failures-fail_at a ts start, circuit_row-record_success t a a db) in
    (λ e. omega (arith, to e), λ h. from (omega arith))

opened_time : (r : CircuitRow) → IsSound r → r.state ≡ opened → (at : ℕ) × (r.opened_at ≡ some at)
opened_time r v o = elim (Option-cases r.opened_at) [
  | inl e ↦ cc (rw o at v.tripped_time (λ h. cc), e)
  | inr (at, e) ↦ (at, e)
]

opened_reading :
    (now at : ℕ) (r : CircuitRow)
    → r.state ≡ opened
    → r.opened_at ≡ some at
    → (not (is_opened (observed now (some r))) ≡ true) ↔ (at * 1000 + half_open_delay_ms < now)
opened_reading now at r o e = ground arith

-- In a table of sound rows a worker whose circuit is open has a time at which it opened, and is
-- available exactly when more than 30 seconds have passed since.
pub available_after_delay :
    (now : ℕ) (a : AgentId) (db : Db) {r : CircuitRow}
    → IsSoundTable db
    → circuit_row a db ≡ some r
    → r.state ≡ opened
    → (at : ℕ) × (r.opened_at ≡ some at)
      × (((is_available now a db).0 ≡ true) ↔ (at * 1000 + half_open_delay_ms < now))
unfolding is_available
available_after_delay now a db {r} v e o =
    let (at, when) = opened_time r (rw e at (v a)) o in
    (at, when, rw e (opened_reading now at r o when))

-- In a table of sound rows a failure in the half open state opens the circuit again at once: the
-- worker is refused for 29 seconds from then at least.
pub probe_failure_reopens :
    (now : ℕ) (a : AgentId) (db : Db) {r : CircuitRow}
    → IsSoundTable db
    → circuit_row a db ≡ some r
    → r.state ≡ half_open
    → (later : ℕ) → later ≤ now + half_open_delay_ms - 1000
    → (is_available later a (record_failure now a db)).0 ≡ false
unfolding is_available
probe_failure_reopens now a db {r} v e o later h =
    let s : IsSound r = rw e at (v a) in
    ground (arith, circuit_row-record_failure now a a db, s.tripped_high)

-- A worker in the half open state is available at every time, and asking changes nothing, so that it
-- is available again.
pub half_open_unlimited :
    (now : ℕ) (a : AgentId) (db : Db) {r : CircuitRow}
    → circuit_row a db ≡ some r
    → r.state ≡ half_open
    → is_available now a db ≡ (true, db)
unfolding is_available
half_open_unlimited now a db e o = ground arith
