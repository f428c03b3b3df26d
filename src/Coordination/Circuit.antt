-- ===== src/Coordination/Circuit.antt =====
-- The circuit breaker of a worker: src/coordination/circuit-breaker.ts.
pub mod Laws
use agent_working_memory.Base.{
  ℕ, suc, ◌+◌, ◌-◌, ◌*◌, Bool, true, false, not, ◌&&◌, ◌||◌, Option, none, some, List, [], ◌∷◌,
  ◌++◌, if◌then◌else◌, ltb, leb, ◌==◌, is_some, any, find?, update_where,
}
use agent_working_memory.Coordination.Schema.{
  AgentId, CircuitState, closed, opened, half_open, CircuitRow, Db, datetime, has_agent,
}

abbrev pub failure_threshold : ℕ
failure_threshold = 5

abbrev pub half_open_delay_ms : ℕ
half_open_delay_ms = 30000

abbrev pub is_opened : CircuitState → Bool
is_opened opened = true
is_opened _ = false

abbrev row_of : AgentId → CircuitRow → Bool
row_of a r = r.agent_id == a

abbrev pub circuit_row : AgentId → Db → Option CircuitRow
circuit_row a db = find? (λ r. r.agent_id == a) db.circuits

-- The `DO UPDATE SET` of `recordFailure`; every right-hand side reads the old row.
abbrev count_failure : ℕ → CircuitRow → CircuitRow
count_failure now r =
    let reached = leb failure_threshold (r.consecutive_failures + 1) in
    record r {
      consecutive_failures = r.consecutive_failures + 1;
      state = if reached then opened else r.state;
      opened_at =
          if reached && (not (is_opened r.state) || not (is_some r.opened_at))
          then some (datetime now)
          else r.opened_at;
      last_transition_at = datetime now;
    }

abbrev first_failure : AgentId → ℕ → CircuitRow
first_failure a now = record {
  agent_id = a;
  state = closed;
  consecutive_failures = 1;
  opened_at = none;
  last_transition_at = datetime now;
}

-- An upsert: the row of `a` is updated, or the new one inserted.
abbrev upsert : AgentId → (CircuitRow → CircuitRow) → CircuitRow → Db → Db
upsert a f new db = record db {
  circuits =
      if any (λ r. r.agent_id == a) db.circuits
      then update_where (λ r. r.agent_id == a) f db.circuits
      else db.circuits ++ new ∷ [];
}

unfoldable pub record_failure : ℕ → AgentId → Db → Db
record_failure now a db = upsert a (count_failure now) (first_failure a now) db

abbrev reset : ℕ → CircuitRow → CircuitRow
reset now r = record r {
  state = closed;
  consecutive_failures = 0;
  opened_at = none;
  last_transition_at = datetime now;
}

abbrev fresh_row : AgentId → ℕ → CircuitRow
fresh_row a now = record {
  agent_id = a;
  state = closed;
  consecutive_failures = 0;
  opened_at = none;
  last_transition_at = datetime now;
}

unfoldable pub record_success : ℕ → AgentId → Db → Db
record_success now a db = upsert a (reset now) (fresh_row a now) db

abbrev to_half_open : ℕ → AgentId → Db → Db
to_half_open now a db = record db {
  circuits =
      update_where (λ r. r.agent_id == a)
        (λ r. record r { state = half_open; last_transition_at = datetime now }) db.circuits;
}

-- The state that a row's `opened_at` gives an open circuit: half open once 30 s have passed.
abbrev pub probe_open : ℕ → Option ℕ → CircuitState
probe_open now none = opened
probe_open now (some at) = if ltb half_open_delay_ms (now - at * 1000) then half_open else opened

abbrev state_of : ℕ → CircuitState → Option ℕ → CircuitState
state_of now closed at = closed
state_of now half_open at = half_open
state_of now opened at = probe_open now at

abbrev pub observed : ℕ → Option CircuitRow → CircuitState
observed now none = closed
observed now (some r) = state_of now r.state r.opened_at

abbrev was_opened : Option CircuitRow → Bool
was_opened none = false
was_opened (some r) = is_opened r.state

-- `getState`: the state, and the table, which an elapsed open circuit changes to half open.
unfoldable pub get_state : ℕ → AgentId → Db → CircuitState × Db
get_state now a db =
    let row = circuit_row a db in
    let s = observed now row in
    (s, if was_opened row && not (is_opened s) then to_half_open now a db else db)

unfoldable pub is_available : ℕ → AgentId → Db → Bool × Db
unfolding get_state
is_available now a db = let (s, db') = get_state now a db in (not (is_opened s), db')
