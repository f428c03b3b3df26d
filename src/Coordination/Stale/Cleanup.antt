-- ===== src/Coordination/Stale/Cleanup.antt =====
-- What cleanupStale of src/coordination/stale.ts leaves of the agents.
use agent_working_memory.Base.{
  ℕ, ◌+◌, ◌≡◌, refl, Bool, true, false, none, some, List, [], ◌∷◌, arith, if◌then◌else◌, ltb, ◌==◌,
  All, length, any, select, update_where, delete_where, All-map, All-update_where,
  All-update_where_to, All-delete_where, any-delete_where, any_of_All-false, All-of_any-false,
  All-trivial, inl, inr, map,
}
use agent_working_memory.Coordination.Schema.{
  AgentId, AssignmentId, Agent, Assignment, Db, log, assignment_failed, dead,
}
use agent_working_memory.Coordination.Circuit.{circuit_row, record_failure}
use agent_working_memory.Coordination.Circuit.Laws.{failures, failures-record_failure}
use agent_working_memory.Coordination.Stale.{
  is_orphan, detect_stale, retry_or_fail, retry_all, stale_reason, cleanup_agent, cleanup_all,
  cleanup_stale,
}
use agent_working_memory.Coordination.Stale.Retry.{retry_cases}

-- Every orphan of `a` is on the list.
abbrev IsListed : AgentId → List AssignmentId → Assignment → Type 0
IsListed a is r = is_orphan a r ≡ true → any (λ j. r.id == j) is ≡ true

ids : List Assignment → List AssignmentId
ids rs = map (λ (r : Assignment). r.id) rs

more-IsListed :
    (a : AgentId) (b : Bool) (r : Assignment) (chosen rs : List Assignment)
    → All (IsListed a (ids chosen)) rs
    → All (IsListed a (ids (if b then r ∷ chosen else chosen))) rs
unfolding ids
more-IsListed a true r chosen rs v =
    All-map (IsListed a (ids chosen)) (IsListed a (ids (r ∷ chosen))) (λ x h o. ground (arith, h o))
      rs v
more-IsListed a false r chosen rs v = v

select-IsListed :
    (a : AgentId) (rs : List Assignment) → All (IsListed a (ids (select (is_orphan a) rs))) rs
unfolding ids
select-IsListed a [] = tt
select-IsListed a (r ∷ rs) = (
  λ o. rw o (ground arith),
  more-IsListed a (is_orphan a r) r (select (is_orphan a) rs) rs (select-IsListed a rs),
)

-- A retry or a final failure of `i` takes `i` off the list, and of the rest nothing becomes an orphan.
retry_or_fail-IsListed :
    (now : ℕ) (a : AgentId) (i : AssignmentId) (is : List AssignmentId) (db : Db)
    → All (IsListed a (i ∷ is)) db.assignments
    → All (IsListed a is) (retry_or_fail now i (some a) stale_reason none db).0.assignments
retry_or_fail-IsListed now a i is db v = elim (retry_cases now i (some a) stale_reason none db) [
  | inl (few, e) ↦ rw e (
      All-update_where_to (IsListed a (i ∷ is)) (IsListed a is) (λ r. r.id == i) _ (λ r h z o. cc)
        (λ r h z o. ground (arith, h o)) db.assignments v)
  | inr (many, e) ↦ rw e (
      All-update_where_to (IsListed a (i ∷ is)) (IsListed a is) (λ r. r.id == i) _
        (λ r h z o. ground arith) (λ r h z o. ground (arith, h o)) db.assignments v)
]

retry_all-IsListed :
    (now : ℕ) (a : AgentId) (is : List AssignmentId) (db : Db)
    → All (IsListed a is) db.assignments
    → All (IsListed a []) (retry_all now a is db).assignments
unfolding retry_all
retry_all-IsListed now a [] db v = v
retry_all-IsListed now a (i ∷ is) db v =
    retry_all-IsListed now a is _ (retry_or_fail-IsListed now a i is db v)

-- A retry or a final failure makes no orphan for any agent.
retry_or_fail-other_orphans :
    (now : ℕ) (a b : AgentId) (i : AssignmentId) (db : Db)
    → All (IsListed b []) db.assignments
    → All (IsListed b []) (retry_or_fail now i (some a) stale_reason none db).0.assignments
retry_or_fail-other_orphans now a b i db v =
    elim (retry_cases now i (some a) stale_reason none db) [
      | inl (few, e) ↦
          rw e
            (All-update_where (IsListed b []) (λ r. r.id == i) _ (λ r h z o. cc) db.assignments v)
      | inr (many, e) ↦ rw e (
          All-update_where (IsListed b []) (λ r. r.id == i) _ (λ r h z o. ground arith)
            db.assignments v)
    ]

retry_all-other_orphans :
    (now : ℕ) (a b : AgentId) (is : List AssignmentId) (db : Db)
    → All (IsListed b []) db.assignments
    → All (IsListed b []) (retry_all now a is db).assignments
unfolding retry_all
retry_all-other_orphans now a b [] db v = v
retry_all-other_orphans now a b (i ∷ is) db v =
    retry_all-other_orphans now a b is _ (retry_or_fail-other_orphans now a b i db v)

-- The tables that a retry leaves alone.
record Spared (db db' : Db) : Type 0 where
  agents : db'.agents ≡ db.agents
  locks : db'.locks ≡ db.locks
  circuits : db'.circuits ≡ db.circuits

retry_or_fail-Spared :
    (now : ℕ) (a : AgentId) (i : AssignmentId) (db : Db)
    → Spared db (retry_or_fail now i (some a) stale_reason none db).0
unfolding retry_or_fail
retry_or_fail-Spared now a i db = ground arith

retry_all-Spared :
    (now : ℕ) (a : AgentId) (is : List AssignmentId) (db : Db) → Spared db (retry_all now a is db)
unfolding retry_all
retry_all-Spared now a [] db = record { agents = refl; locks = refl; circuits = refl }
retry_all-Spared now a (i ∷ is) db =
    let s = retry_or_fail-Spared now a i db in
    let t = retry_all-Spared now a is (retry_or_fail now i (some a) stale_reason none db).0 in
    record { agents = cc; locks = cc; circuits = cc }

-- Nothing is left of an agent: its row is dead and names no task, it holds no lock, and no assignment
-- in hand is its own.
pub record IsCleared (a : AgentId) (db : Db) : Type 0 where
  pub gone : All (λ r. (r.id == a) ≡ true → (r.status ≡ dead) × (r.current_task ≡ none)) db.agents
  pub no_locks : any (λ l. l.agent_id == a) db.locks ≡ false
  pub no_orphans : any (is_orphan a) db.assignments ≡ false

IsListed-iff :
    (a : AgentId) (rs : List Assignment) → All (IsListed a []) rs → any (is_orphan a) rs ≡ false
IsListed-iff a [] v = refl
IsListed-iff a (r ∷ rs) v = ground (arith, v.0, IsListed-iff a rs v.1)

IsListed-of_none :
    (a : AgentId) (rs : List Assignment) → any (is_orphan a) rs ≡ false → All (IsListed a []) rs
IsListed-of_none a [] e = tt
IsListed-of_none a (r ∷ rs) e = (λ o. ground arith, IsListed-of_none a rs (ground arith))

module _ (now : ℕ) (a : AgentId) (db : Db) where
  orphans_of : List AssignmentId
  orphans_of = ids (select (is_orphan a) db.assignments)

  cleanup_agent-assignments :
      (cleanup_agent now a db).0.assignments ≡ (retry_all now a orphans_of db).assignments
  unfolding cleanup_agent record_failure orphans_of ids
  cleanup_agent-assignments = ground arith

  cleanup_agent-locks :
      (cleanup_agent now a db).0.locks ≡ delete_where (λ l. l.agent_id == a) db.locks
  unfolding cleanup_agent record_failure
  cleanup_agent-locks = ground (
    arith,
    retry_all-Spared now a (map (λ (r : Assignment). r.id) (select (is_orphan a) db.assignments))
        db,
  )

  cleanup_agent-agents :
      (cleanup_agent now a db).0.agents
      ≡ update_where
          (λ r. r.id == a)
          (λ r. record r { status = dead; current_task = none })
          db.agents
  unfolding cleanup_agent record_failure
  cleanup_agent-agents = ground (
    arith,
    retry_all-Spared now a (map (λ (r : Assignment). r.id) (select (is_orphan a) db.assignments))
        db,
  )

cleanup_agent-IsCleared : (now : ℕ) (a : AgentId) (db : Db) → IsCleared a (cleanup_agent now a db).0
unfolding orphans_of
cleanup_agent-IsCleared now a db = record {
  gone = rw (cleanup_agent-agents now a db) (
      All-update_where_to (λ _. Unit {0})
        (λ r. (r.id == a) ≡ true → (r.status ≡ dead) × (r.current_task ≡ none)) (λ r. r.id == a) _
        (λ r _ _ _. (refl, refl)) (λ r _ e h. cc) db.agents (All-trivial _ (λ _. tt) db.agents));
  no_locks = rw (cleanup_agent-locks now a db) (any-delete_where (λ l. l.agent_id == a) db.locks);
  no_orphans = rw (cleanup_agent-assignments now a db) (
      IsListed-iff a _
        (retry_all-IsListed now a (orphans_of now a db) db (select-IsListed a db.assignments)));
}

-- The cleanup of one agent leaves another one cleared.
cleanup_agent-stays :
    (now : ℕ) (a b : AgentId) (db : Db) → IsCleared b db → IsCleared b (cleanup_agent now a db).0
cleanup_agent-stays now a b db v = record {
  gone = rw (cleanup_agent-agents now a db) (
      All-update_where (λ r. (r.id == b) ≡ true → (r.status ≡ dead) × (r.current_task ≡ none))
        (λ r. r.id == a) _ (λ r h _ _. (refl, refl)) db.agents v.gone);
  no_locks = rw (cleanup_agent-locks now a db) (
      any_of_All-false _ _ (
        All-delete_where _ (λ l. l.agent_id == a) db.locks
          (All-of_any-false _ db.locks v.no_locks)));
  no_orphans = rw (cleanup_agent-assignments now a db) (
      IsListed-iff b _ (
        retry_all-other_orphans now a b (orphans_of now a db) db
          (IsListed-of_none b db.assignments v.no_orphans)));
}

cleanup_all-stays :
    (now n : ℕ) (b : AgentId) (stale : List Agent) (db : Db)
    → IsCleared b db
    → IsCleared b (cleanup_all now stale db n).0
unfolding cleanup_all
cleanup_all-stays now n b [] db v = v
cleanup_all-stays now n b (a ∷ rest) db v =
    cleanup_all-stays now (n + (cleanup_agent now a.id db).1) b rest (cleanup_agent now a.id db).0
      (cleanup_agent-stays now a.id b db v)

cleanup_all-IsCleared :
    (now n : ℕ) (stale : List Agent) (db : Db)
    → All (λ a. IsCleared a.id (cleanup_all now stale db n).0) stale
unfolding cleanup_all
cleanup_all-IsCleared now n [] db = tt
cleanup_all-IsCleared now n (a ∷ rest) db = (
  cleanup_all-stays now (n + (cleanup_agent now a.id db).1) a.id rest (cleanup_agent now a.id db).0
      (cleanup_agent-IsCleared now a.id db),
  cleanup_all-IsCleared now (n + (cleanup_agent now a.id db).1) rest (cleanup_agent now a.id db).0,
)

-- After a cleanup every agent that it found stale is dead and without a task, holds no lock, and no
-- assigned or running assignment is left with it.
pub cleanup_stale-IsCleared :
    (now threshold : ℕ) (db : Db)
    → All (λ a. IsCleared a.id (cleanup_stale now threshold db).0) (detect_stale now threshold db)
unfolding cleanup_stale
cleanup_stale-IsCleared now threshold db =
    cleanup_all-IsCleared now 0 (detect_stale now threshold db) db

length-ids :
    (a : AgentId) (rs : List Assignment)
    → ltb 0 (length (ids (select (is_orphan a) rs))) ≡ any (is_orphan a) rs
unfolding ids
length-ids a [] = refl
length-ids a (r ∷ rs) = ground (arith, length-ids a rs)

module _ (now : ℕ) (a : AgentId) (db : Db) where
  -- The circuits after a cleanup, by what it found.
  cleanup_agent-circuits :
      (d : Db) × (d.circuits ≡ db.circuits)
      × ((cleanup_agent now a db).0.circuits ≡ (
          if any (is_orphan a) db.assignments
          then (record_failure now a d).circuits
          else d.circuits))
  unfolding cleanup_agent ids
  cleanup_agent-circuits =
      let orphans = map (λ (r : Assignment). r.id) (select (is_orphan a) db.assignments) in
      let d = log now (some a) assignment_failed (retry_all now a orphans db) in
      (
        d,
        (retry_all-Spared now a orphans db).circuits,
        ground (arith, length-ids a db.assignments, retry_all-Spared now a orphans db),
      )

-- The cleanup of an agent counts one failure in its circuit, however many of its assignments are
-- orphaned, and none where none is.
pub failures-cleanup_agent :
    (now : ℕ) (a : AgentId) (db : Db)
    → failures (circuit_row a (cleanup_agent now a db).0)
      ≡ failures (circuit_row a db) + (if any (is_orphan a) db.assignments then 1 else 0)
failures-cleanup_agent now a db =
    let (d, same, e) = cleanup_agent-circuits now a db in
    ground (arith, failures-record_failure now a d)
