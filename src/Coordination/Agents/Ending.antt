-- ===== src/Coordination/Agents/Ending.antt =====
-- What POST /shutdown, the clean slate and the purge of dead agents leave behind.
use agent_working_memory.Base.{
  ℕ, ◌≡◌, refl, ap, ◌∙◌, ◌⊎◌, inl, Bool, true, false, not, none, some, List, [], ◌∷◌, arith, ◌==◌,
  if◌then◌else◌, All, All-map, any, select, update_where, delete_where, All-update_where_to,
}
use agent_working_memory.Coordination.Schema.{
  Agent, Lock, Command, dead, is_dead, Db, datetime, log, shut_down,
}
use agent_working_memory.Coordination.Stale.{
  release_locks, mark_dead, is_cleared, clear_agents, clean_slate,
}
use agent_working_memory.Coordination.Agents.{shutdown, shutdown_each}

-- The agent is dead, or its id is on the list.
abbrev IsDoomed : List Agent → Agent → Type 0
IsDoomed live r = (is_dead r.status ≡ true) ⊎ (any (λ x. x.id == r.id) live ≡ true)

alive : List Agent → List Agent
alive rs = select (λ r. not (is_dead r.status)) rs

more-IsDoomed :
    (b : Bool) (r : Agent) (live rs : List Agent)
    → All (IsDoomed live) rs
    → All (IsDoomed (if b then r ∷ live else live)) rs
more-IsDoomed true r live rs v =
    All-map (IsDoomed live) (IsDoomed (r ∷ live)) (λ x h. ground arith) rs v
more-IsDoomed false r live rs v = v

select-IsDoomed : (rs : List Agent) → All (IsDoomed (alive rs)) rs
unfolding alive
select-IsDoomed [] = tt
select-IsDoomed (r ∷ rs) =
    (ground arith, more-IsDoomed (not (is_dead r.status)) r (alive rs) rs (select-IsDoomed rs))

mark_dead-IsDoomed :
    (x : Agent) (live : List Agent) (rs : List Agent)
    → All (IsDoomed (x ∷ live)) rs
    → All
        (IsDoomed live)
        (update_where (λ r. r.id == x.id) (λ r. record r { status = dead; current_task = none }) rs)
mark_dead-IsDoomed x live rs v =
    All-update_where_to (IsDoomed (x ∷ live)) (IsDoomed live) (λ r. r.id == x.id) _
      (λ r h e. inl refl) (λ r h e. ground arith) rs v

dead_of_IsDoomed : (rs : List Agent) → All (IsDoomed []) rs → All (λ r. r.status ≡ dead) rs
dead_of_IsDoomed rs v = All-map (IsDoomed []) (λ r. r.status ≡ dead) (λ r h. ground arith) rs v

shutdown_each-agents :
    (now : ℕ) (live : List Agent) (db : Db)
    → All (IsDoomed live) db.agents
    → All (λ r. r.status ≡ dead) (shutdown_each now live db).agents
shutdown_each-agents now [] db v = dead_of_IsDoomed db.agents v
shutdown_each-agents now (x ∷ live) db v =
    shutdown_each-agents now live _ (mark_dead-IsDoomed x live db.agents v)

clear_agents-agents :
    (live : List Agent) (db : Db)
    → All (IsDoomed live) db.agents
    → All (λ r. r.status ≡ dead) (clear_agents live db).agents
unfolding clear_agents
clear_agents-agents [] db v = dead_of_IsDoomed db.agents v
clear_agents-agents (x ∷ live) db v =
    clear_agents-agents live _ (mark_dead-IsDoomed x live db.agents v)

-- The lock belongs to an agent of the list.
abbrev pub is_of : List Agent → Lock → Bool
is_of live l = any (λ x. l.agent_id == x.id) live

delete-is_of :
    (x : Agent) (live : List Agent) (ls : List Lock)
    → delete_where (is_of live) (delete_where (λ l. l.agent_id == x.id) ls)
      ≡ delete_where (is_of (x ∷ live)) ls
delete-is_of x live [] = refl
delete-is_of x live (l ∷ ls) = ground (arith, delete-is_of x live ls)

delete-none : (ls : List Lock) → ls ≡ delete_where (is_of []) ls
delete-none [] = refl
delete-none (l ∷ ls) = ap (◌∷◌ l) (delete-none ls)

shutdown_each-locks :
    (now : ℕ) (live : List Agent) (db : Db)
    → (shutdown_each now live db).locks ≡ delete_where (is_of live) db.locks
shutdown_each-locks now [] db = delete-none db.locks
shutdown_each-locks now (x ∷ live) db =
    shutdown_each-locks now live
      (log now (some x.id) shut_down (mark_dead x.id (release_locks x.id db)))
    ∙ delete-is_of x live db.locks

clear_agents-locks :
    (live : List Agent) (db : Db)
    → (clear_agents live db).locks ≡ delete_where (is_of live) db.locks
unfolding clear_agents
clear_agents-locks [] db = delete-none db.locks
clear_agents-locks (x ∷ live) db =
    clear_agents-locks live (release_locks x.id (mark_dead x.id db)) ∙ delete-is_of x live db.locks

clear_agents-commands :
    (live : List Agent) (db : Db) → (clear_agents live db).commands ≡ db.commands
unfolding clear_agents
clear_agents-commands [] db = refl
clear_agents-commands (x ∷ live) db =
    clear_agents-commands live (release_locks x.id (mark_dead x.id db))

All-cleared :
    (at : ℕ) (cs : List Command)
    → All
        (λ c. is_cleared c ≡ true)
        (update_where (λ c. not (is_cleared c)) (λ c. record c { cleared_at = some at }) cs)
All-cleared at [] = tt
All-cleared at (c ∷ cs) = (ground arith, All-cleared at cs)

-- After a graceful shutdown every agent is dead, and of the locks exactly those are left that no agent
-- held that was alive.
pub shutdown_lem :
    (now : ℕ) (db : Db)
    → All (λ r. r.status ≡ dead) (shutdown now db).agents
      × ((shutdown now db).locks
          ≡ delete_where (is_of (select (λ r. not (is_dead r.status)) db.agents)) db.locks)
unfolding shutdown alive
shutdown_lem now db = (
  shutdown_each-agents now (alive db.agents) db (select-IsDoomed db.agents),
  shutdown_each-locks now (alive db.agents) db,
)

-- A start on the tables of an earlier session leaves every agent dead, every command cleared, and of
-- the locks exactly those that no agent held that was alive.
pub clean_slate_lem :
    (now : ℕ) (db : Db)
    → All (λ r. r.status ≡ dead) (clean_slate now db).agents
      × All (λ c. is_cleared c ≡ true) (clean_slate now db).commands
      × ((clean_slate now db).locks
          ≡ delete_where (is_of (select (λ r. not (is_dead r.status)) db.agents)) db.locks)
unfolding clean_slate alive
clean_slate_lem now db =
    let d : Db = record db {
      commands =
          update_where (λ c. not (is_cleared c))
            (λ c. record c { cleared_at = some (datetime now) }) db.commands;
    } in
    (
      clear_agents-agents (alive db.agents) d (select-IsDoomed db.agents),
      rw (clear_agents-commands (alive db.agents) d) (All-cleared (datetime now) db.commands),
      clear_agents-locks (alive db.agents) d,
    )
