-- ===== src/Coordination/Commands/Clearing.antt =====
-- What a command sets in force, and what takes it back.
use agent_working_memory.Base.{
  ℕ, ◌≤◌, ◌≡◌, ◌≢◌, refl, ap, Bool, false, ◌&&◌, ◌||◌, Option, none, some, List, [], ◌∷◌, Text,
  text_eq, text_eq_iff, any, select, update_where, sort, insert_sorted, All, All-map, Bool-cases,
  Option-cases, inl, inr, arith,
}
use agent_working_memory.Coordination.Schema.{resume, Command, Db, AgentId}
use agent_working_memory.Coordination.Commands.{
  is_active_for, cleared, post_command, urgency, older, less_urgent, commands_in_force, not_found,
  is_open_command, delete_command,
}

select-cleared :
    (now : ℕ) (w : Option Text) (cs : List Command)
    → select (is_active_for w) (update_where (is_active_for w) (cleared now) cs) ≡ []
select-cleared now w [] = refl
select-cleared now w (c ∷ cs) = ground (arith, select-cleared now w cs)

-- A RESUME clears every command that is in force for its workspace, the global ones included; one
-- without a workspace clears every command.
pub resume_clears :
    (now id : ℕ) (reason : Option Text) (by : Option AgentId) (w : Option Text) (db : Db)
    → commands_in_force w (
        post_command now id
          (record { kind = resume; reason = reason; issued_by = by; workspace = w })
          db)
      ≡ []
unfolding post_command commands_in_force
resume_clears now id reason by w db =
    ap (λ cs. sort less_urgent (sort older cs)) (select-cleared now w db.commands)

-- The command is one that is restricted to a workspace.
abbrev pub is_local_to : Text → Command → Bool
is_local_to v c = elim c.workspace [ none ↦ false | some u ↦ text_eq u v ]

select-local :
    (now : ℕ) (x : ℕ) (w v : Text) (cs : List Command)
    → x ∷ w ≢ v
    → select (is_local_to v) (update_where (is_active_for (some (x ∷ w))) (cleared now) cs)
      ≡ select (is_local_to v) cs
select-local now x w v [] other = refl
select-local now x w v (c ∷ cs) other = elim (Option-cases c.workspace) [
  | inl global ↦ ground (arith, select-local now x w v cs other)
  | inr (u, here) ↦
      ground (arith, text_eq_iff u v, text_eq_iff u (x ∷ w), select-local now x w v cs other)
]

-- A RESUME for one workspace leaves the commands of every other workspace as they are.
pub resume_keeps_others :
    (now id x : ℕ) (reason : Option Text) (by : Option AgentId) (w v : Text) (db : Db)
    → x ∷ w ≢ v
    → select
        (is_local_to v)
        (post_command now id
          (record { kind = resume; reason = reason; issued_by = by; workspace = some (x ∷ w) })
          db).commands
      ≡ select (is_local_to v) db.commands
unfolding post_command
resume_keeps_others now id x reason by w v db other = select-local now x w v db.commands other

any-insert_sorted :
    (p : Command → Bool) (after : Command → Command → Bool) (c : Command) (cs : List Command)
    → any p (insert_sorted after c cs) ≡ (p c || any p cs)
any-insert_sorted p after c [] = refl
any-insert_sorted p after c (d ∷ cs) = ground (arith, any-insert_sorted p after c cs)

any-sort :
    (p : Command → Bool) (after : Command → Command → Bool) (cs : List Command)
    → any p (sort after cs) ≡ any p cs
any-sort p after [] = refl
any-sort p after (c ∷ cs) =
    ground (arith, any-insert_sorted p after c (sort after cs), any-sort p after cs)

any-select :
    (p q : Command → Bool) (cs : List Command) → any p (select q cs) ≡ any (λ c. p c && q c) cs
any-select p q [] = refl
any-select p q (c ∷ cs) = ground (arith, any-select p q cs)

-- A command is in force for a workspace exactly when it stands in the table, is not cleared, and is
-- global or for that workspace.
pub commands_in_force_lem :
    (p : Command → Bool) (w : Option Text) (db : Db)
    → any p (commands_in_force w db) ≡ any (λ c. p c && is_active_for w c) db.commands
unfolding commands_in_force
commands_in_force_lem p w db = ground (
  arith,
  any-sort p less_urgent (sort older (select (is_active_for w) db.commands)),
  any-sort p older (select (is_active_for w) db.commands),
  any-select p (is_active_for w) db.commands,
)

-- From the first on, the commands are no more urgent.
abbrev pub IsByUrgency : List Command → Type 0
IsByUrgency [] = Unit
IsByUrgency (c ∷ cs) = All (λ d. urgency d.command ≤ urgency c.command) cs × IsByUrgency cs

All-insert :
    (n : ℕ) (c : Command) (cs : List Command)
    → urgency c.command ≤ n
    → All (λ d. urgency d.command ≤ n) cs
    → All (λ d. urgency d.command ≤ n) (insert_sorted less_urgent c cs)
All-insert n c [] h k = (h, tt)
All-insert n c (d ∷ cs) h k = elim (Bool-cases (less_urgent c d)) [
  | inl e ↦ rw e (k.0, All-insert n c cs h k.1)
  | inr e ↦ rw e (h, k)
]

insert-IsByUrgency :
    (c : Command) (cs : List Command)
    → IsByUrgency cs
    → IsByUrgency (insert_sorted less_urgent c cs)
insert-IsByUrgency c [] h = (tt, tt)
insert-IsByUrgency c (d ∷ cs) h = elim (Bool-cases (less_urgent c d)) [
  | inl e ↦
      rw e (All-insert (urgency d.command) c cs (ground arith) h.0, insert-IsByUrgency c cs h.1)
  | inr e ↦ rw e (
    (
      ground arith,
      All-map (λ k. urgency k.command ≤ urgency d.command)
          (λ k. urgency k.command ≤ urgency c.command) (λ k i. ground arith) cs h.0,
    ),
    h,
  )
]

sort-IsByUrgency : (cs : List Command) → IsByUrgency (sort less_urgent cs)
sort-IsByUrgency [] = tt
sort-IsByUrgency (c ∷ cs) = insert-IsByUrgency c (sort less_urgent cs) (sort-IsByUrgency cs)

-- The command in force is the most urgent: a shutdown stands before a build freeze, that before a
-- pause, in every reply.
pub commands-IsByUrgency : (w : Option Text) (db : Db) → IsByUrgency (commands_in_force w db)
unfolding commands_in_force
commands-IsByUrgency w db = sort-IsByUrgency (sort older (select (is_active_for w) db.commands))

any-deleted :
    (now id : ℕ) (cs : List Command)
    → any (is_open_command id) (update_where (is_open_command id) (cleared now) cs) ≡ false
any-deleted now id [] = refl
any-deleted now id (c ∷ cs) = ground (arith, any-deleted now id cs)

-- A command is deleted once: the second DELETE of an id, at any time, finds nothing.
pub delete_command_once :
    (now later id : ℕ) (db : Db)
    → (delete_command later id (delete_command now id db).0).1 ≡ not_found
unfolding delete_command
delete_command_once now later id db = ground (arith, any-deleted now id db.commands)
