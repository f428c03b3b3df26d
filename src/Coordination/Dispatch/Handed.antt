-- ===== src/Coordination/Dispatch/Handed.antt =====
-- What POST /next and GET /assignment hand out.
use agent_working_memory.Base.{
  ℕ, ◌≤◌, ◌≡◌, refl, sym, subst, ◌⊎◌, Bool, true, Option, none, some, List, [], ◌∷◌, Text, arith,
  ◌==◌, ==_refl, coalesce, any, find?, select, update_where, count_where, Bool-cases, Option-cases,
  inl, inr, ◌∙◌, ==_iff, find?-sound,
}
use agent_working_memory.Coordination.Schema.{
  AgentId, AssignmentId, Agent, Assignment, Db, has_agent, assignment_row, log, assignment_claimed,
}
use agent_working_memory.Coordination.Circuit.{is_available, get_state}
use agent_working_memory.Coordination.Stale.{is_orphan}
use agent_working_memory.Coordination.Assignments.{is_open, handed_to, set_working, take_pending}
use agent_working_memory.Coordination.Dispatch.{
  own_active, alias_active, is_alias, pick_pending, claim_chosen, take_assignment, Taken, in_hand,
  nothing, circuit_open, thrown, made_last, later_made, in_hand_or_nothing, migrate,
}

later_made_cases :
    (x : Assignment) (o : Option Assignment) {r : Assignment}
    → later_made x o ≡ some r
    → (x ≡ r) ⊎ (o ≡ some r)
later_made_cases x none e = ground (arith, e)
later_made_cases x (some y) e = ground (arith, e)

made_last-select :
    (p : Assignment → Bool) (rs : List Assignment) {r : Assignment}
    → made_last (select p rs) ≡ some r
    → p r ≡ true
made_last-select p [] e = cc
made_last-select p (x ∷ xs) {r} e = elim (Bool-cases (p x)) [
  | inl t ↦ elim (later_made_cases x (made_last (select p xs)) (rw t at e)) [
    | inl same ↦ subst (λ y. p y ≡ true) same t
    | inr rest ↦ made_last-select p xs rest
  ]
  | inr f ↦ made_last-select p xs (rw f at e)
]

alias_active_lem :
    (aliases : List Agent) (db : Db) {r : Assignment}
    → alias_active aliases db ≡ some r
    → (x : Agent) × (made_last (select (is_orphan x.id) db.assignments) ≡ some r)
unfolding alias_active own_active
alias_active_lem [] db e = cc
alias_active_lem (x ∷ xs) db {r} e = elim (Option-cases (own_active x.id db)) [
  | inl free ↦ alias_active_lem xs db (rw (free, coalesce) at e)
  | inr (s, found) ↦ let same : some s ≡ some r = rw (found, coalesce) at e in (x, found ∙ same)
]

count_found :
    (i : AssignmentId) (rs : List Assignment) {r : Assignment}
    → find? (λ x. x.id == i) rs ≡ some r
    → 1 ≤ count_where (λ x. x.id == i) rs
count_found i [] e = cc
count_found i (x ∷ xs) {r} e = ground (arith, count_found i xs {r = r})

find?-behind :
    (x : Assignment) (xs : List Assignment) {r : Assignment}
    → (count_where (λ y. y.id == r.id) xs ≤ 1 → find? (λ y. y.id == r.id) xs ≡ some r)
    → count_where (λ y. y.id == r.id) (x ∷ xs) ≤ 1
    → find? (λ y. y.id == r.id) (x ∷ xs) ≡ some r
find?-behind x xs {r} found k =
    let there = found (ground arith) in ground (arith, there, count_found r.id xs there)

-- The row that was made last is the one that its id finds.
made_last-found :
    (p : Assignment → Bool) (rs : List Assignment) {r : Assignment}
    → made_last (select p rs) ≡ some r
    → count_where (λ x. x.id == r.id) rs ≤ 1
    → find? (λ x. x.id == r.id) rs ≡ some r
made_last-found p [] e k = cc
made_last-found p (x ∷ xs) {r} e k = elim (Bool-cases (p x)) [
  | inl t ↦ elim (later_made_cases x (made_last (select p xs)) (rw t at e)) [
    | inl same ↦
        subst (λ (y : Assignment). find? (λ z. z.id == y.id) (x ∷ xs) ≡ some y) same
          (rw (==_refl x.id) refl)
    | inr rest ↦ find?-behind x xs (λ m. made_last-found p xs {r = r} rest m) k
  ]
  | inr f ↦ find?-behind x xs (λ m. made_last-found p xs {r = r} (rw f at e) m) k
]

migrated_row :
    (a : AgentId) (i : AssignmentId) (rs : List Assignment) {r : Assignment}
    → find? (λ x. x.id == i) rs ≡ some r
    → find?
        (λ x. x.id == i)
        (update_where (λ x. x.id == i) (λ x. record x { agent_id = some a }) rs)
      ≡ some (record r { agent_id = some a })
migrated_row a i [] e = cc
migrated_row a i (x ∷ xs) {r} e = ground (arith, migrated_row a i xs {r = r})

count_open :
    (i : AssignmentId) (rs : List Assignment)
    → any (is_open i) rs ≡ true
    → 1 ≤ count_where (λ r. r.id == i) rs
count_open i [] h = cc
count_open i (r ∷ rs) h = ground (arith, count_open i rs)

claimed_row :
    (now : ℕ) (a : AgentId) (i : AssignmentId) (rs : List Assignment) {s : Assignment}
    → count_where (λ r. r.id == i) rs ≤ 1
    → any (is_open i) rs ≡ true
    → find? (λ r. r.id == i) (update_where (is_open i) (handed_to now a) rs) ≡ some s
    → is_orphan a s ≡ true
claimed_row now a i [] k h e = cc
claimed_row now a i (r ∷ rs) {s} k h e =
    ground (arith, count_open i rs, claimed_row now a i rs {s = s}, ==_refl a)

-- What is handed out is the row that the table then has under its id, and it is the agent's, assigned or in
-- progress.
abbrev pub IsHanded : AgentId → Db → Taken → Type 0
IsHanded a db (in_hand r) = (assignment_row r.id db ≡ some r) × (is_orphan a r ≡ true)
IsHanded a db nothing = Unit
IsHanded a db circuit_open = Unit
IsHanded a db thrown = Unit

row-IsHanded :
    (a : AgentId) (i : AssignmentId) (db : Db)
    → ((s : Assignment) → assignment_row i db ≡ some s → is_orphan a s ≡ true)
    → IsHanded a db (in_hand_or_nothing (assignment_row i db))
row-IsHanded a i db h = elim (Option-cases (assignment_row i db)) [
  | inl e ↦ rw e tt
  | inr (s, e) ↦
      let same : s.id ≡ i = (==_iff s.id i).0 (find?-sound (λ x. x.id == i) db.assignments e) in
      rw e (subst (λ k. assignment_row k db ≡ some s) (sym same) e, h s e)
]

available-assignments :
    (now : ℕ) (a : AgentId) (db : Db) → (is_available now a db).1.assignments ≡ db.assignments
unfolding is_available get_state
available-assignments now a db = ground arith

claim_chosen-IsHanded :
    (now : ℕ) (a : AgentId) (o : Option Assignment) (db : Db)
    → ((i : AssignmentId) → count_where (λ r. r.id == i) db.assignments ≤ 1)
    → IsHanded a (claim_chosen now a o db).0 (claim_chosen now a o db).1
unfolding claim_chosen
claim_chosen-IsHanded now a none db keyed = tt
claim_chosen-IsHanded now a (some r) db keyed =
    let db1 = (is_available now a db).1 in
    elim (Bool-cases (is_available now a db).0) [
      | inr closed ↦ rw closed tt
      | inl free ↦ elim (Bool-cases (any (is_open r.id) db1.assignments)) [
        | inr gone ↦ rw (free, gone) tt
        | inl there ↦ elim (Bool-cases (has_agent a db1)) [
          | inr unknown ↦ rw (free, there, unknown) tt
          | inl registered ↦
              rw (free, there, registered)
                (row-IsHanded a r.id
                  (log now (some a) assignment_claimed
                    (set_working a r.id (take_pending now a r.id db1)))
                  (λ s e.
                    claimed_row now a r.id db1.assignments
                      (subst (λ rs. count_where (λ x. x.id == r.id) rs ≤ 1)
                        (sym (available-assignments now a db)) (keyed r.id))
                      there e))
        ]
      ]
    ]

-- What the search that POST /next and GET /assignment share hands out to an agent is the row that the table
-- then has under its id, is the agent's own and is assigned or in progress, whether the agent had it in hand,
-- it came from another UUID of its name, or it was claimed now, if no two assignments have the same id.
pub take_assignment-IsHanded :
    (now : ℕ) (a : AgentId) (name : Text) (workspace : Option Text) (db : Db)
    → ((i : AssignmentId) → count_where (λ r. r.id == i) db.assignments ≤ 1)
    → IsHanded a
        (take_assignment now a name workspace db).0
        (take_assignment now a name workspace db).1
unfolding take_assignment own_active migrate
take_assignment-IsHanded now a name workspace db keyed = elim (Option-cases (own_active a db)) [
  | inr (r, own) ↦
      rw (take_assignment, own)
        (
          made_last-found (is_orphan a) db.assignments own (keyed r.id),
          made_last-select (is_orphan a) db.assignments own,
        )
  | inl no_own ↦ elim (Option-cases (alias_active (select (is_alias name a) db.agents) db)) [
    | inr (r, other) ↦
        let (x, found) = alias_active_lem (select (is_alias name a) db.agents) db other in
        let active = made_last-select (is_orphan x.id) db.assignments found in
        rw (take_assignment, no_own, other)
          (
            migrated_row a r.id db.assignments
                (made_last-found (is_orphan x.id) db.assignments found (keyed r.id)),
            ground (arith, ==_refl a, active),
          )
    | inl no_other ↦
        rw (take_assignment, no_own, no_other)
          (claim_chosen-IsHanded now a (pick_pending a workspace db) db keyed)
  ]
]
