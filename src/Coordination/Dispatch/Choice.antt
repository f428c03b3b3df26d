-- ===== src/Coordination/Dispatch/Choice.antt =====
-- Which assignment is handed out, and to whom.
use agent_working_memory.Base.{
  ℕ, subst, ◌≡◌, refl, ◌⊎◌, Bool, true, false, Option, none, some, List, [], ◌∷◌, Text, arith,
  if◌then◌else◌, coalesce, is_some, All, any, select, Bool-cases, Option-cases, inl, inr, All-map,
}
use agent_working_memory.Coordination.Schema.{AgentId, Assignment, Db}
use agent_working_memory.Coordination.Circuit.{is_available, get_state}
use agent_working_memory.Coordination.Dispatch.{
  truthy, is_reserved, is_unassigned, goes_first, better, first_in_order, pick_pending, own_active,
  take_assignment, nothing, circuit_open, alias_active, is_alias,
}

goes_first_trans :
    (r s t : Assignment) → goes_first r s ≡ true → goes_first s t ≡ true → goes_first r t ≡ true
goes_first_trans r s t h k = ground arith

goes_first_total : (r s : Assignment) → goes_first r s ≡ false → goes_first s r ≡ true
goes_first_total r s h = ground arith

goes_first_refl : (r : Assignment) → goes_first r r ≡ true
goes_first_refl r = ground arith

first_in_order-none : (rs : List Assignment) → first_in_order rs ≡ none → rs ≡ []
unfolding first_in_order
first_in_order-none [] e = refl
first_in_order-none (s ∷ rs) e = elim (Option-cases (first_in_order rs)) [
  | inl no_rest ↦ cc (rw (no_rest, better) at e)
  | inr (t, found) ↦ ground arith
]

-- The row that is first in order goes before every other, and has what all the rows have.
first_in_order-first :
    (P : Assignment → Type 0) (rs : List Assignment) (r : Assignment)
    → first_in_order rs ≡ some r
    → All P rs
    → P r × All (λ s. goes_first r s ≡ true) rs
unfolding first_in_order
first_in_order-first P [] r e v = cc
first_in_order-first P (s ∷ rs) r e v = elim (Option-cases (first_in_order rs)) [
  | inl no_rest ↦
      let same : s ≡ r = ground arith in
      let empty = first_in_order-none rs no_rest in
      rw (← same, empty) (v.0, (goes_first_refl s, tt))
  | inr (t, found) ↦
      let (mine, least) = first_in_order-first P rs t found v.1 in
      elim (Bool-cases (goes_first s t)) [
        | inl before ↦
            let same : s ≡ r = ground arith in
            subst (λ x. P x × All (λ y. goes_first x y ≡ true) (s ∷ rs)) same
              (
                v.0,
                (
                  goes_first_refl s,
                  All-map (λ x. goes_first t x ≡ true) (λ x. goes_first s x ≡ true)
                      (λ x h. goes_first_trans s t x before h) rs least,
                ),
              )
        | inr behind ↦
            let same : t ≡ r = ground arith in
            subst (λ x. P x × All (λ y. goes_first x y ≡ true) (s ∷ rs)) same
              (mine, (goes_first_total s t behind, least))
      ]
]

-- The best of the rows that a test names.
abbrev pub IsBest : (Assignment → Bool) → List Assignment → Assignment → Type 0
IsBest p rs r = (p r ≡ true) × All (λ s. p s ≡ true → goes_first r s ≡ true) rs

All-select : (p : Assignment → Bool) (rs : List Assignment) → All (λ s. p s ≡ true) (select p rs)
All-select p [] = tt
All-select p (s ∷ rs) = elim (Bool-cases (p s)) [
  | inl e ↦ rw e (e, All-select p rs)
  | inr e ↦ rw e (All-select p rs)
]

All-of_select :
    (Q : Assignment → Type 0) (p : Assignment → Bool) (rs : List Assignment)
    → All Q (select p rs)
    → All (λ s. p s ≡ true → Q s) rs
All-of_select Q p [] v = tt
All-of_select Q p (s ∷ rs) v = elim (Bool-cases (p s)) [
  | inl e ↦ let w = rw e at v in (λ _. w.0, All-of_select Q p rs w.1)
  | inr e ↦ let w = rw e at v in (λ h. cc, All-of_select Q p rs w)
]

any_of_select : (p : Assignment → Bool) (rs : List Assignment) → select p rs ≡ [] → any p rs ≡ false
any_of_select p [] e = refl
any_of_select p (s ∷ rs) e = ground (arith, any_of_select p rs)

select-IsBest :
    (p : Assignment → Bool) (rs : List Assignment) (r : Assignment)
    → first_in_order (select p rs) ≡ some r
    → IsBest p rs r
select-IsBest p rs r e =
    let (mine, least) =
      first_in_order-first (λ s. p s ≡ true) (select p rs) r e (All-select p rs) in
    (mine, All-of_select (λ s. goes_first r s ≡ true) p rs least)

-- The choice follows the policy: a task reserved for the agent comes before any other, and within its
-- kind the one chosen has the highest priority, the oldest first. It is pending and not blocked, as
-- the tests say. Nothing is chosen only if no task of either kind is there.
pub pick_pending-IsBest :
    (a : AgentId) (workspace : Option Text) (db : Db)
    → ((r : Assignment)
        → pick_pending a workspace db ≡ some r
        → IsBest (is_reserved a db) db.assignments r
          ⊎ ((any (is_reserved a db) db.assignments ≡ false)
              × IsBest (is_unassigned (truthy workspace) db) db.assignments r))
      × (pick_pending a workspace db ≡ none
          → (any (is_reserved a db) db.assignments ≡ false)
            × (any (is_unassigned (truthy workspace) db) db.assignments ≡ false))
unfolding pick_pending
pick_pending-IsBest a workspace db =
    elim (Option-cases (first_in_order (select (is_reserved a db) db.assignments))) [
      | inl free ↦
          let no_reserved =
            any_of_select (is_reserved a db) db.assignments (first_in_order-none _ free) in
          (
            λ r e. inr (no_reserved, select-IsBest _ db.assignments r (rw (free, coalesce) at e)),
            λ e. (
              no_reserved,
              any_of_select (is_unassigned (truthy workspace) db) db.assignments
                  (first_in_order-none _ (rw (free, coalesce) at e)),
            ),
          )
      | inr (s, found) ↦ (
        λ r e. inl (select-IsBest _ db.assignments r (cc (found, rw (found, coalesce) at e))),
        λ e. cc (rw (found, coalesce) at e),
      )
    ]

-- A worker whose circuit is open claims nothing: without an assignment in hand, its own or one of its
-- other UUIDs', it gets none, and the assignments stay.
pub take_assignment_refused :
    (now : ℕ) (a : AgentId) (name : Text) (workspace : Option Text) (db : Db)
    → own_active a db ≡ none
    → alias_active (select (is_alias name a) db.agents) db ≡ none
    → (is_available now a db).0 ≡ false
    → ((take_assignment now a name workspace db).1
        ≡ (if is_some (pick_pending a workspace db) then circuit_open else nothing))
      × ((take_assignment now a name workspace db).0.assignments ≡ db.assignments)
unfolding take_assignment is_available get_state
take_assignment_refused now a name workspace db o h k = (ground arith, ground arith)
