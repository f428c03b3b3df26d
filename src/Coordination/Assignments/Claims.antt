-- ===== src/Coordination/Assignments/Claims.antt =====
-- Claims of assignments of src/coordination/routes.ts: how many go through, and for whom.
use agent_working_memory.Base.{
  ℕ, suc, ◌+◌, ◌≤◌, ◌≡◌, refl, ap, sym, subst, ◌∙◌, Bool, true, false, ◌&&◌, Option, some, List, [],
  ◌∷◌, Text, arith, if◌then◌else◌, ◌==◌, find?, any, update_where, count_where, Bool-cases, inl,
  inr, and-true,
}
use agent_working_memory.Coordination.Schema.{
  AgentId, AssignmentId, AssignmentStatus, pending, assigned, in_progress, blocked, completed,
  failed, is_pending, is_completed, Assignment, Db, has_agent,
}
use agent_working_memory.Coordination.Stale.{is_orphan}
use agent_working_memory.Coordination.Tokens.{Request, session_token_ok}
use agent_working_memory.Coordination.Reassign.{reassign, fail_voluntarily}
use agent_working_memory.Coordination.Reassign.Rows.{IsKeyedUpdate, reassign_cases, fail_cases}
use agent_working_memory.Coordination.Assignments.Updates.{
  handle_update_cases, updated-id, claim_cases,
}
use agent_working_memory.Coordination.Assignments.Final.{
  Call, claims, updates, reassigns, gives_up, step,
}
use agent_working_memory.Coordination.Assignments.{
  Reply, done, claim, handle_update, is_open, handed_to, updated, waits_for, unblocked,
  transition_ok,
}

any-taken :
    (now : ℕ) (a : AgentId) (i : AssignmentId) (rs : List Assignment)
    → any (is_open i) (update_where (is_open i) (handed_to now a) rs) ≡ false
any-taken now a i [] = refl
any-taken now a i (r ∷ rs) = ground (arith, any-taken now a i rs)

-- Whether the assignment may be claimed, as a number.
abbrev pub open_now : AssignmentId → List Assignment → ℕ
open_now i rs = if any (is_open i) rs then 1 else 0

abbrev pub is_done : Reply → Bool
is_done done = true
is_done _ = false

-- How often a claim of the assignment goes through in a run.
abbrev pub grants : AssignmentId → List Call → Db → ℕ
grants i [] db = 0
grants i (claims req a j ∷ cs) db =
    let rest = grants i cs (claim req a j db).0 in
    if (j == i) && is_done (claim req a j db).1 then suc rest else rest
grants i (updates now j next result sha ∷ cs) db =
    grants i cs (step (updates now j next result sha) db)
grants i (reassigns now j target name ∷ cs) db = grants i cs (step (reassigns now j target name) db)
grants i (gives_up now j reason mode ∷ cs) db = grants i cs (step (gives_up now j reason mode) db)

-- How many requests of a run reassign the assignment or give it up.
abbrev pub returns : AssignmentId → List Call → ℕ
returns i [] = 0
returns i (claims req a j ∷ cs) = returns i cs
returns i (updates now j next result sha ∷ cs) = returns i cs
returns i (reassigns now j target name ∷ cs) =
    let rest = returns i cs in if j == i then suc rest else rest
returns i (gives_up now j reason mode ∷ cs) =
    let rest = returns i cs in if j == i then suc rest else rest

open_now_bounded : (i : AssignmentId) (rs : List Assignment) → open_now i rs ≤ 1
open_now_bounded i rs = ground arith

any-other :
    (i j : AssignmentId) (f : Assignment → Assignment)
    → ((r : Assignment) → (f r).id ≡ r.id)
    → (j == i) ≡ false
    → (rs : List Assignment)
    → any (is_open i) (update_where (λ r. r.id == j) f rs) ≡ any (is_open i) rs
any-other i j f keep ne [] = refl
any-other i j f keep ne (r ∷ rs) = ground (arith, keep r, any-other i j f keep ne rs)

-- An UPDATE that leaves no pending row where it writes opens nothing.
any-shut :
    (i : AssignmentId) (p : Assignment → Bool) (f : Assignment → Assignment)
    → ((r : Assignment) → is_pending (f r).status ≡ false)
    → (rs : List Assignment) → any (is_open i) rs ≡ false
    → any (is_open i) (update_where p f rs) ≡ false
any-shut i p f shut [] h = refl
any-shut i p f shut (r ∷ rs) h = ground (arith, shut r, any-shut i p f shut rs)

-- Whatever a step does, it opens no assignment.
abbrev NotOpened : AssignmentId → List Assignment → List Assignment → Type 0
NotOpened i before after = any (is_open i) before ≡ false → any (is_open i) after ≡ false

claim-NotOpened :
    (req : Request) (a : AgentId) (j i : AssignmentId) (db : Db)
    → NotOpened i db.assignments (claim req a j db).0.assignments
claim-NotOpened req a j i db h = elim (claim_cases req a j db) [
  | inl e ↦ rw e h
  | inr e ↦ rw e (any-shut i (is_open j) (handed_to req.now a) (λ r. refl) db.assignments h)
]

-- A claim that goes through takes an open assignment and leaves it taken.
claim-done :
    (req : Request) (a : AgentId) (i : AssignmentId) (db : Db)
    → is_done (claim req a i db).1 ≡ true
    → (any (is_open i) db.assignments ≡ true)
      × (any (is_open i) (claim req a i db).0.assignments ≡ false)
unfolding claim
claim-done req a i db e = ground (arith, any-taken req.now a i db.assignments)

-- No transition leads back to pending.
transition-pending :
    (s t : AssignmentStatus)
    → transition_ok s t ≡ true
    → is_pending s ≡ false
    → is_pending t ≡ false
transition-pending pending t h k = cc
transition-pending assigned t h k = ground arith
transition-pending in_progress t h k = ground arith
transition-pending blocked t h k = ground arith
transition-pending completed t h k = cc
transition-pending failed t h k = cc

updated-pending :
    (now : ℕ) (next : AssignmentStatus) (result sha : Option Text) (r : Assignment)
    → is_pending (updated now next result sha r).status ≡ is_pending next
updated-pending now next result sha r = ground arith

found-shut :
    (i : AssignmentId) (rs : List Assignment) {r : Assignment}
    → find? (λ x. x.id == i) rs ≡ some r
    → any (is_open i) rs ≡ false
    → is_pending r.status ≡ false
found-shut i [] e h = cc
found-shut i (x ∷ xs) {r} e h = ground (arith, found-shut i xs {r = r})

unblocked-NotOpened :
    (i j : AssignmentId) (next : AssignmentStatus) (rows : List Assignment)
    → any (is_open i) rows ≡ false
    → any
        (is_open i)
        (if is_completed next then update_where (waits_for j) unblocked rows else rows)
      ≡ false
unblocked-NotOpened i j next rows h = elim (Bool-cases (is_completed next)) [
  | inl e ↦ rw e (any-shut i (waits_for j) unblocked (λ r. refl) rows h)
  | inr e ↦ rw e h
]

handle_update-NotOpened :
    (now : ℕ) (j i : AssignmentId) (next : AssignmentStatus) (result sha : Option Text) (db : Db)
    → NotOpened i db.assignments (handle_update now j next result sha db).0.assignments
handle_update-NotOpened now j i next result sha db h =
    elim (handle_update_cases now j next result sha db) [
      | inl refused ↦
          subst (λ rs. any (is_open i) rs ≡ false)
            (sym (ap (λ (x : Db × Reply). x.0.assignments) refused)) h
      | inr p ↦
          subst (λ rs. any (is_open i) rs ≡ false) (sym p.rows)
            (unblocked-NotOpened i j next
              (update_where (λ r. r.id == j) (updated now next result sha) db.assignments)
              (by_id p.row p.found p.allowed))
    ]
  where
    by_id :
        (r : Assignment)
        → find? (λ x. x.id == j) db.assignments ≡ some r
        → transition_ok r.status next ≡ true
        → any
            (is_open i)
            (update_where (λ r. r.id == j) (updated now next result sha) db.assignments)
          ≡ false
    by_id r found allowed = elim (Bool-cases (j == i)) [
      | inr ne ↦
          any-other i j (updated now next result sha) (λ r. updated-id now next result sha r) ne
            db.assignments
          ∙ h
      | inl same ↦
          let e : j ≡ i = ground arith in
          let at : find? (λ x. x.id == i) db.assignments ≡ some r =
            ap (λ k. find? (λ x. x.id == k) db.assignments) (sym e) ∙ found in
          any-shut i (λ r. r.id == j) (updated now next result sha)
            (λ x.
              updated-pending now next result sha x
              ∙ transition-pending r.status next allowed (found-shut i db.assignments at h))
            db.assignments h
    ]

keyed-open :
    (j i : AssignmentId) (db db' : Db)
    → IsKeyedUpdate j db db'
    → (j == i) ≡ false
    → any (is_open i) db'.assignments ≡ any (is_open i) db.assignments
keyed-open j i db db' (inl e) ne = rw e refl
keyed-open j i db db' (inr (r, f, found, going, keep, e)) ne =
    rw e (any-other i j f keep ne db.assignments)

-- What a step adds to the claims that went through it takes from those that may.
keyed_step :
    (i j : AssignmentId) (db db' : Db) (n k : ℕ)
    → IsKeyedUpdate j db db'
    → n ≤ open_now i db'.assignments + k
    → n ≤ open_now i db.assignments + (if j == i then suc k else k)
keyed_step i j db db' n k u h = elim (Bool-cases (j == i)) [
  | inl e ↦ rw e (omega (arith, open_now_bounded i db'.assignments))
  | inr ne ↦ rw ne (subst (λ b. n ≤ (if b then 1 else 0) + k) (keyed-open j i db db' u ne) h)
]

open_now-le :
    (i : AssignmentId) (rs rs' : List Assignment)
    → NotOpened i rs rs'
    → open_now i rs' ≤ open_now i rs
open_now-le i rs rs' h = ground (arith, h)

grants_bounded :
    (cs : List Call) (i : AssignmentId) (db : Db)
    → grants i cs db ≤ open_now i db.assignments + returns i cs
grants_bounded [] i db = ground arith
grants_bounded (claims req a j ∷ cs) i db =
    let rest = grants_bounded cs i (claim req a j db).0 in
    elim (Bool-cases ((j == i) && is_done (claim req a j db).1)) [
      | inr f ↦ rw f (
          omega (
            arith,
            rest,
            open_now-le i db.assignments (claim req a j db).0.assignments
                (claim-NotOpened req a j i db),
          ))
      | inl t ↦
          let (same, d) = and-true (j == i) (is_done (claim req a j db).1) t in
          let e : j ≡ i = ground arith in
          let (was, is) =
            subst
              (λ k.
                (any (is_open k) db.assignments ≡ true)
                × (any (is_open k) (claim req a j db).0.assignments ≡ false))
              e (claim-done req a j db d) in
          rw (t, was)
            (omega (
              arith,
              subst (λ b. grants i cs (claim req a j db).0 ≤ (if b then 1 else 0) + returns i cs) is
                  rest,
            ))
    ]
grants_bounded (updates now j next result sha ∷ cs) i db =
    let db' = (handle_update now j next result sha db).0 in
    omega (
      arith,
      grants_bounded cs i db',
      open_now-le i db.assignments db'.assignments
          (handle_update-NotOpened now j i next result sha db),
    )
grants_bounded (reassigns now j target name ∷ cs) i db =
    keyed_step i j db (reassign now j target name db).0 _ _ (reassign_cases now j db target name)
      (grants_bounded cs i (reassign now j target name db).0)
grants_bounded (gives_up now j reason mode ∷ cs) i db =
    keyed_step i j db (fail_voluntarily now j reason mode db).0 _ _
      (fail_cases now j db reason mode)
      (grants_bounded cs i (fail_voluntarily now j reason mode db).0)

-- In every run of claims, updates, reassignments and voluntary failures of any assignments and by anyone, the
-- claims of an assignment that go through outnumber by at most one the requests that reassign it or give it
-- up: once claimed it is claimed again only after it was handed back.
pub claim_once : (cs : List Call) (i : AssignmentId) (db : Db) → grants i cs db ≤ 1 + returns i cs
claim_once cs i db = omega (arith, grants_bounded cs i db, open_now_bounded i db.assignments)

count-taken :
    (now : ℕ) (a : AgentId) (i : AssignmentId) (rs : List Assignment)
    → count_where (is_orphan a) (update_where (is_open i) (handed_to now a) rs)
      ≡ count_where (is_orphan a) rs + count_where (is_open i) rs
count-taken now a i [] = refl
count-taken now a i (r ∷ rs) = ground (arith, count-taken now a i rs)

-- A claim does not look at what the agent has in hand: where the assignment is open, the agent registered and
-- its token right, the claim goes through and adds the claimed rows to the agent's active assignments, however
-- many those were.
pub claim_adds :
    (req : Request) (a : AgentId) (i : AssignmentId) (db : Db)
    → session_token_ok a req db ≡ true
    → has_agent a db ≡ true
    → any (is_open i) db.assignments ≡ true
    → ((claim req a i db).1 ≡ done)
      × (count_where (is_orphan a) (claim req a i db).0.assignments
          ≡ count_where (is_orphan a) db.assignments + count_where (is_open i) db.assignments)
unfolding claim
claim_adds req a i db token known open_row = (
  rw (token, known, open_row) refl,
  rw (token, known, open_row) (count-taken req.now a i db.assignments),
)
