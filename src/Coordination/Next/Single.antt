-- ===== src/Coordination/Next/Single.antt =====
-- The active assignments of an agent under POST /assign.
use agent_working_memory.Base.{
  ℕ, ◌+◌, ◌≤◌, ◌≡◌, refl, inl, inr, Bool, false, not, Option, none, some, List, [], ◌∷◌, ◌++◌, Text,
  arith, if◌then◌else◌, any, count_where, Bool-cases,
}
use agent_working_memory.Coordination.Schema.{AgentId, AssignmentId, Assignment, Db}
use agent_working_memory.Coordination.Stale.{is_orphan}
use agent_working_memory.Coordination.Next.{
  Order, is_busy, keys_hold, new_assignment, assign_tx, Delivery, push, queue_mail, announce,
  assign, assign_for, resolve_worker,
}

-- No agent has more than one assignment in hand.
abbrev pub IsSingle : Db → Type 0
IsSingle db = (a : AgentId) → count_where (is_orphan a) db.assignments ≤ 1

count-snoc :
    (a : AgentId) (new : Assignment) (rs : List Assignment)
    → count_where (is_orphan a) (rs ++ new ∷ [])
      ≡ count_where (is_orphan a) rs + (if is_orphan a new then 1 else 0)
count-snoc a new [] = ground arith
count-snoc a new (r ∷ rs) = ground (arith, count-snoc a new rs)

count_of_any :
    (a : AgentId) (rs : List Assignment)
    → any (is_orphan a) rs ≡ false
    → count_where (is_orphan a) rs ≡ 0
count_of_any a [] e = refl
count_of_any a (r ∷ rs) e = ground (arith, count_of_any a rs)

announce-rows :
    (now mail_id : ℕ) (channel : Delivery) (who : Option AgentId) (message : Text) (db : Db)
    (due : Bool)
    → (announce now mail_id channel who message (db, due)).0.assignments ≡ db.assignments
unfolding announce push queue_mail
announce-rows now mail_id channel who message db due = ground arith

assign_tx-rows :
    (now : ℕ) (id : AssignmentId) (who : Option AgentId) (o : Order) (db : Db)
    → (assign_tx now id who o db).0.assignments ≡ db.assignments ++ new_assignment now id who o ∷ []
unfolding assign_tx
assign_tx-rows now id who o db = ground arith

new-IsSingle :
    (now : ℕ) (id : AssignmentId) (who : Option AgentId) (o : Order) (db : Db) (a : AgentId)
    → is_busy who db ≡ false
    → count_where (is_orphan a) db.assignments ≤ 1
    → count_where (is_orphan a) (db.assignments ++ new_assignment now id who o ∷ []) ≤ 1
new-IsSingle now id none o db a free v =
    ground (arith, count-snoc a (new_assignment now id none o) db.assignments)
new-IsSingle now id (some b) o db a free v = ground (
  arith,
  count-snoc a (new_assignment now id (some b) o) db.assignments,
  count_of_any b db.assignments,
)

announced-IsSingle :
    (now mail_id : ℕ) (channel : Delivery) (who : Option AgentId) (message : Text) (t : Db × Bool)
    (a : AgentId)
    → count_where (is_orphan a) t.0.assignments ≤ 1
    → count_where (is_orphan a) (announce now mail_id channel who message t).0.assignments ≤ 1
announced-IsSingle now mail_id channel who message (db, due) a v =
    rw (announce-rows now mail_id channel who message db due) v

assign_for-IsSingle :
    (now : ℕ) (id : AssignmentId) (mail_id : ℕ) (message : Text) (channel : Delivery) (o : Order)
    (resolved : Option (Option AgentId)) (db : Db)
    → IsSingle db
    → IsSingle (assign_for now id mail_id message channel o resolved db).0
unfolding assign_for
assign_for-IsSingle now id mail_id message channel o none db v a = v a
assign_for-IsSingle now id mail_id message channel o (some who) db v a =
    elim (Bool-cases (is_busy who db)) [
      | inl busy ↦ rw busy (v a)
      | inr free ↦ elim (Bool-cases (not (keys_hold who o.blocked_by db))) [
        | inl broken ↦ rw (free, broken) (v a)
        | inr whole ↦
            rw (free, whole)
              (announced-IsSingle now mail_id channel who message (assign_tx now id who o db) a
                (rw (assign_tx-rows now id who o db) (new-IsSingle now id who o db a free (v a))))
      ]
    ]

-- An order, whoever it is for and whatever becomes of the push, leaves every agent with one active
-- assignment at most, if that is so before it.
pub assign-IsSingle :
    (now : ℕ) (id : AssignmentId) (mail_id : ℕ) (message : Text) (channel : Delivery) (o : Order)
    (db : Db)
    → IsSingle db
    → IsSingle (assign now id mail_id message channel o db).0
unfolding assign
assign-IsSingle now id mail_id message channel o db v a =
    assign_for-IsSingle now id mail_id message channel o (resolve_worker o db) db v a
