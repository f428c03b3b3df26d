-- ===== src/Scheduler/Ticks.antt =====
-- What a tick of src/engine/consolidation-scheduler.ts starts.
use agent_working_memory.Base.{
  Option, ℕ, ◌+◌, ◌≤◌, ◌<◌, ◌≡◌, ◌≢◌, ◌⊎◌, refl, sym, ap, ◌∙◌, subst, Bool, true, false, not, ◌&&◌,
  none, some, List, [], ◌∷◌, Text, All, All-map, or_else, head?, sort, insert_sorted, Bool-cases,
  Option-cases, inl, inr, arith, and-true,
}
use agent_working_memory.Cron.{cron_matches}
use agent_working_memory.Scheduler.{
  Others, start_full, ActiveAgent, Clock, minute_of, Scheduler, Trigger, cron, quiescence,
  stands_behind, pick_agent, threshold, is_quiescent, already, try_quiescence, tick,
}

-- No agent has written more since its last consolidation, and among those that wrote as much none was
-- consolidated longer ago.
abbrev pub IsBest : ActiveAgent → ActiveAgent → Type 0
IsBest a b =
    (b.write_count < a.write_count)
    ⊎ (b.write_count ≡ a.write_count)
      × (or_else a.last_consolidation_at 0 ≤ or_else b.last_consolidation_at 0)

not_behind : (a b : ActiveAgent) → stands_behind a b ≡ false → IsBest a b
not_behind a b h = ground arith

behind_asym : (x y : ActiveAgent) → stands_behind x y ≡ true → stands_behind y x ≡ false
behind_asym x y h = ground arith

behind_trans :
    (x y z : ActiveAgent)
    → stands_behind x y ≡ false
    → stands_behind y z ≡ false
    → stands_behind x z ≡ false
behind_trans x y z h k = ground arith

behind_irrefl : (x : ActiveAgent) → stands_behind x x ≡ false
behind_irrefl x = ground arith

insert_sorted_some :
    (x : ActiveAgent) (ys : List ActiveAgent) → insert_sorted stands_behind x ys ≢ []
insert_sorted_some x [] e = cc
insert_sorted_some x (y ∷ ys) e = ground arith

sort_empty : (xs : List ActiveAgent) → sort stands_behind xs ≡ [] → xs ≡ []
sort_empty [] e = refl
sort_empty (x ∷ xs) e = absurd (insert_sorted_some x (sort stands_behind xs) e)

insert_sorted-head :
    (x : ActiveAgent) (xs ys : List ActiveAgent) {h : ActiveAgent}
    → (ys ≡ [] → xs ≡ [])
    → ((y : ActiveAgent) → head? ys ≡ some y → All (λ b. stands_behind y b ≡ false) xs)
    → head? (insert_sorted stands_behind x ys) ≡ some h
    → All (λ b. stands_behind h b ≡ false) (x ∷ xs)
insert_sorted-head x xs [] {h} none_left first e =
    let same : x ≡ h = ground arith in
    subst (λ k. All (λ b. stands_behind k b ≡ false) (x ∷ xs)) same
      (behind_irrefl x, rw (none_left refl) tt)
insert_sorted-head x xs (y ∷ ys) {h} none_left first e = elim (Bool-cases (stands_behind x y)) [
  | inl t ↦
      let same : y ≡ h = ground arith in
      subst (λ k. All (λ b. stands_behind k b ≡ false) (x ∷ xs)) same
        (behind_asym x y t, first y refl)
  | inr f ↦
      let same : x ≡ h = ground arith in
      subst (λ k. All (λ b. stands_behind k b ≡ false) (x ∷ xs)) same
        (
          behind_irrefl x,
          All-map (λ b. stands_behind y b ≡ false) (λ b. stands_behind x b ≡ false)
              (λ b k. behind_trans x y b f k) xs (first y refl),
        )
]

sort-head :
    (xs : List ActiveAgent) {h : ActiveAgent}
    → head? (sort stands_behind xs) ≡ some h
    → All (λ b. stands_behind h b ≡ false) xs
sort-head [] e = tt
sort-head (x ∷ xs) {h} e =
    insert_sorted-head x xs (sort stands_behind xs) (sort_empty xs) (λ y k. sort-head xs {h = y} k)
      e

pick_agent-IsBest :
    (agents : List ActiveAgent) {a : ActiveAgent}
    → pick_agent agents ≡ some a
    → All (IsBest a) agents
unfolding pick_agent
pick_agent-IsBest agents {a} e =
    All-map (λ b. stands_behind a b ≡ false) (IsBest a) (λ b h. not_behind a b h) agents
      (sort-head agents e)

quiescent_since :
    (now : ℕ) (agents : List ActiveAgent)
    → is_quiescent now agents ≡ true
    → All (λ b. b.last_activity_at + threshold ≤ now) agents
unfolding is_quiescent
quiescent_since now [] h = tt
quiescent_since now (b ∷ bs) h = (ground arith, quiescent_since now bs (ground arith))

-- Why an agent is consolidated: the cron expression matches in a minute in which it has not yet fired, or
-- every agent that the store named had been idle for thirty minutes.
abbrev pub HasCause : Text → Clock → Others → Scheduler → Trigger → Type 0
HasCause expr c others s cron =
    (cron_matches c.moment expr ≡ true)
    × (already (minute_of c) s.last_cron_triggered_minute ≡ false)
HasCause expr c others s quiescence =
    All (λ b. b.last_activity_at + threshold ≤ c.ms) others.second_agents

-- The agents among which the choice was made.
abbrev pub chosen_from : Others → Trigger → List ActiveAgent
chosen_from others cron = others.first_agents
chosen_from others quiescence = others.third_agents

abbrev pub noted : Clock → Scheduler → Scheduler
noted c s = record s { last_cron_triggered_minute = some (minute_of c) }

abbrev pub is_due : Text → Clock → Scheduler → Bool
is_due expr c s =
    cron_matches c.moment expr && not (already (minute_of c) s.last_cron_triggered_minute)

-- What a tick that starts a consolidation has seen.
abbrev pub Starts : Text → Clock → Others → Scheduler → Scheduler → ActiveAgent → Trigger → Type 0
Starts expr c others s t a w =
    (s.running ≡ false)
    × (t.running ≡ true)
    × All (IsBest a) (chosen_from others w)
    × HasCause expr c others s w

module _ (expr : Text) (c : Clock) (others : Others) (s : Scheduler) where
  try_quiescence-some :
      (u : Scheduler) {t : Scheduler} {a : ActiveAgent} {w : Trigger}
      → try_quiescence c others u ≡ (t, some (a, w))
      → (w ≡ quiescence)
        × (t.running ≡ true)
        × (pick_agent others.third_agents ≡ some a)
        × (is_quiescent c.ms others.second_agents ≡ true)
  unfolding try_quiescence
  try_quiescence-some u e = elim (Option-cases (pick_agent others.third_agents)) [
    | inl n ↦ absurd (ground arith)
    | inr (b, n) ↦ (ground arith, ground arith, ground arith, ground arith)
  ]

  tick-running : s.running ≡ true → tick expr c others s ≡ (s, none)
  unfolding tick
  tick-running r = ground arith

  pub tick-due :
      {b : ActiveAgent}
      → s.running ≡ false
      → is_due expr c s ≡ true
      → pick_agent others.first_agents ≡ some b
      → tick expr c others s ≡ (start_full (others.until_first (noted c s)), some (b, cron))
  unfolding tick
  tick-due r k p = ground arith

  tick_nobody :
      s.running ≡ false
      → is_due expr c s ≡ true
      → pick_agent others.first_agents ≡ none
      → tick expr c others s ≡ try_quiescence c others (others.until_first (noted c s))
  unfolding tick
  tick_nobody r k p = ground arith

  tick_other :
      s.running ≡ false → is_due expr c s ≡ false → tick expr c others s ≡ try_quiescence c others s
  unfolding tick
  tick_other r k = ground arith

  quiet :
      (u : Scheduler) {t : Scheduler} {a : ActiveAgent} {w : Trigger}
      → s.running ≡ false
      → try_quiescence c others u ≡ (t, some (a, w))
      → Starts expr c others s t a w
  quiet u {t} {a} {w} r e =
      let (p, q, k, i) = try_quiescence-some u e in
      subst (λ (x : Trigger). Starts expr c others s t a x) (sym p)
        (r, q, pick_agent-IsBest others.third_agents k, quiescent_since c.ms others.second_agents i)

  due :
      {t : Scheduler} {a b : ActiveAgent} {w : Trigger}
      → s.running ≡ false
      → is_due expr c s ≡ true
      → pick_agent others.first_agents ≡ some b
      → ◌≡◌ {A = Scheduler × Option (ActiveAgent × Trigger)}
          (start_full (others.until_first (noted c s)), some (b, cron))
          (t, some (a, w))
      → Starts expr c others s t a w
  due {t} {a} {b} {w} r k n f =
      let (m, d) =
        and-true (cron_matches c.moment expr)
          (not (already (minute_of c) s.last_cron_triggered_minute)) k in
      let same : a ≡ b = ground arith in
      let caused : w ≡ cron = ground arith in
      subst (λ (x : Trigger). Starts expr c others s t a x) (sym caused)
        (
          r,
          ground arith,
          pick_agent-IsBest others.first_agents (n ∙ ap some (sym same)),
          (m, ground arith),
        )

  -- A tick that starts a consolidation found none running when it began, whatever others have done since, and
  -- marks that one runs; the agent has written most since its last consolidation among those that the store
  -- named when it was last asked, and among those that wrote as much it was consolidated longest ago; and the
  -- cron expression matched in a minute in which it had not fired, or every agent named was idle.
  pub tick_lem :
      {t : Scheduler} {a : ActiveAgent} {w : Trigger}
      → tick expr c others s ≡ (t, some (a, w))
      → Starts expr c others s t a w
  tick_lem {t} {a} {w} e = elim (Bool-cases s.running) [
    | inl r ↦ absurd (ground (arith, tick-running r))
    | inr r ↦ elim (Bool-cases (is_due expr c s)) [
      | inr k ↦ quiet s r (sym (tick_other r k) ∙ e)
      | inl k ↦ elim (Option-cases (pick_agent others.first_agents)) [
        | inl n ↦ quiet (others.until_first (noted c s)) r (sym (tick_nobody r k n) ∙ e)
        | inr (b, n) ↦ due r k n (sym (tick-due r k n) ∙ e)
      ]
    ]
  ]
