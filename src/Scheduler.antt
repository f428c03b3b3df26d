-- ===== src/Scheduler.antt =====
-- The ticks of src/engine/consolidation-scheduler.ts: which agent is consolidated, and when. A tick waits for the
-- store up to three times, and while it waits others may act on the scheduler.
pub mod Ticks
mod Examples
use agent_working_memory.Base.{
  ℕ, ◌-◌, ◌*◌, Bool, true, false, not, ◌&&◌, ◌||◌, Option, none, some, List, [], ◌∷◌, Text, all,
  or_else, head?, sort, if◌then◌else◌, ltb, leb, ◌==◌,
}
use agent_working_memory.Cron.{Moment, cron_matches}

pub record ActiveAgent : Type 0 where
  pub agent_id : ℕ
  pub write_count : ℕ
  pub last_activity_at : ℕ
  pub last_consolidation_at : Option ℕ

-- The clock: the milliseconds, the year, and what a cron match reads.
pub record Clock : Type 0 where
  pub ms : ℕ
  pub year : ℕ
  pub moment : Moment

-- The minute of `minuteKey`, whose text is injective.
pub record Minute : Type 0 where
  pub year : ℕ
  pub month : ℕ
  pub date : ℕ
  pub hours : ℕ
  pub minutes : ℕ

abbrev pub minute_of : Clock → Minute
minute_of c = record {
  year = c.year;
  month = c.moment.month;
  date = c.moment.date;
  hours = c.moment.hours;
  minutes = c.moment.minutes;
}

abbrev pub same_minute : Minute → Minute → Bool
same_minute m n =
    (m.year == n.year)
    && ((m.month == n.month)
        && ((m.date == n.date) && ((m.hours == n.hours) && (m.minutes == n.minutes))))

pub record Scheduler : Type 0 where
  pub running : Bool
  pub last_cron_triggered_minute : Option Minute

pub data Trigger : Type 0 where
  cron : Trigger
  quiescence : Trigger

-- The comparator of `pickAgent` is positive: x is to stand behind y.
abbrev pub stands_behind : ActiveAgent → ActiveAgent → Bool
stands_behind x y =
    ltb x.write_count y.write_count
    || ((x.write_count == y.write_count)
        && ltb (or_else y.last_consolidation_at 0) (or_else x.last_consolidation_at 0))

unfoldable pub pick_agent : List ActiveAgent → Option ActiveAgent
pick_agent agents = head? (sort stands_behind agents)

abbrev pub threshold : ℕ
threshold = 1800000

abbrev pub is_idle : ℕ → ActiveAgent → Bool
is_idle now a = not (ltb (now - a.last_activity_at) threshold)

unfoldable pub is_quiescent : ℕ → List ActiveAgent → Bool
is_quiescent now agents = all (is_idle now) agents

abbrev pub already : Minute → Option Minute → Bool
already m none = false
already m (some n) = same_minute n m

-- What happens while a tick waits: the active agents that the store answers to its first, second and third
-- question, and what others do to the scheduler until then.
pub record Others : Type 0 where
  pub first_agents : List ActiveAgent
  pub second_agents : List ActiveAgent
  pub third_agents : List ActiveAgent
  pub until_first : Scheduler → Scheduler
  pub until_second : Scheduler → Scheduler
  pub until_third : Scheduler → Scheduler

-- The beginning of `runFullConsolidation`.
abbrev pub start_full : Scheduler → Scheduler
start_full s = record s { running = true }

-- The second trigger: one question for the quiescence, one for the agent.
unfoldable pub try_quiescence :
    Clock → Others → Scheduler → Scheduler × Option (ActiveAgent × Trigger)
unfolding is_quiescent
try_quiescence c others s =
    let asked = others.until_second s in
    let answered = others.until_third asked in
    if is_quiescent c.ms others.second_agents
    then elim (pick_agent others.third_agents) [
      | none ↦ (answered, none)
      | some a ↦ (start_full answered, some (a, quiescence))
    ]
    else (asked, none)

unfoldable pub tick : Text → Clock → Others → Scheduler → Scheduler × Option (ActiveAgent × Trigger)
unfolding try_quiescence
tick expr c others s =
    let key = minute_of c in
    let answered = others.until_first (record s { last_cron_triggered_minute = some key }) in
    if s.running
    then (s, none)
    else if cron_matches c.moment expr && not (already key s.last_cron_triggered_minute)
    then elim (pick_agent others.first_agents) [
      | none ↦ try_quiescence c others answered
      | some a ↦ (start_full answered, some (a, cron))
    ]
    else try_quiescence c others s

-- The beginning of `runMiniConsolidation`, and whether it goes on to consolidate.
unfoldable pub start_mini : Scheduler → Scheduler × Bool
start_mini s = if s.running then (s, false) else (record s { running = true }, true)

-- The end of a consolidation of either kind.
unfoldable pub finish : Scheduler → Scheduler
finish s = record s { running = false }
