-- ===== src/Scheduler/Examples.antt =====
-- A tick at three o'clock.
use agent_working_memory.Base.{
  ℕ, ◌≡◌, refl, true, false, none, some, List, [], ◌∷◌, Text, codes, text_eq,
}
use agent_working_memory.Cron.{cron_matches, up_by}
use agent_working_memory.Scheduler.{
  Others, start_mini, is_quiescent, ActiveAgent, Clock, Scheduler, cron, pick_agent, minute_of,
  tick, finish,
}
use agent_working_memory.Scheduler.Ticks.{Starts, tick_lem}

abbrev clock : Clock
clock = record {
  ms = 100000000;
  year = 2026;
  moment = record { minutes = 0; hours = 3; date = 8; month = 2; day = 0 };
}

abbrev agent : ℕ → ℕ → ActiveAgent
agent i writes = record {
  agent_id = i;
  write_count = writes;
  last_activity_at = 99999999;
  last_consolidation_at = none;
}

abbrev agents : List ActiveAgent
agents = agent 1 4 ∷ agent 2 9 ∷ agent 3 9 ∷ []

abbrev idle : Scheduler
idle = record { running = false; last_cron_triggered_minute = none }

abbrev busy : Scheduler
busy = record { running = true; last_cron_triggered_minute = some (minute_of clock) }

abbrev nightly : Text
nightly = codes "0 3 * * *"

-- While the tick waits, a mini consolidation begins.
abbrev others : Others
others = record {
  first_agents = agents;
  second_agents = [];
  third_agents = [];
  until_first = λ s. (start_mini s).0;
  until_second = λ s. s;
  until_third = λ s. s;
}

fires : tick nightly clock others idle ≡ (busy, some (agent 2 9, cron))
unfolding tick pick_agent cron_matches text_eq up_by start_mini
fires = refl

tick_lem_example : Starts nightly clock others idle busy (agent 2 9) cron
tick_lem_example = tick_lem nightly clock others idle fires

-- The same minute once the consolidation has ended, with agents that have just been active.
fires_once :
    tick nightly clock (record others { second_agents = agents }) (finish busy)
    ≡ (finish busy, none)
unfolding tick finish cron_matches text_eq up_by is_quiescent
fires_once = refl
