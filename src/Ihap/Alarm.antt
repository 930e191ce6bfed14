-- ===== src/Ihap/Alarm.antt =====
-- ihaplite/timemanager.c: one countdown and one signal flag for each task. The two arrays are
-- functions of the task; the tasks that are counted down are those below MAX_TASKS.
pub mod Tick
pub mod Fires
mod Tests
use home_automation_bridge_z.Prelude.{
  ℕ, zero, suc, ◌+◌, ◌-◌, ◌≡◌, Bool, true, false, List, [], ◌∷◌, ◌==◌, leb, if◌then◌else◌, update,
}

pub record Alarms : Type 0 where
  pub countdown : ℕ → ℕ
  pub signal : ℕ → ℕ

-- One round of the loop of `TimeManagerTask`, and whether it signals the task's condition.
unfoldable pub tick_task : ℕ → Alarms → Alarms × Bool
tick_task i a =
    if a.countdown i == 0
    then (a, false)
    else if leb (a.countdown i) 1
    then (record { countdown = update a.countdown i 0; signal = update a.signal i 1 }, true)
    else (record a { countdown = update a.countdown i (a.countdown i - 1) }, false)

-- `for (i = 0; i < MAX_TASKS; i++)`, with the rounds left first; also the tasks signalled, in order.
tick_loop : ℕ → ℕ → Alarms → Alarms × List ℕ
unfolding tick_task
tick_loop zero i a = (a, [])
tick_loop (suc r) i a =
    let (a', fired) = tick_task i a in
    let (a'', woken) = tick_loop r (suc i) a' in (a'', if fired then i ∷ woken else woken)

-- One pass of `TimeManagerTask`, made every TIMEMANAGER_TICK_USEC.
unfoldable pub tick : ℕ → Alarms → Alarms × List ℕ
unfolding tick_loop
tick max_tasks a = tick_loop max_tasks 0 a

unfoldable pub alarm_set : ℕ → ℕ → Alarms → Alarms
alarm_set task time a = record a { countdown = update a.countdown task time }

unfoldable pub alarm_test_and_reset : ℕ → Alarms → Alarms × Bool
alarm_test_and_reset task a =
    if a.signal task == 1 then (record a { signal = update a.signal task 0 }, true) else (a, false)

-- A number of passes.
unfoldable pub ticks : ℕ → ℕ → Alarms → Alarms
ticks max_tasks zero a = a
ticks max_tasks (suc n) a = ticks max_tasks n (tick max_tasks a).0
