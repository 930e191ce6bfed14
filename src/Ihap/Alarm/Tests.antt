-- ===== src/Ihap/Alarm/Tests.antt =====
-- Runs of the countdowns.
use home_automation_bridge_z.Prelude.{ℕ, ◌<◌, ◌≡◌, refl, arith, true, false, ◌==◌, if◌then◌else◌}
use home_automation_bridge_z.Ihap.Alarm.{Alarms, tick, ticks, alarm_set, alarm_test_and_reset}
use home_automation_bridge_z.Ihap.Alarm.Fires.{alarm_fires}

-- No task has an alarm but task 1, which has one for the next pass.
abbrev one_alarm : Alarms
one_alarm = record { countdown = λ t. if t == 1 then 1 else 0; signal = λ t. 0 }

one_alarm_fires : (tick 8 one_alarm).0.signal 1 ≡ 1
unfolding tick
one_alarm_fires = refl

alarm_fires_example :
    ((k : ℕ) → k < 2 → (alarm_test_and_reset 3 (ticks 8 k (alarm_set 3 2 one_alarm))).1 ≡ false)
    × ((alarm_test_and_reset 3 (ticks 8 2 (alarm_set 3 2 one_alarm))).1 ≡ true)
    × ((alarm_test_and_reset 3 (alarm_test_and_reset 3 (ticks 8 2 (alarm_set 3 2 one_alarm))).0).1
        ≡ false)
alarm_fires_example = alarm_fires 8 3 2 one_alarm (omega arith) (omega arith) refl
