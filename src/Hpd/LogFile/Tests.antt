-- ===== src/Hpd/LogFile/Tests.antt =====
-- Runs of the log.
use home_automation_bridge_z.Prelude.{◌≡◌, refl, true, some}
use home_automation_bridge_z.Hpd.Error.{log_failed}
use home_automation_bridge_z.Hpd.LogFile.{LogFile, log, set_position_for_new_message}

-- A new log of 100 bytes with a header of 60, and the log after a message of 20 bytes.
abbrev after : LogFile
after = record { max_log_size = 100; send_events = 0; initial_pos = 60; pos = 81; log_level = 1 }

-- A second one goes back behind the header.
second_message : (log true 1 20 (some after)).2 ≡ some (record { start = 60; bytes = 21 })
unfolding log set_position_for_new_message
second_message = refl

too_detailed : (log true 2 20 (some after)).1 ≡ log_failed
unfolding log
too_detailed = refl
