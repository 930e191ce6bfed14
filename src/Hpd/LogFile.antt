-- ===== src/Hpd/LogFile.antt =====
-- hpbridge/hpdaemon/hpd_log.c: where the messages go in the file of the log, which is written again
-- from its header on when it is full. A position is an offset in the file; `max_log_size` is not
-- negative, and the length of a message is the one that `get_allocated_log_message` gives it.
pub mod Bounds
mod Tests
use home_automation_bridge_z.Prelude.{
  ℕ, ◌+◌, Bool, true, false, Option, none, some, List, [], ◌∷◌, ◌==◌, leb, ltb, if◌then◌else◌,
}
use home_automation_bridge_z.Hpd.Error.{
  Code, success, log_not_init, failed_to_open_file, log_failed, log_events_out_of_bounds,
}

pub record LogFile : Type 0 where
  pub max_log_size : ℕ
  pub send_events : ℕ
  pub initial_pos : ℕ
  pub pos : ℕ
  pub log_level : ℕ

-- `create_hpd_log`; `header` is the position behind the three lines of the header.
pub create_hpd_log : ℕ → ℕ → ℕ → LogFile
create_hpd_log header max_log_size level = record {
  max_log_size = max_log_size;
  send_events = 0;
  initial_pos = header;
  pos = header;
  log_level = level;
}

-- The position for a message of `size` bytes is that of the log after it.
pub set_position_for_new_message : ℕ → LogFile → LogFile
set_position_for_new_message size l =
    if ltb l.max_log_size (l.pos + size) then record l { pos = l.initial_pos } else l

-- A message that was written: its position and its bytes, the end of the line included.
pub record Written : Type 0 where
  pub start : ℕ
  pub bytes : ℕ

-- `Log`; `opens` is whether the file can be opened.
unfoldable pub log : Bool → ℕ → ℕ → Option LogFile → Option LogFile × Code × Option Written
log opens level size none = (none, log_not_init, none)
log opens level size (some l) =
    if l.log_level == 0
    then (some l, success, none)
    else if opens
    then if leb level l.log_level
      then (
        some (record (set_position_for_new_message size l) {
          pos = (set_position_for_new_message size l).pos + (size + 1);
        }),
        success,
        some (record { start = (set_position_for_new_message size l).pos; bytes = size + 1 }),
      )
      else (some l, log_failed, none)
    else (some l, failed_to_open_file, none)

pub change_hpd_log_level : ℕ → Option LogFile → Option LogFile × Code
change_hpd_log_level level none = (none, log_not_init)
change_hpd_log_level level (some l) = (some (record l { log_level = level }), success)

-- A NULL log is used without a test, the fault `none`.
pub set_event_sending : ℕ → Option LogFile → Option (Option LogFile × Code)
set_event_sending events l =
    if leb events 1
    then elim l [
      | none ↦ none
      | some l' ↦ some (some (record l' { send_events = events }), success)
    ]
    else some (l, log_events_out_of_bounds)
