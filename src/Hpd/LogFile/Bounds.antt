-- ===== src/Hpd/LogFile/Bounds.antt =====
-- The bounds of the file of the log.
use home_automation_bridge_z.Prelude.{ℕ, ◌+◌, ◌≤◌, ◌≡◌, Bool, none, some, ◌⊎◌}
use home_automation_bridge_z.Hpd.Error.{success}
use home_automation_bridge_z.Hpd.LogFile.{
  LogFile, Written, set_position_for_new_message, log, change_hpd_log_level,
}

-- The position is behind the header, and not behind the end of the line that ends the file.
pub record InBounds (l : LogFile) : Type 0 where
  pub header : l.initial_pos ≤ l.pos
  pub room : l.pos ≤ l.max_log_size + 1

-- A written message leaves the header alone and ends at most one byte behind the maximum size.
abbrev pub Fits : LogFile → Written → Type 0
Fits l w = (l.initial_pos ≤ w.start) × (w.start + w.bytes ≤ l.max_log_size + 1)

-- The logs that the functions make of `l`: messages of any level, written or not, each at most as
-- long as the room behind the header, and changes of the level.
pub data Reaches (l : LogFile) : LogFile → Type 0 where
  unchanged : Reaches l l
  logged :
      {n : LogFile} (m : LogFile) (opens : Bool) (level size : ℕ)
      → Reaches l m
      → l.initial_pos + size ≤ l.max_log_size
      → (log opens level size (some m)).0 ≡ some n
      → Reaches l n
  changed :
      {n : LogFile} (m : LogFile) (level : ℕ)
      → Reaches l m
      → (change_hpd_log_level level (some m)).0 ≡ some n
      → Reaches l n

-- The sizes stay, and the bounds are kept.
abbrev Keeps : LogFile → LogFile → Type 0
Keeps l n = InBounds n × (n.initial_pos ≡ l.initial_pos) × (n.max_log_size ≡ l.max_log_size)

-- The log and the message behind a write.
abbrev moved : ℕ → LogFile → LogFile
moved size m = record (set_position_for_new_message size m) {
  pos = (set_position_for_new_message size m).pos + (size + 1);
}

abbrev line : ℕ → LogFile → Written
line size m = record { start = (set_position_for_new_message size m).pos; bytes = size + 1 }

-- The two outcomes of `Log`: nothing changes and nothing is written, or a message is.
abbrev Outcomes : Bool → ℕ → ℕ → LogFile → Type 0
Outcomes opens level size m =
    (((log opens level size (some m)).0 ≡ some m) × ((log opens level size (some m)).2 ≡ none))
    ⊎ (log opens level size (some m) ≡ (some (moved size m), success, some (line size m)))
