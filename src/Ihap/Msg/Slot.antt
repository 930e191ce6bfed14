-- ===== src/Ihap/Msg/Slot.antt =====
-- What one wake-up of the handler does with the message in one slot.
use home_automation_bridge_z.Prelude.{
  ℕ, suc, ◌-◌, ◌≤◌, ◌<◌, ◌≡◌, ◌≢◌, refl, ◌⊎◌, inl, inr, true, false, arith, ◌==◌, Bool-cases,
  if◌then◌else◌, Bool, some,
}
use home_automation_bridge_z.Ihap.Alarm.{alarm_set}
use home_automation_bridge_z.Ihap.Msg.{
  Sender, Handler, MsgTable, max_output, in_table, route, addressed, deliver, hand_over,
}
use home_automation_bridge_z.Ihap.Msg.Drain.{loaded, visit_from, visit_from-skip, visit_from-got}

module _ (max_tasks : ℕ) (table : MsgTable) (free : ℕ → Bool) where
  -- The receiving task and input of the message in slot `m`.
  abbrev pub target : Handler → ℕ → ℕ × ℕ
  target h m = let s = (h.queue_struct m).sender in table s.task_id (s.output_id - 1)

  -- Slot `m` holds a message for task `r` whose mutex is free.
  abbrev pub Sent : Handler → ℕ → ℕ → Type 0
  Sent h m r = (h.queue m ≢ 0) × (free m ≡ true) × ((target h m).0 ≡ r)

  -- A sender is a task, on an output from 1 to 11, for which the table names a task.
  abbrev pub Routable : Sender → Type 0
  Routable s =
      (s.task_id < max_tasks)
      × (0 < s.output_id)
      × (s.output_id ≤ max_output)
      × ((table s.task_id (s.output_id - 1)).0 < max_tasks)

  -- Every message that waits in a slot from `lo` on can be routed.
  abbrev pub Routed : Handler → ℕ → Type 0
  Routed h lo = (m : ℕ) → lo ≤ m → m < 4 → h.queue m ≢ 0 → Routable (h.queue_struct m).sender

  -- A task has got the message of slot `m`.
  abbrev pub Got : Handler → Handler → ℕ → ℕ → Type 0
  Got h h' m r =
      ((h'.context_array r).holder ≡ (h.queue_struct m).holder)
      × ((h'.context_array r).sender ≡ addressed (h.queue_struct m).sender (target h m))
      × (h'.message_signal r ≡ 1)

  abbrev pub Same : Handler → Handler → ℕ → Type 0
  Same h h' r =
      (h'.context_array r ≡ h.context_array r) × (h'.message_signal r ≡ h.message_signal r)

  abbrev pub left : Handler → ℕ → ℕ
  left h m = if h.queue m == 0 then 0 else if free m then 0 else h.queue m

  -- One slot, `i`.
  pub record Visited (i : ℕ) (h h' : Handler) : Type 0 where
    pub structs : h'.queue_struct ≡ h.queue_struct
    pub here : h'.queue i ≡ left h i
    pub others : (m : ℕ) → m ≢ i → h'.queue m ≡ h.queue m
    pub sent : (r : ℕ) → Sent h i r → Got h h' i r
    pub unsent : (r : ℕ) → ¬ Sent h i r → Same h h' r
    pub quiet : ((h.queue i ≢ 0) → free i ≡ true) → h'.alarms ≡ h.alarms
    pub asked : (h'.alarms ≡ h.alarms) ⊎ (h'.alarms.countdown (max_tasks - 1) ≡ 2)
    pub blocked : h.queue i ≢ 0 → free i ≡ false → h'.alarms.countdown (max_tasks - 1) ≡ 2

  Visited-skip : (i : ℕ) (h : Handler) → h.queue i ≡ 0 → Visited i h h
  Visited-skip i h empty = record {
    structs = refl;
    here = ground arith;
    others = λ m ne. refl;
    sent = λ r s. absurd (s.0 empty);
    unsent = λ r n. (refl, refl);
    quiet = λ q. refl;
    asked = inl refl;
    blocked = λ taken f. absurd (taken empty);
  }

  delivered : ℕ → Handler → Handler
  unfolding hand_over
  delivered i h = hand_over (target h i).0 (record (loaded i h) {
    msg_context = record (h.queue_struct i) {
      sender = addressed (h.queue_struct i).sender (target h i);
    };
  })

  Visited-delivered :
      (i : ℕ) (h : Handler) → h.queue i ≢ 0 → free i ≡ true → Visited i h (delivered i h)
  unfolding delivered
  Visited-delivered i h taken open_lock =
      let at : suc i - 1 ≡ i = omega arith in
      record {
        structs = refl;
        here = ground arith;
        others = λ m ne. ground arith;
        sent = λ r s. ground arith;
        unsent = λ r n. let ne : (target h i).0 ≢ r = λ e. n (taken, open_lock, e) in ground arith;
        quiet = λ q. refl;
        asked = inl refl;
        blocked = λ t f. cc;
      }

  kept : ℕ → Handler → Handler
  kept i h = record (loaded i h) {
    msg_context = record (h.queue_struct i) {
      sender = addressed (h.queue_struct i).sender (target h i);
    };
    alarms = alarm_set (max_tasks - 1) 2 h.alarms;
  }

  Visited-kept : (i : ℕ) (h : Handler) → h.queue i ≢ 0 → free i ≡ false → Visited i h (kept i h)
  unfolding kept alarm_set
  Visited-kept i h taken shut = record {
    structs = refl;
    here = ground arith;
    others = λ m ne. refl;
    sent = λ r s. cc (s.1);
    unsent = λ r n. (refl, refl);
    quiet = λ q. cc (q taken);
    asked = inr (ground arith);
    blocked = λ t f. ground arith;
  }

  deliver-free :
      (i : ℕ) (h : Handler)
      → Routable (h.queue_struct i).sender
      → free i ≡ true
      → deliver max_tasks table (free i) (loaded i h) ≡ some (delivered i h)
  unfolding deliver delivered route in_table
  deliver-free i h out open_lock = ground arith

  deliver-shut :
      (i : ℕ) (h : Handler)
      → Routable (h.queue_struct i).sender
      → free i ≡ false
      → deliver max_tasks table (free i) (loaded i h) ≡ some (kept i h)
  unfolding deliver kept route in_table
  deliver-shut i h out shut = ground arith

  -- A slot is always dealt with, and the loop goes on from the handler that results.
  pub visit_slot :
      (r i : ℕ) (h : Handler)
      → i < 4
      → Routed h i
      → (h' : Handler) × (visit_from max_tasks table free (suc r) i h
          ≡ visit_from max_tasks table free r (suc i) h')
        × Visited i h h'
  visit_slot r i h lt routed = elim (Bool-cases (h.queue i == 0)) [
    | inl empty ↦
        (h, visit_from-skip max_tasks table free r i h empty, Visited-skip i h (ground arith))
    | inr full ↦
        let taken : h.queue i ≢ 0 = λ e. ground arith in
        let out = routed i (omega arith) lt taken in
        elim (Bool-cases (free i)) [
          | inl open_lock ↦ (
            delivered i h,
            visit_from-got max_tasks table free r i h (delivered i h) full
                (deliver-free i h out open_lock),
            Visited-delivered i h taken open_lock,
          )
          | inr shut ↦ (
            kept i h,
            visit_from-got max_tasks table free r i h (kept i h) full (deliver-shut i h out shut),
            Visited-kept i h taken shut,
          )
        ]
  ]
