-- ===== src/Ihap/Msg/Run.antt =====
-- A message from `broadcast_msg` to its receiver.
use home_automation_bridge_z.Prelude.{
  ℕ, ◌-◌, ◌≤◌, ◌<◌, ◌≡◌, ◌≢◌, refl, ap, ◌∙◌, inl, inr, true, false, arith, ◌==◌, Bool-cases, Bool,
  some,
}
use home_automation_bridge_z.Ihap.Alarm.{alarm_test_and_reset}
use home_automation_bridge_z.Ihap.Msg.{
  Handler, Context, Sender, MsgTable, addressed, queue_add, drain_loop, msg_handler, broadcast_msg,
  msg_test_and_reset,
}
use home_automation_bridge_z.Ihap.Msg.Queue.{AllTaken, filled, queue_add_first}
use home_automation_bridge_z.Ihap.Msg.Slot.{Sent, Routable, Routed}
use home_automation_bridge_z.Ihap.Msg.Deliver.{Drained, drain_loop-Drained}

-- `msg_context` after the broadcast.
abbrev posted : Sender → ℕ → ℕ → Handler → Handler
posted s outport holder h =
    let c = h.msg_context in
    record h {
      msg_context = record c {
        holder = holder;
        sender = record s { input_id = 0; output_id = outport };
        occupied = 1;
      };
    }

module _ (max_tasks : ℕ) (table : MsgTable) (free : ℕ → Bool) where
  -- A wake-up that is not the handler's alarm queues the new message and then tries every slot from
  -- the cursor on.
  abbrev released : Handler → Handler
  released h = let c = h.msg_context in record h { msg_context = record c { occupied = 0 } }

  msg_handler-filled :
      (j : ℕ) (h h' : Handler)
      → h.alarms.signal (max_tasks - 1) ≢ 1
      → queue_add h ≡ (filled j h, 0)
      → drain_loop 5 max_tasks table free (filled j h) ≡ some h'
      → msg_handler max_tasks table free h ≡ some (released h')
  unfolding msg_handler alarm_test_and_reset
  msg_handler-filled j h h' quiet added run =
      let calm : (h.alarms.signal (max_tasks - 1) == 1) ≡ false = ground arith in
      rw (calm, msg_handler) (rw added (rw run))

  wake_up :
      (j : ℕ) (h : Handler)
      → h.alarms.signal (max_tasks - 1) ≢ 1
      → h.next_slot ≤ 4
      → j < 4
      → h.queue j ≡ 0
      → AllTaken h 0 j
      → Routed max_tasks table free (filled j h) h.next_slot
      → (h' : Handler) × (msg_handler max_tasks table free h ≡ some (released h'))
        × Drained max_tasks table free h.next_slot (filled j h) h'
  wake_up j h quiet bound lt empty below routed =
      let (h', run, d) = drain_loop-Drained max_tasks table free (filled j h) bound routed in
      (h', msg_handler-filled j h h' quiet (queue_add_first j h lt empty below) run, d)

  broadcast_msg-free :
      (s : Sender) (outport holder : ℕ) (h : Handler)
      → h.msg_context.occupied ≡ 0
      → broadcast_msg s outport holder h ≡ some (posted s outport holder h)
  unfolding broadcast_msg
  broadcast_msg-free s outport holder h idle = ground arith

  seen : (task : ℕ) (h : Handler) → h.message_signal task ≡ 1 → (msg_test_and_reset task h).1 ≡ true
  unfolding msg_test_and_reset
  seen task h up = ground arith

  -- A task broadcasts a message on an output from 1 to 11 for which the routing table names a task,
  -- while `msg_context` is idle and slot `j` is the first free one. In the wake-up that follows, the
  -- message reaches that task, if the handler's own alarm is not up, the cursor is at the start,
  -- every message that waits can be routed too, the receiver's mutex is free and no later slot holds
  -- a message for a free receiver that is the same task: the receiver sees the message, addressed to
  -- the input of the table, with its signal up, and the slot and `msg_context` are free again.
  pub broadcast_msg_arrives :
      (s : Sender) (outport holder j : ℕ) (h : Handler)
      → Routable max_tasks table free (record s { input_id = 0; output_id = outport })
      → h.msg_context.occupied ≡ 0
      → h.next_slot ≡ 0
      → h.alarms.signal (max_tasks - 1) ≢ 1
      → j < 4
      → h.queue j ≡ 0
      → AllTaken h 0 j
      → Routed max_tasks table free h 0
      → free j ≡ true
      → ((k : ℕ)
          → j < k
          → k < 4
          → ¬ Sent max_tasks table free h k (table s.task_id (outport - 1)).0)
      → (h' : Handler) × (h'' : Handler) × (broadcast_msg s outport holder h ≡ some h')
        × (msg_handler max_tasks table free h' ≡ some h'')
        × ((h''.context_array (table s.task_id (outport - 1)).0).holder ≡ holder)
        × ((h''.context_array (table s.task_id (outport - 1)).0).sender
            ≡ addressed s (table s.task_id (outport - 1)))
        × ((msg_test_and_reset (table s.task_id (outport - 1)).0 h'').1 ≡ true)
        × (h''.queue j ≡ 0)
        × (h''.msg_context.occupied ≡ 0)
  broadcast_msg_arrives s outport holder j h out idle start quiet lt empty below routed open_lock
        alone =
      let h' = posted s outport holder h in
      let task = (table s.task_id (outport - 1)).0 in
      let routed' : Routed max_tasks table free (filled j h') h.next_slot = λ m lo hi taken.
        elim (Bool-cases (m == j)) [
          | inl here ↦ ground (arith, out)
          | inr other ↦ ground (arith, routed m (omega arith) hi (ground arith))
        ] in
      let (g, run, d) = wake_up j h' quiet (omega arith) lt empty below routed' in
      let taken : (filled j h').queue j ≢ 0 = λ e. ground arith in
      let sent : Sent max_tasks table free (filled j h') j task =
        (taken, open_lock, ground arith) in
      let alone' : (k : ℕ) → j < k → k < 4 → ¬ Sent max_tasks table free (filled j h') k task =
        λ k p q s'. alone k p q (ground (arith, s'.0), s'.1, ground (arith, s'.2)) in
      let (a, b, c) = d.last j task (omega arith) lt sent alone' in
      let at : (filled j h').queue_struct j ≡ h'.msg_context = ground arith in
      (
        h',
        released g,
        broadcast_msg-free s outport holder h idle,
        run,
        a ∙ ap (λ (c : Context). c.holder) at,
        b
            ∙ ap
                (λ (c : Context).
                  addressed c.sender (table c.sender.task_id (c.sender.output_id - 1)))
                at,
        seen task (released g) c,
        d.slots j (omega arith) lt ∙ ground arith,
        refl,
      )
