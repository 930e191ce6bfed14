-- ===== src/Ihap/Msg.antt =====
-- ihaplite/msghandler.c: the message handler, which takes one message at a time from `msg_context`,
-- keeps it in a queue of four slots, and hands it to the task that the routing table names.
-- A receiver's mutex is tried without blocking; the outcome of each try is an argument.
pub mod Deliver
pub mod Drain
pub mod Queue
pub mod Run
pub mod Slot
mod Tests
use home_automation_bridge_z.Prelude.{
  ℕ, zero, suc, ◌+◌, ◌-◌, ◌≡◌, Bool, true, false, Option, none, some, ◌==◌, ltb, leb, ◌&&◌,
  if◌then◌else◌, update,
}
use home_automation_bridge_z.Ihap.Alarm.{Alarms, alarm_set, alarm_test_and_reset}

-- `sender[SENDERNAMESIZE]`: the bytes TaskID, InputID and OutputID.
pub record Sender : Type 0 where
  pub task_id : ℕ
  pub input_id : ℕ
  pub output_id : ℕ

-- `struct Context`, less its mutex and condition, which no operation changes. `holder` is the
-- pointer to the message.
pub record Context : Type 0 where
  pub holder : ℕ
  pub sender : Sender
  pub occupied : ℕ
  pub task_id : ℕ

-- `msg_table[task][output - 1]`: the receiving task and its input. The array has a row for each of
-- the `max_tasks` tasks, with MAX_OUTPUT entries; outside of these the function is never asked.
abbrev pub MsgTable : Type 0
MsgTable = ℕ → ℕ → ℕ × ℕ

-- The globals. `next_slot` is `currentmsg + 1`, since `currentmsg` is -1 or more.
pub record Handler : Type 0 where
  pub queue : ℕ → ℕ
  pub queue_struct : ℕ → Context
  pub next_slot : ℕ
  pub msg_context : Context
  pub context_array : ℕ → Context
  pub message_signal : ℕ → ℕ
  pub alarms : Alarms

abbrev pub queue_size : ℕ
queue_size = 4

-- `for (counter = 0; counter < QUEUESIZE; counter++)`, with the rounds left first. The result is 0
-- or EOVERFLOW.
pub queue_add_loop : ℕ → ℕ → Handler → Handler × ℕ
queue_add_loop zero counter h = (h, 75)
queue_add_loop (suc r) counter h =
    let rest = queue_add_loop r (suc counter) h in
    if h.queue counter == 0
    then (
      record h {
        queue_struct = update h.queue_struct counter h.msg_context;
        queue = update h.queue counter 1;
      },
      0,
    )
    else rest

pub queue_add : Handler → Handler × ℕ
unfolding queue_add_loop
queue_add h = queue_add_loop queue_size 0 h

-- `while (currentmsg < QUEUESIZE)`, with the rounds left first. Behind the loop `currentmsg` is -1.
pub queue_nextmsg_loop : ℕ → ℕ → Handler → Handler × Bool
queue_nextmsg_loop zero slot h = (record h { next_slot = 0 }, false)
queue_nextmsg_loop (suc r) slot h =
    let rest = queue_nextmsg_loop r (suc slot) h in
    if h.queue slot == 0
    then rest
    else (record h { msg_context = h.queue_struct slot; next_slot = suc slot }, true)

pub queue_nextmsg : Handler → Handler × Bool
unfolding queue_nextmsg_loop
queue_nextmsg h = queue_nextmsg_loop (queue_size - h.next_slot) h.next_slot h

-- `queue[currentmsg] = QUEUE_FREE`, called only when `currentmsg` is a slot.
pub queue_remove : Handler → Handler
queue_remove h = record h { queue = update h.queue (h.next_slot - 1) 0 }

-- MAX_OUTPUT
abbrev pub max_output : ℕ
max_output = 11

-- Whether `msg_table[task][output - 1]` is in the array.
pub in_table : (max_tasks task output : ℕ) → Bool
in_table max_tasks task output = ltb task max_tasks && (ltb 0 output && leb output max_output)

-- The receiver of a message. A subscript outside of the table is the fault `none`, and so is a
-- receiver that is no task, which has no mutex in `Context_array` and no entry in `MessageSignal`.
pub route : (max_tasks : ℕ) → MsgTable → Sender → Option (ℕ × ℕ)
unfolding in_table
route max_tasks table s =
    let to = table s.task_id (s.output_id - 1) in
    if in_table max_tasks s.task_id s.output_id
    then if ltb to.0 max_tasks then some to else none
    else none

abbrev pub addressed : Sender → ℕ × ℕ → Sender
addressed s (task, input) = record { task_id = task; input_id = input; output_id = 0 }

-- `msgSignalAndRelease`
pub msg_signal_and_release : ℕ → Handler → Handler
msg_signal_and_release task h = record h { message_signal = update h.message_signal task 1 }

-- `msgTestAndReset`
pub msg_test_and_reset : ℕ → Handler → Handler × Bool
msg_test_and_reset task h =
    if h.message_signal task == 1
    then (record h { message_signal = update h.message_signal task 0 }, true)
    else (h, false)

-- The message in `msg_context` goes to its receiver, whose mutex is held.
pub hand_over : ℕ → Handler → Handler
unfolding queue_remove msg_signal_and_release
hand_over receiver h =
    let old = h.context_array receiver in
    let got = record old { holder = h.msg_context.holder; sender = h.msg_context.sender } in
    queue_remove (
      msg_signal_and_release h.msg_context.sender.task_id
        (record h { context_array = update h.context_array receiver got }))

-- The body of the loop over `queue_nextmsg`: the address is rewritten, and the receiver's mutex
-- tried; if it is taken, an alarm for the handler's own task is requested and the message stays.
pub deliver : ℕ → MsgTable → Bool → Handler → Option Handler
unfolding route hand_over
deliver max_tasks table free h = elim (route max_tasks table h.msg_context.sender) [
  | none ↦ none
  | some to ↦
      let c = h.msg_context in
      let h' = record h { msg_context = record c { sender = addressed c.sender to } } in
      if free
      then some (hand_over to.0 h')
      else some (record h' { alarms = alarm_set (max_tasks - 1) 2 h.alarms })
]

-- `while (queue_nextmsg())`, on fuel. `free` tells by the slot whether the mutex of its receiver
-- was free when it was tried; no slot is tried twice. `none` is a fault or the end of the fuel.
pub drain_loop : ℕ → ℕ → MsgTable → (ℕ → Bool) → Handler → Option Handler
drain_loop zero max_tasks table free h = none
drain_loop (suc f) max_tasks table free h =
    let next = queue_nextmsg h in
    elim next.1 [
      | false ↦ some next.0
      | true ↦ elim (deliver max_tasks table (free (next.0.next_slot - 1)) next.0) [
        | none ↦ none
        | some h' ↦ drain_loop f max_tasks table free h'
      ]
    ]

-- The body of the loop of `msgHandler`, from the wake-up on: a new message is queued unless the
-- wake-up is the handler's own alarm, and every message in the queue is tried. Five rounds are
-- enough for the four slots.
pub msg_handler : ℕ → MsgTable → (ℕ → Bool) → Handler → Option Handler
msg_handler max_tasks table free h =
    let (alarms', rang) = alarm_test_and_reset (max_tasks - 1) h.alarms in
    let h' = record h { alarms = alarms' } in
    let queued = if rang then h' else (queue_add h').0 in
    elim (drain_loop 5 max_tasks table free queued) [
      | none ↦ none
      | some done ↦
          let c = done.msg_context in some (record done { msg_context = record c { occupied = 0 } })
    ]

-- `broadcast_msg` behind its wait: `none` while `msg_context` is occupied, where the caller yields
-- and tries again.
pub broadcast_msg : Sender → ℕ → ℕ → Handler → Option Handler
broadcast_msg s outport holder h =
    let c = h.msg_context in
    let from = record s { input_id = 0; output_id = outport } in
    if c.occupied == 0
    then some (record h { msg_context = record c { holder = holder; sender = from; occupied = 1 } })
    else none

-- `insert_msg_table_entry`; a write outside of the table is the fault `none`.
pub insert_msg_table_entry :
    (max_tasks sender output receiver input : ℕ) → MsgTable → Option MsgTable
unfolding in_table
insert_msg_table_entry max_tasks sender output receiver input table =
    if in_table max_tasks sender output
    then some (update table sender (update (table sender) (output - 1) (receiver, input)))
    else none
