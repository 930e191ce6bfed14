-- ===== src/Ihap/Msg/Tests.antt =====
-- Runs of the message handler.
use home_automation_bridge_z.Prelude.{
  ℕ, ◌+◌, ◌-◌, ◌≡◌, refl, arith, true, ◌==◌, if◌then◌else◌, some, Bool,
}
use home_automation_bridge_z.Ihap.Alarm.{Alarms}
use home_automation_bridge_z.Ihap.Msg.{
  Sender, Context, MsgTable, Handler, addressed, drain_loop, broadcast_msg, msg_handler,
  msg_test_and_reset,
}
use home_automation_bridge_z.Ihap.Msg.Slot.{Routable}
use home_automation_bridge_z.Ihap.Msg.Deliver.{Drained, drain_loop-Drained}
use home_automation_bridge_z.Ihap.Msg.Run.{broadcast_msg_arrives}

-- Every output of a task leads to input 1 of the next task.
abbrev to_next : MsgTable
to_next s o = (s + 1, 1)

abbrev all_free : ℕ → Bool
all_free m = true

abbrev sender : Sender
sender = record { task_id = 2; input_id = 0; output_id = 1 }

abbrev context : Context
context = record { holder = 77; sender = sender; occupied = 0; task_id = 0 }

abbrev silent : Alarms
silent = record { countdown = λ t. 0; signal = λ t. 0 }

-- No message anywhere; and one in slot 0.
abbrev idle : Handler
idle = record {
  queue = λ m. 0;
  queue_struct = λ m. context;
  next_slot = 0;
  msg_context = context;
  context_array = λ t. context;
  message_signal = λ t. 0;
  alarms = silent;
}

abbrev one_message : Handler
one_message = record idle { queue = λ m. if m == 0 then 1 else 0 }

abbrev all_taken : Handler
all_taken = record idle { queue = λ m. 1 }

sender-Routable : Routable 8 to_next all_free sender
sender-Routable = (omega arith, omega arith, omega arith, omega arith)

drain_loop-Drained_example :
    (h' : Handler) × (drain_loop 5 8 to_next all_free one_message ≡ some h')
    × Drained 8 to_next all_free one_message.next_slot one_message h'
drain_loop-Drained_example =
    drain_loop-Drained 8 to_next all_free one_message (omega arith)
      (λ m lo lt taken. sender-Routable)

broadcast_msg_arrives_example :
    (h' : Handler) × (h'' : Handler) × (broadcast_msg sender 1 99 idle ≡ some h')
    × (msg_handler 8 to_next all_free h' ≡ some h'')
    × ((h''.context_array (to_next sender.task_id (1 - 1)).0).holder ≡ 99)
    × ((h''.context_array (to_next sender.task_id (1 - 1)).0).sender
        ≡ addressed sender (to_next sender.task_id (1 - 1)))
    × ((msg_test_and_reset (to_next sender.task_id (1 - 1)).0 h'').1 ≡ true)
    × (h''.queue 0 ≡ 0)
    × (h''.msg_context.occupied ≡ 0)
broadcast_msg_arrives_example =
    broadcast_msg_arrives 8 to_next all_free sender 1 99 0 idle sender-Routable refl refl
      (λ e. omega arith) (omega arith) refl (λ m lo lt e. absurd (omega arith))
      (λ m lo lt taken. absurd (taken refl)) refl (λ k lo lt sent. sent.0 refl)
