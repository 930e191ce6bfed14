-- ===== src/Hpd/ServerSentEvents.antt =====
-- hpbridge/hpdaemon/hpd_server_sent_events.c: the list of the event queues of the sessions, the
-- global queue that all events go through first, and the handlers that subscribe a session and send
-- it events. A function runs under the mutex of the list or of a queue where the code takes it, one
-- after the other; what other threads do during a wait is an argument. A queue that is in the list
-- is known by its place in it. What libmicrohttpd returns is an argument, and so is what Mini-XML
-- writes. A fault, `none`, is a NULL or indeterminate pointer that is used.
pub mod Publish
pub mod Notify
pub mod Stream
pub mod Subscribe
mod Tests
use home_automation_bridge_z.Prelude.{
  ℕ, zero, suc, Bool, true, false, Option, none, some, List, [], ◌∷◌, ◌==◌, if◌then◌else◌, Text,
  codes,
}
use home_automation_bridge_z.Hpd.Error.{
  Code, success, hpd_yes, service_is_null, event_is_null, error_queuing_event, log_data_is_null,
  pos, int_eq, value,
}
use home_automation_bridge_z.Hpd.Events.{
  EventQueue, Event, Outcome, create_event, create_event_queue, queue_event, dequeue_event,
  exit_event_queue, set_availability_of_service,
}

-- `event_queue_list_head` and `global_event_queue`, `none` before the latter is made.
pub record Sessions : Type 0 where
  pub queues : List EventQueue
  pub global : Option EventQueue

-- The thread that consumes the global queue is started last.
unfoldable pub initiate_global_event_queue : (session : Text) → Sessions → Sessions × Code
initiate_global_event_queue session s = (
  record s { global = some (record (create_event_queue session) { send_log_events = 1 }) },
  success,
)

-- The test of the result of `queue_event`.
unfoldable pub after_queueing :
    Sessions → Option (Outcome (Option EventQueue)) → Option (Sessions × Code)
unfolding value
after_queueing s none = none
after_queueing s (some r) = some (
  record s { global = r.state },
  if int_eq (value r.code) (pos 0) then success else error_queuing_event,
)

-- `url` is the service's `value_url`, `none` if the service is NULL or has none.
unfoldable pub send_event_of_value_change :
    (url value : Option Text) → Sessions → Option (Sessions × Code)
send_event_of_value_change none value s = some (s, service_is_null)
send_event_of_value_change (some url) value s = elim (create_event (some url) value) [
  | none ↦ some (s, event_is_null)
  | some e ↦ after_queueing s (queue_event s.global (some e) 1)
]

unfoldable pub send_log_event : Option Text → Sessions → Option (Sessions × Code)
send_log_event none s = some (s, log_data_is_null)
send_log_event (some data_text) s = elim (create_event (some (codes "Log")) (some data_text)) [
  | none ↦ some (s, event_is_null)
  | some e ↦ after_queueing s (queue_event s.global (some e) 1)
]

-- The loop that gives an event to the queues of the list. The flag is false if one of them returned
-- an error, after which no other gets it.
unfoldable pub queue_for_all : Event → List EventQueue → Option (List EventQueue × Bool)
unfolding value
queue_for_all e [] = some ([], true)
queue_for_all e (q ∷ qs) = elim (queue_event (some q) (some e) 2) [
  | none ↦ none
  | some r ↦ elim r.state [
    | none ↦ none
    | some q' ↦
        if int_eq (value r.code) (pos 0)
        then elim (queue_for_all e qs) [
          | none ↦ none
          | some (qs', goes_on) ↦ some (q' ∷ qs', goes_on)
        ]
        else some (q' ∷ qs, false)
  ]
]

-- One turn of the loop of `consume_global_event_queue`; the flag is whether there is another one.
-- The global queue is destroyed where it gives no event.
unfoldable pub consume : (EventQueue → EventQueue) → Sessions → Option (Sessions × Bool)
consume others s = elim (dequeue_event others s.global none 1) [
  | none ↦ none
  | some (g, none) ↦ some (record s { global = none }, false)
  | some (g, some e) ↦ elim (queue_for_all e s.queues) [
    | none ↦ none
    | some (qs, goes_on) ↦ some (record { queues = qs; global = g }, goes_on)
  ]
]

-- At most `turns` turns.
unfoldable pub consume_global_event_queue :
    (EventQueue → EventQueue) → (turns : ℕ) → Sessions → Option (Sessions × Bool)
consume_global_event_queue others zero s = some (s, true)
consume_global_event_queue others (suc turns) s = elim (consume others s) [
  | none ↦ none
  | some (s', false) ↦ some (s', false)
  | some (s', true) ↦ consume_global_event_queue others turns s'
]

-- Every queue is unlinked and told to exit, the global one last.
unfoldable pub exit_all : List EventQueue → List EventQueue
exit_all [] = []
exit_all (q ∷ qs) = elim (exit_event_queue (some q)).state [
  | none ↦ exit_all qs
  | some q' ↦ q' ∷ exit_all qs
]

-- The thread of the global queue comes to a wait: `dequeue_event` finds no event.
unfoldable pub begin_wait : Sessions → Sessions
begin_wait s = elim s.global [
  | none ↦ s
  | some g ↦ elim g.events [
    | [] ↦ record s { global = some (record g { is_waiting = 1 }) }
    | e ∷ es ↦ s
  ]
]

-- Whether the thread sees that its queue is told to exit: it waits, and is woken, or it finds an event
-- in the queue, and tests for the exit. A thread that is not yet at its wait waits forever.
unfoldable pub thread_ends : EventQueue → Bool
thread_ends g = elim g.events [ [] ↦ g.is_waiting == 1 | e ∷ es ↦ true ]

-- The second list is the queues that are in no list any more. `pthread_join` waits for the thread,
-- which destroys the global queue when it ends; if it never ends, the call does not return, `none`.
-- It is also a fault if the thread is not there.
unfoldable pub free_server_sent_events_ressources :
    Sessions → Option ((Sessions × List EventQueue) × Code)
free_server_sent_events_ressources s = elim s.global [
  | none ↦ none
  | some g ↦
      if thread_ends g
      then some ((record { queues = []; global = none }, exit_all s.queues), success)
      else none
]

-- The word of an availability.
abbrev pub availability_word : ℕ → Text
availability_word a = if a == 1 then codes "available" else codes "unavailable"

-- One queue, after its availability was set. The result of `queue_event` is not looked at.
unfoldable pub notify_one : (url : Text) → (a : ℕ) → Option EventQueue × Code → Option EventQueue
unfolding value
notify_one url a (none, code) = none
notify_one url a (some q, code) =
    if int_eq (value code) (value hpd_yes)
    then elim (queue_event (some q) (create_event (some url) (some (availability_word a))) 2) [
      | none ↦ none
      | some r ↦ r.state
    ]
    else some q

unfoldable pub notify_queues : (url : Text) → (a : ℕ) → List EventQueue → Option (List EventQueue)
notify_queues url a [] = some []
notify_queues url a (q ∷ qs) =
    elim (notify_one url a (set_availability_of_service (some url) (some q) a)) [
      | none ↦ none
      | some q' ↦ elim (notify_queues url a qs) [ none ↦ none | some qs' ↦ some (q' ∷ qs') ]
    ]

unfoldable pub notify_service_availability :
    (url : Option Text) → (a : ℕ) → Sessions → Option (Sessions × Code)
notify_service_availability none a s = some (s, service_is_null)
notify_service_availability (some url) a s = elim (notify_queues url a s.queues) [
  | none ↦ none
  | some qs ↦ some (record s { queues = qs }, success)
]
