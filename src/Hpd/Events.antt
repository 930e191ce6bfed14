-- ===== src/Hpd/Events.antt =====
-- hpbridge/hpdaemon/hpd_events.c: the event queue of a connection, and the services that it is
-- subscribed to. The functions of one queue run under its mutex, one after the other. What other
-- threads do to a queue while its condition is waited for is an argument.
-- A fault, `none`, is a NULL or indeterminate pointer that is dereferenced.
pub mod Fifo
pub mod Subscription
mod Tests
use home_automation_bridge_z.Prelude.{
  ℕ, Bool, true, false, ◌&&◌, ◌||◌, Option, none, some, List, [], ◌∷◌, ◌++◌, ◌==◌, negb,
  if◌then◌else◌, Text, codes, str_eq,
}
use home_automation_bridge_z.Hpd.Error.{
  Code, success, event_queue_is_null, event_queue_or_event_is_null, event_queue_or_url_is_null,
  event_queue_or_service_id_is_null, service_id_not_in_event_queue, not_hpd_boolean, hpd_yes,
  hpd_no,
}

-- A `char *`: NULL, a string, or a field that nothing was written to.
pub data CharPtr : Type 0 where
  null : CharPtr
  chars : Text → CharPtr
  indeterminate : CharPtr

pub record Event : Type 0 where
  pub id : CharPtr
  pub content : CharPtr

pub record ServiceId : Type 0 where
  pub id : Text
  pub available : ℕ

-- `is_waiting` is HPD_YES (1), HPD_NO (2) or HPD_WAIT_FOR_TIMEOUT (3).
pub record EventQueue : Type 0 where
  pub session_id : Text
  pub connection_id : CharPtr
  pub events : List Event
  pub service_ids : List ServiceId
  pub send_log_events : ℕ
  pub exit : ℕ
  pub is_waiting : ℕ

abbrev pub yes_int : ℕ
yes_int = 1

abbrev pub no_int : ℕ
no_int = 2

pub create_empty_event : Event
create_empty_event = record { id = null; content = null }

unfoldable pub create_event : Option Text → Option Text → Option Event
create_event none content = none
create_event (some id) none = none
create_event (some id) (some content) = some (record { id = chars id; content = chars content })

-- The copy's field is written only if the original's is not NULL.
abbrev copy_chars : CharPtr → CharPtr
copy_chars null = indeterminate
copy_chars (chars t) = chars t
copy_chars indeterminate = indeterminate

unfoldable pub copy_event : Event → Event
copy_event e = record { id = copy_chars e.id; content = copy_chars e.content }

-- The session id is the result of `generate_session_id`.
unfoldable pub create_event_queue : Text → EventQueue
create_event_queue session = record {
  session_id = session;
  connection_id = null;
  events = [];
  service_ids = [];
  send_log_events = no_int;
  exit = no_int;
  is_waiting = no_int;
}

unfoldable pub create_service_id : Option Text → Option ServiceId
create_service_id none = none
create_service_id (some id) = some (record { id = id; available = yes_int })

-- The state after a call, its result, and whether the condition was signalled.
pub record Outcome (S : Type 0) : Type 0 where
  pub state : S
  pub code : Code
  pub woken : Bool

unfoldable pub exit_event_queue : Option EventQueue → Outcome (Option EventQueue)
exit_event_queue none = record { state = none; code = event_queue_is_null; woken = false }
exit_event_queue (some q) = record {
  state = some (record q { exit = yes_int });
  code = success;
  woken = q.is_waiting == yes_int;
}

-- The loop over the subscriptions that looks for a URL.
unfoldable pub subscribed : Text → List ServiceId → Bool
subscribed url [] = false
subscribed url (s ∷ ss) = str_eq s.id url || subscribed url ss

abbrev pub has_connection : EventQueue → Bool
has_connection q = elim q.connection_id [ null ↦ false | chars t ↦ true | indeterminate ↦ true ]

-- The event is appended; on a connection's own queue it is a copy.
pub append_event : EventQueue → Event → ℕ → Outcome EventQueue
append_event q e global = record {
  state = record q { events = q.events ++ (if global == no_int then copy_event e else e) ∷ [] };
  code = success;
  woken =
      (q.is_waiting == yes_int && global == yes_int)
      || (q.is_waiting == yes_int && (global == no_int && has_connection q));
}

-- The tests of `queue_event` for an event whose id is a string.
pub queue_event_id : EventQueue → Event → Text → ℕ → Outcome EventQueue
unfolding append_event
queue_event_id q e id global =
    let is_log = str_eq id (codes "Log") in
    let refused : Outcome EventQueue = record { state = q; code = success; woken = false } in
    if is_log && q.send_log_events == no_int
    then refused
    else if global == no_int && (negb is_log && negb (subscribed id q.service_ids))
    then refused
    else append_event q e global

-- `strcmp(event->id, "Log")` faults if the id is no string.
pub queue_event : Option EventQueue → Option Event → ℕ → Option (Outcome (Option EventQueue))
queue_event none e global =
    some (record { state = none; code = event_queue_or_event_is_null; woken = false })
queue_event (some q) none global =
    some (record { state = some q; code = event_queue_or_event_is_null; woken = false })
queue_event (some q) (some e) global = elim e.id [
  | null ↦ none
  | chars id ↦
      let r = queue_event_id q e id global in
      some (record { state = some r.state; code = r.code; woken = r.woken })
  | indeterminate ↦ none
]

-- The queue after the wait for an event, if there was none: `is_waiting` is set during the wait.
-- `others` is what other threads do to the queue until this one is woken; a condition may also be
-- woken for no reason.
pub wait_for_event : (EventQueue → EventQueue) → EventQueue → EventQueue
wait_for_event others q = elim q.events [
  | [] ↦ record (others (record q { is_waiting = yes_int })) { is_waiting = no_int }
  | e ∷ es ↦ q
]

-- The head is unlinked; `DL_DELETE` on an empty list dereferences NULL.
abbrev pub take_event : EventQueue → Option (EventQueue × Option Event)
take_event q = elim q.events [ [] ↦ none | e ∷ es ↦ some (record q { events = es }, some e) ]

-- Behind the test of the connection.
abbrev pub finish_dequeue : EventQueue → Option (EventQueue × Option Event)
finish_dequeue q = if q.exit == yes_int then some (q, none) else take_event q

-- The test whether another connection has taken the queue; a NULL connection of the queue goes to
-- `strcmp`.
pub dequeue_checked : EventQueue → Option Text → ℕ → Option (EventQueue × Option Event)
dequeue_checked q none global = finish_dequeue q
dequeue_checked q (some mine) global =
    let theirs = q.connection_id in
    if global == no_int
    then elim theirs [
      | null ↦ none
      | chars t ↦ if str_eq t mine then finish_dequeue q else some (q, none)
      | indeterminate ↦ none
    ]
    else finish_dequeue q

-- The event is `none` where the function returns NULL.
pub dequeue_event :
    (EventQueue → EventQueue)
    → Option EventQueue
    → Option Text
    → ℕ
    → Option (Option EventQueue × Option Event)
dequeue_event others none connection global = some (none, none)
dequeue_event others (some q) connection global =
    elim (dequeue_checked (wait_for_event others q) connection global) [
      | none ↦ none
      | some (q', e) ↦ some (some q', e)
    ]

-- The queue after a wait of at most five seconds, and HPD_YES if it timed out.
unfoldable pub wait_for_timeout : (EventQueue → EventQueue) → Bool → EventQueue → EventQueue × Code
wait_for_timeout others timed_out q = (
  record (others (record q { is_waiting = 3 })) { is_waiting = no_int },
  if timed_out then hpd_yes else hpd_no,
)

unfoldable pub is_queue_subscribed_to_service : Option EventQueue → Option Text → Code
unfolding subscribed
is_queue_subscribed_to_service none url = event_queue_or_url_is_null
is_queue_subscribed_to_service (some q) none = event_queue_or_url_is_null
is_queue_subscribed_to_service (some q) (some url) =
    if subscribed url q.service_ids then hpd_yes else hpd_no

unfoldable pub add_service_id_to_queue :
    Option ServiceId → Option EventQueue → Option EventQueue × Code
add_service_id_to_queue s none = (none, event_queue_or_service_id_is_null)
add_service_id_to_queue none (some q) = (some q, event_queue_or_service_id_is_null)
add_service_id_to_queue (some s) (some q) =
    (some (record q { service_ids = q.service_ids ++ s ∷ [] }), success)

-- The first subscription to the URL is unlinked and freed.
unfoldable pub remove_service_id : Text → List ServiceId → List ServiceId
remove_service_id url [] = []
remove_service_id url (s ∷ ss) = if str_eq s.id url then ss else s ∷ remove_service_id url ss

unfoldable pub remove_service_id_from_queue :
    Option Text → Option EventQueue → Option EventQueue × Code
unfolding remove_service_id
remove_service_id_from_queue url none = (none, event_queue_or_url_is_null)
remove_service_id_from_queue none (some q) = (some q, event_queue_or_url_is_null)
remove_service_id_from_queue (some url) (some q) =
    if subscribed url q.service_ids
    then (some (record q { service_ids = remove_service_id url q.service_ids }), success)
    else (some q, service_id_not_in_event_queue)

-- The first subscription to the URL gets the availability.
unfoldable pub set_availability : Text → ℕ → List ServiceId → List ServiceId
set_availability url a [] = []
set_availability url a (s ∷ ss) =
    if str_eq s.id url then record s { available = a } ∷ ss else s ∷ set_availability url a ss

unfoldable pub set_availability_of_service :
    Option Text → Option EventQueue → ℕ → Option EventQueue × Code
unfolding set_availability
set_availability_of_service url none a = (none, event_queue_or_url_is_null)
set_availability_of_service none (some q) a = (some q, event_queue_or_url_is_null)
set_availability_of_service (some url) (some q) a =
    if negb (a == yes_int) && negb (a == no_int)
    then (some q, not_hpd_boolean)
    else if subscribed url q.service_ids
    then (some (record q { service_ids = set_availability url a q.service_ids }), hpd_yes)
    else (some q, hpd_no)
