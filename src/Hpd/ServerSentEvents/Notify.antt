-- ===== src/Hpd/ServerSentEvents/Notify.antt =====
-- The sessions that hear of a service that becomes available or unavailable.
use home_automation_bridge_z.Prelude.{
  ℕ, ◌≡◌, ◌∙◌, refl, ap, true, false, ◌&&◌, some, List, [], ◌∷◌, ◌++◌, arith, ◌==◌, negb,
  if◌then◌else◌, Text, codes, str_eq, Bool-cases, inl, inr, ◌⊎◌, map,
}
use home_automation_bridge_z.Hpd.Error.{success, value, hpd_yes, hpd_no}
use home_automation_bridge_z.Hpd.Events.{
  EventQueue, Event, ServiceId, chars, create_event, subscribed, set_availability,
  set_availability_of_service,
}
use home_automation_bridge_z.Hpd.Events.Fifo.{accepts, entry, queue_event_filters}
use home_automation_bridge_z.Hpd.ServerSentEvents.{
  Sessions, availability_word, notify_one, notify_queues, notify_service_availability,
}

-- The event of a service that is available or not.
abbrev pub availability_event : Text → ℕ → Event
availability_event url a = record { id = chars url; content = chars (availability_word a) }

-- A queue that is subscribed to the service has the availability and the event, any other is as it
-- was.
abbrev pub notified : Text → ℕ → EventQueue → EventQueue
notified url a q =
    if subscribed url q.service_ids
    then record q {
      service_ids = set_availability url a q.service_ids;
      events = q.events ++ entry (availability_event url a) 2 ∷ [];
    }
    else q

subscribed-set_availability :
    (url : Text) (a : ℕ) (ss : List ServiceId)
    → subscribed url (set_availability url a ss) ≡ subscribed url ss
unfolding subscribed set_availability
subscribed-set_availability url a [] = refl
subscribed-set_availability url a (s ∷ ss) =
    let rest = subscribed-set_availability url a ss in
    elim (Bool-cases (str_eq s.id url)) [
      | inl here ↦ rw (here, here) refl
      | inr other ↦ rw (other, other) rest
    ]

notify_queues-notified :
    (url : Text) (a : ℕ) (qs : List EventQueue)
    → (a ≡ 1) ⊎ (a ≡ 2)
    → str_eq url (codes "Log") ≡ false
    → notify_queues url a qs ≡ some (map (notified url a) qs)
unfolding notify_queues notify_one set_availability_of_service create_event value
notify_queues-notified url a [] boolean no_log = refl
notify_queues-notified url a (q ∷ qs) boolean no_log =
    let in_range : negb (a == 1) && negb (a == 2) ≡ false = ground arith in
    let rest = notify_queues-notified url a qs boolean no_log in
    elim (Bool-cases (subscribed url q.service_ids)) [
      | inl is_in ↦
          let q1 : EventQueue = record q { service_ids = set_availability url a q.service_ids } in
          let (r, result, succeeds, state, w) =
            queue_event_filters q1 (availability_event url a) url 2 refl in
          let still = subscribed-set_availability url a q.service_ids in
          let takes : accepts q1 url 2 ≡ true = rw (no_log, still, is_in) refl in
          let q2 : EventQueue = record q1 {
            events = q.events ++ entry (availability_event url a) 2 ∷ [];
          } in
          let state' : r.state ≡ some q2 = state ∙ ap (λ b. some (if b then q2 else q1)) takes in
          let set_it : set_availability_of_service (some url) (some q) a ≡ (some q1, hpd_yes) =
            rw (set_availability_of_service, in_range, is_in) refl in
          rw (notify_queues, set_it, notify_one, result, state', rest, is_in) refl
      | inr absent ↦
          let set_it : set_availability_of_service (some url) (some q) a ≡ (some q, hpd_no) =
            rw (set_availability_of_service, in_range, absent) refl in
          rw (notify_queues, set_it, notify_one, rest, absent) refl
    ]

-- Notifying of the availability (HPD_YES or HPD_NO) of a service whose URL is not "Log" succeeds.
-- Exactly the queues that are subscribed to the service get the availability and, at their end, the
-- event that says it, and no other queue changes.
pub notify_service_availability-notified :
    (url : Text) (a : ℕ) (s : Sessions)
    → (a ≡ 1) ⊎ (a ≡ 2)
    → str_eq url (codes "Log") ≡ false
    → notify_service_availability (some url) a s
      ≡ some (record s { queues = map (notified url a) s.queues }, success)
unfolding notify_service_availability
notify_service_availability-notified url a s boolean no_log =
    let all = notify_queues-notified url a s.queues boolean no_log in
    rw (notify_service_availability, all) refl
