-- ===== src/Hpd/Events/Tests.antt =====
-- Runs of the event queues.
use home_automation_bridge_z.Prelude.{◌≡◌, inr, refl, arith, some, [], ◌∷◌, length, Text, codes}
use home_automation_bridge_z.Hpd.Events.{EventQueue, Event, chars}
use home_automation_bridge_z.Hpd.Events.Fifo.{
  accepts, entries, Owns, queue_all, dequeue_all, queue_all-dequeue_all,
}

abbrev lamp : Text
lamp = codes "/lamp"

abbrev door : Text
door = codes "/door"

abbrev mine : Text
mine = codes "c1"

abbrev on : Event
on = record { id = chars lamp; content = chars (codes "1") }

-- A queue that has a connection and is subscribed to the lamp, empty and with one event.
abbrev queue : EventQueue
queue = record {
  session_id = codes "s1";
  connection_id = chars mine;
  events = [];
  service_ids = record { id = lamp; available = 1 } ∷ [];
  send_log_events = 2;
  exit = 2;
  is_waiting = 2;
}

abbrev with_event : EventQueue
with_event = record queue { events = on ∷ [] }

queue-Owns : Owns queue (some mine) 2
queue-Owns = inr (inr (mine, refl, refl))

queue_all-dequeue_all_example :
    (q' : EventQueue) × (queue_all queue
        ((lamp, chars (codes "1")) ∷ (door, chars (codes "0")) ∷ (lamp, chars (codes "0")) ∷ [])
        2
      ≡ some q')
    × (dequeue_all
          (λ r. r)
          q'
          (some mine)
          2
          (length (
            entries
              (λ id. accepts queue id 2)
              2
              ((lamp, chars (codes "1"))
                ∷ (door, chars (codes "0"))
                ∷ (lamp, chars (codes "0"))
                ∷ [])))
        ≡ some (
          queue,
          entries
              (λ id. accepts queue id 2)
              2
              ((lamp, chars (codes "1"))
                ∷ (door, chars (codes "0"))
                ∷ (lamp, chars (codes "0"))
                ∷ []),
        ))
queue_all-dequeue_all_example =
    queue_all-dequeue_all (λ r. r) queue (some mine) 2
      ((lamp, chars (codes "1")) ∷ (door, chars (codes "0")) ∷ (lamp, chars (codes "0")) ∷ []) refl
      (λ e. omega arith) queue-Owns
