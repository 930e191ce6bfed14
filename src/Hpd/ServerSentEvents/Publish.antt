-- ===== src/Hpd/ServerSentEvents/Publish.antt =====
-- The way of an event: into the global queue, and from there to the queues of the sessions.
use home_automation_bridge_z.Prelude.{
  ◌≡◌, ◌≢◌, ◌∙◌, refl, ap, ap₂, sym, true, Option, none, some, List, [], ◌∷◌, ◌++◌, arith,
  if◌then◌else◌, Text, codes, Bool-cases, inl, inr, map, length, append_assoc, append-nil,
}
use home_automation_bridge_z.Hpd.Error.{Code, success, value}
use home_automation_bridge_z.Hpd.Events.{
  EventQueue, Event, CharPtr, chars, queue_event, create_event,
}
use home_automation_bridge_z.Hpd.Events.Fifo.{
  accepts, entry, entries, queue_event_filters, dequeue_event_head,
}
use home_automation_bridge_z.Hpd.ServerSentEvents.{
  Sessions, send_event_of_value_change, send_log_event, after_queueing, queue_for_all, consume,
  consume_global_event_queue,
}

-- What the daemon sends: a service's new value, or a line of the log.
pub data Message : Type 0 where
  value_change : (url value : Text) → Message
  log_line : (data_text : Text) → Message

unfoldable pub send : Message → Sessions → Option (Sessions × Code)
send (value_change url value) s = send_event_of_value_change (some url) (some value) s
send (log_line data_text) s = send_log_event (some data_text) s

-- The messages one after the other, as long as they are sent with success.
unfoldable pub send_all : List Message → Sessions → Option Sessions
send_all [] s = some s
send_all (m ∷ ms) s = elim (send m s) [
  | none ↦ none
  | some (s', code) ↦ elim code [ success ↦ send_all ms s' | c ↦ none ]
]

abbrev pub id_and_content : Message → Text × CharPtr
id_and_content (value_change url value) = (url, chars value)
id_and_content (log_line data_text) = (codes "Log", chars data_text)

abbrev pub event : Message → Event
event m = record { id = chars (id_and_content m).0; content = (id_and_content m).1 }

-- A session's queue after messages were published: those that it accepts are at its end, in order.
abbrev pub received : List Message → EventQueue → EventQueue
received ms q = record q {
  events = q.events ++ entries (λ id. accepts q id 2) 2 (map id_and_content ms);
}

-- The global queue is running: it takes log events and is not told to exit.
abbrev pub IsRunning : EventQueue → Type 0
IsRunning g = (g.send_log_events ≢ 2) × (g.exit ≢ 1)

abbrev with_global : Sessions → EventQueue → Sessions
with_global s g = record s { global = some g }

after_queueing-running :
    (g : EventQueue) (e : Event) (id : Text) (s : Sessions)
    → IsRunning g
    → e.id ≡ chars id
    → after_queueing s (queue_event (some g) (some e) 1)
      ≡ some (with_global s (record g { events = g.events ++ e ∷ [] }), success)
unfolding after_queueing value
after_queueing-running g e id s running is_chars =
    let (r, result, succeeds, state, w) = queue_event_filters g e id 1 is_chars in
    let takes : accepts g id 1 ≡ true = ground arith in
    rw (after_queueing, result, succeeds, state, takes) refl

pub send-running :
    (m : Message) (s : Sessions) (g : EventQueue)
    → s.global ≡ some g
    → IsRunning g
    → send m s ≡ some (with_global s (record g { events = g.events ++ event m ∷ [] }), success)
unfolding send send_event_of_value_change send_log_event create_event after_queueing
send-running (value_change url v) s g is_global running =
    rw is_global (after_queueing-running g (event (value_change url v)) url s running refl)
send-running (log_line data_text) s g is_global running =
    rw is_global
      (after_queueing-running g (event (log_line data_text)) (codes "Log") s running refl)

send_all-running :
    (ms : List Message) (s : Sessions) (g : EventQueue)
    → s.global ≡ some g
    → IsRunning g
    → send_all ms s ≡ some (with_global s (record g { events = g.events ++ map event ms }))
unfolding send_all
send_all-running [] s g is_global running = ap some (
    ap (λ o. record s { global = o }) is_global
    ∙ ap (λ es. with_global s (record g { events = es })) (sym (append-nil g.events)))
send_all-running (m ∷ ms) s g is_global running =
    let sent = send-running m s g is_global running in
    let g' : EventQueue = record g { events = g.events ++ event m ∷ [] } in
    let rest = send_all-running ms (with_global s g') g' refl running in
    rw (send_all, sent)
      (rest
        ∙ ap (λ es. some (with_global s (record g { events = es })))
            (append_assoc g.events (event m ∷ []) (map event ms)))

received-one :
    (m : Message) (q : EventQueue)
    → (if accepts q (id_and_content m).0 2
        then record q { events = q.events ++ entry (event m) 2 ∷ [] }
        else q)
      ≡ received (m ∷ []) q
unfolding entries
received-one m q = elim (Bool-cases (accepts q (id_and_content m).0 2)) [
  | inl takes ↦ rw takes refl
  | inr refuses ↦ rw refuses (ap (λ es. record q { events = es }) (sym (append-nil q.events)))
]

received-cons :
    (m : Message) (ms : List Message) (q : EventQueue)
    → received ms (received (m ∷ []) q) ≡ received (m ∷ ms) q
unfolding entries
received-cons m ms q =
    let later = entries (λ id. accepts q id 2) 2 (map id_and_content ms) in
    elim (Bool-cases (accepts q (id_and_content m).0 2)) [
      | inl takes ↦ rw takes (
          ap (λ es. record q { events = es })
            (append_assoc q.events (entry (event m) 2 ∷ []) later))
      | inr refuses ↦
          rw refuses (ap (λ es. record q { events = es ++ later }) (append-nil q.events))
    ]

map-received_nothing : (qs : List EventQueue) → map (received []) qs ≡ qs
unfolding entries
map-received_nothing [] = refl
map-received_nothing (q ∷ qs) =
    ap₂ (◌∷◌) (ap (λ es. record q { events = es }) (append-nil q.events)) (map-received_nothing qs)

queue_for_all-received :
    (m : Message) (qs : List EventQueue)
    → queue_for_all (event m) qs ≡ some (map (received (m ∷ [])) qs, true)
unfolding queue_for_all value
queue_for_all-received m [] = refl
queue_for_all-received m (q ∷ qs) =
    let id = (id_and_content m).0 in
    let (r, result, succeeds, state, w) = queue_event_filters q (event m) id 2 refl in
    let rest = queue_for_all-received m qs in
    let state' : r.state ≡ some (received (m ∷ []) q) = state ∙ ap some (received-one m q) in
    rw (queue_for_all, result, state', succeeds, rest) refl

-- One turn of the thread.
consume-received :
    (others : EventQueue → EventQueue) (g : EventQueue) (m : Message) (es : List Event)
    (qs : List EventQueue)
    → IsRunning g
    → consume others (record { queues = qs; global = some (record g { events = event m ∷ es }) })
      ≡ some (
        record { queues = map (received (m ∷ [])) qs; global = some (record g { events = es }) },
        true,
      )
unfolding consume
consume-received others g m es qs running =
    let g' : EventQueue = record g { events = event m ∷ es } in
    let taken = dequeue_event_head others g' none 1 (event m) es refl running.1 (inl refl) in
    let delivered = queue_for_all-received m qs in rw (consume, taken, delivered) refl

map-received :
    (m : Message) (ms : List Message) (qs : List EventQueue)
    → map (received ms) (map (received (m ∷ [])) qs) ≡ map (received (m ∷ ms)) qs
map-received m ms [] = refl
map-received m ms (q ∷ qs) = ap₂ (◌∷◌) (received-cons m ms q) (map-received m ms qs)

pub consume-all :
    (others : EventQueue → EventQueue) (g : EventQueue) (ms : List Message) (qs : List EventQueue)
    → IsRunning g
    → consume_global_event_queue others
        (length ms)
        (record { queues = qs; global = some (record g { events = map event ms }) })
      ≡ some
          (record { queues = map (received ms) qs; global = some (record g { events = [] }) }, true)
unfolding consume_global_event_queue
consume-all others g [] qs running =
    ap (λ l. some (record { queues = l; global = some (record g { events = [] }) }, true))
      (sym (map-received_nothing qs))
consume-all others g (m ∷ ms) qs running =
    let turn = consume-received others g m (map event ms) qs running in
    let rest = consume-all others g ms (map (received (m ∷ [])) qs) running in
    rw (consume_global_event_queue, turn)
      (rest
        ∙ ap (λ l. some (record { queues = l; global = some (record g { events = [] }) }, true))
            (map-received m ms qs))

-- The global queue and its thread implement a broadcast: messages that are sent to a running global
-- queue with no events, as many turns of the thread as there are messages, and each session's queue
-- has at its end exactly those messages that it accepts, in the order in which they were sent, and
-- is otherwise what it was. No send or turn faults or fails, the thread goes on, and the global queue
-- is as it was, whatever other threads would do to it during a wait.
pub send_all-consume_global_event_queue :
    (others : EventQueue → EventQueue) (s : Sessions) (g : EventQueue) (ms : List Message)
    → s.global ≡ some g
    → g.events ≡ []
    → IsRunning g
    → (s' : Sessions) × (send_all ms s ≡ some s')
      × (consume_global_event_queue others (length ms) s'
          ≡ some (record s { queues = map (received ms) s.queues }, true))
send_all-consume_global_event_queue others s g ms is_global empty running =
    let all = consume-all others g ms s.queues running in
    (
      with_global s (record g { events = map event ms }),
      send_all-running ms s g is_global running
          ∙ ap (λ es. some (with_global s (record g { events = es ++ map event ms }))) empty,
      all
          ∙ ap (λ o. some (record { queues = map (received ms) s.queues; global = o }, true))
              (ap (λ es. some (record g { events = es })) (sym empty) ∙ sym is_global),
    )
