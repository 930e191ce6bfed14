-- ===== src/Hpd/Events/Fifo.antt =====
-- The order of events in a queue, and when a call of `dequeue_event` returns one.
use home_automation_bridge_z.Prelude.{
  ℕ, zero, suc, ◌≡◌, ◌≢◌, refl, ap, ◌∙◌, Bool, true, false, ◌||◌, Option, none, some, List, [], ◌∷◌,
  ◌++◌, arith, ◌==◌, negb, if◌then◌else◌, Text, codes, str_eq, str_eq_refl, Bool-cases, sym,
  append_assoc, append-nil, length, ◌⊎◌, inl, inr,
}
use home_automation_bridge_z.Hpd.Error.{success}
use home_automation_bridge_z.Hpd.Events.{
  EventQueue, Event, CharPtr, chars, Outcome, queue_event, queue_event_id, append_event, copy_event,
  dequeue_event, dequeue_checked, wait_for_event, finish_dequeue, subscribed, exit_event_queue,
}

-- Whether `queue_event` takes the event: a log event if the queue wants log events, any other event
-- if the queue is the global one or is subscribed to the service that the event is about.
abbrev pub accepts : EventQueue → Text → ℕ → Bool
accepts q id global =
    if str_eq id (codes "Log")
    then negb (q.send_log_events == 2)
    else negb (global == 2) || subscribed id q.service_ids

abbrev refused : EventQueue → Outcome EventQueue
refused q = record { state = q; code = success; woken = false }

queue_event_id-accepts :
    (q : EventQueue) (e : Event) (id : Text) (global : ℕ)
    → queue_event_id q e id global
      ≡ (if accepts q id global then append_event q e global else refused q)
unfolding queue_event_id
queue_event_id-accepts q e id global = ground arith

-- What is appended.
abbrev pub entry : Event → ℕ → Event
entry e global = if global == 2 then copy_event e else e

-- An event whose id is a string goes to the end of the queue if it is accepted, as a copy when the
-- argument says that the queue is not the global one; any other leaves the queue as it is and
-- wakes nobody. The result is success either way, and nothing else of the queue changes.
pub queue_event_filters :
    (q : EventQueue) (e : Event) (id : Text) (global : ℕ)
    → e.id ≡ chars id
    → (r : Outcome (Option EventQueue)) × (queue_event (some q) (some e) global ≡ some r)
      × (r.code ≡ success)
      × (r.state
          ≡ some (
              if accepts q id global
              then record q { events = q.events ++ entry e global ∷ [] }
              else q))
      × ((accepts q id global ≡ true) ⊎ (r.woken ≡ false))
unfolding queue_event append_event
queue_event_filters q e id global is_chars =
    let r = queue_event_id q e id global in
    let same = queue_event_id-accepts q e id global in
    (
      record { state = some r.state; code = r.code; woken = r.woken },
      simp (is_chars),
      elim (Bool-cases (accepts q id global)) [
        | inl yes_it ↦ rw (same, yes_it)
        | inr no_it ↦ rw (same, no_it)
      ],
      elim (Bool-cases (accepts q id global)) [
        | inl yes_it ↦ rw (same, yes_it)
        | inr no_it ↦ rw (same, no_it)
      ],
      elim (Bool-cases (accepts q id global)) [
        | inl yes_it ↦ inl yes_it
        | inr no_it ↦ inr (rw (same, no_it))
      ],
    )

-- The queue has the connection that asks, or the connection does not matter.
abbrev pub Owns : EventQueue → Option Text → ℕ → Type 0
Owns q connection global =
    (connection ≡ none)
    ⊎ (global ≢ 2)
    ⊎ ((mine : Text) × (connection ≡ some mine) × (q.connection_id ≡ chars mine))

checked_owned :
    (q : EventQueue) (connection : Option Text) (global : ℕ)
    → Owns q connection global
    → dequeue_checked q connection global ≡ finish_dequeue q
unfolding dequeue_checked
checked_owned q none global own = refl
checked_owned q (some mine) global (inl e) = cc
checked_owned q (some mine) global (inr (inl e)) = ground arith
checked_owned q (some mine) global (inr (inr (t, e, c))) =
    let same : mine ≡ t = ground arith in
    let yes_it : str_eq t mine ≡ true = rw same (str_eq_refl t) in ground arith

wait_for_event-has :
    (others : EventQueue → EventQueue) (q : EventQueue) (e : Event) (es : List Event)
    → q.events ≡ e ∷ es
    → wait_for_event others q ≡ q
unfolding wait_for_event
wait_for_event-has others q e es has = rw has refl

wait_for_event-empty :
    (q : EventQueue) → q.events ≡ [] → wait_for_event (λ r. r) q ≡ record q { is_waiting = 2 }
unfolding wait_for_event
wait_for_event-empty q empty = rw empty refl

finish_dequeue-empty : (q : EventQueue) → q.events ≡ [] → q.exit ≢ 1 → finish_dequeue q ≡ none
finish_dequeue-empty q empty stays = elim (Bool-cases (q.exit == 1)) [
  | inl is_exit ↦ ground arith
  | inr no_exit ↦ rw (no_exit, empty) refl
]

finish_dequeue-has :
    (q : EventQueue) (e : Event) (es : List Event)
    → q.events ≡ e ∷ es
    → q.exit ≢ 1
    → finish_dequeue q ≡ some (record q { events = es }, some e)
finish_dequeue-has q e es has stays = elim (Bool-cases (q.exit == 1)) [
  | inl is_exit ↦ ground arith
  | inr no_exit ↦ rw (no_exit, has) refl
]

-- With an event in the queue `dequeue_event` does not wait: it takes the first event out.
pub dequeue_event_head :
    (others : EventQueue → EventQueue) (q : EventQueue) (connection : Option Text) (global : ℕ)
    (e : Event) (es : List Event)
    → q.events ≡ e ∷ es
    → q.exit ≢ 1
    → Owns q connection global
    → dequeue_event others (some q) connection global
      ≡ some (some (record q { events = es }), some e)
unfolding dequeue_event
dequeue_event_head others q connection global e es has stays own =
    let waits = wait_for_event-has others q e es has in
    let checked = checked_owned q connection global own in
    let finished = finish_dequeue-has q e es has stays in
    rw (dequeue_event, waits, checked, finished) refl

-- Writers put `ps`, ids with contents, into the queue one after the other.
abbrev event_of : Text × CharPtr → Event
event_of (id, content) = record { id = chars id; content = content }

pub state_after : Option (Outcome (Option EventQueue)) → Option EventQueue
state_after none = none
state_after (some r) = r.state

pub queue_all : EventQueue → List (Text × CharPtr) → ℕ → Option EventQueue
queue_all q [] global = some q
queue_all q (p ∷ ps) global = elim (state_after (queue_event (some q) (some (event_of p)) global)) [
  | none ↦ none
  | some q' ↦ queue_all q' ps global
]

-- A reader takes `n` events out of the queue.
pub dequeue_all :
    (EventQueue → EventQueue) → EventQueue → Option Text → ℕ → ℕ → Option (EventQueue × List Event)
dequeue_all others q connection global zero = some (q, [])
dequeue_all others q connection global (suc n) =
    elim (dequeue_event others (some q) connection global) [
      | none ↦ none
      | some (none, e) ↦ none
      | some (some q', none) ↦ none
      | some (some q', some e) ↦ elim (dequeue_all others q' connection global n) [
        | none ↦ none
        | some (q'', es) ↦ some (q'', e ∷ es)
      ]
    ]

-- The entries of the accepted ones, in order.
unfoldable pub entries : (Text → Bool) → ℕ → List (Text × CharPtr) → List Event
entries takes global [] = []
entries takes global ((id, content) ∷ ps) =
    if takes id
    then entry (event_of (id, content)) global ∷ entries takes global ps
    else entries takes global ps

queue_event-takes :
    (q : EventQueue) (id : Text) (content : CharPtr) (global : ℕ)
    → state_after (queue_event (some q) (some (event_of (id, content))) global)
      ≡ some (
          if accepts q id global
          then record q { events = q.events ++ entry (event_of (id, content)) global ∷ [] }
          else q)
unfolding state_after queue_event append_event
queue_event-takes q id content global =
    let same = queue_event_id-accepts q (event_of (id, content)) id global in
    elim (Bool-cases (accepts q id global)) [
      | inl yes_it ↦ rw (same, yes_it) refl
      | inr no_it ↦ rw (same, no_it) refl
    ]

queue_all-entries :
    (q : EventQueue) (ps : List (Text × CharPtr)) (global : ℕ)
    → queue_all q ps global
      ≡ some (record q { events = q.events ++ entries (λ id. accepts q id global) global ps })
unfolding queue_all entries
queue_all-entries q [] global =
    ap (λ es. some (record q { events = es })) (sym (append-nil q.events))
queue_all-entries q ((id, content) ∷ ps) global =
    let step = queue_event-takes q id content global in
    let x = entry (event_of (id, content)) global in
    let rest = queue_all-entries (record q { events = q.events ++ x ∷ [] }) ps global in
    let same = queue_all-entries q ps global in
    elim (Bool-cases (accepts q id global)) [
      | inl yes_it ↦
          rw (queue_all, entries, step, yes_it)
            (rest
              ∙ ap (λ es. some (record q { events = es }))
                  (append_assoc q.events (x ∷ []) (entries (λ id. accepts q id global) global ps)))
      | inr no_it ↦ rw (queue_all, entries, step, no_it) same
    ]

dequeue_all-events :
    (others : EventQueue → EventQueue) (q : EventQueue) (connection : Option Text) (global : ℕ)
    (es : List Event)
    → q.events ≡ es
    → q.exit ≢ 1
    → Owns q connection global
    → dequeue_all others q connection global (length es) ≡ some (record q { events = [] }, es)
unfolding dequeue_all
dequeue_all-events others q connection global [] has stays own =
    ap (λ es. some (record q { events = es }, [])) has
dequeue_all-events others q connection global (e ∷ es) has stays own =
    let first = dequeue_event_head others q connection global e es has stays own in
    let rest =
      dequeue_all-events others (record q { events = es }) connection global es refl stays own in
    rw (dequeue_all, first, rest) refl

-- Whatever events, their ids being strings, are put into an empty queue that is not told to exit,
-- a connection that has the queue (or any reader of the global queue) takes out exactly the
-- accepted ones, in the order in which they were put in, whatever other threads would do during a
-- wait, and leaves the queue as it was before.
pub queue_all-dequeue_all :
    (others : EventQueue → EventQueue) (q : EventQueue) (connection : Option Text) (global : ℕ)
    (ps : List (Text × CharPtr))
    → q.events ≡ []
    → q.exit ≢ 1
    → Owns q connection global
    → (q' : EventQueue) × (queue_all q ps global ≡ some q')
      × (dequeue_all others q' connection global
            (length (entries (λ id. accepts q id global) global ps))
          ≡ some (q, entries (λ id. accepts q id global) global ps))
queue_all-dequeue_all others q connection global ps empty stays own =
    let es = entries (λ id. accepts q id global) global ps in
    let q' : EventQueue = record q { events = q.events ++ es } in
    (
      q',
      queue_all-entries q ps global,
      dequeue_all-events others q' connection global es (rw empty refl) stays own
          ∙ ap (λ xs. some (record q { events = xs }, es)) (sym empty),
    )

-- A queue with events that is told to exit gives none to the connection that has it (or any reader
-- of the global queue), and keeps them.
pub exit_event_queue-dequeue_event :
    (others : EventQueue → EventQueue) (q : EventQueue) (connection : Option Text) (global : ℕ)
    (e : Event) (es : List Event)
    → q.events ≡ e ∷ es
    → Owns q connection global
    → dequeue_event others (exit_event_queue (some q)).state connection global
      ≡ some (some (record q { exit = 1 }), none)
unfolding exit_event_queue dequeue_event
exit_event_queue-dequeue_event others q connection global e es has own =
    let waits = wait_for_event-has others (record q { exit = 1 }) e es has in
    let checked = checked_owned (record q { exit = 1 }) connection global own in
    rw (dequeue_event, waits, checked) refl
