-- ===== src/Hpd/ServerSentEvents/Stream/Sent.antt =====
-- The events that a connection is sent.
use home_automation_bridge_z.Prelude.{
  ℕ, zero, suc, ◌≡◌, ◌≢◌, refl, ap, true, false, Option, some, List, [], ◌∷◌, Text, codes, inr, map,
  arith, ◌<◌, ltb, length, set, get_elem?, get_elem?-set_self, get_elem?-some_lt,
}
use home_automation_bridge_z.Hpd.Events.{EventQueue, Event, chars}
use home_automation_bridge_z.Hpd.Events.Fifo.{dequeue_event_head}
use home_automation_bridge_z.Hpd.ServerSentEvents.{Sessions, consume_global_event_queue}
use home_automation_bridge_z.Hpd.ServerSentEvents.Publish.{
  Message, send_all, received, IsRunning, send_all-consume_global_event_queue,
}
use home_automation_bridge_z.Hpd.ServerSentEvents.Stream.{
  Mhd, Reply, stream, StreamText, session_cookie, put_queue, get_queue, event_text, print_event,
  print_into, server_sent_events_callback, set_up_server_sent_event_connection,
  get_event_queue_with_connection_id, connect_queue, listens,
}
use home_automation_bridge_z.Hpd.ServerSentEvents.Stream.Lookup.{
  FreshBefore, connection_place-FreshBefore,
}

-- A queue that a connection has gives it its first event: the callback writes the text of the event
-- and takes it out of the queue.
server_sent_events_callback-head :
    (others : EventQueue → EventQueue) (max : ℕ) (id : Text) (s : Sessions) (i : ℕ) (q : EventQueue)
    (e : Event) (es : List Event) (name content : Text)
    → get_elem? s.queues i ≡ some q
    → q.connection_id ≡ chars id
    → FreshBefore id i s.queues
    → q.events ≡ e ∷ es
    → q.exit ≢ 1
    → e ≡ record { id = chars name; content = chars content }
    → length (event_text content name) < max
    → server_sent_events_callback others max (some id) s
      ≡ some (record {
        sessions = put_queue i (record q { events = es }) s;
        buffer = some (event_text content name);
        freed = false;
      })
unfolding server_sent_events_callback get_event_queue_with_connection_id print_event print_into
server_sent_events_callback-head others max id s i q e es name content at has fresh events stays
      is_e fits =
    let printed : print_event max e ≡ some (some (event_text content name)) =
      let fits' : ltb (length (event_text content name)) max ≡ true = ground arith in
      rw is_e (rw fits' refl) in
    let place = connection_place-FreshBefore id i q s.queues at has fresh in
    let taken =
      dequeue_event_head others q (some id) 2 e es events stays (inr (inr (id, refl, has))) in
    rw (server_sent_events_callback, get_event_queue_with_connection_id, place, at, taken, printed)
      refl

get_elem?-map-some :
    {A B : Type 0} (f : A → B) (xs : List A) (i : ℕ) (a : A)
    → get_elem? xs i ≡ some a
    → get_elem? (map f xs) i ≡ some (f a)
get_elem?-map-some f [] i a at = cc
get_elem?-map-some f (x ∷ xs) zero a at = let same : x ≡ a = cc in ap (λ b. some (f b)) same
get_elem?-map-some f (x ∷ xs) (suc i) a at = get_elem?-map-some f xs i a at

-- What other queues' connections are does not change when they receive events, or when a queue
-- further on changes.
FreshBefore-received :
    (id : Text) (i : ℕ) (q : EventQueue) (ms : List Message) (qs : List EventQueue)
    → FreshBefore id i qs
    → FreshBefore id i (map (received ms) (set qs i q))
FreshBefore-received id zero q ms qs fresh = tt
FreshBefore-received id (suc i) q ms [] fresh = tt
FreshBefore-received id (suc i) q ms (p ∷ qs) (here, fresh) =
    (here, FreshBefore-received id i q ms qs fresh)

-- The answer to a client that opens a connection.
abbrev pub stream_reply : Mhd → Text → EventQueue → (is_secure : ℕ) → Reply
stream_reply mhd id q is_secure = record {
  response = some (record {
    status = 200;
    content_type = some (codes "text/html; charset=utf-8");
    cookie = some (session_cookie q is_secure);
    body = stream id;
  });
  result = mhd.queued;
}

-- A client with a session that is subscribed to something opens a connection, and the response can be
-- created: it is answered with status 200 and a stream of events. Then messages are sent to the
-- global queue, which was running and had no events, and its thread makes as many turns. If the queue
-- is not told to exit, each queue before it in the list has a connection, of another id, and the first
-- event of those that were in the session's queue before and of the messages that the queue accepts
-- has an id and a content whose text is shorter than the buffer, the stream's callback writes the text
-- of that event, and the rest is left in the queue.
pub stream_sends_published :
    (mhd : Mhd) (cookie : Option Text) (id : Text) (is_secure : ℕ)
    (others : EventQueue → EventQueue) (s : Sessions) (g q : EventQueue) (i : ℕ) (ms : List Message)
    (e : Event) (es : List Event) (max : ℕ) (name content : Text)
    → mhd.created ≡ true
    → get_queue cookie s ≡ some i
    → get_elem? s.queues i ≡ some q
    → listens q ≡ true
    → q.exit ≢ 1
    → FreshBefore id i s.queues
    → s.global ≡ some g
    → g.events ≡ []
    → IsRunning g
    → (received ms q).events ≡ e ∷ es
    → e ≡ record { id = chars name; content = chars content }
    → length (event_text content name) < max
    → (s1 s2 s3 : Sessions) × (w : StreamText) × (set_up_server_sent_event_connection mhd cookie id
          is_secure s
        ≡ (
          s1,
          stream_reply mhd id (record q { connection_id = chars id }) is_secure,
          (connect_queue id q).1,
        ))
      × (send_all ms s1 ≡ some s2)
      × (consume_global_event_queue others (length ms) s2 ≡ some (s3, true))
      × (server_sent_events_callback others max (some id) s3 ≡ some w)
      × (w.buffer ≡ some (event_text content name))
      × (get_elem? w.sessions.queues i
          ≡ some (record (received ms q) { connection_id = chars id; events = es }))
unfolding set_up_server_sent_event_connection connect_queue
stream_sends_published mhd cookie id is_secure others s g q i ms e es max name content created found
      at wants stays fresh is_global empty running gets is_e fits =
    let q1 : EventQueue = record q { connection_id = chars id } in
    let s1 = put_queue i q1 s in
    let (s2, sent, consumed) =
      send_all-consume_global_event_queue others s1 g ms is_global empty running in
    let s3 : Sessions = record s1 { queues = map (received ms) s1.queues } in
    let less = get_elem?-some_lt s.queues i q at in
    let at1 = get_elem?-set_self s.queues i q1 less in
    let at3 = get_elem?-map-some (received ms) s1.queues i q1 at1 in
    let fresh3 = FreshBefore-received id i q1 ms s.queues fresh in
    let called =
      server_sent_events_callback-head others max id s3 i (received ms q1) e es name content at3
        refl fresh3 gets stays is_e fits in
    let less3 = get_elem?-some_lt s3.queues i (received ms q1) at3 in
    (
      s1,
      s2,
      s3,
      _,
      rw (set_up_server_sent_event_connection, found, at, wants, created) refl,
      sent,
      consumed,
      called,
      refl,
      get_elem?-set_self s3.queues i (record (received ms q1) { events = es }) less3,
    )
