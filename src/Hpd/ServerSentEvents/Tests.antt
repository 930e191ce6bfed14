-- ===== src/Hpd/ServerSentEvents/Tests.antt =====
-- Runs of the server sent events.
use home_automation_bridge_z.Prelude.{
  ◌≡◌, ◌≢◌, refl, arith, true, false, Option, none, some, List, [], ◌∷◌, ◌++◌, Text, codes, str_eq,
  str_eq_iff, length, inr, map, get_elem?,
}
use home_automation_bridge_z.Hpd.Error.{success}
use home_automation_bridge_z.Hpd.Events.{
  EventQueue, Event, ServiceId, CharPtr, chars, null, subscribed, copy_event,
}
use home_automation_bridge_z.Hpd.Events.Fifo.{entries}
use home_automation_bridge_z.Hpd.ServerSentEvents.{
  Sessions, consume_global_event_queue, notify_service_availability,
}
use home_automation_bridge_z.Hpd.ServerSentEvents.Notify.{
  notified, notify_service_availability-notified,
}
use home_automation_bridge_z.Hpd.ServerSentEvents.Publish.{
  Message, value_change, log_line, send_all, received, IsRunning,
  send_all-consume_global_event_queue,
}
use home_automation_bridge_z.Hpd.ServerSentEvents.Stream.{
  Mhd, Reply, StreamText, get_queue, session_place, get_event_queue_with_connection_id,
  connection_place, check_place, connect_queue, set_up_server_sent_event_connection,
  server_sent_events_callback, event_text,
}
use home_automation_bridge_z.Hpd.ServerSentEvents.Stream.Sent.{stream_reply, stream_sends_published}
use home_automation_bridge_z.Hpd.ServerSentEvents.Subscribe.{subscribe_to_service}
use home_automation_bridge_z.Hpd.ServerSentEvents.Subscribe.Toggle.{
  xml_reply, subscribe_to_service-subscribe_to_service, subscribe_to_service_new,
  new_session_breaks_streams,
}

abbrev lamp : Text
lamp = codes "/lamp"

abbrev door : Text
door = codes "/door"

-- A queue of a session.
abbrev session_queue : (session : Text) → CharPtr → List ServiceId → EventQueue
session_queue session connection ss = record {
  session_id = session;
  connection_id = connection;
  events = [];
  service_ids = ss;
  send_log_events = 2;
  exit = 2;
  is_waiting = 2;
}

abbrev global_queue : EventQueue
global_queue = record (session_queue (codes "g") null []) { send_log_events = 1 }

abbrev first_queue : EventQueue
first_queue = session_queue (codes "s1") (chars (codes "c1")) []

abbrev second_queue : EventQueue
second_queue =
    session_queue (codes "s2") (chars (codes "c2")) (record { id = lamp; available = 1 } ∷ [])

abbrev two_sessions : Sessions
two_sessions = record { queues = first_queue ∷ second_queue ∷ []; global = some global_queue }

abbrev sent_messages : List Message
sent_messages =
    value_change door (codes "0") ∷ value_change lamp (codes "1") ∷ log_line (codes "x") ∷ []

abbrev others : EventQueue → EventQueue
others q = q

abbrev mhd_yes : Mhd
mhd_yes = record { created = true; queued = 1 }

abbrev xml_of : Text → Text → Option Text
xml_of answer url = some (answer ++ url)

-- The lamp's event as it is sent.
abbrev lamp_event : Event
lamp_event = record { id = chars lamp; content = chars (codes "1") }

global_queue-IsRunning : IsRunning global_queue
global_queue-IsRunning = (omega arith, omega arith)

second_gets : (received sent_messages second_queue).events ≡ lamp_event ∷ []
unfolding entries subscribed str_eq copy_event
second_gets = refl

is_second : get_queue (some (codes "s2")) two_sessions ≡ some 1
unfolding get_queue session_place str_eq
is_second = refl

is_first : get_queue (some (codes "s1")) two_sessions ≡ some 0
unfolding get_queue session_place str_eq
is_first = refl

not_subscribed : subscribed lamp first_queue.service_ids ≡ false
unfolding subscribed
not_subscribed = refl

is_no_log : str_eq lamp (codes "Log") ≡ false
unfolding str_eq
is_no_log = refl

no_such_session : session_place (codes "s3") two_sessions.queues ≡ none
unfolding session_place str_eq
no_such_session = refl

no_such_connection : get_event_queue_with_connection_id (some (codes "c0")) two_sessions ≡ some none
unfolding get_event_queue_with_connection_id connection_place check_place str_eq
no_such_connection = refl

no_cookie : get_queue none two_sessions ≡ none
unfolding get_queue
no_cookie = refl

c1_differs : codes "c1" ≢ codes "c3"
unfolding str_eq
c1_differs e = let same : false ≡ true = (str_eq_iff (codes "c1") (codes "c3")).1 e in ground arith

send_all-consume_global_event_queue_example :
    (s' : Sessions) × (send_all sent_messages two_sessions ≡ some s')
    × (consume_global_event_queue others (length sent_messages) s'
        ≡ some (
          record two_sessions { queues = map (received sent_messages) two_sessions.queues },
          true,
        ))
send_all-consume_global_event_queue_example =
    send_all-consume_global_event_queue others two_sessions global_queue sent_messages refl refl
      global_queue-IsRunning

notify_service_availability-notified_example :
    notify_service_availability (some lamp) 2 two_sessions
    ≡ some (record two_sessions { queues = map (notified lamp 2) two_sessions.queues }, success)
notify_service_availability-notified_example =
    notify_service_availability-notified lamp 2 two_sessions (inr refl) is_no_log

stream_sends_published_example :
    (s1 s2 s3 : Sessions) × (w : StreamText) × (set_up_server_sent_event_connection mhd_yes
        (some (codes "s2"))
        (codes "c3")
        3
        two_sessions
      ≡ (
        s1,
        stream_reply mhd_yes
            (codes "c3")
            (record second_queue { connection_id = chars (codes "c3") })
            3,
        (connect_queue (codes "c3") second_queue).1,
      ))
    × (send_all sent_messages s1 ≡ some s2)
    × (consume_global_event_queue others (length sent_messages) s2 ≡ some (s3, true))
    × (server_sent_events_callback others 32768 (some (codes "c3")) s3 ≡ some w)
    × (w.buffer ≡ some (event_text (codes "1") lamp))
    × (get_elem? w.sessions.queues 1
        ≡ some (record (received sent_messages second_queue) {
          connection_id = chars (codes "c3");
          events = [];
        }))
stream_sends_published_example =
    stream_sends_published mhd_yes (some (codes "s2")) (codes "c3") 3 others two_sessions
      global_queue second_queue 1 sent_messages lamp_event [] 32768 lamp (codes "1") refl is_second
      refl refl (omega arith) ((codes "c1", refl, c1_differs), tt) refl refl global_queue-IsRunning
      second_gets refl (omega arith)

subscribe_to_service-subscribe_to_service_example :
    (s' : Sessions) × (q' : EventQueue) × (subscribe_to_service xml_of mhd_yes
        (some (codes "s1"))
        (codes "s3")
        lamp
        3
        two_sessions
      ≡ some (s', xml_reply xml_of (codes "yes/lamp") q' 3))
    × (get_elem? s'.queues 0 ≡ some q')
    × (subscribed lamp q'.service_ids ≡ true)
    × (subscribe_to_service xml_of mhd_yes (some (codes "s1")) (codes "s3") lamp 3 s'
        ≡ some (two_sessions, xml_reply xml_of (codes "no/lamp") first_queue 3))
subscribe_to_service-subscribe_to_service_example =
    subscribe_to_service-subscribe_to_service xml_of mhd_yes (some (codes "s1")) (codes "s3") lamp
      (codes "yes/lamp") (codes "no/lamp") 3 two_sessions 0 first_queue is_first refl not_subscribed
      refl refl refl

subscribe_to_service_new_example :
    (s' : Sessions) × (q : EventQueue) × (subscribe_to_service xml_of mhd_yes none
        (codes "s3")
        lamp
        3
        two_sessions
      ≡ some (s', xml_reply xml_of (codes "yes/lamp") q 3))
    × (s'.queues ≡ two_sessions.queues ++ q ∷ [])
    × (q.session_id ≡ (codes "s3"))
    × (subscribed lamp q.service_ids ≡ true)
    × (q.connection_id ≡ null)
    × (get_queue (some (codes "s3")) s' ≡ some (length two_sessions.queues))
subscribe_to_service_new_example =
    subscribe_to_service_new xml_of mhd_yes none (codes "s3") lamp (codes "yes/lamp") 3 two_sessions
      no_cookie no_such_session refl refl

new_session_breaks_streams_example :
    (s' : Sessions) × (r : Reply) × (subscribe_to_service xml_of mhd_yes none
        (codes "s3")
        lamp
        3
        two_sessions
      ≡ some (s', r))
    × (server_sent_events_callback others 32768 (some (codes "c0")) s' ≡ none)
new_session_breaks_streams_example =
    new_session_breaks_streams xml_of mhd_yes none (codes "s3") lamp (codes "yes/lamp") (codes "c0")
      3 two_sessions others 32768 no_cookie no_such_session refl refl no_such_connection
