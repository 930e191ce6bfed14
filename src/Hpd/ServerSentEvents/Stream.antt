-- ===== src/Hpd/ServerSentEvents/Stream.antt =====
-- hpbridge/hpdaemon/hpd_server_sent_events.c: the connection that events are sent on, and how a
-- queue is found by the connection's id or the session's.
pub mod Lookup
pub mod Sent
use home_automation_bridge_z.Prelude.{
  ℕ, suc, ◌+◌, Bool, true, false, ◌&&◌, Option, none, some, List, [], ◌∷◌, ◌++◌, ◌==◌,
  if◌then◌else◌, Text, codes, str_eq, take, get_elem?, set, remove_at, ltb, length,
}
use home_automation_bridge_z.Hpd.Error.{pos, int_eq, value}
use home_automation_bridge_z.Hpd.Events.{
  EventQueue, Event, CharPtr, chars, null, indeterminate, dequeue_event, wait_for_timeout,
  has_connection,
}
use home_automation_bridge_z.Hpd.ServerSentEvents.{Sessions}

-- The header of the cookie, at most 255 bytes of it. The kind of the connection is
-- HPD_IS_SECURE_CONNECTION (2) or HPD_IS_UNSECURE_CONNECTION (3); on another the array is sent as it
-- is, which nothing was written to.
unfoldable pub session_cookie : EventQueue → (is_secure : ℕ) → CharPtr
session_cookie q is_secure =
    if is_secure == 2
    then chars (take 255 (codes "session" ++ codes "=" ++ q.session_id ++ codes "; path=/; secure"))
    else if is_secure == 3
    then chars (take 255 (codes "session" ++ codes "=" ++ q.session_id ++ codes "; path=/"))
    else indeterminate

-- A response that is queued with `MHD_queue_response`: its status and headers, and its body, or
-- `stream` where a callback writes it for a connection id.
pub data Body : Type 0 where
  whole : Text → Body
  stream : (connection_id : Text) → Body

pub record Response : Type 0 where
  pub status : ℕ
  pub content_type : Option Text
  pub cookie : Option CharPtr
  pub body : Body

-- What libmicrohttpd answers for one response: whether it could be created, and what
-- `MHD_queue_response` returns (MHD_NO is 0, MHD_YES is 1).
pub record Mhd : Type 0 where
  pub created : Bool
  pub queued : ℕ

-- What a handler leaves: the response it queued, if any, and its result.
pub record Reply : Type 0 where
  pub response : Option Response
  pub result : ℕ

abbrev pub no_reply : ℕ → Reply
no_reply r = record { response = none; result = r }

unfoldable pub send_cookied_xml : Mhd → (xml : Text) → EventQueue → (is_secure : ℕ) → Reply
send_cookied_xml mhd xml q is_secure =
    if mhd.created
    then record {
      response = some (record {
        status = 200;
        content_type = some (codes "text/xml");
        cookie = some (session_cookie q is_secure);
        body = whole xml;
      });
      result = mhd.queued;
    }
    else no_reply 0

-- One step of the loop below: `strcmp` with the connection id of a queue, which faults if it has
-- none, and what the rest of the list gives.
unfoldable pub check_place : CharPtr → (id : Text) → (rest : Option (Option ℕ)) → Option (Option ℕ)
check_place null id rest = none
check_place indeterminate id rest = none
check_place (chars t) id rest =
    if str_eq t id
    then some (some 0)
    else elim rest [ none ↦ none | some none ↦ some none | some (some i) ↦ some (some (suc i)) ]

unfoldable pub connection_place : Text → List EventQueue → Option (Option ℕ)
connection_place id [] = some none
connection_place id (q ∷ qs) =
    let rest = connection_place id qs in check_place q.connection_id id rest

unfoldable pub get_event_queue_with_connection_id : Option Text → Sessions → Option (Option ℕ)
get_event_queue_with_connection_id none s = some none
get_event_queue_with_connection_id (some id) s = connection_place id s.queues

-- The place of the queue of a session id.
unfoldable pub session_place : Text → List EventQueue → Option ℕ
session_place id [] = none
session_place id (q ∷ qs) =
    let rest = session_place id qs in
    if str_eq id q.session_id then some 0 else elim rest [ none ↦ none | some i ↦ some (suc i) ]

-- `cookie` is what `MHD_lookup_connection_value` returns for the cookie "session".
unfoldable pub get_queue : (cookie : Option Text) → Sessions → Option ℕ
get_queue none s = none
get_queue (some id) s = session_place id s.queues

-- A write through the pointer to a queue of the list.
abbrev pub put_queue : ℕ → EventQueue → Sessions → Sessions
put_queue i q s = record s { queues = set s.queues i q }

-- What is written to the response buffer for an event.
abbrev pub event_text : (content id : Text) → Text
event_text content id = codes "data: " ++ content ++ codes "<br>id: " ++ id ++ codes "<br><br>"

-- `sprintf` into the buffer of `max` bytes, with a zero behind the text: a text that does not fit is
-- written behind the buffer, the fault `none`.
unfoldable pub print_into : (max : ℕ) → Text → Option (Option Text)
print_into max t = if ltb (length t) max then some (some t) else none

-- The text of an event, or `some none` where the function returns -1: the event has no id or no
-- content. An indeterminate pointer is used by the test.
unfoldable pub print_event : (max : ℕ) → Event → Option (Option Text)
print_event max e = elim e.id [
  | null ↦ some none
  | indeterminate ↦ none
  | chars id ↦ elim e.content [
    | null ↦ some none
    | indeterminate ↦ none
    | chars content ↦ print_into max (event_text content id)
  ]
]

-- What the callback of a stream leaves: the text that it wrote, or `none` where it returned -1, and
-- whether it freed the queue. (A queue that is told to exit was unlinked before.)
pub record StreamText : Type 0 where
  pub sessions : Sessions
  pub buffer : Option Text
  pub freed : Bool

-- `max` is the size of the buffer that libmicrohttpd gives.
unfoldable pub server_sent_events_callback :
    (EventQueue → EventQueue)
    → (max : ℕ) → (connection_id : Option Text) → Sessions
    → Option StreamText
server_sent_events_callback others max none s =
    some (record { sessions = s; buffer = none; freed = false })
server_sent_events_callback others max (some id) s =
    elim (get_event_queue_with_connection_id (some id) s) [
      | none ↦ none
      | some none ↦ some (record { sessions = s; buffer = none; freed = false })
      | some (some i) ↦ elim (dequeue_event others (get_elem? s.queues i) (some id) 2) [
        | none ↦ none
        | some (none, e) ↦ some (record { sessions = s; buffer = none; freed = false })
        | some (some q, none) ↦
            some (record { sessions = put_queue i q s; buffer = none; freed = q.exit == 1 })
        | some (some q, some e) ↦ elim (print_event max e) [
          | none ↦ none
          | some written ↦
              some (record { sessions = put_queue i q s; buffer = written; freed = false })
        ]
      ]
    ]

-- The queue of a connection that is closed is destroyed, unless it was woken within five seconds.
unfoldable pub server_sent_events_free_callback :
    (EventQueue → EventQueue)
    → (timed_out : Bool) → (connection_id : Option Text) → Sessions
    → Option Sessions
unfolding value
server_sent_events_free_callback others timed_out none s = some s
server_sent_events_free_callback others timed_out (some id) s =
    elim (get_event_queue_with_connection_id (some id) s) [
      | none ↦ none
      | some none ↦ some s
      | some (some i) ↦ elim (get_elem? s.queues i) [
        | none ↦ none
        | some q ↦
            let (q', code) = wait_for_timeout others timed_out q in
            if int_eq (value code) (pos 1)
            then some (record s { queues = remove_at i s.queues })
            else some (put_queue i q' s)
      ]
    ]

-- The queue gets the new connection's id. The condition is signalled if `is_waiting` is greater than
-- HPD_NO and there was a connection.
unfoldable pub connect_queue : (new_id : Text) → EventQueue → EventQueue × Bool
connect_queue new_id q =
    (record q { connection_id = chars new_id }, ltb 2 q.is_waiting && has_connection q)

-- Whether the session is subscribed to a service or to the log.
abbrev pub listens : EventQueue → Bool
listens q = elim q.service_ids [ [] ↦ q.send_log_events == 1 | x ∷ xs ↦ true ]

-- 404 is MHD_HTTP_NOT_FOUND, for which the caller answers. The flag is whether the wait of the old
-- connection was woken.
unfoldable pub set_up_server_sent_event_connection :
    Mhd
    → (cookie : Option Text) → (new_id : Text) → (is_secure : ℕ) → Sessions
    → Sessions × Reply × Bool
set_up_server_sent_event_connection mhd cookie new_id is_secure s = elim (get_queue cookie s) [
  | none ↦ (s, no_reply 404, false)
  | some i ↦ elim (get_elem? s.queues i) [
    | none ↦ (s, no_reply 404, false)
    | some q ↦
        let (q', woken) = connect_queue new_id q in
        let s' = put_queue i q' s in
        if listens q
        then (if mhd.created
            then (
              s',
              record {
                response = some (record {
                  status = 200;
                  content_type = some (codes "text/html; charset=utf-8");
                  cookie = some (session_cookie q' is_secure);
                  body = stream new_id;
                });
                result = mhd.queued;
              },
              woken,
            )
            else (s', no_reply 0, woken))
        else (s', no_reply 404, woken)
  ]
]
