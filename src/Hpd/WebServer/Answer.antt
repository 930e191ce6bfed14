-- ===== src/Hpd/WebServer/Answer.antt =====
-- hpbridge/hpdaemon/hpd_http_web_server.c and hpd_https_web_server.c: the answers to requests. What
-- the functions of the drivers behind a service do is a parameter, as is what libmicrohttpd,
-- Mini-XML and GnuTLS return.
pub mod Put
pub mod Trust
pub mod Alike
pub mod Secure
use home_automation_bridge_z.Prelude.{
  ℕ, Bool, false, Option, none, some, ◌==◌, ltb, if◌then◌else◌, Text, codes, str_eq, length,
}
use home_automation_bridge_z.Hpd.Services.{Service, deref, matching_service}
use home_automation_bridge_z.Hpd.Xml.Document.{
  get_xml_value, get_xml_subscription, get_value_from_xml_value, extract_service_xml,
}
use home_automation_bridge_z.Hpd.ServerSentEvents.{Sessions, send_event_of_value_change}
use home_automation_bridge_z.Hpd.ServerSentEvents.Stream.{
  Reply, no_reply, set_up_server_sent_event_connection,
}
use home_automation_bridge_z.Hpd.ServerSentEvents.Subscribe.{
  subscribe_to_service, subscribe_to_log_events,
}
use home_automation_bridge_z.Hpd.WebServer.RequestLog.{with_log, logged_again, logged_after}
use home_automation_bridge_z.Hpd.WebServer.Reply.{
  Answer, Call, ConCls, Outside, Server, ServerState, first_call, freed_upload, http_server,
  https_server, nothing, secure_send_error, upload,
}

abbrev pub answered : ServerState → ConCls → Option Reply → Answer
answered m c none = none
answered m c (some r) = some (m, c, r)

-- What a driver's function wrote to the buffer of 255 bytes, and returned the number of: none is an
-- error, and behind the bytes a zero is written, which faults if they fill the buffer.
unfoldable pub driven : (bytes : Text) → (failed : Answer) → (next : Text → Answer) → Answer
driven bytes failed next =
    if length bytes == 0 then failed else if ltb (length bytes) 255 then next bytes else none

-- The value of a service.
unfoldable pub answer_value : Outside → Server → Call → Service → ServerState → Answer
answer_value o v c s m =
    driven (o.drive_get s.get_function s) (logged_again o v c (some (m, nothing, v.refuse 500)))
      (λ value. answered m nothing (v.send_document (get_xml_value o.mxml_save o.now value)))

abbrev pub is_one : Option Text → Bool
is_one none = false
is_one (some t) = str_eq t (codes "1")

-- The description of a service.
unfoldable pub answer_description : Outside → Server → Service → ServerState → Answer
answer_description o v s m = elim (deref (m.heap.devices s.device)) [
  | none ↦ none
  | some d ↦ elim (extract_service_xml o.mxml_save s d m.xml) [
    | none ↦ none
    | some xml ↦ answered m nothing (v.send_document xml)
  ]
]

-- What a handler makes of a subscription.
abbrev pub after_subscription : ServerState → Option (Sessions × Reply) → Answer
after_subscription m n = elim n [
  | none ↦ none
  | some (n', r) ↦ some (record m { sessions = n' }, nothing, r)
]

-- A connection for the events.
unfoldable pub answer_events : Outside → Server → Call → ServerState → Answer
answer_events o v c m =
    let (n, r, woken) =
      set_up_server_sent_event_connection o.mhd c.cookie o.connection_id v.is_secure m.sessions in
    some (record m { sessions = n }, nothing, if r.result == 404 then v.refuse 404 else r)

-- A request for a service: its description, a subscription, or its value.
unfoldable pub answer_service : Outside → Server → Call → ℕ → ServerState → Answer
answer_service o v c a m = elim (deref (m.heap.services a)) [
  | none ↦ none
  | some s ↦
      if is_one c.x
      then with_log o v c (some (codes "x=1")) (answer_description o v s) m
      else if is_one c.p
      then with_log o v c (some (codes "p=1"))
          (λ m. after_subscription m (
            subscribe_to_service (get_xml_subscription o.mxml_save o.now) o.mhd c.cookie o.session
              s.value_url v.is_secure m.sessions))
          m
      else with_log o v c none (answer_value o v c s) m
]

-- A GET request that is answered, in the order of the tests.
unfoldable pub answer_get : Outside → Server → Call → ServerState → Answer
answer_get o v c m =
    if str_eq c.url (codes "/log")
    then with_log o v c none
        (λ m. after_subscription m (
          subscribe_to_log_events (get_xml_subscription o.mxml_save o.now) o.mhd c.cookie o.session
            v.is_secure m.sessions))
        m
    else if str_eq c.url (codes "/events")
    then with_log o v c none (answer_events o v c) m
    else if str_eq c.url (codes "/devices")
    then with_log o v c none (λ m. answered m nothing (v.send_document (o.save_list m.xml.tree))) m
    else elim (matching_service m.heap m.services c.url) [
      | none ↦ none
      | some none ↦ logged_after o v c (some (m, nothing, v.refuse 404))
      | some (some a) ↦ answer_service o v c a m
    ]

-- What a PUT request does with the value of the upload, whose data is freed: the value goes to the
-- driver, and what that gives is sent to the sessions and to the client. A result of the event is
-- not looked at.
unfoldable pub put_value :
    Outside → Server → Call → Service → (put : ℕ) → (value : Text) → ServerState → Answer
put_value o v c s put value m =
    driven (o.drive_put put s value) (logged_again o v c (some (m, freed_upload, v.refuse 500)))
      (λ new_value.
        elim (send_event_of_value_change (some s.value_url) (some new_value) m.sessions) [
          | none ↦ none
          | some (n, code) ↦
              answered (record m { sessions = n }) freed_upload
                (v.send_document (get_xml_value o.mxml_save o.now new_value))
        ])

-- The data of the upload. Data that was freed is no string.
abbrev pub upload_of : ConCls → Option Text
upload_of nothing = none
upload_of first_call = none
upload_of (upload sent) = some sent
upload_of freed_upload = none

-- What a PUT request does with the service that was found, and what the upload left.
unfoldable pub put_to_service : Outside → Server → ConCls → Call → Service → ServerState → Answer
put_to_service o v con c s m = elim s.put_function [
  | none ↦ some (m, con, v.refuse 400)
  | some put ↦ elim (upload_of con) [
    | none ↦ none
    | some sent ↦ elim (get_value_from_xml_value o.mxml_load sent) [
      | none ↦ none
      | some none ↦ some (m, v.after_bad_value sent, v.refuse 400)
      | some (some value) ↦ put_value o v c s put value m
    ]
  ]
]

-- A PUT request after its upload. `*con_cls` is not NULL; it still points to data that was freed.
unfoldable pub answer_put : Outside → Server → ConCls → Call → ServerState → Answer
answer_put o v con c m = elim (matching_service m.heap m.services c.url) [
  | none ↦ none
  | some none ↦ some (m, con, v.refuse 404)
  | some (some a) ↦ elim (deref (m.heap.services a)) [
    | none ↦ none
    | some s ↦ with_log o v c none (put_to_service o v con c s) m
  ]
]

-- The first part of an upload is kept; the calls before it, without data, wait.
unfoldable pub take_upload : Call → ConCls → ServerState → Answer
take_upload c con m =
    if length c.upload_data == 0
    then some (m, con, no_reply 1)
    else some (m, upload c.upload_data, no_reply 1)

-- The HTTP server's handler. On a GET request it only takes note of the first call.
unfoldable pub answer_to_connection : Outside → Call → ConCls → ServerState → Answer
answer_to_connection o c con m =
    if str_eq c.method (codes "GET")
    then elim con [
      | first_call ↦ answer_get o (http_server o) c m
      | other ↦ some (m, first_call, no_reply 1)
    ]
    else if str_eq c.method (codes "PUT")
    then elim con [
      | nothing ↦ take_upload c nothing m
      | other ↦ answer_put o (http_server o) other c m
    ]
    else some (m, con, no_reply 0)

-- The HTTPS server's handler on a call that is not the first one of a request.
unfoldable pub secure_answer_on : Outside → Call → ConCls → ServerState → Answer
secure_answer_on o c con m =
    if str_eq c.method (codes "GET")
    then answer_get o (https_server o) c m
    else if str_eq c.method (codes "PUT")
    then elim con [
      | first_call ↦ take_upload c first_call m
      | other ↦ answer_put o (https_server o) other c m
    ]
    else some (m, con, no_reply 0)

-- The HTTPS server's handler. `trusted` is whether `verify_certificate` accepts the client's
-- certificate, which is asked for on the first call.
unfoldable pub secure_answer_to_connection :
    Outside → (trusted : Bool) → Call → ConCls → ServerState → Answer
secure_answer_to_connection o trusted c con m = elim con [
  | nothing ↦
      if trusted
      then some (m, first_call, no_reply 1)
      else some (m, nothing, secure_send_error o.mhd 401)
  | other ↦ secure_answer_on o c other m
]
