-- ===== src/Hpd/WebServer/Answer/Put.antt =====
-- A new value that a client sends to a service.
use home_automation_bridge_z.Prelude.{
  ℕ, ◌<◌, ◌≡◌, ◌∙◌, refl, sym, true, false, none, some, [], ◌∷◌, ◌++◌, arith, ◌==◌, ltb, Text,
  codes, str_eq, length, map, List, Option, Option-cases, Bool-cases, inl, inr, leb, if◌then◌else◌,
  subst,
}
use home_automation_bridge_z.Hpd.Error.{success}
use home_automation_bridge_z.Hpd.Events.{EventQueue}
use home_automation_bridge_z.Hpd.LogFile.{LogFile, log}
use home_automation_bridge_z.Hpd.Services.{Service, deref, matching_service}
use home_automation_bridge_z.Hpd.Xml.Document.{get_xml_value, get_value_from_xml_value}
use home_automation_bridge_z.Hpd.ServerSentEvents.{
  Sessions, send_event_of_value_change, consume_global_event_queue,
}
use home_automation_bridge_z.Hpd.ServerSentEvents.Publish.{
  Message, value_change, log_line, send, send_all, send-running,
  send_all-consume_global_event_queue, received, event, IsRunning,
}
use home_automation_bridge_z.Hpd.ServerSentEvents.Stream.{Mhd, Reply, whole, no_reply}
use home_automation_bridge_z.Hpd.WebServer.Answer.{
  driven, put_value, put_to_service, answer_put, take_upload, answer_to_connection,
}
use home_automation_bridge_z.Hpd.WebServer.RequestLog.{log_line_of, log_request, then_log, with_log}
use home_automation_bridge_z.Hpd.WebServer.Reply.{
  nothing, upload, freed_upload, Call, Outside, ServerState, Answer, http_server, send_xml,
}

-- The reply with a document.
abbrev pub document_reply : Mhd → Text → Reply
document_reply mhd xml = record {
  response = some (record {
    status = 200;
    content_type = some (codes "text/xml");
    cookie = none;
    body = whole xml;
  });
  result = mhd.queued;
}

-- The bytes that the driver gives for a value fit into the buffer.
abbrev pub Fits : Text → Type 0
Fits bytes = (0 < length bytes) × (length bytes < 255)

driven-Fits :
    (bytes : Text) (failed : Answer) (next : Text → Answer)
    → Fits bytes
    → driven bytes failed next ≡ next bytes
unfolding driven
driven-Fits bytes failed next (more, fits) =
    let some_bytes : (length bytes == 0) ≡ false = ground arith in
    let fits' : ltb (length bytes) 255 ≡ true = ground arith in rw (driven, some_bytes, fits') refl

-- The messages that the log of a request sends: its line, if the log is on and its file opens.
abbrev pub messages_of_log : Outside → Call → Option LogFile → List Message
messages_of_log o c none = []
messages_of_log o c (some l) =
    if l.log_level == 0
    then []
    else if o.log_opens
    then log_line (log_line_of o c none) ∷ []
    else []

-- The log behind the line of a request.
abbrev pub log_after : Outside → Call → Option LogFile → Option LogFile
log_after o c l = (log o.log_opens 1 (length (log_line_of o c none)) l).0

some-injective : {A : Type 0} → {x y : A} → some x ≡ some y → x ≡ y
some-injective e = ground arith

log_request-sent :
    (o : Outside) (c : Call) (m : ServerState) (g : EventQueue)
    → m.sessions.global ≡ some g
    → IsRunning g
    → (n : Sessions) × (log_request o c none m
        ≡ some (record m { sessions = n; hpd_log = log_after o c m.hpd_log }))
      × (send_all (messages_of_log o c m.hpd_log) m.sessions ≡ some n)
unfolding log_request log send_all send
log_request-sent o c m g is_global running = elim (Option-cases m.hpd_log) [
  | inl no_log ↦ rw no_log (m.sessions, refl, refl)
  | inr (l, has_log) ↦ elim (Bool-cases (l.log_level == 0)) [
    | inl off ↦ rw (has_log, off) (m.sessions, rw (log_request, off) refl, refl)
    | inr on ↦ elim (Bool-cases o.log_opens) [
      | inr shut ↦ rw (has_log, on, shut) (m.sessions, rw (log_request, on) refl, refl)
      | inl opens ↦
          let wanted : leb 1 l.log_level ≡ true = ground arith in
          let sent =
            send-running (log_line (log_line_of o c none)) m.sessions g is_global running in
          rw (has_log, on, opens)
            (
              record m.sessions {
                global = some (record g {
                  events = g.events ++ event (log_line (log_line_of o c none)) ∷ [];
                });
              },
              rw (log_request, on, wanted, sent) refl,
              rw (send_all, sent) refl,
            )
    ]
  ]
]

-- A service of the list that can be written, and a value and what its driver makes of it.
module _ (o : Outside) (m : ServerState) (c : Call) (value xml : Text) (a put : ℕ) (s : Service)
    (found : matching_service m.heap m.services c.url ≡ some (some a))
    (there : deref (m.heap.services a) ≡ some s) (writable : s.put_function ≡ some put)
    (fits : Fits (o.drive_put put s value))
    (writes : get_xml_value o.mxml_save o.now (o.drive_put put s value) ≡ some xml)
    (created : o.mhd.created ≡ true) where
  -- What is sent to the sessions for the request.
  abbrev published : List Message
  published = value_change s.value_url (o.drive_put put s value) ∷ messages_of_log o c m.hpd_log

  put_to_service-value :
      (c : Call) (sent : Text) (n : Sessions)
      → get_value_from_xml_value o.mxml_load sent ≡ some (some value)
      → send_event_of_value_change (some s.value_url) (some (o.drive_put put s value)) m.sessions
        ≡ some (n, success)
      → put_to_service o (http_server o) (upload sent) c s m
        ≡ some (record m { sessions = n }, freed_upload, document_reply o.mhd xml)
  unfolding put_to_service put_value send_xml
  put_to_service-value c sent n reads tells =
      rw
        (
          put_to_service, writable, reads, put_value, driven-Fits, fits, tells, writes, send_xml,
          created,
        )
        refl

  -- The service with the URL of a PUT request over HTTP is found, in use, and can be written; its
  -- driver gives 1 to 254 bytes for the value; Mini-XML writes the document of these bytes, and
  -- libmicrohttpd creates the response. The request comes in three calls, the first without data,
  -- the second with a document from which Mini-XML reads the value, the third with any data. The
  -- first two wait and keep the document, the third answers with the document of what the driver
  -- gave. If the global queue is running and empty, then what the third call sends are the new value
  -- and, if the log is on and its file opens, the line of the request: after as many turns of the
  -- thread, whatever others would do to the queue during a wait, each session's queue has at its end
  -- those of these messages that it accepts. Otherwise the third call only moves the log on.
  pub put_value_arrives :
      (sent more : Text) (others : EventQueue → EventQueue) (g : EventQueue)
      → c.method ≡ codes "PUT"
      → 0 < length sent
      → get_value_from_xml_value o.mxml_load sent ≡ some (some value)
      → m.sessions.global ≡ some g
      → g.events ≡ []
      → IsRunning g
      → (m' : ServerState) × (answer_to_connection o (record c { upload_data = [] }) nothing m
          ≡ some (m, nothing, no_reply 1))
        × (answer_to_connection o (record c { upload_data = sent }) nothing m
            ≡ some (m, upload sent, no_reply 1))
        × (answer_to_connection o (record c { upload_data = more }) (upload sent) m
            ≡ some (m', freed_upload, document_reply o.mhd xml))
        × (consume_global_event_queue others (length published) m'.sessions
            ≡ some
                (record m.sessions { queues = map (received published) m.sessions.queues }, true))
        × (m' ≡ record m { sessions = m'.sessions; hpd_log = log_after o c m.hpd_log })
  unfolding answer_to_connection take_upload send send_all answer_put with_log then_log str_eq
  put_value_arrives sent more others g is_put some_data reads is_global empty running =
      let msg = value_change s.value_url (o.drive_put put s value) in
      let g' : EventQueue = record g { events = g.events ++ event msg ∷ [] } in
      let n : Sessions = record m.sessions { global = some g' } in
      let tells = send-running msg m.sessions g is_global running in
      let c' : Call = record c { upload_data = more } in
      let acts = put_to_service-value c' sent n reads tells in
      let (n', logs, lines) = log_request-sent o c' (record m { sessions = n }) g' refl running in
      let (s', all, turns) =
        send_all-consume_global_event_queue others m.sessions g published is_global empty running in
      let all' : send_all published m.sessions ≡ some n' = rw (send_all, tells) lines in
      let no_test : (length sent == 0) ≡ false = ground arith in
      let put_test : str_eq c.method (codes "PUT") ≡ true = rw is_put refl in
      let get_test : str_eq c.method (codes "GET") ≡ false = rw is_put refl in
      (
        record m { sessions = n'; hpd_log = log_after o c' m.hpd_log },
        rw (answer_to_connection, get_test, put_test) refl,
        rw (answer_to_connection, get_test, put_test, take_upload, no_test) refl,
        rw
            (
              answer_to_connection, get_test, put_test, answer_put, found, there, with_log,
              then_log, acts, logs,
            )
            refl,
        subst
            (λ x.
              consume_global_event_queue others (length published) x
              ≡ some
                  (record m.sessions { queues = map (received published) m.sessions.queues }, true))
            (some-injective (sym all ∙ all')) turns,
        refl,
      )
