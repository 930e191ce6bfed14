-- ===== src/Hpd/WebServer/RequestLog.antt =====
-- hpbridge/hpdaemon/hpd_log.c: the line of the log that a request gives, and the event with it, and
-- where the handlers of hpd_http_web_server.c and hpd_https_web_server.c write it.
use home_automation_bridge_z.Prelude.{Option, none, some, ◌++◌, if◌then◌else◌, Text, codes, length}
use home_automation_bridge_z.Hpd.LogFile.{log}
use home_automation_bridge_z.Hpd.ServerSentEvents.{send_log_event}
use home_automation_bridge_z.Hpd.WebServer.Reply.{Answer, Call, Outside, Server, ServerState}

abbrev pub or_dash : Option Text → Text
or_dash none = codes "-"
or_dash (some t) = t

-- The parts of the line, with spaces between them.
unfoldable pub get_allocated_log_message :
    (date time : Text) → (error_string client_ip method uri_stem uri_query : Option Text) → Text
get_allocated_log_message date time error_string client_ip method uri_stem uri_query =
    let space = codes " " in
    date
    ++ space
    ++ time
    ++ space
    ++ or_dash error_string
    ++ space
    ++ or_dash client_ip
    ++ space
    ++ or_dash method
    ++ space
    ++ or_dash uri_stem
    ++ space
    ++ or_dash uri_query

-- The line of a request.
abbrev pub log_line_of : Outside → Call → (query : Option Text) → Text
log_line_of o c query =
    get_allocated_log_message o.date o.time none (some o.ip) (some c.method) (some c.url) query

-- `Log` at the level HPD_LOG_ONLY_REQUESTS, 1: a line that is written is sent as an event, whatever
-- `send_events` of the log is. The results of both are not looked at.
unfoldable pub log_request :
    Outside → Call → (query : Option Text) → ServerState → Option ServerState
log_request o c query m =
    let (l, code, written) = log o.log_opens 1 (length (log_line_of o c query)) m.hpd_log in
    elim written [
      | none ↦ some (record m { hpd_log = l })
      | some w ↦ elim (send_log_event (some (log_line_of o c query)) m.sessions) [
        | none ↦ none
        | some (n, sent) ↦ some (record m { sessions = n; hpd_log = l })
      ]
    ]

-- The call of `Log` behind an answer.
unfoldable pub then_log : Outside → Call → (query : Option Text) → Answer → Answer
then_log o c query a = elim a [
  | none ↦ none
  | some (m, con, r) ↦ elim (log_request o c query m) [ none ↦ none | some m' ↦ some (m', con, r) ]
]

-- The HTTPS server logs, then acts; the HTTP server acts, then logs.
unfoldable pub with_log :
    Outside → Server → Call → (query : Option Text) → (ServerState → Answer) → ServerState → Answer
with_log o v c query act m =
    if v.logs_first
    then elim (log_request o c query m) [ none ↦ none | some m' ↦ act m' ]
    else then_log o c query (act m)

-- The driver's function fails: the HTTPS server logs again.
unfoldable pub logged_again : Outside → Server → Call → Answer → Answer
logged_again o v c a = if v.logs_first then then_log o c none a else a

-- Nothing is found behind the URL of a GET request: only the HTTP server logs.
unfoldable pub logged_after : Outside → Server → Call → Answer → Answer
logged_after o v c a = if v.logs_first then a else then_log o c none a
