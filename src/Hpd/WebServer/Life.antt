-- ===== src/Hpd/WebServer/Life.antt =====
-- The start and the stop of the servers: start_server and stop_server of
-- hpbridge/hpdaemon/hpd_web_server.c, with what they call of hpd_http_web_server.c and
-- hpd_https_web_server.c. What libmicrohttpd and Avahi return is a parameter.
pub mod Cycle
mod Tests
use home_automation_bridge_z.Prelude.{
  ℕ, Bool, negb, Option, none, some, List, [], ◌∷◌, if◌then◌else◌, Text, codes, length, ◌==◌,
}
use home_automation_bridge_z.Hpd.Error.{
  Code, success, mhd_error, ssl_cert_error, ℤ, pos, int_eq, value,
}
use home_automation_bridge_z.Hpd.Config.{Ptr, null, live, freed, free}
use home_automation_bridge_z.Hpd.Services.Destroy.{destroy_service_struct}
use home_automation_bridge_z.Hpd.Xml.{init_xml_file}
use home_automation_bridge_z.Hpd.ServerSentEvents.{
  initiate_global_event_queue, begin_wait, free_server_sent_events_ressources,
}
use home_automation_bridge_z.Hpd.WebServer.Register.{WebServer, Setting, is_negative}
use home_automation_bridge_z.Hpd.WebServer.Unregister.{is_service_registered}

-- What a global pointer points to: nothing yet, an object, or one that was freed.
pub data Life : Type 0 where
  absent present gone : Life

-- The servers' state with the life of the two servers of libmicrohttpd (`d`, `secure_d`), of the XML
-- file, and of the three texts that the HTTPS server was started with.
pub record Servers : Type 0 where
  pub web : WebServer
  pub http_daemon : Life
  pub https_daemon : Life
  pub xml_file : Life
  pub root_pem : Ptr Text
  pub key_pem : Ptr Text
  pub cert_pem : Ptr Text

-- What is read of the files of the certificates, `none` if a file cannot be read.
pub record Files : Type 0 where
  pub root_ca : Option Text
  pub server_key : Option Text
  pub server_cert : Option Text

-- What the world outside answers to a start: whether the daemons of libmicrohttpd start, and what
-- Avahi returns; `session` is the id that the global queue gets.
pub record Start : Type 0 where
  pub opens : Bool
  pub session : Text
  pub starts_http : Bool
  pub starts_https : Bool
  pub files : Files
  pub avahi : ℤ

-- A file of size 0 is no file.
unfoldable pub load_file : Option Text → Option Text
load_file none = none
load_file (some content) = if length content == 0 then none else some content

-- A pointer that was filled, and freed if it is not NULL.
abbrev pub dropped : Option Text → Ptr Text
dropped none = null
dropped (some t) = freed

unfoldable pub start_unsecure_server : (starts : Bool) → Servers → Servers × Code
start_unsecure_server starts r = (
  record r {
    web = record r.web { unsecure = record r.web.unsecure { started = starts } };
    http_daemon = if starts then present else absent;
  },
  if starts then success else mhd_error,
)

abbrev pub with_pems : (root key cert : Ptr Text) → Servers → Servers
with_pems root key cert r = record r { root_pem = root; key_pem = key; cert_pem = cert }

unfoldable pub start_secure_server : Files → (starts : Bool) → Servers → Servers × Code
start_secure_server f starts r =
    let root = load_file f.root_ca in
    let key = load_file f.server_key in
    let cert = load_file f.server_cert in
    elim root [
      | none ↦ (with_pems null (dropped key) (dropped cert) r, ssl_cert_error)
      | some root_text ↦ elim key [
        | none ↦ (with_pems freed null (dropped cert) r, ssl_cert_error)
        | some key_text ↦ elim cert [
          | none ↦ (with_pems freed freed null r, ssl_cert_error)
          | some cert_text ↦
              let r' = record r {
                web = record r.web { secure = record r.web.secure { started = starts } };
                https_daemon = if starts then present else absent;
              } in
              if starts
              then (with_pems (live root_text) (live key_text) (live cert_text) r', success)
              else (with_pems freed freed freed r', mhd_error)
        ]
      ]
    ]

-- A part of a function that goes on unless its result is negative.
unfoldable pub go_on : Servers × Code → (Servers → Servers × ℤ) → Servers × ℤ
unfolding value
go_on (r, c) next = if is_negative (value c) then (r, value c) else next r

unfoldable pub start_server : Setting → Start → Servers → Servers × ℤ
unfolding value
start_server set s r =
    let (x, made) = init_xml_file s.opens r.web.xml.file (codes "services.xml") (codes "12345") in
    go_on (record r { web = record r.web { xml = x }; xml_file = present }, made)
      (λ r1.
        let (n, queued) = initiate_global_event_queue s.session r1.web.sessions in
        go_on (record r1 { web = record r1.web { sessions = n } }, queued)
          (λ r2.
            go_on (if set.http then start_unsecure_server s.starts_http r2 else (r2, success))
              (λ r3.
                go_on
                  (if set.https
                    then start_secure_server s.files s.starts_https r3
                    else (r3, success))
                  (λ r4. (r4, s.avahi)))))

-- The loop over a server's list: an element is unlinked, and its service is destroyed unless the
-- rest of the list still has one of its key.
unfoldable pub free_services :
    (List ℕ → WebServer → WebServer) → Setting → List ℕ → WebServer → Option WebServer
free_services with_services set [] w = some (with_services [] w)
free_services with_services set (a ∷ more) w =
    let w1 = with_services more w in
    elim (is_service_registered set (some a) w1) [
      | none ↦ none
      | some v ↦ elim (destroy_service_struct (λ b. negb (int_eq v (pos 0))) (some a) w1.heap) [
        | none ↦ none
        | some (h, code) ↦ free_services with_services set more (record w1 { heap = h })
      ]
    ]

abbrev pub free_unsecure_server_services : Setting → WebServer → Option WebServer
free_unsecure_server_services set w =
    free_services (λ l v. record v { unsecure = record v.unsecure { services = l } }) set
      w.unsecure.services w

abbrev pub free_secure_server_services : Setting → WebServer → Option WebServer
free_secure_server_services set w =
    free_services (λ l v. record v { secure = record v.secure { services = l } }) set
      w.secure.services w

-- A server of libmicrohttpd is stopped once. The pointer to it is not reset.
unfoldable pub stop_daemon : Life → Option Life
stop_daemon absent = none
stop_daemon present = some gone
stop_daemon gone = none

unfoldable pub stop_unsecure_server : Setting → Servers → Option Servers
stop_unsecure_server set r =
    if r.web.unsecure.started
    then elim (free_unsecure_server_services set r.web) [
      | none ↦ none
      | some w ↦ elim (stop_daemon r.http_daemon) [
        | none ↦ none
        | some d ↦ some (record r { web = w; http_daemon = d })
      ]
    ]
    else none

unfoldable pub stop_secure_server : Setting → Servers → Option Servers
stop_secure_server set r =
    if r.web.secure.started
    then elim (free_secure_server_services set r.web) [
      | none ↦ none
      | some w ↦ elim (stop_daemon r.https_daemon) [
        | none ↦ none
        | some d ↦ elim (free r.key_pem) [
          | none ↦ none
          | some key ↦ elim (free r.cert_pem) [
            | none ↦ none
            | some cert ↦ elim (free r.root_pem) [
              | none ↦ none
              | some root ↦ some (with_pems root key cert (record r { web = w; https_daemon = d }))
            ]
          ]
        ]
      ]
    ]
    else none

-- The tree is freed, unless it was never made, and the file is removed.
unfoldable pub delete_xml : Servers → Option Servers
delete_xml r = elim r.xml_file [
  | absent ↦ some (record r { web = record r.web { xml = record r.web.xml { file = none } } })
  | present ↦
      some (record r {
        web = record r.web { xml = record r.web.xml { file = none } };
        xml_file = gone;
      })
  | gone ↦ none
]

-- The parts of `stop_server` behind the events. The result is success. A build without both servers
-- returns a variable that was not written.
unfoldable pub stop_both : Setting → Servers → Option (Servers × Code)
stop_both set r = elim (if set.http then stop_unsecure_server set r else some r) [
  | none ↦ none
  | some r2 ↦ elim (if set.https then stop_secure_server set r2 else some r2) [
    | none ↦ none
    | some r3 ↦
        if set.http
        then elim (delete_xml r3) [ none ↦ none | some r4 ↦ some (r4, success) ]
        else if set.https
        then elim (delete_xml r3) [ none ↦ none | some r4 ↦ some (r4, success) ]
        else none
  ]
]

-- `none` is also a call that does not return.
unfoldable pub stop_server : Setting → Servers → Option (Servers × Code)
stop_server set r = elim (free_server_sent_events_ressources r.web.sessions) [
  | none ↦ none
  | some ((n, left), code) ↦ stop_both set (record r { web = record r.web { sessions = n } })
]

-- The thread of the global queue comes to a wait.
abbrev pub thread_waits : Servers → Servers
thread_waits r = record r { web = record r.web { sessions = begin_wait r.web.sessions } }
