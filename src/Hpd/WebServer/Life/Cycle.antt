-- ===== src/Hpd/WebServer/Life/Cycle.antt =====
-- Starts that are followed by a stop.
use home_automation_bridge_z.Prelude.{
  ℕ, Bool, arith, ◌≡◌, ◌∙◌, refl, ap, codes, true, false, none, some, List, [], sym, subst,
  if◌then◌else◌, Text, ◌⊎◌, inl, inr, Option-cases,
}
use home_automation_bridge_z.Hpd.Error.{Code, success, ssl_cert_error, ℤ, pos, negsuc, value}
use home_automation_bridge_z.Hpd.Config.{null, live, freed}
use home_automation_bridge_z.Hpd.Xml.{init_xml_file}
use home_automation_bridge_z.Hpd.ServerSentEvents.{
  initiate_global_event_queue, begin_wait, thread_ends, exit_all,
  free_server_sent_events_ressources,
}
use home_automation_bridge_z.Hpd.Events.{EventQueue, create_event_queue}
use home_automation_bridge_z.Hpd.WebServer.Register.{Setting}
use home_automation_bridge_z.Hpd.WebServer.Life.{
  Servers, Start, Files, present, gone, load_file, dropped, with_pems, start_unsecure_server,
  start_secure_server, go_on, start_server, free_services, stop_daemon, stop_unsecure_server,
  stop_secure_server, delete_xml, stop_both, stop_server, thread_waits,
}

-- The state when the XML file and the global queue are made.
abbrev prepared : Start → Servers → Servers
prepared s r = record r {
  web = record r.web {
    xml = (init_xml_file s.opens r.web.xml.file (codes "services.xml") (codes "12345")).0;
    sessions = (initiate_global_event_queue s.session r.web.sessions).0;
  };
  xml_file = present;
}

-- The HTTP server runs; both servers run.
abbrev half_up : Servers → Servers
half_up r = record r {
  web = record r.web { unsecure = record r.web.unsecure { started = true } };
  http_daemon = present;
}

abbrev up : (root key cert : Text) → Servers → Servers
up root key cert r = record r {
  web = record r.web {
    unsecure = record r.web.unsecure { started = true };
    secure = record r.web.secure { started = true };
  };
  http_daemon = present;
  https_daemon = present;
  root_pem = live root;
  key_pem = live key;
  cert_pem = live cert;
}

-- Both are stopped.
abbrev down : Servers → Servers
down r = record r {
  web = record r.web {
    unsecure = record r.web.unsecure { services = []; started = true };
    secure = record r.web.secure { services = []; started = true };
    xml = record r.web.xml { file = none };
    sessions = record { queues = []; global = none };
  };
  http_daemon = gone;
  https_daemon = gone;
  xml_file = gone;
  root_pem = freed;
  key_pem = freed;
  cert_pem = freed;
}

-- The parts of the start behind the preparation.
abbrev start_both : Setting → Start → Servers → Servers × ℤ
unfolding go_on start_unsecure_server start_secure_server
start_both set s r =
    go_on (if set.http then start_unsecure_server s.starts_http r else (r, success)) (λ r3.
      go_on (if set.https then start_secure_server s.files s.starts_https r3 else (r3, success))
        (λ r4. (r4, s.avahi)))

start_server-prepared :
    (set : Setting) (s : Start) (r : Servers)
    → start_server set s r ≡ start_both set s (prepared s r)
unfolding start_server start_both go_on value init_xml_file initiate_global_event_queue
start_server-prepared set s r = refl

start_secure_server-fails :
    (f : Files) (starts : Bool) (q : Servers)
    → (load_file f.root_ca ≡ none)
      ⊎ (load_file f.server_key ≡ none)
      ⊎ (load_file f.server_cert ≡ none)
    → (q' : Servers) × (start_secure_server f starts q ≡ (q', ssl_cert_error))
      × (q'.web ≡ q.web)
      × (q'.http_daemon ≡ q.http_daemon)
unfolding start_secure_server
start_secure_server-fails f starts q unreadable = elim (Option-cases (load_file f.root_ca)) [
  | inl no_root ↦ (
    with_pems null (dropped (load_file f.server_key)) (dropped (load_file f.server_cert)) q,
    rw (start_secure_server, no_root) refl,
    refl,
    refl,
  )
  | inr (root, root_is) ↦ elim (Option-cases (load_file f.server_key)) [
    | inl no_key ↦ (
      with_pems freed null (dropped (load_file f.server_cert)) q,
      rw (start_secure_server, root_is, no_key) refl,
      refl,
      refl,
    )
    | inr (key, key_is) ↦ elim (Option-cases (load_file f.server_cert)) [
      | inl no_cert ↦ (
        with_pems freed freed null q,
        rw (start_secure_server, root_is, key_is, no_cert) refl,
        refl,
        refl,
      )
      | inr (cert, cert_is) ↦ absurd (ground arith)
    ]
  ]
]

-- Both servers are built in, and no services are registered.
module _ (set : Setting) (s : Start) (r : Servers) (http : set.http ≡ true)
    (https : set.https ≡ true) (no_unsecure : r.web.unsecure.services ≡ [])
    (no_secure : r.web.secure.services ≡ []) (starts : s.starts_http ≡ true) where
  start_unsecure_server-half_up :
      (q : Servers)
      → (if set.http then start_unsecure_server s.starts_http q else (q, success))
        ≡ (half_up q, success)
  unfolding start_unsecure_server
  start_unsecure_server-half_up q = rw (http, starts) refl

  -- The HTTPS server gives a state and a code.
  start_both-secure :
      (q q' : Servers) (c : Code)
      → start_secure_server s.files s.starts_https (half_up q) ≡ (q', c)
      → start_both set s q ≡ go_on (q', c) (λ r4. (r4, s.avahi))
  unfolding start_both go_on value
  start_both-secure q q' c secure =
      let next : Servers → Servers × ℤ = λ r3.
        go_on (if set.https then start_secure_server s.files s.starts_https r3 else (r3, success))
          (λ r4. (r4, s.avahi)) in
      let secure' : (if set.https
            then start_secure_server s.files s.starts_https (half_up q)
            else (half_up q, success))
          ≡ (q', c) =
        rw https secure in
      ap (λ o. go_on o next) (start_unsecure_server-half_up q)
      ∙ ap (λ o. go_on o (λ r4. (r4, s.avahi))) secure'

  start_both-up :
      (q : Servers) (root key cert : Text) (n : ℕ)
      → load_file s.files.root_ca ≡ some root
      → load_file s.files.server_key ≡ some key
      → load_file s.files.server_cert ≡ some cert
      → s.starts_https ≡ true
      → s.avahi ≡ pos n
      → start_both set s q ≡ (up root key cert q, pos n)
  unfolding start_secure_server go_on value
  start_both-up q root key cert n root_is key_is cert_is starts_too avahi =
      let secure : start_secure_server s.files s.starts_https (half_up q)
          ≡ (up root key cert q, success) =
        rw (start_secure_server, root_is, key_is, cert_is, starts_too) refl in
      start_both-secure q (up root key cert q) success secure
      ∙ ap (λ v. (up root key cert q, v)) avahi

  -- What `pthread_join` waits for happens, and leaves no sessions.
  abbrev Frees : Servers → Type 0
  Frees q =
      (left : List EventQueue) × (free_server_sent_events_ressources (begin_wait q.web.sessions)
        ≡ some ((record { queues = []; global = none }, left), success))

  prepared-Frees : Frees (prepared s r)
  unfolding free_server_sent_events_ressources begin_wait thread_ends initiate_global_event_queue
      create_event_queue
  prepared-Frees = (exit_all r.web.sessions.queues, refl)

  stop_server-up :
      (q : Servers) (root key cert : Text)
      → Frees q
      → q.web.unsecure.services ≡ []
      → q.web.secure.services ≡ []
      → q.xml_file ≡ present
      → stop_server set (thread_waits (up root key cert q)) ≡ some (down q, success)
  unfolding stop_server stop_both stop_unsecure_server stop_secure_server free_services stop_daemon
      delete_xml
  stop_server-up q root key cert (left, frees) none_there none_secure made =
      rw
        (
          stop_server, frees, stop_both, http, stop_unsecure_server, free_services, none_there,
          https, stop_secure_server, none_secure, made, http,
        )
        refl

  stop_server-down : (q : Servers) → stop_server set (down q) ≡ none
  unfolding stop_server free_server_sent_events_ressources
  stop_server-down q = refl

  stop_server-early :
      (root key cert : Text) → stop_server set (up root key cert (prepared s r)) ≡ none
  unfolding stop_server free_server_sent_events_ressources thread_ends initiate_global_event_queue
      create_event_queue
  stop_server-early root key cert = refl

  -- Both servers are built in and none has a service, the certificates can be read, both daemons of
  -- libmicrohttpd start, and Avahi succeeds: the start returns Avahi's result, and both servers run.
  -- A stop once the thread of the global queue has come to its wait succeeds: both servers are
  -- stopped, and the XML tree and the texts of the certificates are freed. A second stop is a fault,
  -- and a stop before the thread waits never returns, because nothing wakes the thread.
  pub stop_server-start_server :
      (root key cert : Text) (n : ℕ)
      → load_file s.files.root_ca ≡ some root
      → load_file s.files.server_key ≡ some key
      → load_file s.files.server_cert ≡ some cert
      → s.starts_https ≡ true
      → s.avahi ≡ pos n
      → (r' r'' : Servers) × (start_server set s r ≡ (r', pos n))
        × ((r'.http_daemon ≡ present) × (r'.https_daemon ≡ present) × (r'.xml_file ≡ present))
        × ((r'.web.unsecure.started ≡ true) × (r'.web.secure.started ≡ true))
        × (stop_server set (thread_waits r') ≡ some (r'', success))
        × ((r''.http_daemon ≡ gone) × (r''.https_daemon ≡ gone) × (r''.xml_file ≡ gone))
        × ((r''.root_pem ≡ freed) × (r''.key_pem ≡ freed) × (r''.cert_pem ≡ freed))
        × (stop_server set r'' ≡ none)
        × (stop_server set r' ≡ none)
  unfolding init_xml_file
  stop_server-start_server root key cert n root_is key_is cert_is starts_too avahi =
      let q = prepared s r in
      (
        up root key cert q,
        down q,
        start_server-prepared set s r
            ∙ start_both-up q root key cert n root_is key_is cert_is starts_too avahi,
        (refl, refl, refl),
        (refl, refl),
        stop_server-up q root key cert prepared-Frees no_unsecure no_secure refl,
        (refl, refl, refl),
        (refl, refl, refl),
        stop_server-down q,
        stop_server-early root key cert,
      )

  stop_server-half_up :
      (q : Servers)
      → Frees q
      → q.web.unsecure.started ≡ true
      → q.web.unsecure.services ≡ []
      → q.http_daemon ≡ present
      → q.web.secure.started ≡ false
      → stop_server set (thread_waits q) ≡ none
  unfolding stop_server stop_both stop_unsecure_server stop_secure_server free_services stop_daemon
  stop_server-half_up q (left, frees) started none_there runs unstarted =
      rw
        (
          stop_server, frees, stop_both, http, stop_unsecure_server, started, free_services,
          none_there, stop_daemon, runs, https, stop_secure_server, unstarted,
        )
        refl

  -- Both servers are built in and none has a service, the daemon of the HTTP server starts, one of the
  -- certificates cannot be read, and the HTTPS server was never started: the start returns
  -- HPD_E_SSL_CERT_ERROR, but the HTTP server runs, and a stop of the servers, with the thread of the
  -- global queue at its wait, fails an assertion.
  pub start_server_fails :
      (load_file s.files.root_ca ≡ none)
        ⊎ (load_file s.files.server_key ≡ none)
        ⊎ (load_file s.files.server_cert ≡ none)
      → r.web.secure.started ≡ false
      → (r' : Servers) × (start_server set s r ≡ (r', negsuc 19))
        × (r'.http_daemon ≡ present)
        × (r'.web.unsecure.started ≡ true)
        × (stop_server set (thread_waits r') ≡ none)
  unfolding go_on value init_xml_file
  start_server_fails unreadable unstarted =
      let q = prepared s r in
      let (q', fails, same_web, same_daemon) =
        start_secure_server-fails s.files s.starts_https (half_up q) unreadable in
      let started : q'.web.unsecure.started ≡ true = ap (λ w. w.unsecure.started) same_web in
      (
        q',
        start_server-prepared set s r ∙ start_both-secure q q' ssl_cert_error fails,
        same_daemon,
        started,
        stop_server-half_up q'
            (subst (λ n. Frees (record r { web = n })) (sym same_web) prepared-Frees) started
            (ap (λ w. w.unsecure.services) same_web ∙ no_unsecure) same_daemon
            (ap (λ w. w.secure.started) same_web ∙ unstarted),
      )
