-- ===== src/Hpd/HomePort.antt =====
-- hpbridge/hpdaemon/homeport.c: the functions that a program calls, on the configuration and on the
-- servers. The arguments behind `hostname` are a list of options with their values.
pub mod Cycle
mod Tests
use home_automation_bridge_z.Prelude.{
  ℕ, Bool, true, false, negb, ◌||◌, Option, none, some, List, [], ◌∷◌, if◌then◌else◌, Text, ltb,
}
use home_automation_bridge_z.Hpd.Error.{
  Code, success, null_pointer, no_http, no_https, bad_parameter, missing_option, ℤ, pos, negsuc,
  int_eq, value,
}
use home_automation_bridge_z.Hpd.Config.{
  null, live, freed, Field, unwritten, holds, Daemon, Globals, Build, ConfigFile, store,
  init_daemon, config_file_init, config_deinit,
}
use home_automation_bridge_z.Hpd.WebServer.Register.{
  WebServer, Setting, Result, is_negative, register_service_in_server, get_service_from_server,
  get_device_from_server,
}
use home_automation_bridge_z.Hpd.WebServer.Unregister.{unregister_service_in_server}
use home_automation_bridge_z.Hpd.WebServer.Life.{Servers, Start, Files, start_server, stop_server}

-- The state of a program with the daemon.
pub record HomePort : Type 0 where
  pub globals : Globals
  pub servers : Servers

-- An option with its values; a path may be NULL.
pub data Opt : Type 0 where
  http_option : (port : ℤ) → Opt
  https_option : (port : ℤ) → (cert key root_ca : Option Text) → Opt
  log_option : (level size : ℤ) → Opt
  unrecognized : Opt

abbrev pub is_above_two : ℤ → Bool
is_above_two (pos n) = ltb 2 n
is_above_two (negsuc n) = false

-- The loop to HPD_OPTION_END. The values of HPD_OPTION_LOG are tested and go nowhere.
unfoldable pub parse_option_va : (http https : Bool) → List Opt → Globals → Option (Globals × Code)
parse_option_va http https [] g = some (g, success)
parse_option_va http https (http_option port ∷ more) g =
    if http
    then elim (store (λ d. record d { http_port = holds port }) g) [
      | none ↦ none
      | some g' ↦ parse_option_va http https more g'
    ]
    else some (g, no_http)
parse_option_va http https (https_option port cert key root ∷ more) g =
    let write : Daemon → Daemon = λ d. record d {
      https_port = holds port;
      server_cert_path = holds cert;
      server_key_path = holds key;
      root_ca_path = holds root;
    } in
    if https
    then elim (store write g) [ none ↦ none | some g' ↦ parse_option_va http https more g' ]
    else some (g, no_https)
parse_option_va http https (log_option level size ∷ more) g =
    let rest = parse_option_va http https more g in
    if is_negative level || is_above_two level
    then some (g, bad_parameter)
    else if is_negative size
    then some (g, bad_parameter)
    else rest
parse_option_va http https (unrecognized ∷ more) g = some (g, bad_parameter)

abbrev pub is_none : {A : Type 0} → Option A → Bool
is_none none = true
is_none (some a) = false

abbrev pub field : {A : Type 0} → Field A → Option A
field unwritten = none
field (holds a) = some a

infixl 5 ◌>>=◌
abbrev pub ◌>>=◌ : {A B : Type 0} → Option A → (A → Option B) → Option B
◌>>=◌ none next = none
◌>>=◌ (some a) next = next a

-- Whether a setting of the HTTPS server is missing.
unfoldable pub lacks_https : Daemon → Option Bool
lacks_https d = do
  port ← field d.https_port
  cert ← field d.server_cert_path
  key ← field d.server_key_path
  root ← field d.root_ca_path
  some (int_eq port (pos 0) || is_none cert || is_none key || is_none root)

-- What a start is called with: a file, some other option where a file is expected, or options.
pub data Source : Type 0 where
  from_file : (path : Bool) → ConfigFile → Source
  no_file : Source
  from_options : List Opt → Source

-- The settings are read, into the daemon's object.
unfoldable pub configure :
    Build → (http malloc_ok : Bool) → Source → Globals → Option (Globals × Code)
unfolding value
configure b http malloc_ok (from_file path file) g = config_file_init b path malloc_ok file g
configure b http malloc_ok no_file g = some (g, bad_parameter)
configure b http malloc_ok (from_options os) g = elim (parse_option_va http b.https os g) [
  | none ↦ none
  | some (g', rc) ↦
      if negb (int_eq (value rc) (pos 0))
      then some (g', rc)
      else if b.https
      then elim g'.hpd_daemon [
        | null ↦ none
        | live d ↦ elim (lacks_https d) [
          | none ↦ none
          | some true ↦ some (g', missing_option)
          | some false ↦ some (g', success)
        ]
        | freed ↦ none
      ]
      else some (g', success)
]

-- The files of the certificates under their paths.
unfoldable pub files_of : (read : Text → Option Text) → Daemon → Files
files_of read d =
    let at : Field (Option Text) → Option Text =
      λ f. elim (field f) [ none ↦ none | some none ↦ none | some (some path) ↦ read path ] in
    record {
      root_ca = at d.root_ca_path;
      server_key = at d.server_key_path;
      server_cert = at d.server_cert_path;
    }

-- The configuration, and the start of the servers.
unfoldable pub launch :
    Setting
    → Build
    → (malloc_ok : Bool) → Source
    → (read : Text → Option Text) → Start
    → HomePort
    → Option (HomePort × ℤ)
unfolding value
launch set b malloc_ok source read s h = elim (configure b set.http malloc_ok source h.globals) [
  | none ↦ none
  | some (g, rc) ↦
      if negb (int_eq (value rc) (pos 0))
      then some (record h { globals = g }, value rc)
      else elim g.hpd_daemon [
        | null ↦ none
        | live d ↦
            let (r, code) = start_server set (record s { files = files_of read d }) h.servers in
            some (record { globals = g; servers = r }, code)
        | freed ↦ none
      ]
]

-- `HPD_start`. Each of the two calls of `malloc` may fail.
unfoldable pub hpd_start :
    Setting
    → Build
    → (malloc_daemon malloc_ok : Bool) → (hostname : Option Text) → Source
    → (read : Text → Option Text) → Start
    → HomePort
    → Option (HomePort × ℤ)
unfolding value
hpd_start set b malloc_daemon malloc_ok hostname source read s h =
    let (g, rc) = init_daemon b malloc_daemon h.globals in
    if negb (int_eq (value rc) (pos 0))
    then some (record h { globals = g }, value rc)
    else if b.avahi_client
    then launch set b malloc_ok source read s (record h { globals = g })
    else elim hostname [
      | none ↦ some (record h { globals = g }, value null_pointer)
      | some name ↦ elim (store (λ d. record d { hostname = holds (some name) }) g) [
        | none ↦ none
        | some g' ↦ launch set b malloc_ok source read s (record h { globals = g' })
      ]
    ]

-- `HPD_stop`. What the configuration returns is not looked at.
unfoldable pub hpd_stop : Setting → HomePort → Option (HomePort × Code)
hpd_stop set h = elim (config_deinit h.globals) [
  | none ↦ none
  | some (g, rc) ↦ elim (stop_server set h.servers) [
    | none ↦ none
    | some (r, code) ↦ some (record { globals = g; servers = r }, code)
  ]
]

-- `HPD_register_service`, `HPD_unregister_service`
unfoldable pub hpd_register_service : Setting → Option ℕ → WebServer → Result
unfolding value
hpd_register_service set none w = some (w, value null_pointer)
hpd_register_service set (some a) w = register_service_in_server set a w

unfoldable pub hpd_unregister_service : Setting → Option ℕ → WebServer → Result
unfolding value
hpd_unregister_service set none w = some (w, value null_pointer)
hpd_unregister_service set (some a) w = unregister_service_in_server set a w

-- `HPD_get_service`, `HPD_get_device`: any of the texts may be NULL.
unfoldable pub hpd_get_service :
    Setting → (device_type device_id type id : Option Text) → WebServer → Option (Option ℕ)
hpd_get_service set (some device_type) (some device_id) (some type) (some id) w =
    get_service_from_server set
      (record {
        device_type = device_type;
        device_id = device_id;
        service_type = type;
        service_id = id;
      })
      w
hpd_get_service set a b c d w = some none

unfoldable pub hpd_get_device : Setting → (type id : Option Text) → WebServer → Option (Option ℕ)
hpd_get_device set (some type) (some id) w = get_device_from_server set type id w
hpd_get_device set a b w = some none
