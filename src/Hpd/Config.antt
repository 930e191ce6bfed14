-- ===== src/Hpd/Config.antt =====
-- hpbridge/hpdaemon/hpd_configure.c: the configuration of the daemon, with the creation and the
-- destruction of the log that hpd_log.c does for it. The three global pointers are the state.
-- A result `none` is a use of a freed object, or of a NULL pointer. libconfig is a parameter: what
-- it reads from the file and what it finds there under a key.
pub mod Access
pub mod Init
pub mod Cycle
mod Tests
use home_automation_bridge_z.Prelude.{
  ℕ, Bool, true, false, Option, none, some, if◌then◌else◌, Text, codes, ◌||◌, ◌==◌,
}
use home_automation_bridge_z.Hpd.Error.{
  Code, success, null_pointer, cfg_not_init, cfg_file_error, malloc_error, bad_parameter, no_http,
  no_https, log_already_exist, ℤ, pos, negsuc,
}
use Prim.Native.String.{String}

-- A global pointer; `freed` still has the address of an object that is gone.
pub data Ptr (A : Type 0) : Type 0 where
  null : Ptr A
  live : A → Ptr A
  freed : Ptr A

-- A field of an object; nothing was written to it yet, or a value was.
pub data Field (A : Type 0) : Type 0 where
  unwritten : Field A
  holds : A → Field A

-- A path is a `char *`, `none` for NULL.
pub record Daemon : Type 0 where
  pub hostname : Field (Option Text)
  pub http_port : Field ℤ
  pub https_port : Field ℤ
  pub server_cert_path : Field (Option Text)
  pub server_key_path : Field (Option Text)
  pub root_ca_path : Field (Option Text)

pub record Log : Type 0 where
  pub max_log_size : ℤ
  pub log_level : ℤ

pub data Cfg : Type 0 where
  config : Cfg

pub record Globals : Type 0 where
  pub hpd_daemon : Ptr Daemon
  pub cfg : Ptr Cfg
  pub hpd_log : Ptr Log

-- The flags HPD_HTTPS and AVAHI_CLIENT of the build.
pub record Build : Type 0 where
  pub https : Bool
  pub avahi_client : Bool

-- libconfig on one file: whether it can be read, and the values of its keys.
pub record ConfigFile : Type 0 where
  pub reads : Bool
  pub lookup_string : String → Option Text
  pub lookup_int : String → Option ℤ

abbrev pub is_null : {A : Type 0} → Ptr A → Bool
is_null null = true
is_null (live a) = false
is_null freed = false

abbrev pub free : {A : Type 0} → Ptr A → Option (Ptr A)
free null = some null
free (live a) = some freed
free freed = none

-- A write through the pointer to the daemon.
abbrev pub store : (Daemon → Daemon) → Globals → Option Globals
store f g = elim g.hpd_daemon [
  | null ↦ none
  | live d ↦ some (record g { hpd_daemon = live (f d) })
  | freed ↦ none
]

-- `malloc_ok` is whether `malloc` returns an object.
unfoldable pub init_daemon : Build → Bool → Globals → Globals × Code
init_daemon b false g = (record g { hpd_daemon = null }, malloc_error)
init_daemon b true g =
    let d : Daemon = record {
      hostname = if b.avahi_client then unwritten else holds none;
      http_port = holds (pos 0);
      https_port = if b.https then holds (pos 0) else unwritten;
      server_cert_path = if b.https then holds none else unwritten;
      server_key_path = if b.https then holds none else unwritten;
      root_ca_path = if b.https then holds none else unwritten;
    } in
    (record g { hpd_daemon = live d }, success)

-- The file of the log and its mutex are not modelled.
pub init_hpd_log : ℤ → ℤ → Globals → Globals × Code
init_hpd_log size level g =
    if is_null g.hpd_log
    then (record g { hpd_log = live (record { max_log_size = size; log_level = level }) }, success)
    else (g, log_already_exist)

unfoldable pub destroy_hpd_log : Globals → Option Globals
destroy_hpd_log g = elim g.hpd_log [
  | null ↦ some g
  | live l ↦ some (record g { hpd_log = freed })
  | freed ↦ none
]

-- A setting is missing: the configuration and the daemon are freed, and no pointer is reset.
abbrev pub fail : Globals → Option (Globals × Code)
fail g = elim (free g.hpd_daemon) [
  | none ↦ none
  | some d ↦ some (record g { hpd_daemon = d; cfg = freed }, cfg_file_error)
]

-- A key is looked up, its value is stored in the daemon, and the rest runs; or the function fails.
abbrev pub lookup :
    {A : Type 0}
    → Option A
    → (A → Daemon → Daemon)
    → (Globals → Option (Globals × Code))
    → Globals
    → Option (Globals × Code)
lookup none put next g = fail g
lookup (some a) put next g = elim (store (put a) g) [ none ↦ none | some g' ↦ next g' ]

-- The log's settings are looked up into two variables of the function.
pub log_settings : Option ℤ → Option ℤ → Globals → Option (Globals × Code)
log_settings none level g = fail g
log_settings (some size) none g = fail g
log_settings (some size) (some level) g = some ((init_hpd_log size level g).0, success)

pub read_log : ConfigFile → Globals → Option (Globals × Code)
read_log file =
    log_settings (file.lookup_int "hpdlog.max_log_size") (file.lookup_int "hpdlog.log_level")

pub read_http : ConfigFile → Globals → Option (Globals × Code)
read_http file =
    lookup (file.lookup_int "hpdaemon.http_port") (λ p d. record d { http_port = holds p })
      (read_log file)

pub read_https : ConfigFile → Globals → Option (Globals × Code)
read_https file =
    lookup (file.lookup_string "hpdaemon.root_ca_file_path")
      (λ s d. record d { root_ca_path = holds (some s) })
      (lookup (file.lookup_string "hpdaemon.server_key_file_path")
        (λ s d. record d { server_key_path = holds (some s) })
        (lookup (file.lookup_string "hpdaemon.server_certificate_file_path")
          (λ s d. record d { server_cert_path = holds (some s) })
          (lookup (file.lookup_int "hpdaemon.https_port") (λ p d. record d { https_port = holds p })
            (read_http file))))

-- Behind the allocation of the configuration.
pub read_file : Build → ConfigFile → Globals → Option (Globals × Code)
read_file b file g =
    if file.reads then if b.https then read_https file g else read_http file g else fail g

-- `path` is whether a path was given.
unfoldable pub config_file_init :
    Build → Bool → Bool → ConfigFile → Globals → Option (Globals × Code)
config_file_init b path malloc_ok file g =
    if path
    then if is_null g.hpd_daemon
      then some (g, cfg_not_init)
      else if malloc_ok
      then read_file b file (record g { cfg = live config })
      else elim (free g.hpd_daemon) [
        | none ↦ none
        | some d ↦ some (record g { hpd_daemon = d; cfg = null }, malloc_error)
      ]
    else some (g, null_pointer)

pub config_default_init : Build → Globals → Option (Globals × Code)
config_default_init b g =
    let write : Daemon → Daemon = λ d. record d {
      root_ca_path = if b.https then holds (some (codes "./CA_root_cert.pem")) else d.root_ca_path;
      server_key_path = if b.https then holds (some (codes "./server.key")) else d.server_key_path;
      server_cert_path =
          if b.https then holds (some (codes "./server.pem")) else d.server_cert_path;
      https_port = if b.https then holds (pos 443) else d.https_port;
      http_port = holds (pos 80);
    } in
    if is_null g.hpd_daemon then some (g, cfg_not_init) else elim (store write g) [
      | none ↦ none
      | some g' ↦ some ((init_hpd_log (pos 2048) (pos 1) g').0, success)
    ]

-- `config_destroy` and `free` use the configuration if its pointer is not NULL; it is not reset.
unfoldable pub config_deinit : Globals → Option (Globals × Code)
config_deinit g = elim (destroy_hpd_log g) [
  | none ↦ none
  | some g₁ ↦ if is_null g₁.hpd_daemon then some (g₁, cfg_not_init) else elim (free g₁.hpd_daemon) [
    | none ↦ none
    | some d ↦ elim (free g₁.cfg) [
      | none ↦ none
      | some c ↦ some (record g₁ { hpd_daemon = null; cfg = c }, success)
    ]
  ]
]
