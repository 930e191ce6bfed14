-- ===== src/Hpd/Config/Access.antt =====
-- hpbridge/hpdaemon/hpd_configure.c: the functions that set and get one setting.
-- A function that gets a setting also gives what it writes through its argument, which `out` says
-- is not NULL.
pub mod RoundTrip
use home_automation_bridge_z.Prelude.{
  zero, suc, Bool, true, false, Option, none, some, if◌then◌else◌, Text,
}
use home_automation_bridge_z.Hpd.Error.{
  Code, success, null_pointer, cfg_not_init, bad_parameter, no_http, no_https, ℤ, pos, negsuc,
}
use home_automation_bridge_z.Hpd.Config.{
  null, live, freed, Field, Daemon, Globals, Build, holds, is_null, store,
}

-- `a <= 0` on a C `int`.
abbrev pub not_positive : ℤ → Bool
not_positive (pos zero) = true
not_positive (pos (suc n)) = false
not_positive (negsuc n) = true

-- The setting is stored in a build with HTTPS.
abbrev store_https : Build → (Daemon → Daemon) → Globals → Option (Globals × Code)
store_https b f g =
    if b.https
    then elim (store f g) [ none ↦ none | some g' ↦ some (g', success) ]
    else some (g, no_https)

-- The setting is read in a build with HTTPS.
abbrev load_https : {A : Type 0} → Build → (Daemon → A) → Globals → Option (Code × Option A)
load_https b f g =
    if b.https
    then elim g.hpd_daemon [ null ↦ none | live d ↦ some (success, some (f d)) | freed ↦ none ]
    else some (no_https, none)

pub config_set_root_ca_path : Build → Option Text → Globals → Option (Globals × Code)
config_set_root_ca_path b none g = some (g, null_pointer)
config_set_root_ca_path b (some path) g =
    if is_null g.hpd_daemon
    then some (g, cfg_not_init)
    else store_https b (λ d. record d { root_ca_path = holds (some path) }) g

pub config_set_server_key_path : Build → Option Text → Globals → Option (Globals × Code)
config_set_server_key_path b none g = some (g, null_pointer)
config_set_server_key_path b (some path) g =
    if is_null g.hpd_daemon
    then some (g, cfg_not_init)
    else store_https b (λ d. record d { server_key_path = holds (some path) }) g

pub config_set_server_cert_path : Build → Option Text → Globals → Option (Globals × Code)
config_set_server_cert_path b none g = some (g, null_pointer)
config_set_server_cert_path b (some path) g =
    if is_null g.hpd_daemon
    then some (g, cfg_not_init)
    else store_https b (λ d. record d { server_cert_path = holds (some path) }) g

pub config_set_ssl_port : Build → ℤ → Globals → Option (Globals × Code)
config_set_ssl_port b port g =
    if not_positive port
    then some (g, bad_parameter)
    else if is_null g.hpd_daemon
    then some (g, cfg_not_init)
    else store_https b (λ d. record d { https_port = holds port }) g

-- Behind the assignment stands `return HPD_E_NO_HTTP`.
pub config_set_port : ℤ → Globals → Option (Globals × Code)
config_set_port port g =
    if not_positive port
    then some (g, bad_parameter)
    else if is_null g.hpd_daemon
    then some (g, cfg_not_init)
    else elim (store (λ d. record d { http_port = holds port }) g) [
      | none ↦ none
      | some g' ↦ some (g', no_http)
    ]

pub config_get_root_ca_path : Build → Bool → Globals → Option (Code × Option (Field (Option Text)))
config_get_root_ca_path b out g =
    if is_null g.hpd_daemon
    then some (cfg_not_init, none)
    else if out
    then load_https b (λ d. d.root_ca_path) g
    else some (null_pointer, none)

pub config_get_server_key_path :
    Build → Bool → Globals → Option (Code × Option (Field (Option Text)))
config_get_server_key_path b out g =
    if is_null g.hpd_daemon
    then some (cfg_not_init, none)
    else if out
    then load_https b (λ d. d.server_key_path) g
    else some (null_pointer, none)

pub config_get_server_cert_path :
    Build → Bool → Globals → Option (Code × Option (Field (Option Text)))
config_get_server_cert_path b out g =
    if is_null g.hpd_daemon
    then some (cfg_not_init, none)
    else if out
    then load_https b (λ d. d.server_cert_path) g
    else some (null_pointer, none)

pub config_get_ssl_port : Build → Bool → Globals → Option (Code × Option (Field ℤ))
config_get_ssl_port b out g =
    if out
    then if is_null g.hpd_daemon
      then some (cfg_not_init, none)
      else load_https b (λ d. d.https_port) g
    else some (null_pointer, none)

pub config_get_port : Bool → Globals → Option (Code × Option (Field ℤ))
config_get_port out g =
    if out
    then elim g.hpd_daemon [
      | null ↦ some (cfg_not_init, none)
      | live d ↦ some (success, some d.http_port)
      | freed ↦ none
    ]
    else some (null_pointer, none)
