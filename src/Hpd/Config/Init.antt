-- ===== src/Hpd/Config/Init.antt =====
-- What `HPD_config_file_init` does with a file.
use home_automation_bridge_z.Prelude.{
  ◌⊎◌, ◌≡◌, refl, Bool, true, false, ◌&&◌, Option, none, some, if◌then◌else◌, Bool-cases, inl, inr,
}
use home_automation_bridge_z.Hpd.Error.{Code, success, cfg_file_error, ℤ}
use home_automation_bridge_z.Hpd.Config.{
  Ptr, live, freed, Field, holds, Daemon, Log, config, Globals, Build, ConfigFile, is_null,
  init_hpd_log, fail, lookup, log_settings, read_log, read_http, read_https, read_file,
  config_file_init,
}

abbrev is_some : {A : Type 0} → Option A → Bool
is_some none = false
is_some (some a) = true

-- A field after a key was looked up for it.
abbrev kept : {A B : Type 0} → (A → B) → Option A → Field B → Field B
kept f none old = old
kept f (some a) old = holds (f a)

-- The log after its settings were looked up: a log that there was stays.
abbrev pub logged : Option ℤ → Option ℤ → Ptr Log → Ptr Log
logged none level before = before
logged (some size) none before = before
logged (some size) (some level) before =
    if is_null before then live (record { max_log_size = size; log_level = level }) else before

-- How a call ends that began with `g`, with the log's settings `o` and `o'` in the file: well, with
-- the daemon `d`; or badly.
abbrev pub Ends : Option ℤ → Option ℤ → Bool → Daemon → Globals → Option (Globals × Code) → Type 0
Ends o o' ok d g r =
    (g' : Globals) × (r ≡ some (g', if ok then success else cfg_file_error))
    × (((ok ≡ true)
          × (g'.hpd_daemon ≡ live d)
          × (g'.cfg ≡ g.cfg)
          × (g'.hpd_log ≡ logged o o' g.hpd_log))
        ⊎ ((ok ≡ false) × (g'.hpd_daemon ≡ freed) × (g'.cfg ≡ freed) × (g'.hpd_log ≡ g.hpd_log)))

module _ (size level : Option ℤ) where
  fail-Ends :
      (d d' : Daemon) (g : Globals) → g.hpd_daemon ≡ live d → Ends size level false d' g (fail g)
  fail-Ends d d' g is_live =
      (record g { hpd_daemon = freed; cfg = freed }, rw is_live refl, inr (refl, refl, refl, refl))

  lookup-Ends :
      {A : Type 0}
      → (o : Option A) (put : A → Daemon → Daemon) (put' : Option A → Daemon → Daemon)
        (next : Globals → Option (Globals × Code)) (ok : Bool) (rest : Daemon → Daemon)
      → ((a : A) (d₁ : Daemon) → put' (some a) d₁ ≡ put a d₁)
      → ((g₁ : Globals) (d₁ : Daemon)
          → g₁.hpd_daemon ≡ live d₁
          → Ends size level ok (rest d₁) g₁ (next g₁))
      → (g : Globals) (d : Daemon) → g.hpd_daemon ≡ live d
      → Ends size level (is_some o && ok) (rest (put' o d)) g (lookup o put next g)
  lookup-Ends none put put' next ok rest same later g d is_live =
      fail-Ends d (rest (put' none d)) g is_live
  lookup-Ends (some a) put put' next ok rest same later g d is_live =
      rw (is_live, same) (later (record g { hpd_daemon = live (put a d) }) (put a d) refl)

log_settings-Ends :
    (size level : Option ℤ) (g : Globals) (d : Daemon)
    → g.hpd_daemon ≡ live d
    → Ends size level (is_some size && is_some level) d g (log_settings size level g)
unfolding log_settings init_hpd_log
log_settings-Ends none level g d is_live = fail-Ends none level d d g is_live
log_settings-Ends (some size) none g d is_live = fail-Ends (some size) none d d g is_live
log_settings-Ends (some size) (some level) g d is_live = elim (Bool-cases (is_null g.hpd_log)) [
  | inl is_new ↦ (
    record g { hpd_log = live (record { max_log_size = size; log_level = level }) },
    rw is_new refl,
    inl (refl, is_live, refl, rw is_new refl),
  )
  | inr is_old ↦ (g, rw is_old refl, inl (refl, is_live, refl, rw is_old refl))
]

-- The keys that a build needs without HTTPS, and with it.
abbrev complete_http : ConfigFile → Bool
complete_http file =
    is_some (file.lookup_int "hpdaemon.http_port")
    && (is_some (file.lookup_int "hpdlog.max_log_size")
        && is_some (file.lookup_int "hpdlog.log_level"))

abbrev complete_https : ConfigFile → Bool
complete_https file =
    is_some (file.lookup_string "hpdaemon.root_ca_file_path")
    && (is_some (file.lookup_string "hpdaemon.server_key_file_path")
        && (is_some (file.lookup_string "hpdaemon.server_certificate_file_path")
            && (is_some (file.lookup_int "hpdaemon.https_port") && complete_http file)))

-- Whether the file can be read and has every key that the build needs.
abbrev pub complete : Build → ConfigFile → Bool
complete b file = file.reads && (if b.https then complete_https file else complete_http file)

abbrev configured_http : ConfigFile → Daemon → Daemon
configured_http file d = record d {
  http_port = kept (λ p. p) (file.lookup_int "hpdaemon.http_port") d.http_port;
}

abbrev configured_https : ConfigFile → Daemon → Daemon
configured_https file d = record d {
  root_ca_path = kept some (file.lookup_string "hpdaemon.root_ca_file_path") d.root_ca_path;
  server_key_path =
      kept some (file.lookup_string "hpdaemon.server_key_file_path") d.server_key_path;
  server_cert_path =
      kept some (file.lookup_string "hpdaemon.server_certificate_file_path") d.server_cert_path;
  https_port = kept (λ p. p) (file.lookup_int "hpdaemon.https_port") d.https_port;
  http_port = kept (λ p. p) (file.lookup_int "hpdaemon.http_port") d.http_port;
}

-- The daemon with the file's values.
abbrev pub configured : Build → ConfigFile → Daemon → Daemon
configured b file d = if b.https then configured_https file d else configured_http file d

read_http-Ends :
    (file : ConfigFile) (g : Globals) (d : Daemon)
    → g.hpd_daemon ≡ live d
    → Ends
        (file.lookup_int "hpdlog.max_log_size")
        (file.lookup_int "hpdlog.log_level")
        (complete_http file)
        (configured_http file d)
        g
        (read_http file g)
unfolding read_http read_log
read_http-Ends file g d is_live =
    let size = file.lookup_int "hpdlog.max_log_size" in
    let level = file.lookup_int "hpdlog.log_level" in
    lookup-Ends size level (file.lookup_int "hpdaemon.http_port")
      (λ p d. record d { http_port = holds p })
      (λ o d. record d { http_port = kept (λ p. p) o d.http_port }) (log_settings size level)
      (is_some size && is_some level) (λ d. d) (λ a d. refl) (log_settings-Ends size level) g d
      is_live

read_https-Ends :
    (file : ConfigFile) (g : Globals) (d : Daemon)
    → g.hpd_daemon ≡ live d
    → Ends
        (file.lookup_int "hpdlog.max_log_size")
        (file.lookup_int "hpdlog.log_level")
        (complete_https file)
        (configured_https file d)
        g
        (read_https file g)
unfolding read_https
read_https-Ends file g d is_live =
    let size = file.lookup_int "hpdlog.max_log_size" in
    let level = file.lookup_int "hpdlog.log_level" in
    let port =
      lookup-Ends size level (file.lookup_int "hpdaemon.https_port")
        (λ p d. record d { https_port = holds p })
        (λ o d. record d { https_port = kept (λ p. p) o d.https_port }) _ _ _ (λ a d. refl)
        (read_http-Ends file) in
    let cert =
      lookup-Ends size level (file.lookup_string "hpdaemon.server_certificate_file_path")
        (λ s d. record d { server_cert_path = holds (some s) })
        (λ o d. record d { server_cert_path = kept some o d.server_cert_path }) _ _ _ (λ a d. refl)
        port in
    let key =
      lookup-Ends size level (file.lookup_string "hpdaemon.server_key_file_path")
        (λ s d. record d { server_key_path = holds (some s) })
        (λ o d. record d { server_key_path = kept some o d.server_key_path }) _ _ _ (λ a d. refl)
        cert in
    lookup-Ends size level (file.lookup_string "hpdaemon.root_ca_file_path")
      (λ s d. record d { root_ca_path = holds (some s) })
      (λ o d. record d { root_ca_path = kept some o d.root_ca_path }) _ _ _ (λ a d. refl) key g d
      is_live

read_file-Ends :
    (b : Build) (file : ConfigFile) (g : Globals) (d : Daemon)
    → g.hpd_daemon ≡ live d
    → Ends
        (file.lookup_int "hpdlog.max_log_size")
        (file.lookup_int "hpdlog.log_level")
        (complete b file)
        (configured b file d)
        g
        (read_file b file g)
unfolding read_file read_https read_http read_log
read_file-Ends b file g d is_live =
    let size = file.lookup_int "hpdlog.max_log_size" in
    let level = file.lookup_int "hpdlog.log_level" in
    elim (Bool-cases file.reads) [
      | inl r ↦ elim (Bool-cases b.https) [
        | inl h ↦ rw (r, h, read_file) (read_https-Ends file g d is_live)
        | inr h ↦ rw (r, h, read_file) (read_http-Ends file g d is_live)
      ]
      | inr r ↦ rw (r, read_file) (fail-Ends size level d (configured b file d) g is_live)
    ]

-- With the daemon initialised, a path given and enough memory, a file with every key that the
-- build needs gives success, and the daemon and a log that was not there have its values. On a
-- file that cannot be read or lacks one of these keys the result is an error, and the pointers to
-- the daemon and to the configuration are left with freed objects.
pub config_file_init-Ends :
    (b : Build) (file : ConfigFile) (g : Globals) (d : Daemon)
    → g.hpd_daemon ≡ live d
    → Ends
        (file.lookup_int "hpdlog.max_log_size")
        (file.lookup_int "hpdlog.log_level")
        (complete b file)
        (configured b file d)
        (record g { cfg = live config })
        (config_file_init b true true file g)
unfolding config_file_init
config_file_init-Ends b file g d is_live =
    rw is_live (read_file-Ends b file (record g { hpd_daemon = live d; cfg = live config }) d refl)
