-- ===== src/Hpd/Config/Access/RoundTrip.antt =====
-- Settings that are set and got.
use home_automation_bridge_z.Prelude.{
  ℕ, suc, ◌≡◌, ◌≢◌, refl, Bool, true, false, Option, none, some, arith, Bool-cases, inl, inr, Text,
}
use home_automation_bridge_z.Hpd.Error.{Code, success, no_http, no_https, ℤ, pos}
use home_automation_bridge_z.Hpd.Config.{live, Field, holds, Daemon, Globals, Build}
use home_automation_bridge_z.Hpd.Config.Access.{
  not_positive, config_set_root_ca_path, config_set_server_key_path, config_set_server_cert_path,
  config_set_ssl_port, config_set_port, config_get_root_ca_path, config_get_server_key_path,
  config_get_server_cert_path, config_get_ssl_port, config_get_port,
}

-- The three paths of a build with HTTPS.
pub data Setting : Type 0 where
  root_ca server_key server_cert : Setting

abbrev pub set_path : Setting → Build → Option Text → Globals → Option (Globals × Code)
set_path root_ca = config_set_root_ca_path
set_path server_key = config_set_server_key_path
set_path server_cert = config_set_server_cert_path

abbrev pub get_path :
    Setting → Build → Bool → Globals → Option (Code × Option (Field (Option Text)))
get_path root_ca = config_get_root_ca_path
get_path server_key = config_get_server_key_path
get_path server_cert = config_get_server_cert_path

-- In a build with HTTPS, with the daemon initialised, a path that is set is the one that is got,
-- and the other paths and both ports are got as before.
pub get_path-set_path :
    (b : Build) (g : Globals) (d : Daemon) (s : Setting) (path : Text)
    → b.https ≡ true
    → g.hpd_daemon ≡ live d
    → (g' : Globals) × (set_path s b (some path) g ≡ some (g', success))
      × (get_path s b true g' ≡ some (success, some (holds (some path))))
      × ((s' : Setting) → s' ≢ s → get_path s' b true g' ≡ get_path s' b true g)
      × (config_get_ssl_port b true g' ≡ config_get_ssl_port b true g)
      × (config_get_port true g' ≡ config_get_port true g)
unfolding config_set_root_ca_path config_set_server_key_path config_set_server_cert_path
    config_get_root_ca_path config_get_server_key_path config_get_server_cert_path
    config_get_ssl_port config_get_port
get_path-set_path b g d root_ca path with_https is_live = (
  record g { hpd_daemon = live (record d { root_ca_path = holds (some path) }) },
  rw (with_https, is_live) refl,
  rw with_https refl,
  (λ s' ne.
      elim s'
          as (λ s'.
            s' ≢ root_ca
            → get_path s' b true
                (record g { hpd_daemon = live (record d { root_ca_path = holds (some path) }) })
              ≡ get_path s' b true g) [
                | root_ca ↦ λ ne. absurd (ne refl)
                | server_key ↦ λ ne. rw (with_https, is_live) refl
                | server_cert ↦ λ ne. rw (with_https, is_live) refl
              ]
        ne),
  rw (with_https, is_live) refl,
  rw is_live refl,
)
get_path-set_path b g d server_key path with_https is_live = (
  record g { hpd_daemon = live (record d { server_key_path = holds (some path) }) },
  rw (with_https, is_live) refl,
  rw with_https refl,
  (λ s' ne.
      elim s'
          as (λ s'.
            s' ≢ server_key
            → get_path s' b true
                (record g { hpd_daemon = live (record d { server_key_path = holds (some path) }) })
              ≡ get_path s' b true g) [
                | root_ca ↦ λ ne. rw (with_https, is_live) refl
                | server_key ↦ λ ne. absurd (ne refl)
                | server_cert ↦ λ ne. rw (with_https, is_live) refl
              ]
        ne),
  rw (with_https, is_live) refl,
  rw is_live refl,
)
get_path-set_path b g d server_cert path with_https is_live = (
  record g { hpd_daemon = live (record d { server_cert_path = holds (some path) }) },
  rw (with_https, is_live) refl,
  rw with_https refl,
  (λ s' ne.
      elim s'
          as (λ s'.
            s' ≢ server_cert
            → get_path s' b true
                (record g { hpd_daemon = live (record d { server_cert_path = holds (some path) }) })
              ≡ get_path s' b true g) [
                | root_ca ↦ λ ne. rw (with_https, is_live) refl
                | server_key ↦ λ ne. rw (with_https, is_live) refl
                | server_cert ↦ λ ne. absurd (ne refl)
              ]
        ne),
  rw (with_https, is_live) refl,
  rw is_live refl,
)

config_set_port-never : (port : ℤ) (g g' : Globals) → config_set_port port g ≢ some (g', success)
unfolding config_set_port
config_set_port-never port g g' done = elim (Bool-cases (not_positive port)) [
  | inl bad ↦ ground arith
  | inr good ↦ ground arith
]

-- With the daemon initialised, a positive HTTP port that is set is the one that is got, and the
-- result of setting it is an error all the same: no call of `HPD_config_set_port` ever gives
-- success.
pub config_set_port-no_http :
    (g : Globals) (d : Daemon) (n : ℕ)
    → g.hpd_daemon ≡ live d
    → (g' : Globals) × (config_set_port (pos (suc n)) g ≡ some (g', no_http))
      × (config_get_port true g' ≡ some (success, some (holds (pos (suc n)))))
      × ((port : ℤ) (g₁ g₂ : Globals) → config_set_port port g₁ ≢ some (g₂, success))
unfolding config_set_port config_get_port
config_set_port-no_http g d n is_live = (
  record g { hpd_daemon = live (record d { http_port = holds (pos (suc n)) }) },
  rw is_live refl,
  refl,
  config_set_port-never,
)

-- Without HTTPS no setting of HTTPS changes anything, and the result says that there is no HTTPS.
pub set_path-no_https :
    (b : Build) (g : Globals) (d : Daemon) (s : Setting) (path : Text) (n : ℕ)
    → b.https ≡ false
    → g.hpd_daemon ≡ live d
    → (set_path s b (some path) g ≡ some (g, no_https))
      × (get_path s b true g ≡ some (no_https, none))
      × (config_set_ssl_port b (pos (suc n)) g ≡ some (g, no_https))
      × (config_get_ssl_port b true g ≡ some (no_https, none))
unfolding config_set_root_ca_path config_set_server_key_path config_set_server_cert_path
    config_get_root_ca_path config_get_server_key_path config_get_server_cert_path
    config_get_ssl_port config_set_ssl_port
set_path-no_https b g d root_ca path n no_it is_live = (
  rw (no_it, is_live) refl,
  rw (no_it, is_live) refl,
  rw (no_it, is_live) refl,
  rw (no_it, is_live) refl,
)
set_path-no_https b g d server_key path n no_it is_live = (
  rw (no_it, is_live) refl,
  rw (no_it, is_live) refl,
  rw (no_it, is_live) refl,
  rw (no_it, is_live) refl,
)
set_path-no_https b g d server_cert path n no_it is_live = (
  rw (no_it, is_live) refl,
  rw (no_it, is_live) refl,
  rw (no_it, is_live) refl,
  rw (no_it, is_live) refl,
)
