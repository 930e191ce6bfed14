-- ===== src/Hpd/Config/Cycle.antt =====
-- The configuration over several calls of initialisation and deinitialisation.
use home_automation_bridge_z.Prelude.{
  inl, inr, arith, ◌≡◌, refl, ◌∙◌, true, false, Option, none, some,
}
use home_automation_bridge_z.Hpd.Error.{Code, success, cfg_file_error}
use home_automation_bridge_z.Hpd.Config.{
  Ptr, null, live, freed, Daemon, Log, Globals, Build, ConfigFile, init_hpd_log, destroy_hpd_log,
  init_daemon, config_default_init, config_deinit, config_file_init,
}
use home_automation_bridge_z.Hpd.Config.Init.{complete, config_file_init-Ends}

config_deinit-freed :
    (g : Globals) (l : Ptr Log) → g.hpd_log ≡ l → g.hpd_daemon ≡ freed → config_deinit g ≡ none
unfolding config_deinit destroy_hpd_log
config_deinit-freed g null log gone = rw (log, gone) refl
config_deinit-freed g (live l) log gone = rw (log, gone) refl
config_deinit-freed g freed log gone = rw log refl

-- With the daemon initialised, after a configuration file that cannot be read or is not complete,
-- deinitialisation uses an object that is freed already.
pub config_file_init-config_deinit :
    (b : Build) (file : ConfigFile) (g : Globals) (d : Daemon)
    → g.hpd_daemon ≡ live d
    → complete b file ≡ false
    → (g' : Globals) × (config_file_init b true true file g ≡ some (g', cfg_file_error))
      × (config_deinit g' ≡ none)
config_file_init-config_deinit b file g d is_live lacks =
    let (g', run, ends) = config_file_init-Ends b file g d is_live in
    elim ends [
      | inl (is_complete, alive, same, log) ↦ absurd (ground (arith, lacks, is_complete))
      | inr (lack, gone, cfg_gone, log) ↦
          (g', run ∙ rw lacks refl, config_deinit-freed g' g'.hpd_log refl gone)
    ]

-- One cycle: the daemon is made, gets its default settings and is deinitialised.
abbrev pub and_then :
    Option (Globals × Code) → (Globals → Option (Globals × Code)) → Option (Globals × Code)
and_then none f = none
and_then (some (g, c)) f = f g

abbrev pub cycle : Build → Globals → Option (Globals × Code)
cycle b g = and_then (config_default_init b (init_daemon b true g).0) config_deinit

cycle-first :
    (b : Build) (p : Ptr Daemon)
    → cycle b (record { hpd_daemon = p; cfg = null; hpd_log = null })
      ≡ some (record { hpd_daemon = null; cfg = null; hpd_log = freed }, success)
unfolding config_deinit destroy_hpd_log init_daemon config_default_init init_hpd_log
cycle-first b p = refl
