-- ===== src/Hpd/Config/Tests.antt =====
-- Runs of the configuration.
use home_automation_bridge_z.Prelude.{◌≡◌, refl, true, false, some, none, Text, codes}
use home_automation_bridge_z.Hpd.Error.{cfg_file_error, pos}
use home_automation_bridge_z.Hpd.Config.{
  null, live, holds, Daemon, Globals, Build, ConfigFile, config, config_file_init, config_deinit,
}
use home_automation_bridge_z.Hpd.Config.Init.{Ends, complete, configured, config_file_init-Ends}
use home_automation_bridge_z.Hpd.Config.Cycle.{config_file_init-config_deinit}

abbrev with_https : Build
with_https = record { https = true; avahi_client = false }

abbrev plain : Build
plain = record { https = false; avahi_client = false }

-- A file with every key, and one that cannot be read.
abbrev good_file : ConfigFile
good_file = record {
  reads = true;
  lookup_string = λ key. some (codes "./cert.pem");
  lookup_int = λ key. some (pos 8080);
}

abbrev no_file : ConfigFile
no_file = record good_file { reads = false }

abbrev daemon : Daemon
daemon = record {
  hostname = holds none;
  http_port = holds (pos 0);
  https_port = holds (pos 0);
  server_cert_path = holds none;
  server_key_path = holds none;
  root_ca_path = holds none;
}

abbrev at_start : Globals
at_start = record { hpd_daemon = null; cfg = null; hpd_log = null }

abbrev made : Globals
made = record at_start { hpd_daemon = live daemon }

abbrev path : Text
path = codes "./ca.pem"

config_file_init-Ends_example :
    Ends
      (good_file.lookup_int "hpdlog.max_log_size")
      (good_file.lookup_int "hpdlog.log_level")
      (complete with_https good_file)
      (configured with_https good_file daemon)
      (record made { cfg = live config })
      (config_file_init with_https true true good_file made)
config_file_init-Ends_example = config_file_init-Ends with_https good_file made daemon refl

config_file_init-config_deinit_example :
    (g' : Globals) × (config_file_init with_https true true no_file made
      ≡ some (g', cfg_file_error))
    × (config_deinit g' ≡ none)
config_file_init-config_deinit_example =
    config_file_init-config_deinit with_https no_file made daemon refl refl
