-- ===== src/Hpd/HomePort/Cycle.antt =====
-- A start of the daemon with options, and its stop.
use home_automation_bridge_z.Prelude.{some, Text}
use home_automation_bridge_z.Hpd.Error.{ℤ}
use home_automation_bridge_z.Hpd.Config.{holds, Daemon}
use home_automation_bridge_z.Hpd.HomePort.{HomePort}

-- The daemon's object after both options.
abbrev pub set_up : (hostname : Text) → (port https_port : ℤ) → (cert key root : Text) → Daemon
set_up hostname port https_port cert key root = record {
  hostname = holds (some hostname);
  http_port = holds port;
  https_port = holds https_port;
  server_cert_path = holds (some cert);
  server_key_path = holds (some key);
  root_ca_path = holds (some root);
}
