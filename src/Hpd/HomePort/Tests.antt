-- ===== src/Hpd/HomePort/Tests.antt =====
-- Runs of the daemon's interface.
use home_automation_bridge_z.Prelude.{
  ◌≡◌, refl, true, false, Option, none, some, [], ◌∷◌, Text, codes,
}
use home_automation_bridge_z.Hpd.Error.{pos, negsuc, bad_parameter}
use home_automation_bridge_z.Hpd.Config.{null}
use home_automation_bridge_z.Hpd.Services.{unused}
use home_automation_bridge_z.Hpd.WebServer.Register.{Setting}
use home_automation_bridge_z.Hpd.WebServer.Life.{Servers, Start, absent}
use home_automation_bridge_z.Hpd.HomePort.{HomePort, log_option, parse_option_va}

-- The servers before the first start.
abbrev before : Servers
before = record {
  web = record {
    heap = record {
      devices = λ d. unused;
      services = λ a. unused;
      type_of = λ a. a;
      strings = λ p. unused;
    };
    unsecure = record { services = []; started = false };
    secure = record { services = []; started = false };
    xml = record { tree = record { attributes = []; devices = [] }; file = none };
    sessions = record { queues = []; global = none };
  };
  http_daemon = absent;
  https_daemon = absent;
  xml_file = absent;
  root_pem = null;
  key_pem = null;
  cert_pem = null;
}

abbrev setting : Setting
setting = record { http = true; https = true; opens_device = true; opens = true; avahi = pos 0 }

abbrev start : Start
start = record {
  opens = true;
  session = codes "s0";
  starts_http = true;
  starts_https = true;
  files = record {
    root_ca = some (codes "root");
    server_key = some (codes "key");
    server_cert = some (codes "cert");
  };
  avahi = pos 0;
}

abbrev home_port : HomePort
home_port = record {
  globals = record { hpd_daemon = null; cfg = null; hpd_log = null };
  servers = before;
}

-- Every file has its path as content.
abbrev read : Text → Option Text
read path = some path

-- The level of the log is tested before its size.
bad_level :
    parse_option_va true true (log_option (pos 3) (negsuc 0) ∷ []) home_port.globals
    ≡ some (home_port.globals, bad_parameter)
unfolding parse_option_va
bad_level = refl
