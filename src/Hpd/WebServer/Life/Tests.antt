-- ===== src/Hpd/WebServer/Life/Tests.antt =====
-- Runs of the start and the stop.
use home_automation_bridge_z.Prelude.{◌≡◌, refl, true, false, none, some, [], codes, inr, inl}
use home_automation_bridge_z.Hpd.Error.{success, pos, negsuc}
use home_automation_bridge_z.Hpd.Config.{null, freed}
use home_automation_bridge_z.Hpd.Services.{unused}
use home_automation_bridge_z.Hpd.WebServer.Register.{Setting}
use home_automation_bridge_z.Hpd.WebServer.Life.{
  Servers, Start, absent, present, gone, load_file, start_server, stop_server, thread_waits,
}
use home_automation_bridge_z.Hpd.WebServer.Life.Cycle.{stop_server-start_server, start_server_fails}

-- The servers before the first start.
abbrev before : Servers
before = record {
  web = record {
    heap = record {
      devices = λ d. unused;
      services = λ a. unused;
      type_of = λ a. a;
      strings = λ p. unused;
    };
    unsecure = record { services = []; started = false };
    secure = record { services = []; started = false };
    xml = record { tree = record { attributes = []; devices = [] }; file = none };
    sessions = record { queues = []; global = none };
  };
  http_daemon = absent;
  https_daemon = absent;
  xml_file = absent;
  root_pem = null;
  key_pem = null;
  cert_pem = null;
}

abbrev setting : Setting
setting = record { http = true; https = true; opens_device = true; opens = true; avahi = pos 0 }

abbrev start : Start
start = record {
  opens = true;
  session = codes "s0";
  starts_http = true;
  starts_https = true;
  files = record {
    root_ca = some (codes "root");
    server_key = some (codes "key");
    server_cert = some (codes "cert");
  };
  avahi = pos 0;
}

-- The file of the key is empty.
abbrev keyless : Start
keyless = record start { files = record start.files { server_key = some [] } }

loads_root : load_file start.files.root_ca ≡ some (codes "root")
unfolding load_file
loads_root = refl

loads_key : load_file start.files.server_key ≡ some (codes "key")
unfolding load_file
loads_key = refl

loads_cert : load_file start.files.server_cert ≡ some (codes "cert")
unfolding load_file
loads_cert = refl

no_key : load_file keyless.files.server_key ≡ none
unfolding load_file
no_key = refl

stop_server-start_server_example :
    (r' r'' : Servers) × (start_server setting start before ≡ (r', pos 0))
    × ((r'.http_daemon ≡ present) × (r'.https_daemon ≡ present) × (r'.xml_file ≡ present))
    × ((r'.web.unsecure.started ≡ true) × (r'.web.secure.started ≡ true))
    × (stop_server setting (thread_waits r') ≡ some (r'', success))
    × ((r''.http_daemon ≡ gone) × (r''.https_daemon ≡ gone) × (r''.xml_file ≡ gone))
    × ((r''.root_pem ≡ freed) × (r''.key_pem ≡ freed) × (r''.cert_pem ≡ freed))
    × (stop_server setting r'' ≡ none)
    × (stop_server setting r' ≡ none)
stop_server-start_server_example =
    stop_server-start_server setting start before refl refl refl refl refl (codes "root")
      (codes "key") (codes "cert") 0 loads_root loads_key loads_cert refl refl

start_server_fails_example :
    (r' : Servers) × (start_server setting keyless before ≡ (r', negsuc 19))
    × (r'.http_daemon ≡ present)
    × (r'.web.unsecure.started ≡ true)
    × (stop_server setting (thread_waits r') ≡ none)
start_server_fails_example =
    start_server_fails setting keyless before refl refl refl refl refl (inr (inl no_key)) refl
