-- ===== src/Hpd/WebServer/Tests.antt =====
-- Runs of the web servers.
use home_automation_bridge_z.Prelude.{
  ℕ, ◌≡◌, ◌≢◌, refl, arith, true, false, Option, none, some, [], ◌∷◌, ◌==◌, if◌then◌else◌, Text,
  codes, str_eq, inl, map, List, sym, ap, subst, ◌∙◌,
}
use home_automation_bridge_z.Hpd.Error.{pos, negsuc, hpd_yes}
use home_automation_bridge_z.Hpd.Events.{EventQueue, chars}
use home_automation_bridge_z.Hpd.Services.{
  Heap, Device, Service, live, unused, deref, matching_service,
}
use home_automation_bridge_z.Hpd.Xml.{
  XmlFile, service_is_in_xml_file, get_xml_node_of_device, find_node, find_service, is_node_of,
  device_attributes, service_attributes, set_attr, get_attr, service_node,
}
use home_automation_bridge_z.Hpd.Xml.Document.{
  Node, element, text, cons, nil, get_xml_value, value_document, get_value_from_xml_value,
  find_element, first_text,
}
use home_automation_bridge_z.Hpd.Xml.Inventory.{nodes, known, held, some_of}
use home_automation_bridge_z.Hpd.ServerSentEvents.{Sessions, consume_global_event_queue}
use home_automation_bridge_z.Hpd.ServerSentEvents.Notify.{notified}
use home_automation_bridge_z.Hpd.ServerSentEvents.Publish.{
  Message, value_change, log_line, received, IsRunning,
}
use home_automation_bridge_z.Hpd.ServerSentEvents.Stream.{no_reply}
use home_automation_bridge_z.Hpd.WebServer.{ServiceList, key_of, same_key, find_listed}
use home_automation_bridge_z.Hpd.WebServer.Answer.{
  answer_to_connection, secure_answer_to_connection,
}
use home_automation_bridge_z.Hpd.WebServer.Reply.{
  nothing, first_call, upload, freed_upload, Call, Outside, ServerState, secure_send_error,
}
use home_automation_bridge_z.Hpd.WebServer.Answer.Put.{
  Fits, document_reply, log_after, put_value_arrives,
}
use home_automation_bridge_z.Hpd.WebServer.RequestLog.{get_allocated_log_message, log_line_of}
use home_automation_bridge_z.Hpd.WebServer.Answer.Alike.{Alike}
use home_automation_bridge_z.Hpd.WebServer.Answer.Secure.{Writes, secure_answer_to_connection-Alike}
use home_automation_bridge_z.Hpd.WebServer.Answer.Trust.{Peer, run_calls, run_calls_untrusted}
use home_automation_bridge_z.Hpd.WebServer.Register.{
  WebServer, Setting, unsecure_kind, kind_of, register_service_in_server,
}
use home_automation_bridge_z.Hpd.WebServer.Unregister.{unregister_service_in_server}
use home_automation_bridge_z.Hpd.WebServer.Register.Placed.{list_of, Placed}
use home_automation_bridge_z.Hpd.WebServer.Register.Registers.{
  register_service_in_server-Placed, register_service_in_server_fails,
}
use home_automation_bridge_z.Hpd.WebServer.Register.Undo.{
  unregister_service_in_server-register_service_in_server,
}

abbrev lamp : Device
lamp = record {
  description = none;
  id = codes "1";
  vendor_id = none;
  product_id = none;
  version = none;
  ip = none;
  port = none;
  location = some (codes "hall");
  type = codes "lamp";
  secure_device = pos 0;
  service_head = [];
}

abbrev light_switch : Service
light_switch = record {
  description = none;
  id = codes "0";
  value_url = codes "/lamp/1/switch/0";
  type = codes "switch";
  unit = none;
  dns_sd_type = none;
  zero_conf_name = codes "lamp 1 switch 0";
  device = 0;
  get_function = 7;
  put_function = some 8;
  user_data_pointer = none;
  parameter_head = [];
}

-- A lamp with a switch in the heap, the first registered and an empty file.
abbrev heap : Heap
heap = record {
  devices = λ d. if d == 0 then live lamp else unused;
  services = λ a. if a == 5 then live light_switch else unused;
  type_of = λ a. a;
  strings = λ p. unused;
}

abbrev queue : EventQueue
queue = record {
  session_id = codes "s1";
  connection_id = chars (codes "c1");
  events = [];
  service_ids = record { id = codes "/lamp/1/switch/0"; available = 1 } ∷ [];
  send_log_events = 2;
  exit = 2;
  is_waiting = 2;
}

abbrev global_queue : EventQueue
global_queue = record queue { send_log_events = 1 }

abbrev sessions : Sessions
sessions = record { queues = queue ∷ []; global = some global_queue }

abbrev file : XmlFile
file = record { tree = record { attributes = []; devices = [] }; file = none }

abbrev running : ServiceList
running = record { services = []; started = true }

abbrev web_server : WebServer
web_server = record {
  heap = heap;
  unsecure = running;
  secure = running;
  xml = file;
  sessions = sessions;
}

-- The web server with the lamp in its file.
abbrev with_lamp : WebServer
with_lamp = record web_server {
  xml = record file { tree = record file.tree { devices = nodes ((lamp, []) ∷ []) } };
}

abbrev setting : Setting
setting = record { http = true; https = true; opens_device = true; opens = true; avahi = pos 0 }

abbrev failing : Setting
failing = record setting { avahi = negsuc 20 }

abbrev save : Node → Option Text
save (element name attrs children) = some name
save (text t) = some t

abbrev load : Text → Option Node
load sent = some (element (codes "value") [] (cons (text sent) nil))

abbrev outside : Outside
outside = record {
  mhd = record { created = true; queued = 1 };
  session = codes "s2";
  connection_id = codes "c2";
  now = codes "now";
  mxml_save = save;
  mxml_load = load;
  save_list = λ l. some (codes "devices");
  drive_get = λ f s. codes "on";
  drive_put = λ f s value. value;
  log_opens = true;
  date = codes "2014-01-02";
  time = codes "03:04:05";
  ip = codes "10.0.0.7";
}

abbrev daemon : ServerState
daemon = record {
  heap = heap;
  services = 5 ∷ [];
  xml = file;
  sessions = sessions;
  hpd_log = some (record {
    max_log_size = 1000;
    send_events = 0;
    initial_pos = 100;
    pos = 100;
    log_level = 1;
  });
}

-- The daemon with the switch in its file and without a log.
abbrev described : ServerState
described = record daemon {
  xml = record file {
    tree = record file.tree { devices = nodes ((lamp, light_switch ∷ []) ∷ []) };
  };
  hpd_log = none;
}

abbrev request : Call
request = record {
  method = codes "PUT";
  url = codes "/lamp/1/switch/0";
  x = some (codes "1");
  p = none;
  cookie = none;
  upload_data = [];
}

abbrev get_request : Call
get_request = record request { method = codes "GET" }

abbrev off : Text
off = codes "off"

abbrev others : EventQueue → EventQueue
others q = q

abbrev expired_peer : Peer
expired_peer = record {
  has_session = true;
  verified = true;
  invalid = false;
  signer_not_found = false;
  revoked = false;
  expired = true;
  not_activated = false;
  is_x509 = true;
  initialized = true;
  has_list = true;
  imported = true;
}

is_unsecure : kind_of setting lamp ≡ unsecure_kind
unfolding kind_of
is_unsecure = refl

is_unsecure_too : kind_of failing lamp ≡ unsecure_kind
unfolding kind_of
is_unsecure_too = refl

not_listed :
    find_listed
      (λ c. same_key c (key_of lamp light_switch))
      heap
      (list_of unsecure_kind web_server).services
    ≡ some none
unfolding find_listed
not_listed = refl

not_served :
    matching_service heap (list_of unsecure_kind web_server).services light_switch.value_url
    ≡ some none
unfolding matching_service
not_served = refl

lamp-known : known lamp ((lamp, []) ∷ []) ≡ true
unfolding known some_of str_eq
lamp-known = refl

switch_unheld : held light_switch lamp ((lamp, []) ∷ []) ≡ false
unfolding held some_of str_eq
switch_unheld = refl

is_no_log : str_eq light_switch.value_url (codes "Log") ≡ false
unfolding str_eq
is_no_log = refl

found : matching_service daemon.heap daemon.services (codes "/lamp/1/switch/0") ≡ some (some 5)
unfolding matching_service str_eq
found = refl

off-Fits : Fits (outside.drive_put 8 light_switch off)
off-Fits = (omega arith, omega arith)

writes :
    get_xml_value outside.mxml_save outside.now (outside.drive_put 8 light_switch off)
    ≡ some (codes "value")
unfolding get_xml_value value_document
writes = refl

reads : get_value_from_xml_value outside.mxml_load off ≡ some (some off)
unfolding get_value_from_xml_value find_element first_text str_eq
reads = refl

global_queue-IsRunning : IsRunning global_queue
global_queue-IsRunning = (omega arith, omega arith)

save_given : (n : Node) → save n ≢ none
save_given (element name attrs children) e = cc
save_given (text t) e = cc

outside-Writes : Writes outside
outside-Writes = (save_given, λ l e. cc)

in_file : service_is_in_xml_file light_switch lamp described.xml ≡ some hpd_yes
unfolding service_is_in_xml_file get_xml_node_of_device find_node find_service is_node_of
    device_attributes service_attributes set_attr get_attr str_eq service_node
in_file = refl

some_injective : {A : Type 0} (a b : A) → some a ≡ some b → a ≡ b
some_injective a b e = ap (λ o. elim o [ none ↦ a | some c ↦ c ]) e

is_described :
    (a : ℕ) (s : Service) (d : Device)
    → matching_service described.heap described.services get_request.url ≡ some (some a)
    → deref (described.heap.services a) ≡ some s
    → deref (described.heap.devices s.device) ≡ some d
    → service_is_in_xml_file s d described.xml ≡ some hpd_yes
is_described a s d e there has_device =
    let same_a : 5 ≡ a = some_injective 5 a (some_injective (some 5) (some a) (sym found ∙ e)) in
    let there' : some light_switch ≡ some s =
      subst (λ n. deref (heap.services n) ≡ some s) (sym same_a) there in
    let same_s : light_switch ≡ s = some_injective light_switch s there' in
    let has_device' : some lamp ≡ some d =
      subst (λ t. deref (heap.devices t.device) ≡ some d) (sym same_s) has_device in
    let same_d : lamp ≡ d = some_injective lamp d has_device' in
    subst (λ t. service_is_in_xml_file t d described.xml ≡ some hpd_yes) same_s
      (subst (λ t. service_is_in_xml_file light_switch t described.xml ≡ some hpd_yes) same_d
        in_file)

-- What the request sends: the new value and the line of the log.
abbrev sent_for_request : List Message
sent_for_request =
    value_change light_switch.value_url off ∷ log_line (log_line_of outside request none) ∷ []

request_line :
    log_line_of outside request none ≡ codes "2014-01-02 03:04:05 - 10.0.0.7 PUT /lamp/1/switch/0 -"
unfolding get_allocated_log_message
request_line = refl

put_value_arrives_example :
    (m' : ServerState) × (answer_to_connection outside
        (record request { upload_data = [] })
        nothing
        daemon
      ≡ some (daemon, nothing, no_reply 1))
    × (answer_to_connection outside (record request { upload_data = off }) nothing daemon
        ≡ some (daemon, upload off, no_reply 1))
    × (answer_to_connection outside (record request { upload_data = [] }) (upload off) daemon
        ≡ some (m', freed_upload, document_reply outside.mhd (codes "value")))
    × (consume_global_event_queue others 2 m'.sessions
        ≡ some (
          record daemon.sessions {
            queues = map (received sent_for_request) daemon.sessions.queues;
          },
          true,
        ))
    × (m' ≡ record daemon {
      sessions = m'.sessions;
      hpd_log = log_after outside request daemon.hpd_log;
    })
put_value_arrives_example =
    put_value_arrives outside daemon request off (codes "value") 5 8 light_switch found refl refl
      off-Fits writes refl off [] others global_queue refl (omega arith) reads refl refl
      global_queue-IsRunning

register_service_in_server-Placed_example :
    (w' : WebServer) × (register_service_in_server setting 5 web_server ≡ some (w', pos 0))
    × Placed unsecure_kind 5 light_switch lamp [] web_server w'
    × (w'.sessions.queues ≡ map (notified light_switch.value_url 1) web_server.sessions.queues)
register_service_in_server-Placed_example =
    register_service_in_server-Placed setting 5 light_switch lamp unsecure_kind [] web_server refl
      refl is_unsecure (inl refl) refl not_listed refl 0 refl is_no_log

register_service_in_server_fails_example :
    (w' : WebServer) × (register_service_in_server failing 5 web_server ≡ some (w', negsuc 20))
    × Placed unsecure_kind 5 light_switch lamp [] web_server w'
    × (w'.sessions ≡ web_server.sessions)
    × (register_service_in_server setting 5 w' ≡ some (w', negsuc 10))
register_service_in_server_fails_example =
    register_service_in_server_fails failing 5 light_switch lamp unsecure_kind [] web_server refl
      refl is_unsecure_too (inl refl) refl not_listed refl 20 setting refl is_unsecure

secure_answer_to_connection-Alike_example :
    Alike
      (answer_to_connection outside get_request nothing described)
      (secure_answer_to_connection outside true get_request nothing described)
    × Alike
        (answer_to_connection outside get_request first_call described)
        (secure_answer_to_connection outside true get_request first_call described)
secure_answer_to_connection-Alike_example =
    secure_answer_to_connection-Alike outside outside-Writes get_request described refl refl
      is_described

run_calls_untrusted_example :
    run_calls outside expired_peer (get_request ∷ request ∷ []) nothing daemon
    ≡ some
        (daemon, nothing, map (λ c. secure_send_error outside.mhd 401) (get_request ∷ request ∷ []))
run_calls_untrusted_example =
    run_calls_untrusted outside expired_peer (get_request ∷ request ∷ []) daemon refl

unregister_service_in_server-register_service_in_server_example :
    (w' w'' : WebServer) × (register_service_in_server setting 5 with_lamp ≡ some (w', pos 0))
    × (unregister_service_in_server setting 5 w' ≡ some (w'', pos 0))
    × (w'' ≡ record with_lamp { xml = w''.xml; sessions = w''.sessions })
    × (w''.xml.tree.devices ≡ with_lamp.xml.tree.devices)
    × (w''.sessions.queues
        ≡ map
            (notified light_switch.value_url 2)
            (map (notified light_switch.value_url 1) with_lamp.sessions.queues))
unregister_service_in_server-register_service_in_server_example =
    unregister_service_in_server-register_service_in_server setting setting 5 light_switch lamp
      unsecure_kind ((lamp, []) ∷ []) with_lamp 0 0 refl refl is_unsecure is_unsecure (inl refl)
      refl not_listed not_served refl lamp-known switch_unheld refl refl is_no_log
