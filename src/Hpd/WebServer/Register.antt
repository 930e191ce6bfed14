-- ===== src/Hpd/WebServer/Register.antt =====
-- hpbridge/hpdaemon/hpd_web_server.c: services that are registered, in the list of their server, in
-- the XML file, in Avahi, and with the sessions that are subscribed to them; and their lookup.
pub mod Placed
pub mod Registers
pub mod Undo
use home_automation_bridge_z.Prelude.{
  ℕ, Bool, true, false, Option, none, some, List, [], ◌∷◌, if◌then◌else◌, Text,
}
use home_automation_bridge_z.Hpd.Error.{
  Code, success, no_http, no_https, bad_parameter, xml_error, service_already_register, ℤ, pos,
  negsuc, int_eq, value,
}
use home_automation_bridge_z.Hpd.Services.{Heap, Device, Service, deref}
use home_automation_bridge_z.Hpd.Xml.{XmlFile}
use home_automation_bridge_z.Hpd.Xml.Change.{add_service_to_xml}
use home_automation_bridge_z.Hpd.ServerSentEvents.{Sessions, notify_service_availability}
use home_automation_bridge_z.Hpd.WebServer.{
  ServiceList, Key, key_of, is_service_in_list, get_service_from_list, get_device_from_list,
  register_service_in_unsecure_server, register_service_in_secure_server,
}

-- The lists of the two servers, the XML file and the sessions; services and devices are in the heap.
pub record WebServer : Type 0 where
  pub heap : Heap
  pub unsecure : ServiceList
  pub secure : ServiceList
  pub xml : XmlFile
  pub sessions : Sessions

-- What the daemon is built with (HPD_HTTP and HPD_HTTPS), and what the world outside answers to one
-- call: whether services.xml can be opened, twice, and what the call of Avahi returns.
pub record Setting : Type 0 where
  pub http : Bool
  pub https : Bool
  pub opens_device : Bool
  pub opens : Bool
  pub avahi : ℤ

abbrev pub is_negative : ℤ → Bool
is_negative (pos n) = false
is_negative (negsuc n) = true

-- An `int` result, or a fault.
abbrev pub Result : Type 0
Result = Option (WebServer × ℤ)

abbrev pub coded : WebServer → Code → Result
unfolding value
coded w c = some (w, value c)

-- A part of a function that goes on to the next one unless its result is negative.
unfoldable pub unless_negative : Option (WebServer × Code) → (WebServer → Result) → Result
unfolding value
unless_negative none next = none
unless_negative (some (w, c)) next = if is_negative (value c) then some (w, value c) else next w

-- The parts behind the list of the server. The results -1 and -2 that are looked for are no results
-- of `add_service_to_xml`, whose errors are passed over.
unfoldable pub add_to_xml : Setting → Service → Device → WebServer → Option (WebServer × Code)
unfolding value
add_to_xml set s d w = elim (add_service_to_xml set.opens_device set.opens s d w.xml) [
  | none ↦ none
  | some (x, c) ↦
      if int_eq (value c) (negsuc 0)
      then some (record w { xml = x }, xml_error)
      else some (record w { xml = x }, success)
]

unfoldable pub announce : Setting → (url : Text) → (availability : ℕ) → WebServer → Result
unfolding value
announce set url availability w =
    if is_negative set.avahi
    then some (w, set.avahi)
    else elim (notify_service_availability (some url) availability w.sessions) [
      | none ↦ none
      | some (n, c) ↦
          let w' = record w { sessions = n } in
          if is_negative (value c) then some (w', value c) else coded w' success
    ]

-- The list that a device's services are registered in, or the result for one that has none.
pub data Kind : Type 0 where
  unsecure_kind secure_kind : Kind
  refused : Code → Kind

unfoldable pub kind_of : Setting → Device → Kind
kind_of set d =
    if int_eq d.secure_device (pos 0)
    then (if set.http then unsecure_kind else refused no_http)
    else if int_eq d.secure_device (pos 1)
    then (if set.https then secure_kind else refused no_https)
    else refused bad_parameter

unfoldable pub put_in_list :
    (ServiceList → WebServer) → Option (ServiceList × Code) → Option (WebServer × Code)
put_in_list back none = none
put_in_list back (some (l, c)) = some (back l, c)

-- The test and the call of the server's own function.
unfoldable pub list_service :
    Option Bool
    → (ServiceList → WebServer)
    → WebServer
    → Option (ServiceList × Code)
    → Option (WebServer × Code)
list_service is_in back w listed = elim is_in [
  | none ↦ none
  | some true ↦ some (w, service_already_register)
  | some false ↦ put_in_list back listed
]

unfoldable pub register_in_list : Kind → ℕ → Key → WebServer → Option (WebServer × Code)
register_in_list unsecure_kind a k w =
    list_service (is_service_in_list w.heap w.unsecure k) (λ l. record w { unsecure = l }) w
      (register_service_in_unsecure_server a w.unsecure)
register_in_list secure_kind a k w =
    list_service (is_service_in_list w.heap w.secure k) (λ l. record w { secure = l }) w
      (register_service_in_secure_server a w.secure)
register_in_list (refused c) a k w = some (w, c)

-- A service and its device.
abbrev pub on_service : {A : Type 0} → ℕ → WebServer → (Service → Device → Option A) → Option A
on_service a w f = elim (deref (w.heap.services a)) [
  | none ↦ none
  | some s ↦ elim (deref (w.heap.devices s.device)) [ none ↦ none | some d ↦ f s d ]
]

unfoldable pub register_service_in_server : Setting → ℕ → WebServer → Result
register_service_in_server set a w = on_service a w (λ s d.
    unless_negative (register_in_list (kind_of set d) a (key_of d s) w)
      (λ w1. unless_negative (add_to_xml set s d w1) (λ w2. announce set s.value_url 1 w2)))

-- The loop over the services of a device that is not secure; each call has its own setting. It ends
-- at the first error.
unfoldable pub register_services : (ℕ → Setting) → List ℕ → WebServer → Result
unfolding value
register_services set [] w = coded w success
register_services set (a ∷ more) w = elim (register_service_in_server (set a) a w) [
  | none ↦ none
  | some (w', rc) ↦ if is_negative rc then some (w', rc) else register_services set more w'
]

-- The HTTP server's list is asked first.
unfoldable pub get_service_from_server : Setting → Key → WebServer → Option (Option ℕ)
get_service_from_server set k w =
    let from_secure : Option (Option ℕ) =
      if set.https then get_service_from_list w.heap w.secure k else some none in
    if set.http
    then elim (get_service_from_list w.heap w.unsecure k) [
      | none ↦ none
      | some none ↦ from_secure
      | some (some a) ↦ some (some a)
    ]
    else from_secure

unfoldable pub get_device_from_server : Setting → (type id : Text) → WebServer → Option (Option ℕ)
get_device_from_server set type id w =
    let from_secure : Option (Option ℕ) =
      if set.https then get_device_from_list w.heap w.secure type id else some none in
    if set.http
    then elim (get_device_from_list w.heap w.unsecure type id) [
      | none ↦ none
      | some none ↦ from_secure
      | some (some d) ↦ some (some d)
    ]
    else from_secure
