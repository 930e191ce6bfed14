-- ===== src/Hpd/WebServer/Unregister.antt =====
-- hpbridge/hpdaemon/hpd_web_server.c: services that are unregistered, in the reverse of a
-- registration, and the test of whether one is registered.
use home_automation_bridge_z.Prelude.{
  ℕ, ◌&&◌, Option, none, some, List, [], ◌∷◌, if◌then◌else◌, Text,
}
use home_automation_bridge_z.Hpd.Error.{
  Code, success, xml_error, service_not_register, null_pointer, ℤ, pos, int_eq, value,
}
use home_automation_bridge_z.Hpd.Services.{Device, Service}
use home_automation_bridge_z.Hpd.Xml.Change.{remove_service_from_xml}
use home_automation_bridge_z.Hpd.WebServer.{key_of, is_service_in_list, unregister_service_in_list}
use home_automation_bridge_z.Hpd.WebServer.Register.{
  Kind, Result, Setting, WebServer, announce, coded, is_negative, kind_of, on_service, put_in_list,
  refused, secure_kind, unless_negative, unsecure_kind,
}

-- Nonzero exactly if the service is registered. Of a server that is not built in there is no list.
unfoldable pub is_service_registered : Setting → Option ℕ → WebServer → Option ℤ
unfolding value
is_service_registered set none w = some (value null_pointer)
is_service_registered set (some a) w = on_service a w (λ s d.
    if set.http && int_eq d.secure_device (pos 0)
    then elim (is_service_in_list w.heap w.unsecure (key_of d s)) [
      | none ↦ none
      | some b ↦ some (pos (if b then 1 else 0))
    ]
    else if set.https && int_eq d.secure_device (pos 1)
    then elim (is_service_in_list w.heap w.secure (key_of d s)) [
      | none ↦ none
      | some b ↦ some (pos (if b then 1 else 0))
    ]
    else some (pos 0))

unfoldable pub unregister_in_list : Kind → (url : Text) → WebServer → Option (WebServer × Code)
unregister_in_list unsecure_kind url w =
    put_in_list (λ l. record w { unsecure = l }) (unregister_service_in_list w.heap url w.unsecure)
unregister_in_list secure_kind url w =
    put_in_list (λ l. record w { secure = l }) (unregister_service_in_list w.heap url w.secure)
unregister_in_list (refused c) url w = some (w, c)

unfoldable pub remove_from_xml : Setting → Service → Device → WebServer → Option (WebServer × Code)
unfolding value
remove_from_xml set s d w = elim (remove_service_from_xml set.opens s d w.xml) [
  | none ↦ none
  | some (x, c) ↦
      if is_negative (value c)
      then some (record w { xml = x }, xml_error)
      else some (record w { xml = x }, success)
]

unfoldable pub unregister_service_in_server : Setting → ℕ → WebServer → Result
unfolding value
unregister_service_in_server set a w = elim (is_service_registered set (some a) w) [
  | none ↦ none
  | some v ↦
      if int_eq v (pos 0)
      then coded w service_not_register
      else on_service a w (λ s d.
        unless_negative (unregister_in_list (kind_of set d) s.value_url w) (λ w1.
          unless_negative (remove_from_xml set s d w1) (λ w2. announce set s.value_url 2 w2)))
]

-- The loop over the services of a device that is not secure, which ends at the first error.
unfoldable pub unregister_services : (ℕ → Setting) → List ℕ → WebServer → Result
unfolding value
unregister_services set [] w = coded w success
unregister_services set (a ∷ more) w = elim (unregister_service_in_server (set a) a w) [
  | none ↦ none
  | some (w', rc) ↦ if is_negative rc then some (w', rc) else unregister_services set more w'
]
