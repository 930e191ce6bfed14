-- ===== src/Hpd/WebServer/Register/Registers.antt =====
-- What a registration does to the list of the server, to the XML file and to the sessions.
use home_automation_bridge_z.Prelude.{
  ℕ, ◌≡◌, ◌∙◌, refl, ap, true, false, none, some, codes, str_eq, inl, map,
}
use home_automation_bridge_z.Hpd.Error.{pos, negsuc, value}
use home_automation_bridge_z.Hpd.Services.{Device, Service, deref}
use home_automation_bridge_z.Hpd.Xml.{XmlFile}
use home_automation_bridge_z.Hpd.Xml.Inventory.{Inventory, nodes}
use home_automation_bridge_z.Hpd.Xml.Inventory.Add.{with_service}
use home_automation_bridge_z.Hpd.ServerSentEvents.{Sessions}
use home_automation_bridge_z.Hpd.ServerSentEvents.Notify.{
  notified, notify_service_availability-notified,
}
use home_automation_bridge_z.Hpd.WebServer.{key_of, same_key, find_listed, append_listed}
use home_automation_bridge_z.Hpd.WebServer.Register.{
  WebServer, Setting, Kind, kind_of, unless_negative, announce, register_service_in_server,
  on_service,
}
use home_automation_bridge_z.Hpd.WebServer.Register.Placed.{
  list_of, with_list, IsServed, Placed, register_in_list-appends, add_to_xml-lists,
  with_list-Placed, with_list-others, with_list-same, register_again, key_at-key_of,
}

-- A service that is there with its device, whose server is built in and started and has no service
-- of the same key in its list, and an XML file that lists an inventory.
module _ (set : Setting) (a : ℕ) (s : Service) (d : Device) (k : Kind) (inv : Inventory)
    (w : WebServer) (there : deref (w.heap.services a) ≡ some s)
    (has_device : deref (w.heap.devices s.device) ≡ some d) (kind : kind_of set d ≡ k)
    (served : IsServed k) (started : (list_of k w).started ≡ true)
    (absent : find_listed (λ c. same_key c (key_of d s)) w.heap (list_of k w).services ≡ some none)
    (lists : w.xml.tree.devices ≡ nodes inv) where
  register-announce :
      (x : XmlFile) × (register_service_in_server set a w
        ≡ announce set s.value_url 1
            (record (with_list k (append_listed a (list_of k w)) w) { xml = x }))
      × (x.tree.devices ≡ nodes (with_service s d inv))
  unfolding register_service_in_server unless_negative value
  register-announce =
      let w1 = with_list k (append_listed a (list_of k w)) w in
      let (same_xml, same_sessions) = with_list-others k (append_listed a (list_of k w)) w in
      let appended = register_in_list-appends k a (key_of d s) w served started absent in
      let lists1 : w1.xml.tree.devices ≡ nodes inv = ap (λ x. x.tree.devices) same_xml ∙ lists in
      let (x, added, lists2) = add_to_xml-lists set s d w1 inv lists1 in
      (
        x,
        rw
            (
              register_service_in_server, on_service, there, on_service, has_device, kind, appended,
              unless_negative, added,
            )
            refl,
        lists2,
      )

  -- The service and its device are in use, the server for the kind of the device is built in and
  -- started and has no service of the same key in its list, the XML file lists an inventory, Avahi
  -- succeeds and the service's URL is not "Log": registering succeeds, the service is placed in the
  -- list, where it is found, and in the XML file, and of the sessions exactly those that are
  -- subscribed to it are told that it is available.
  pub register_service_in_server-Placed :
      (n : ℕ)
      → set.avahi ≡ pos n
      → str_eq s.value_url (codes "Log") ≡ false
      → (w' : WebServer) × (register_service_in_server set a w ≡ some (w', pos 0))
        × Placed k a s d inv w w'
        × (w'.sessions.queues ≡ map (notified s.value_url 1) w.sessions.queues)
  unfolding announce value
  register_service_in_server-Placed n avahi no_log =
      let w1 = with_list k (append_listed a (list_of k w)) w in
      let (same_xml, same_sessions) = with_list-others k (append_listed a (list_of k w)) w in
      let (x, placed, lists2) = register-announce in
      let told = notify_service_availability-notified s.value_url 1 w1.sessions (inl refl) no_log in
      let n' : Sessions = record w1.sessions {
        queues = map (notified s.value_url 1) w1.sessions.queues;
      } in
      (
        record w1 { xml = x; sessions = n' },
        placed ∙ rw (announce, avahi, told) refl,
        with_list-Placed k a s d inv w x n' served (key_at-key_of w.heap a s d there has_device)
            started absent lists2,
        ap (λ m. map (notified s.value_url 1) m.queues) same_sessions,
      )

  -- The service and its device are in use, the server for the kind of the device is built in and
  -- started and has no service of the same key in its list, the XML file lists an inventory, and Avahi
  -- fails: its error is returned, but the service is placed all the same and nobody is told. Trying
  -- again with the same kind of device is refused from then on, because the service is already
  -- registered.
  pub register_service_in_server_fails :
      (n : ℕ) (set' : Setting)
      → set.avahi ≡ negsuc n
      → kind_of set' d ≡ k
      → (w' : WebServer) × (register_service_in_server set a w ≡ some (w', negsuc n))
        × Placed k a s d inv w w'
        × (w'.sessions ≡ w.sessions)
        × (register_service_in_server set' a w' ≡ some (w', negsuc 10))
  unfolding announce
  register_service_in_server_fails n set' avahi kind' =
      let w1 = with_list k (append_listed a (list_of k w)) w in
      let (same_xml, same_sessions) = with_list-others k (append_listed a (list_of k w)) w in
      let (x, placed, lists2) = register-announce in
      let w2 : WebServer = record w1 { xml = x } in
      let (same_list, same_heap) = with_list-same k (append_listed a (list_of k w)) w served in
      let is_placed =
        with_list-Placed k a s d inv w x w1.sessions served
          (key_at-key_of w.heap a s d there has_device) started absent lists2 in
      (
        w2,
        placed ∙ rw (announce, avahi) refl,
        is_placed,
        same_sessions,
        register_again set' a a s d k w2 (ap (λ h. deref (h.services a)) same_heap ∙ there)
            (ap (λ h. deref (h.devices s.device)) same_heap ∙ has_device) kind' served
            is_placed.found,
      )
