-- ===== src/Hpd/WebServer/Register/Undo.antt =====
-- A service that is unregistered: the inverse of its registration.
use home_automation_bridge_z.Prelude.{
  ℕ, ◌≡◌, ◌∙◌, refl, ap, sym, true, false, Option, none, some, List, [], ◌∷◌, ◌++◌, arith,
  Bool-cases, inl, inr, codes, str_eq, str_eq_refl, map, if◌then◌else◌,
}
use home_automation_bridge_z.Hpd.Error.{Code, success, pos, int_eq, value}
use home_automation_bridge_z.Hpd.Services.{Heap, Device, Service, deref, matching_service}
use home_automation_bridge_z.Hpd.Xml.{XmlFile}
use home_automation_bridge_z.Hpd.Xml.Inventory.{Inventory, nodes, known, held, insert, withdraw}
use home_automation_bridge_z.Hpd.Xml.Inventory.Remove.{
  remove_service_from_xml-withdraw, withdraw-insert,
}
use home_automation_bridge_z.Hpd.ServerSentEvents.{Sessions}
use home_automation_bridge_z.Hpd.ServerSentEvents.Notify.{
  notified, notify_service_availability-notified,
}
use home_automation_bridge_z.Hpd.WebServer.{
  ServiceList, key_of, same_key, find_listed, get_service_from_list, unregister_service_in_list,
  append_listed, asserted,
}
use home_automation_bridge_z.Hpd.WebServer.Listed.{unlink_url-append}
use home_automation_bridge_z.Hpd.WebServer.Register.{
  WebServer, Setting, Kind, unsecure_kind, secure_kind, kind_of, unless_negative, announce,
  put_in_list, on_service, register_service_in_server,
}
use home_automation_bridge_z.Hpd.WebServer.Unregister.{
  is_service_registered, unregister_in_list, remove_from_xml, unregister_service_in_server,
}
use home_automation_bridge_z.Hpd.WebServer.Register.Placed.{
  list_of, with_list, IsServed, is_service_in_list-found, with_list-others,
}
use home_automation_bridge_z.Hpd.WebServer.Register.Registers.{register_service_in_server-Placed}

kind_of-unsecure :
    (set : Setting) (d : Device)
    → kind_of set d ≡ unsecure_kind
    → (set.http ≡ true) × (int_eq d.secure_device (pos 0) ≡ true)
unfolding kind_of
kind_of-unsecure set d kind = ground arith

kind_of-secure :
    (set : Setting) (d : Device)
    → kind_of set d ≡ secure_kind
    → (int_eq d.secure_device (pos 0) ≡ false)
      × (set.https ≡ true)
      × (int_eq d.secure_device (pos 1) ≡ true)
unfolding kind_of
kind_of-secure set d kind = ground arith

is_service_registered-found :
    (set : Setting) (a b : ℕ) (s : Service) (d : Device) (k : Kind) (w : WebServer)
    → deref (w.heap.services a) ≡ some s
    → deref (w.heap.devices s.device) ≡ some d
    → kind_of set d ≡ k
    → IsServed k
    → get_service_from_list w.heap (list_of k w) (key_of d s) ≡ some (some b)
    → is_service_registered set (some a) w ≡ some (pos 1)
unfolding is_service_registered value
is_service_registered-found set a b s d unsecure_kind w there has_device kind served found =
    let (built, plain) = kind_of-unsecure set d kind in
    let is_in = is_service_in_list-found w.heap w.unsecure (key_of d s) b found in
    rw (is_service_registered, on_service, there, on_service, has_device, built, plain, is_in) refl
is_service_registered-found set a b s d secure_kind w there has_device kind served found =
    let (not_plain, built, safe) = kind_of-secure set d kind in
    let is_in = is_service_in_list-found w.heap w.secure (key_of d s) b found in
    elim (Bool-cases set.http) [
      | inl on ↦
          rw
            (
              is_service_registered, on_service, there, on_service, has_device, on, not_plain,
              built, safe, is_in,
            )
            refl
      | inr off ↦
          rw
            (
              is_service_registered, on_service, there, on_service, has_device, off, built, safe,
              is_in,
            )
            refl
    ]
is_service_registered-found set a b s d (Kind.refused c) w there has_device kind (inl e) found = cc
is_service_registered-found set a b s d (Kind.refused c) w there has_device kind (inr e) found = cc

-- The list without its last service.
unregister_service_in_list-last :
    (h : Heap) (a : ℕ) (s : Service) (l : ServiceList) (more : List ℕ)
    → l.started ≡ true
    → l.services ≡ more ++ a ∷ []
    → deref (h.services a) ≡ some s
    → matching_service h more s.value_url ≡ some none
    → unregister_service_in_list h s.value_url l ≡ some (record l { services = more }, success)
unfolding unregister_service_in_list
unregister_service_in_list-last h a s l more started listed there absent =
    let unlinked =
      unlink_url-append h s.value_url a s more there (str_eq_refl s.value_url) absent in
    let result : Option (ServiceList × Code) = some (record l { services = more }, success) in
    let unlinks : unregister_service_in_list h s.value_url l ≡ asserted l.started result =
      rw (unregister_service_in_list, listed, unlinked) refl in
    unlinks ∙ ap (λ b. asserted b result) started

unregister_in_list-last :
    (k : Kind) (a : ℕ) (s : Service) (w : WebServer) (more : List ℕ)
    → IsServed k
    → (list_of k w).started ≡ true
    → (list_of k w).services ≡ more ++ a ∷ []
    → deref (w.heap.services a) ≡ some s
    → matching_service w.heap more s.value_url ≡ some none
    → unregister_in_list k s.value_url w
      ≡ some (with_list k (record (list_of k w) { services = more }) w, success)
unfolding unregister_in_list put_in_list
unregister_in_list-last unsecure_kind a s w more served started listed there absent =
    ap (put_in_list (λ l. record w { unsecure = l }))
      (unregister_service_in_list-last w.heap a s w.unsecure more started listed there absent)
unregister_in_list-last secure_kind a s w more served started listed there absent =
    ap (put_in_list (λ l. record w { secure = l }))
      (unregister_service_in_list-last w.heap a s w.secure more started listed there absent)
unregister_in_list-last (Kind.refused c) a s w more (inl e) started listed there absent = cc
unregister_in_list-last (Kind.refused c) a s w more (inr e) started listed there absent = cc

remove_from_xml-held :
    (set : Setting) (s : Service) (d : Device) (w : WebServer) (inv : Inventory)
    → w.xml.tree.devices ≡ nodes inv
    → held s d inv ≡ true
    → (x : XmlFile) × (remove_from_xml set s d w ≡ some (record w { xml = x }, success))
      × (x.tree.devices ≡ nodes (withdraw s d inv))
unfolding remove_from_xml value
remove_from_xml-held set s d w inv lists on =
    let (x, removed, lists', saved) =
      remove_service_from_xml-withdraw set.opens s d w.xml inv lists in
    (
      x,
      rw (remove_from_xml, removed, on) refl,
      lists' ∙ ap (λ b. nodes (if b then withdraw s d inv else inv)) on,
    )

-- What unregistering does with a service that is the last one of its list, before Avahi.
unregister-announce :
    (set : Setting) (a : ℕ) (s : Service) (d : Device) (k : Kind) (inv : Inventory) (w : WebServer)
    (more : List ℕ)
    → deref (w.heap.services a) ≡ some s
    → deref (w.heap.devices s.device) ≡ some d
    → kind_of set d ≡ k
    → IsServed k
    → (list_of k w).started ≡ true
    → (list_of k w).services ≡ more ++ a ∷ []
    → matching_service w.heap more s.value_url ≡ some none
    → get_service_from_list w.heap (list_of k w) (key_of d s) ≡ some (some a)
    → w.xml.tree.devices ≡ nodes inv
    → held s d inv ≡ true
    → (x : XmlFile) × (unregister_service_in_server set a w
        ≡ announce set s.value_url 2
            (record (with_list k (record (list_of k w) { services = more }) w) { xml = x }))
      × (x.tree.devices ≡ nodes (withdraw s d inv))
unfolding unregister_service_in_server unless_negative value
unregister-announce set a s d k inv w more there has_device kind served started listed absent found
      lists on =
    let l = record (list_of k w) { services = more } in
    let registered =
      is_service_registered-found set a a s d k w there has_device kind served found in
    let unlinked = unregister_in_list-last k a s w more served started listed there absent in
    let (same_xml, same_sessions) = with_list-others k l w in
    let lists' : (with_list k l w).xml.tree.devices ≡ nodes inv =
      ap (λ x. x.tree.devices) same_xml ∙ lists in
    let (x, removed, lists'') = remove_from_xml-held set s d (with_list k l w) inv lists' on in
    (
      x,
      rw
          (
            unregister_service_in_server, registered, on_service, there, on_service, has_device,
            kind, unlinked, unless_negative, removed,
          )
          refl,
      lists'',
    )

-- A registration that is undone in the list of its server.
with_list-back :
    (k : Kind) (a : ℕ) (w w' : WebServer) (x : XmlFile) (n : Sessions)
    → IsServed k
    → w' ≡ record (with_list k (append_listed a (list_of k w)) w) {
      xml = w'.xml;
      sessions = w'.sessions;
    }
    → (w'.heap ≡ w.heap)
      × ((list_of k w').started ≡ (list_of k w).started)
      × (record (with_list k (record (list_of k w') { services = (list_of k w).services }) w') {
        xml = x;
        sessions = n;
      }
          ≡ record w { xml = x; sessions = n })
with_list-back unsecure_kind a w w' x n served only =
    let restored : WebServer → WebServer = λ v. record v {
      unsecure = record v.unsecure { services = w.unsecure.services };
      xml = x;
      sessions = n;
    } in
    (ap (λ v. v.heap) only, ap (λ v. v.unsecure.started) only, ap restored only)
with_list-back secure_kind a w w' x n served only =
    let restored : WebServer → WebServer = λ v. record v {
      secure = record v.secure { services = w.secure.services };
      xml = x;
      sessions = n;
    } in
    (ap (λ v. v.heap) only, ap (λ v. v.secure.started) only, ap restored only)
with_list-back (Kind.refused c) a w w' x n (inl e) only = cc
with_list-back (Kind.refused c) a w w' x n (inr e) only = cc

-- A service that is in use with its device, whose URL is not "Log", and that is new by its key and by
-- its URL in its server, which is built in and started, and new in the XML file, which lists an
-- inventory with its device, is registered and unregistered again, and Avahi succeeds twice: both
-- calls succeed, and
-- the state is what it was but for the XML file, which lists what it listed before, and for the
-- sessions, where exactly those that are subscribed to the service were told of both.
pub unregister_service_in_server-register_service_in_server :
    (set set' : Setting) (a : ℕ) (s : Service) (d : Device) (k : Kind) (inv : Inventory)
    (w : WebServer) (n n' : ℕ)
    → deref (w.heap.services a) ≡ some s
    → deref (w.heap.devices s.device) ≡ some d
    → kind_of set d ≡ k
    → kind_of set' d ≡ k
    → IsServed k
    → (list_of k w).started ≡ true
    → find_listed (λ c. same_key c (key_of d s)) w.heap (list_of k w).services ≡ some none
    → matching_service w.heap (list_of k w).services s.value_url ≡ some none
    → w.xml.tree.devices ≡ nodes inv
    → known d inv ≡ true
    → held s d inv ≡ false
    → set.avahi ≡ pos n
    → set'.avahi ≡ pos n'
    → str_eq s.value_url (codes "Log") ≡ false
    → (w' w'' : WebServer) × (register_service_in_server set a w ≡ some (w', pos 0))
      × (unregister_service_in_server set' a w' ≡ some (w'', pos 0))
      × (w'' ≡ record w { xml = w''.xml; sessions = w''.sessions })
      × (w''.xml.tree.devices ≡ w.xml.tree.devices)
      × (w''.sessions.queues
          ≡ map (notified s.value_url 2) (map (notified s.value_url 1) w.sessions.queues))
unfolding announce value
unregister_service_in_server-register_service_in_server set set' a s d k inv w n n' there has_device
      kind kind' served started absent no_url lists is_known unheld avahi avahi' no_log =
    let (w', registered, placed, told) =
      register_service_in_server-Placed set a s d k inv w there has_device kind served started
        absent lists n avahi no_log in
    let more = (list_of k w).services in
    let w1 = with_list k (record (list_of k w') { services = more }) w' in
    let (same_heap, same_started, unchanged) =
      with_list-back k a w w' w'.xml w'.sessions served placed.only in
    let new = insert s d inv in
    let (back, on) = withdraw-insert s d inv is_known unheld in
    let lists' : w'.xml.tree.devices ≡ nodes new =
      placed.in_xml ∙ ap (λ b. nodes (if b then inv else new)) unheld in
    let (x, unregistered, lists'') =
      unregister-announce set' a s d k new w' more
        (ap (λ h. deref (h.services a)) same_heap ∙ there)
        (ap (λ h. deref (h.devices s.device)) same_heap ∙ has_device) kind' served
        (same_started ∙ started) placed.listed
        (ap (λ h. matching_service h more s.value_url) same_heap ∙ no_url) placed.found lists' on in
    let (same_xml, same_sessions) =
      with_list-others k (record (list_of k w') { services = more }) w' in
    let told' = notify_service_availability-notified s.value_url 2 w1.sessions (inr refl) no_log in
    let left : Sessions = record w1.sessions {
      queues = map (notified s.value_url 2) w1.sessions.queues;
    } in
    let (h, st, restored) = with_list-back k a w w' x left served placed.only in
    (
      w',
      record w1 { xml = x; sessions = left },
      registered,
      unregistered ∙ rw (announce, avahi', told') refl,
      restored,
      lists'' ∙ ap nodes back ∙ sym lists,
      ap (λ m. map (notified s.value_url 2) m.queues) same_sessions
          ∙ ap (map (notified s.value_url 2)) told,
    )
