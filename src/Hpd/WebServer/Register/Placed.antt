-- ===== src/Hpd/WebServer/Register/Placed.antt =====
-- The list of a server, and where a service is that was put into it.
use home_automation_bridge_z.Prelude.{
  ℕ, ◌≡◌, ◌∙◌, refl, sym, true, none, some, [], ◌∷◌, ◌++◌, arith, Bool-cases, inl, inr, ◌⊎◌,
}
use home_automation_bridge_z.Hpd.Error.{success, negsuc, value, service_already_register}
use home_automation_bridge_z.Hpd.Services.{Heap, Device, Service, deref}
use home_automation_bridge_z.Hpd.Xml.{XmlFile}
use home_automation_bridge_z.Hpd.Xml.Inventory.{Inventory, nodes, held}
use home_automation_bridge_z.Hpd.Xml.Inventory.Add.{with_service, add_service_to_xml-insert}
use home_automation_bridge_z.Hpd.ServerSentEvents.{Sessions}
use home_automation_bridge_z.Hpd.WebServer.{
  ServiceList, Key, key_of, same_key, key_at, find_listed, append_listed, is_service_in_list,
  get_service_from_list, register_service_in_unsecure_server, register_service_in_secure_server,
}
use home_automation_bridge_z.Hpd.WebServer.Listed.{find_listed-append, same_key_refl}
use home_automation_bridge_z.Hpd.WebServer.Register.{
  WebServer, Setting, Kind, unsecure_kind, secure_kind, kind_of, unless_negative, add_to_xml,
  list_service, put_in_list, register_in_list, register_service_in_server, on_service,
}

-- The list of a kind of devices.
abbrev pub list_of : Kind → WebServer → ServiceList
list_of unsecure_kind w = w.unsecure
list_of secure_kind w = w.secure
list_of (Kind.refused c) w = w.unsecure

abbrev pub with_list : Kind → ServiceList → WebServer → WebServer
with_list unsecure_kind l w = record w { unsecure = l }
with_list secure_kind l w = record w { secure = l }
with_list (Kind.refused c) l w = w

-- A server of the kind is built in.
abbrev pub IsServed : Kind → Type 0
IsServed k = (k ≡ unsecure_kind) ⊎ (k ≡ secure_kind)

pub register_in_list-appends :
    (k : Kind) (a : ℕ) (key : Key) (w : WebServer)
    → IsServed k
    → (list_of k w).started ≡ true
    → find_listed (λ c. same_key c key) w.heap (list_of k w).services ≡ some none
    → register_in_list k a key w ≡ some (with_list k (append_listed a (list_of k w)) w, success)
unfolding register_in_list list_service put_in_list is_service_in_list
    register_service_in_unsecure_server register_service_in_secure_server
register_in_list-appends unsecure_kind a key w served started absent =
    rw (register_in_list, is_service_in_list, started, absent) refl
register_in_list-appends secure_kind a key w served started absent =
    rw (register_in_list, is_service_in_list, started, absent) refl
register_in_list-appends (Kind.refused c) a key w (inl e) started absent = cc
register_in_list-appends (Kind.refused c) a key w (inr e) started absent = cc

-- Where a service is after a registration, whatever Avahi said: behind the others in the list of its
-- server, where it is found by its key, and in the XML file. Nothing else but the sessions changes.
pub record Placed (k : Kind) (a : ℕ) (s : Service) (d : Device) (inv : Inventory) (w w' : WebServer)
    : Type 0 where
  pub listed : (list_of k w').services ≡ (list_of k w).services ++ a ∷ []
  pub found : get_service_from_list w'.heap (list_of k w') (key_of d s) ≡ some (some a)
  pub in_xml : w'.xml.tree.devices ≡ nodes (with_service s d inv)
  pub only : w' ≡ record (with_list k (append_listed a (list_of k w)) w) {
    xml = w'.xml;
    sessions = w'.sessions;
  }

pub key_at-key_of :
    (h : Heap) (a : ℕ) (s : Service) (d : Device)
    → deref (h.services a) ≡ some s
    → deref (h.devices s.device) ≡ some d
    → key_at h a ≡ some (key_of d s)
unfolding key_at
key_at-key_of h a s d there has_device = rw (key_at, there, has_device) refl

pub add_to_xml-lists :
    (set : Setting) (s : Service) (d : Device) (w : WebServer) (inv : Inventory)
    → w.xml.tree.devices ≡ nodes inv
    → (x : XmlFile) × (add_to_xml set s d w ≡ some (record w { xml = x }, success))
      × (x.tree.devices ≡ nodes (with_service s d inv))
unfolding add_to_xml value
add_to_xml-lists set s d w inv lists =
    let (x, added, lists', saved) =
      add_service_to_xml-insert set.opens_device set.opens s d w.xml inv lists in
    (
      x,
      elim (Bool-cases (held s d inv)) [
        | inl on ↦ rw (add_to_xml, added, on) refl
        | inr off ↦ rw (add_to_xml, added, off) refl
      ],
      lists',
    )

get_service_from_list-append :
    (h : Heap) (a : ℕ) (k : Key) (l : ServiceList)
    → key_at h a ≡ some k
    → l.started ≡ true
    → find_listed (λ c. same_key c k) h l.services ≡ some none
    → get_service_from_list h (append_listed a l) k ≡ some (some a)
unfolding get_service_from_list
get_service_from_list-append h a k l at started absent =
    let behind = find_listed-append (λ c. same_key c k) h a k l.services at absent in
    let self = same_key_refl k in rw (get_service_from_list, started, behind, self) refl

pub with_list-Placed :
    (k : Kind) (a : ℕ) (s : Service) (d : Device) (inv : Inventory) (w : WebServer) (x : XmlFile)
    (n : Sessions)
    → IsServed k
    → key_at w.heap a ≡ some (key_of d s)
    → (list_of k w).started ≡ true
    → find_listed (λ c. same_key c (key_of d s)) w.heap (list_of k w).services ≡ some none
    → x.tree.devices ≡ nodes (with_service s d inv)
    → Placed k a s d inv w
        (record (with_list k (append_listed a (list_of k w)) w) { xml = x; sessions = n })
with_list-Placed unsecure_kind a s d inv w x n served at started absent lists = record {
  listed = refl;
  found = get_service_from_list-append w.heap a (key_of d s) w.unsecure at started absent;
  in_xml = lists;
  only = refl;
}
with_list-Placed secure_kind a s d inv w x n served at started absent lists = record {
  listed = refl;
  found = get_service_from_list-append w.heap a (key_of d s) w.secure at started absent;
  in_xml = lists;
  only = refl;
}
with_list-Placed (Kind.refused c) a s d inv w x n (inl e) at started absent lists = cc
with_list-Placed (Kind.refused c) a s d inv w x n (inr e) at started absent lists = cc

pub with_list-others :
    (k : Kind) (l : ServiceList) (w : WebServer)
    → ((with_list k l w).xml ≡ w.xml) × ((with_list k l w).sessions ≡ w.sessions)
with_list-others unsecure_kind l w = (refl, refl)
with_list-others secure_kind l w = (refl, refl)
with_list-others (Kind.refused c) l w = (refl, refl)

pub with_list-same :
    (k : Kind) (l : ServiceList) (w : WebServer)
    → IsServed k
    → (list_of k (with_list k l w) ≡ l) × ((with_list k l w).heap ≡ w.heap)
with_list-same unsecure_kind l w served = (refl, refl)
with_list-same secure_kind l w served = (refl, refl)
with_list-same (Kind.refused c) l w (inl e) = cc
with_list-same (Kind.refused c) l w (inr e) = cc

pub is_service_in_list-found :
    (h : Heap) (l : ServiceList) (key : Key) (b : ℕ)
    → get_service_from_list h l key ≡ some (some b)
    → is_service_in_list h l key ≡ some true
unfolding is_service_in_list get_service_from_list
is_service_in_list-found h l key b found = elim (Bool-cases l.started) [
  | inl on ↦
      let open_it : get_service_from_list h l key ≡ find_listed (λ c. same_key c key) h l.services =
        rw (get_service_from_list, on) refl in
      let found' = sym open_it ∙ found in rw (is_service_in_list, on, found') refl
  | inr off ↦
      let fails : get_service_from_list h l key ≡ none = rw (get_service_from_list, off) refl in
      absurd (ground (arith, fails, found))
]

register_in_list-again :
    (k : Kind) (a b : ℕ) (key : Key) (w : WebServer)
    → IsServed k
    → get_service_from_list w.heap (list_of k w) key ≡ some (some b)
    → register_in_list k a key w ≡ some (w, service_already_register)
unfolding register_in_list list_service
register_in_list-again unsecure_kind a b key w served found =
    let is_in = is_service_in_list-found w.heap w.unsecure key b found in
    rw (register_in_list, is_in) refl
register_in_list-again secure_kind a b key w served found =
    let is_in = is_service_in_list-found w.heap w.secure key b found in
    rw (register_in_list, is_in) refl
register_in_list-again (Kind.refused c) a b key w (inl e) found = cc
register_in_list-again (Kind.refused c) a b key w (inr e) found = cc

pub register_again :
    (set : Setting) (a b : ℕ) (s : Service) (d : Device) (k : Kind) (w : WebServer)
    → deref (w.heap.services a) ≡ some s
    → deref (w.heap.devices s.device) ≡ some d
    → kind_of set d ≡ k
    → IsServed k
    → get_service_from_list w.heap (list_of k w) (key_of d s) ≡ some (some b)
    → register_service_in_server set a w ≡ some (w, negsuc 10)
unfolding register_service_in_server unless_negative value
register_again set a b s d k w there has_device kind served found =
    let again = register_in_list-again k a b (key_of d s) w served found in
    rw (register_service_in_server, on_service, there, on_service, has_device, kind, again) refl
