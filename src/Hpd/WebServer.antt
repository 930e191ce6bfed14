-- ===== src/Hpd/WebServer.antt =====
-- hpbridge/hpdaemon/hpd_http_web_server.c and hpd_https_web_server.c: the list of the services that
-- a server answers for. The two files have the same functions, the one on the list of the HTTP
-- server, the other on that of the HTTPS server. A fault, `none`, is a use of a service or device
-- that is not there, or an `assert` that fails. Every `malloc` gives an object.
pub mod Unregister
pub mod Reply
pub mod RequestLog
pub mod Listed
pub mod Answer
pub mod Register
pub mod Life
mod Tests
use home_automation_bridge_z.Prelude.{
  ℕ, Bool, true, false, ◌&&◌, Option, none, some, List, [], ◌∷◌, ◌++◌, if◌then◌else◌, Text, str_eq,
}
use home_automation_bridge_z.Hpd.Error.{Code, success}
use home_automation_bridge_z.Hpd.Services.{Heap, Device, Service, deref}

-- `service_head`, and whether the server was started (`d` is not NULL).
pub record ServiceList : Type 0 where
  pub services : List ℕ
  pub started : Bool

-- The device's type and ID and the service's type and ID.
pub record Key : Type 0 where
  pub device_type : Text
  pub device_id : Text
  pub service_type : Text
  pub service_id : Text

abbrev pub key_of : Device → Service → Key
key_of d s = record {
  device_type = d.type;
  device_id = d.id;
  service_type = s.type;
  service_id = s.id;
}

abbrev pub same_device : Key → Key → Bool
same_device a b = str_eq a.device_type b.device_type && str_eq a.device_id b.device_id

abbrev pub same_key : Key → Key → Bool
same_key a b =
    same_device a b && (str_eq a.service_type b.service_type && str_eq a.service_id b.service_id)

-- What the elements of the list are compared by: the service and its device are read.
unfoldable pub key_at : Heap → ℕ → Option Key
key_at h a = elim (deref (h.services a)) [
  | none ↦ none
  | some s ↦ elim (deref (h.devices s.device)) [ none ↦ none | some d ↦ some (key_of d s) ]
]

-- A loop over the list: the first service whose key passes the test.
unfoldable pub find_listed : (Key → Bool) → Heap → List ℕ → Option (Option ℕ)
find_listed test h [] = some none
find_listed test h (a ∷ more) = elim (key_at h a) [
  | none ↦ none
  | some k ↦ let rest = find_listed test h more in if test k then some (some a) else rest
]

abbrev pub asserted : {A : Type 0} → Bool → Option A → Option A
asserted true r = r
asserted false r = none

-- 1 or 0.
unfoldable pub is_service_in_list : Heap → ServiceList → Key → Option Bool
is_service_in_list h l k = asserted l.started (elim (find_listed (λ c. same_key c k) h l.services) [
  | none ↦ none
  | some none ↦ some false
  | some (some a) ↦ some true
])

-- `get_service_from_unsecure_server`, `get_service_from_secure_server`
unfoldable pub get_service_from_list : Heap → ServiceList → Key → Option (Option ℕ)
get_service_from_list h l k = asserted l.started (find_listed (λ c. same_key c k) h l.services)

-- `get_device_from_unsecure_server`, `get_device_from_secure_server`
unfoldable pub get_device_from_list : Heap → ServiceList → (type id : Text) → Option (Option ℕ)
get_device_from_list h l type id =
    asserted l.started
      (elim (find_listed (λ c. str_eq c.device_type type && str_eq c.device_id id) h l.services) [
        | none ↦ none
        | some none ↦ some none
        | some (some a) ↦ elim (deref (h.services a)) [
          | none ↦ none
          | some s ↦ some (some s.device)
        ]
      ])

abbrev pub append_listed : ℕ → ServiceList → ServiceList
append_listed a l = record l { services = l.services ++ a ∷ [] }

-- The service is a live object. The list is not empty after the append.
unfoldable pub register_service_in_unsecure_server : ℕ → ServiceList → Option (ServiceList × Code)
register_service_in_unsecure_server a l = asserted l.started (some (append_listed a l, success))

-- Here no `assert` stands.
unfoldable pub register_service_in_secure_server : ℕ → ServiceList → Option (ServiceList × Code)
register_service_in_secure_server a l = some (append_listed a l, success)

-- The first service with the URL is unlinked.
unfoldable pub unlink_url : Heap → Text → List ℕ → Option (List ℕ)
unlink_url h url [] = some []
unlink_url h url (a ∷ more) = elim (deref (h.services a)) [
  | none ↦ none
  | some s ↦
      let rest = unlink_url h url more in
      if str_eq s.value_url url
      then some more
      else elim rest [ none ↦ none | some left ↦ some (a ∷ left) ]
]

-- `unregister_service_in_unsecure_server`, `unregister_service_in_secure_server`
unfoldable pub unregister_service_in_list :
    Heap → (url : Text) → ServiceList → Option (ServiceList × Code)
unregister_service_in_list h url l = asserted l.started (elim (unlink_url h url l.services) [
  | none ↦ none
  | some left ↦ some (record l { services = left }, success)
])
