-- ===== src/Hpd/Services.antt =====
-- hpbridge/hpdaemon/hpd_services.c: the devices, the services of a device, and their parameters.
-- Devices and services are objects in a heap, and a pointer is an address in it. A list of
-- `ServiceElement` is the list of the services that its elements point to. A fault, `none`, is a
-- use of an object that is not there any more. Every `malloc` gives an object.
pub mod Destroy
pub mod Lists
mod Tests
use home_automation_bridge_z.Prelude.{
  ℕ, zero, suc, Bool, true, false, ◌&&◌, ◌||◌, Option, none, some, List, [], ◌∷◌, ◌++◌, ◌==◌,
  Ordering, if◌then◌else◌, Text, codes, strcmp, str_eq, update,
}
use home_automation_bridge_z.Hpd.Error.{
  Code, success, null_pointer, service_in_use, service_already_in_list, parameter_already_in_list,
  ℤ, pos, int_eq, value, negsuc,
}
use home_automation_bridge_z.Hpd.Parameter.{Parameter, cmp_parameter}

-- What stands at an address: nothing yet, an object, or an object that was freed.
pub data Cell (A : Type 0) : Type 0 where
  unused : Cell A
  live : A → Cell A
  freed : Cell A

pub record Device : Type 0 where
  pub description : Option Text
  pub id : Text
  pub vendor_id : Option Text
  pub product_id : Option Text
  pub version : Option Text
  pub ip : Option Text
  pub port : Option Text
  pub location : Option Text
  pub type : Text
  pub secure_device : ℤ
  pub service_head : List ℕ

-- `get_function` and `put_function` are addresses of functions, `dns_sd_type` is `none` more long as
-- nothing was written to it.
pub record Service : Type 0 where
  pub description : Option Text
  pub id : Text
  pub value_url : Text
  pub type : Text
  pub unit : Option Text
  pub dns_sd_type : Option Text
  pub zero_conf_name : Text
  pub device : ℕ
  pub get_function : ℕ
  pub put_function : Option ℕ
  pub user_data_pointer : Option ℕ
  pub parameter_head : List Parameter

-- `type_of a` is the pointer that the caller gives as the type of the service at `a`, which keeps it
-- without a copy; `strings` are the strings of the callers, live if they were allocated, unused if
-- they cannot be freed.
pub record Heap : Type 0 where
  pub devices : ℕ → Cell Device
  pub services : ℕ → Cell Service
  pub type_of : ℕ → ℕ
  pub strings : ℕ → Cell Text

-- A use of the object behind a pointer.
abbrev pub deref : {A : Type 0} → Cell A → Option A
deref unused = none
deref (live a) = some a
deref freed = none

abbrev pub put_device : ℕ → Cell Device → Heap → Heap
put_device d c h = record h { devices = update h.devices d c }

abbrev pub put_service : ℕ → Cell Service → Heap → Heap
put_service a c h = record h { services = update h.services a c }

abbrev pub put_string : ℕ → Cell Text → Heap → Heap
put_string p c h = record h { strings = update h.strings p c }

-- The new device is written to the address `at`; without an ID and a type there is none.
pub create_device_struct :
    (description id vendor_id product_id version ip port location type : Option Text)
    → ℤ
    → Option Device
create_device_struct description none vendor product version ip port location type secure = none
create_device_struct description (some id) vendor product version ip port location none secure =
    none
create_device_struct description (some id) vendor product version ip port location (some type)
      secure =
    some (record {
      description = description;
      id = id;
      vendor_id = vendor;
      product_id = product;
      version = version;
      ip = ip;
      port = port;
      location = location;
      type = type;
      secure_device = if int_eq secure (pos 1) || int_eq secure (pos 0) then secure else pos 0;
      service_head = [];
    })

-- `DL_SEARCH` with `cmp_ServiceElement`, which compares the URLs of two services.
pub cmp_service_element : Service → Service → Ordering
cmp_service_element a b = strcmp a.value_url b.value_url

pub is_eq : Ordering → Bool
is_eq Ordering.eq = true
is_eq Ordering.lt = false
is_eq Ordering.gt = false

pub search_service : Heap → Service → List ℕ → Option Bool
search_service h s [] = some false
search_service h s (a ∷ more) = elim (deref (h.services a)) [
  | none ↦ none
  | some t ↦
      let rest = search_service h s more in
      if is_eq (cmp_service_element t s) then some true else rest
]

-- `none` for a pointer is NULL.
pub add_service_to_device : Option ℕ → Option ℕ → Heap → Option (Heap × Code)
unfolding search_service
add_service_to_device none device h = some (h, null_pointer)
add_service_to_device (some a) none h = some (h, null_pointer)
add_service_to_device (some a) (some d) h = elim (deref (h.services a)) [
  | none ↦ none
  | some s ↦ elim (deref (h.devices d)) [
    | none ↦ none
    | some dev ↦ elim (search_service h s dev.service_head) [
      | none ↦ none
      | some true ↦ some (h, service_already_in_list)
      | some false ↦ some (
        put_device d (live (record dev { service_head = dev.service_head ++ a ∷ [] })) h,
        success,
      )
    ]
  ]
]

-- `sprintf` with the format `/%s/%s/%s/%s`, and with spaces between the words.
pub joined : Text → Text → Text → Text → Text
joined a b c d = a ++ b'/' ∷ b ++ b'/' ∷ c ++ b'/' ∷ d

abbrev pub url_of : Device → Text → Text → Text
url_of d type id = b'/' ∷ joined d.type d.id type id

abbrev pub conf_name_of : Device → Text → Text → Text
conf_name_of d type id = d.type ++ b' ' ∷ d.id ++ b' ' ∷ type ++ b' ' ∷ id

-- The result of `add_service_to_device` is compared with -1.
pub finish_create : ℕ → Option (Heap × Code) → Option (Heap × Option ℕ)
unfolding value
finish_create a none = none
finish_create a (some (h, code)) =
    if int_eq (value code) (negsuc 0) then some (put_service a freed h, none) else some (h, some a)

-- The fields of a new service.
abbrev pub new_service :
    (description : Option Text)
    → (id type : Text) → (unit : Option Text) → (d get : ℕ) → (put : Option ℕ) → Option Parameter
    → (data_pointer : Option ℕ) → Device
    → Service
new_service description id type unit d get put parameter data_pointer dev = record {
  description = description;
  id = id;
  value_url = url_of dev type id;
  type = type;
  unit = unit;
  dns_sd_type =
      if int_eq dev.secure_device (pos 1)
      then some (codes "_homeport-secure._tcp")
      else if int_eq dev.secure_device (pos 0)
      then some (codes "_homeport._tcp")
      else none;
  zero_conf_name = conf_name_of dev type id;
  device = d;
  get_function = get;
  put_function = put;
  user_data_pointer = data_pointer;
  parameter_head = elim parameter [ none ↦ [] | some p ↦ p ∷ [] ];
}

-- The service is written to the address `a`. Without an ID, a type, a device or a function to get
-- its value there is none. A parameter that is given is the first one.
pub create_service_struct :
    ℕ
    → (description id type unit : Option Text) → Option ℕ
    → Option ℕ
    → Option ℕ
    → Option Parameter
    → Option ℕ
    → Heap
    → Option (Heap × Option ℕ)
create_service_struct a description (some id) (some type) unit (some d) (some get) put parameter
      data_pointer h =
    elim (deref (h.devices d)) [
      | none ↦ none
      | some dev ↦
          let s = new_service description id type unit d get put parameter data_pointer dev in
          finish_create a (add_service_to_device (some a) (some d) (put_service a (live s) h))
    ]
create_service_struct a description id type unit device get put parameter data_pointer h =
    some (h, none)

-- `DL_SEARCH` with `cmp_Parameter`, which may fault.
pub search_parameter : Parameter → List Parameter → Option Bool
search_parameter p [] = some false
search_parameter p (q ∷ qs) = elim (cmp_parameter q p) [
  | none ↦ none
  | some c ↦ let rest = search_parameter p qs in if is_eq c then some true else rest
]

pub add_parameter_to_service : Option Parameter → Option ℕ → Heap → Option (Heap × Code)
unfolding search_parameter
add_parameter_to_service none service h = some (h, null_pointer)
add_parameter_to_service (some p) none h = some (h, null_pointer)
add_parameter_to_service (some p) (some a) h = elim (deref (h.services a)) [
  | none ↦ none
  | some s ↦ elim (search_parameter p s.parameter_head) [
    | none ↦ none
    | some true ↦ some (h, parameter_already_in_list)
    | some false ↦
        some (
          put_service a (live (record s { parameter_head = s.parameter_head ++ p ∷ [] })) h,
          success,
        )
  ]
]

-- The first service in the list with the type and the ID of the given one is unlinked.
pub unlink_alike : Heap → Service → List ℕ → Option (List ℕ)
unlink_alike h s [] = some []
unlink_alike h s (a ∷ more) = elim (deref (h.services a)) [
  | none ↦ none
  | some t ↦
      let rest = unlink_alike h s more in
      if str_eq s.type t.type && str_eq s.id t.id
      then some more
      else elim rest [ none ↦ none | some left ↦ some (a ∷ left) ]
]

-- The device is the service's own one, as in every call in the daemon. The result is success also
-- if no service was unlinked.
pub remove_service_from_device : ℕ → Heap → Option (Heap × Code)
unfolding unlink_alike
remove_service_from_device a h = elim (deref (h.services a)) [
  | none ↦ none
  | some s ↦ elim (deref (h.devices s.device)) [
    | none ↦ none
    | some dev ↦ elim (unlink_alike h s dev.service_head) [
      | none ↦ none
      | some left ↦
          some (put_device s.device (live (record dev { service_head = left })) h, success)
    ]
  ]
]

-- The first service in the list with the URL.
unfoldable pub matching_service : Heap → List ℕ → Text → Option (Option ℕ)
matching_service h [] url = some none
matching_service h (a ∷ more) url = elim (deref (h.services a)) [
  | none ↦ none
  | some s ↦
      let rest = matching_service h more url in
      if str_eq s.value_url url then some (some a) else rest
]
