-- ===== src/Hpd/Services/Tests.antt =====
-- Runs of the functions on devices and services.
use home_automation_bridge_z.Prelude.{
  ◌+◌, ◌⊎◌, ℕ, ◌≡◌, refl, arith, true, false, Bool, none, some, List, [], ◌∷◌, ◌++◌, ◌==◌,
  if◌then◌else◌, Text, codes, str_eq,
}
use home_automation_bridge_z.Hpd.Error.{success, service_already_in_list, pos}
use home_automation_bridge_z.Hpd.Services.{
  Heap, Device, Service, unused, live, new_service, url_of, matching_service, create_service_struct,
  add_service_to_device,
}
use home_automation_bridge_z.Hpd.Services.Destroy.{destroy_device_struct}
use home_automation_bridge_z.Hpd.Services.Lists.{
  all_live, count_url, has_url, Unique, add_service_to_device-Unique,
}
use home_automation_bridge_z.Hpd.Services.Lists.Create.{create_service_struct-listed}
use home_automation_bridge_z.Hpd.Services.Destroy.Owned.{member, unlike, owned}
use home_automation_bridge_z.Hpd.Services.Destroy.Types.{own_types}
use home_automation_bridge_z.Hpd.Services.Destroy.Whole.{
  Gone, destroy_device_struct_shared_type, destroy_device_struct-Gone,
}

abbrev lamps : Device
lamps = record {
  description = none;
  id = codes "0";
  vendor_id = none;
  product_id = none;
  version = none;
  ip = none;
  port = none;
  location = none;
  type = codes "lamp";
  secure_device = pos 0;
  service_head = [];
}

abbrev switch_of : Text → Service
switch_of id = new_service none id (codes "switch") none 7 1000 none none none lamps

-- At 7 a device; at 1 and 2 two services of it; the list has none, or the first, or both.
abbrev heap : List ℕ → Heap
heap bs = record {
  devices = λ d. if d == 7 then live (record lamps { service_head = bs }) else unused;
  services = λ a.
      if a == 1
      then live (switch_of (codes "0"))
      else if a == 2
      then live (switch_of (codes "1"))
      else unused;
  type_of = λ a. a + 100;
  strings = λ p. live (codes "switch");
}

abbrev the_list : List ℕ
the_list = 1 ∷ []

abbrev both : List ℕ
both = 1 ∷ 2 ∷ []

abbrev listed : Device
listed = record lamps { service_head = the_list }

abbrev full : Device
full = record lamps { service_head = both }

both-owned : owned (heap both).services 7 both ≡ true
unfolding owned member unlike str_eq
both-owned = refl

one_live : all_live (heap the_list).services the_list ≡ true
unfolding all_live
one_live = refl

one_Unique : Unique (heap the_list).services the_list
unfolding count_url
one_Unique url = ground arith

abbrev none_registered : ℕ → Bool
none_registered b = false

add_service_to_device-Unique_example :
    (h' : Heap) × (bs : List ℕ) × (add_service_to_device (some 2) (some 7) (heap the_list)
      ≡ some (
        h',
        if has_url (heap the_list).services (switch_of (codes "1")).value_url listed.service_head
            then service_already_in_list
            else success,
      ))
    × (h'.services ≡ (heap the_list).services)
    × (h'.devices 7 ≡ live (record listed { service_head = bs }))
    × (bs ≡ (
        if has_url (heap the_list).services (switch_of (codes "1")).value_url listed.service_head
        then listed.service_head
        else listed.service_head ++ 2 ∷ []))
    × ((has_url (heap the_list).services (switch_of (codes "1")).value_url listed.service_head
          ≡ true)
        ⊎ (matching_service h' bs (switch_of (codes "1")).value_url ≡ some (some 2)))
    × Unique h'.services bs
add_service_to_device-Unique_example =
    add_service_to_device-Unique (heap the_list) 2 7 (switch_of (codes "1")) listed refl refl
      one_live one_Unique

create_service_struct-listed_example :
    (h' : Heap) × (s : Service) × (bs : List ℕ) × (create_service_struct 3 none
        (some (codes "0"))
        (some (codes "switch"))
        none
        (some 7)
        (some 1000)
        none
        none
        none
        (heap the_list)
      ≡ some (h', some 3))
    × (h'.services 3 ≡ live s)
    × (s.value_url ≡ url_of listed (codes "switch") (codes "0"))
    × (s.device ≡ 7)
    × (h'.devices 7 ≡ live (record listed { service_head = bs }))
    × (bs ≡ (
        if has_url
          (heap the_list).services
          (url_of listed (codes "switch") (codes "0"))
          listed.service_head
        then listed.service_head
        else listed.service_head ++ 3 ∷ []))
    × Unique h'.services bs
create_service_struct-listed_example =
    create_service_struct-listed (heap the_list) 3 7 1000 listed none none (codes "0")
      (codes "switch") none none none refl refl one_live one_Unique

both-own_types : own_types (heap both).type_of (heap both).strings full.service_head ≡ true
unfolding own_types member
both-own_types = refl

destroy_device_struct-Gone_example :
    (h' : Heap) × (destroy_device_struct none_registered (some 7) (heap both) ≡ some (h', success))
    × Gone 7 full.service_head (heap both) h'
destroy_device_struct-Gone_example =
    destroy_device_struct-Gone none_registered 7 (heap both) full (λ b. refl) refl both-owned
      both-own_types

-- Both services keep the same string.
abbrev shared : Heap
shared = record (heap both) { type_of = λ a. 100 }

shared_bad : own_types shared.type_of shared.strings full.service_head ≡ false
unfolding own_types member
shared_bad = refl

destroy_device_struct_shared_type_example :
    destroy_device_struct none_registered (some 7) shared ≡ none
destroy_device_struct_shared_type_example =
    destroy_device_struct_shared_type none_registered 7 shared full (λ b. refl) refl both-owned
      shared_bad
