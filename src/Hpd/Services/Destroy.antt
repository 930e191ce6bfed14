-- ===== src/Hpd/Services/Destroy.antt =====
-- hpbridge/hpdaemon/hpd_services.c: the destruction of services and devices. The strings and buffers
-- that were made with an object are not objects of the heap; the type of a service, which is freed
-- with it too, is a string of the caller.
pub mod Owned
pub mod Types
pub mod Whole
use home_automation_bridge_z.Prelude.{
  ℕ, Bool, true, false, Option, none, some, List, [], ◌∷◌, ◌==◌, if◌then◌else◌,
}
use home_automation_bridge_z.Hpd.Error.{Code, success, null_pointer, service_in_use}
use home_automation_bridge_z.Hpd.Services.{
  Heap, Device, Service, live, freed, deref, put_device, put_service, put_string,
  remove_service_from_device,
}

-- The end of `destroy_device_struct`, which is all of it on a device without services.
pub free_device : ℕ → Heap → Option Heap
free_device d h = elim (deref (h.devices d)) [
  | none ↦ none
  | some dev ↦ some (put_device d freed h)
]

-- The part of `destroy_service_struct` that takes the service out of its device, and destroys the
-- device if it was the last one there.
pub leave_device : ℕ → Service → Heap → Option Heap
unfolding free_device
leave_device a s h = elim (deref (h.devices s.device)) [
  | none ↦ none
  | some dev ↦ elim dev.service_head [
    | [] ↦ some h
    | x ∷ xs ↦ elim (remove_service_from_device a h) [
      | none ↦ none
      | some (h', code) ↦ elim (deref (h'.devices s.device)) [
        | none ↦ none
        | some dev' ↦ elim dev'.service_head [ [] ↦ free_device s.device h' | y ∷ ys ↦ some h' ]
      ]
    ]
  ]
]

-- `free(service->type)`: a fault for what cannot be freed or was.
pub free_type : ℕ → Heap → Option Heap
free_type a h = elim (deref (h.strings (h.type_of a))) [
  | none ↦ none
  | some t ↦ some (put_string (h.type_of a) freed h)
]

-- `registered` is the result of `is_service_registered`.
unfoldable pub destroy_service_struct : (ℕ → Bool) → Option ℕ → Heap → Option (Heap × Code)
unfolding leave_device free_type
destroy_service_struct registered none h = some (h, success)
destroy_service_struct registered (some a) h = elim (deref (h.services a)) [
  | none ↦ none
  | some s ↦ if registered a then some (h, service_in_use) else elim (leave_device a s h) [
    | none ↦ none
    | some h' ↦ elim (free_type a h') [
      | none ↦ none
      | some h'' ↦ some (put_service a freed h'', success)
    ]
  ]
]

-- `DL_DELETE` of the element at the head of the device's list; an element that is not there was
-- freed.
pub unlink_head : ℕ → ℕ → Heap → Option Heap
unlink_head d a h = elim (deref (h.devices d)) [
  | none ↦ none
  | some dev ↦ elim dev.service_head [
    | [] ↦ none
    | x ∷ xs ↦
        if x == a then some (put_device d (live (record dev { service_head = xs })) h) else none
  ]
]

-- The loop over the services that the device had at its start, each unlinked and destroyed; then
-- the device is freed.
pub destroy_services : (ℕ → Bool) → ℕ → List ℕ → Heap → Option (Heap × Code)
unfolding destroy_service_struct unlink_head free_device
destroy_services registered d [] h = elim (free_device d h) [
  | none ↦ none
  | some h' ↦ some (h', success)
]
destroy_services registered d (a ∷ more) h =
    if registered a then some (h, service_in_use) else elim (unlink_head d a h) [
      | none ↦ none
      | some h₁ ↦ elim (destroy_service_struct registered (some a) h₁) [
        | none ↦ none
        | some (h₂, code) ↦ destroy_services registered d more h₂
      ]
    ]

pub destroy_device_struct : (ℕ → Bool) → Option ℕ → Heap → Option (Heap × Code)
unfolding destroy_services
destroy_device_struct registered none h = some (h, null_pointer)
destroy_device_struct registered (some d) h = elim (deref (h.devices d)) [
  | none ↦ none
  | some dev ↦ destroy_services registered d dev.service_head h
]
