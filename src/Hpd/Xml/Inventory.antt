-- ===== src/Hpd/Xml/Inventory.antt =====
-- What the XML tree lists, the devices with their services, and the functions of hpd_xml.c on it.
pub mod Add
pub mod Remove
use home_automation_bridge_z.Prelude.{
  ℕ, suc, ◌≡◌, refl, ap, sym, Bool, true, false, ◌&&◌, ◌||◌, Option, none, some, List, [], ◌∷◌,
  ◌++◌, arith, if◌then◌else◌, Bool-cases, Option-cases, ◌⊎◌, inl, inr, map, str_eq_refl,
}
use home_automation_bridge_z.Hpd.Services.{Device, Service}
use home_automation_bridge_z.Hpd.Xml.{
  DeviceNode, is_node_of, find_node, next_place, next_device, find_service, device_attributes,
  service_node,
}
use home_automation_bridge_z.Hpd.Xml.Change.{change_services}
use home_automation_bridge_z.Hpd.Xml.Nodes.{
  find, find_node-find, alike, same_service, is_node_of-alike, is_node_of-same_service,
}

-- The devices with their services, in the order of the file.
abbrev pub Inventory : Type 0
Inventory = List (Device × List Service)

abbrev pub entry_node : Device × List Service → DeviceNode
entry_node (d, ss) = record { attributes = device_attributes d; services = map service_node ss }

abbrev pub nodes : Inventory → List DeviceNode
nodes inv = map entry_node inv

abbrev pub of_device : Device → Device × List Service → Bool
of_device d (e, ss) = alike d e

-- Whether a test holds somewhere in a list.
unfoldable pub some_of : {A : Type 0} → (A → Bool) → List A → Bool
some_of p [] = false
some_of p (a ∷ more) = p a || some_of p more

unfoldable pub known : Device → Inventory → Bool
known d inv = some_of (of_device d) inv

-- An entry of the device that has the service.
abbrev pub has_service : Service → Device → Device × List Service → Bool
has_service s d (e, ss) = alike d e && some_of (same_service s) ss

unfoldable pub held : Service → Device → Inventory → Bool
held s d inv = some_of (has_service s d) inv

-- The service becomes the last one of its device, which is put at the end if it is not known.
unfoldable pub insert : Service → Device → Inventory → Inventory
insert s d [] = (d, s ∷ []) ∷ []
insert s d ((e, ss) ∷ more) =
    if alike d e then (e, ss ++ s ∷ []) ∷ more else (e, ss) ∷ insert s d more

-- Without the first that passes the test.
unfoldable pub without : {A : Type 0} → (A → Bool) → List A → List A
without p [] = []
without p (a ∷ more) = if p a then more else a ∷ without p more

unfoldable pub withdraw : Service → Device → Inventory → Inventory
withdraw s d [] = []
withdraw s d ((e, ss) ∷ more) =
    if has_service s d (e, ss)
    then (e, without (same_service s) ss) ∷ more
    else (e, ss) ∷ withdraw s d more

pub find-some_of :
    {A : Type 0} (p : A → Bool) (xs : List A)
    → ((find p xs ≡ none) × (some_of p xs ≡ false))
      ⊎ ((i : ℕ) × (find p xs ≡ some i) × (some_of p xs ≡ true))
unfolding find some_of
find-some_of p [] = inl (refl, refl)
find-some_of p (a ∷ more) = elim (Bool-cases (p a)) [
  | inl here ↦ inr (0, rw here refl, rw here refl)
  | inr off ↦ elim (find-some_of p more) [
    | inl (f, s) ↦ inl (rw (off, f) refl, rw (off, s) refl)
    | inr (i, f, s) ↦ inr (suc i, rw (off, f) refl, rw (off, s) refl)
  ]
]

pub get_xml_node_of_device-nodes :
    (d : Device) (inv : Inventory)
    → find_node (λ n. is_node_of n.attributes d.type d.id) (nodes inv)
      ≡ some (find (of_device d) inv)
get_xml_node_of_device-nodes d inv =
    find_node-find entry_node (λ n. is_node_of n.attributes d.type d.id) (of_device d) inv
      (λ p. is_node_of-alike d p.0)

find_node-services :
    (s : Service) (ss : List Service)
    → find_node (λ n. is_node_of n.attributes s.type s.id) (map service_node ss)
      ≡ some (find (same_service s) ss)
unfolding service_node
find_node-services s ss =
    find_node-find service_node (λ n. is_node_of n.attributes s.type s.id) (same_service s) ss
      (λ t. is_node_of-same_service s t)

-- The places of the first entry of the device that has the service, and of the service.
unfoldable pub find_held : Service → Device → Inventory → Option (ℕ × ℕ)
find_held s d [] = none
find_held s d ((e, ss) ∷ more) =
    if alike d e
    then elim (find (same_service s) ss) [
      | some j ↦ some (0, j)
      | none ↦ next_device (find_held s d more)
    ]
    else next_device (find_held s d more)

pub find_service-find_held :
    (s : Service) (d : Device) (inv : Inventory)
    → find_service s d (nodes inv) ≡ some (find_held s d inv)
unfolding find_service find_held
find_service-find_held s d [] = refl
find_service-find_held s d ((e, ss) ∷ more) =
    let here = is_node_of-alike d e in
    let inner = find_node-services s ss in
    let rest = find_service-find_held s d more in
    elim (Bool-cases (alike d e)) [
      | inl is_it ↦ elim (Option-cases (find (same_service s) ss)) [
        | inl absent ↦ rw (find_service, find_held, here, is_it, inner, absent, rest) refl
        | inr (j, found) ↦ rw (find_service, find_held, here, is_it, inner, found) refl
      ]
      | inr off ↦ rw (find_service, find_held, here, off, rest) refl
    ]

pub next_place-some :
    (o : Option ℕ) (i : ℕ) → next_place o ≡ some i → (k : ℕ) × (o ≡ some k) × (i ≡ suc k)
next_place-some none i e = cc
next_place-some (some k) i e = (k, refl, ground arith)

pub find-cons :
    {A : Type 0} (p : A → Bool) (a : A) (more : List A) (i : ℕ)
    → find p (a ∷ more) ≡ some i
    → ((p a ≡ true) × (i ≡ 0)) ⊎ ((k : ℕ) × (p a ≡ false) × (i ≡ suc k) × (find p more ≡ some k))
unfolding find
find-cons p a more i found = elim (Bool-cases (p a)) [
  | inl here ↦ inl (here, ground arith)
  | inr off ↦ let (k, f, e) = next_place-some (find p more) i (ground arith) in inr (k, off, e, f)
]

map-append : {A B : Type 0} (f : A → B) (xs ys : List A) → map f (xs ++ ys) ≡ map f xs ++ map f ys
map-append f [] ys = refl
map-append f (x ∷ xs) ys = ap (◌∷◌ (f x)) (map-append f xs ys)

pub change_services-insert :
    (s : Service) (d : Device) (inv : Inventory) (i : ℕ)
    → find (of_device d) inv ≡ some i
    → change_services (λ ns. ns ++ service_node s ∷ []) i (nodes inv) ≡ nodes (insert s d inv)
unfolding change_services insert find
change_services-insert s d [] i found = cc
change_services-insert s d ((e, ss) ∷ more) i found =
    elim (find-cons (of_device d) (e, ss) more i found) [
      | inl (is_it, zero_it) ↦
          rw (zero_it, insert, is_it)
            (ap (λ ns. record { attributes = device_attributes e; services = ns } ∷ nodes more)
              (sym (map-append service_node ss (s ∷ []))))
      | inr (k, off, suc_it, found') ↦
          rw (suc_it, insert, off)
            (ap (◌∷◌ (entry_node (e, ss))) (change_services-insert s d more k found'))
    ]

-- A device that is not known is put behind the others, where its first service goes.
pub find-append :
    (d : Device) (inv : Inventory)
    → find (of_device d) inv ≡ none
    → (i : ℕ) × (find (of_device d) (inv ++ (d, []) ∷ []) ≡ some i)
unfolding find
find-append d [] absent =
    let self_type = str_eq_refl d.type in
    let self_id = str_eq_refl d.id in (0, rw (self_type, self_id) refl)
find-append d (p ∷ more) absent = elim (Bool-cases (of_device d p)) [
  | inl here ↦ absurd (ground arith)
  | inr off ↦
      let absent' : find (of_device d) more ≡ none = elim (find-some_of (of_device d) more) [
        | inl (f, x) ↦ f
        | inr (i, f, x) ↦ absurd (ground arith)
      ] in
      let (i, found) = find-append d more absent' in (suc i, rw (off, found) refl)
]

pub insert-append :
    (s : Service) (d : Device) (inv : Inventory)
    → find (of_device d) inv ≡ none
    → insert s d (inv ++ (d, []) ∷ []) ≡ insert s d inv
unfolding find insert
insert-append s d [] absent =
    let self_type = str_eq_refl d.type in
    let self_id = str_eq_refl d.id in rw (self_type, self_id) refl
insert-append s d ((e, ss) ∷ more) absent = elim (Bool-cases (alike d e)) [
  | inl here ↦ absurd (ground arith)
  | inr off ↦
      let absent' : find (of_device d) more ≡ none = elim (find-some_of (of_device d) more) [
        | inl (f, x) ↦ f
        | inr (i, f, x) ↦ absurd (ground arith)
      ] in
      rw (insert, off) (ap (◌∷◌ (e, ss)) (insert-append s d more absent'))
]

-- A service is held exactly if its places are found, and only of a known device.
pub find_held-held :
    (s : Service) (d : Device) (inv : Inventory)
    → ((find_held s d inv ≡ none) × (held s d inv ≡ false))
      ⊎ ((i j : ℕ) × (find_held s d inv ≡ some (i, j))
          × (held s d inv ≡ true)
          × (known d inv ≡ true))
unfolding find_held held known some_of
find_held-held s d [] = inl (refl, refl)
find_held-held s d ((e, ss) ∷ more) = elim (Bool-cases (alike d e)) [
  | inl is_it ↦ elim (find-some_of (same_service s) ss) [
    | inl (absent, off) ↦ elim (find_held-held s d more) [
      | inl (f, h) ↦ inl (rw (is_it, absent, f) refl, rw (is_it, off, h) refl)
      | inr (i, j, f, h, k) ↦
          inr (suc i, j, rw (is_it, absent, f) refl, rw (is_it, off, h) refl, rw is_it refl)
    ]
    | inr (j, found, here) ↦
        inr (0, j, rw (is_it, found) refl, rw (is_it, here) refl, rw is_it refl)
  ]
  | inr differs ↦ elim (find_held-held s d more) [
    | inl (f, h) ↦ inl (rw (differs, f) refl, rw (differs, h) refl)
    | inr (i, j, f, h, k) ↦
        inr (suc i, j, rw (differs, f) refl, rw (differs, h) refl, rw (differs, k) refl)
  ]
]
