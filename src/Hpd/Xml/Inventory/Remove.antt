-- ===== src/Hpd/Xml/Inventory/Remove.antt =====
-- Services that are removed from the XML tree.
use home_automation_bridge_z.Prelude.{
  ℕ, suc, remove_at, ◌≡◌, ◌∙◌, refl, ap, sym, Bool, true, false, Option, none, some, List, [], ◌∷◌,
  ◌++◌, arith, if◌then◌else◌, Bool-cases, ◌⊎◌, inl, inr, map, str_eq_refl,
}
use home_automation_bridge_z.Hpd.Error.{
  success, hpd_yes, service_not_in_list, service_already_in_xml,
}
use home_automation_bridge_z.Hpd.Services.{Device, Service}
use home_automation_bridge_z.Hpd.Xml.{
  XmlFile, next_device, get_xml_node_of_device, get_xml_node_of_service, save_xml_tree,
  with_devices, service_node,
}
use home_automation_bridge_z.Hpd.Xml.Change.{
  change_services, remove_service_from_xml, add_service_to_xml,
}
use home_automation_bridge_z.Hpd.Xml.Nodes.{find, alike, same_service}
use home_automation_bridge_z.Hpd.Xml.Inventory.{
  Inventory, nodes, entry_node, of_device, some_of, known, held, insert, without, withdraw,
  find_held, find-some_of, has_service, find_held-held, find-cons,
}
use home_automation_bridge_z.Hpd.Xml.Inventory.Add.{
  find_node_lem, find_service_lem, is_in_xml_file-held, add_service_to_xml-insert,
  save_xml_tree-tree, save_xml_tree-file,
}

remove_at-without :
    {A B : Type 0} (f : A → B) (p : A → Bool) (xs : List A) (i : ℕ)
    → find p xs ≡ some i
    → remove_at i (map f xs) ≡ map f (without p xs)
unfolding without find
remove_at-without f p [] i found = cc
remove_at-without f p (a ∷ more) i found = elim (find-cons p a more i found) [
  | inl (here, zero_it) ↦ rw (zero_it, here) refl
  | inr (k, off, suc_it, found') ↦
      rw (suc_it, off) (ap (◌∷◌ (f a)) (remove_at-without f p more k found'))
]

next_device-some :
    (o : Option (ℕ × ℕ)) (i j : ℕ)
    → next_device o ≡ some (i, j)
    → (k : ℕ) × (o ≡ some (k, j)) × (i ≡ suc k)
next_device-some none i j e = cc
next_device-some (some (k, l)) i j e = (k, ground arith, ground arith)

-- Where the places that were found are.
find_held-cons :
    (s : Service) (d e : Device) (ss : List Service) (more : Inventory) (i j : ℕ)
    → find_held s d ((e, ss) ∷ more) ≡ some (i, j)
    → ((has_service s d (e, ss) ≡ true) × (i ≡ 0) × (find (same_service s) ss ≡ some j))
      ⊎ ((k : ℕ) × (has_service s d (e, ss) ≡ false)
          × (i ≡ suc k)
          × (find_held s d more ≡ some (k, j)))
unfolding find_held
find_held-cons s d e ss more i j found = elim (Bool-cases (alike d e)) [
  | inl is_it ↦ elim (find-some_of (same_service s) ss) [
    | inl (absent, off) ↦
        let (k, f, suc_it) = next_device-some (find_held s d more) i j (ground arith) in
        inr (k, rw (is_it, off) refl, suc_it, f)
    | inr (l, here, on) ↦ inl (rw (is_it, on) refl, ground arith, ground arith)
  ]
  | inr differs ↦
      let (k, f, suc_it) = next_device-some (find_held s d more) i j (ground arith) in
      inr (k, rw differs refl, suc_it, f)
]

change_services-withdraw :
    (s : Service) (d : Device) (inv : Inventory) (i j : ℕ)
    → find_held s d inv ≡ some (i, j)
    → change_services (remove_at j) i (nodes inv) ≡ nodes (withdraw s d inv)
unfolding change_services withdraw find_held
change_services-withdraw s d [] i j found = cc
change_services-withdraw s d ((e, ss) ∷ more) i j found =
    elim (find_held-cons s d e ss more i j found) [
      | inl (here, zero_it, place) ↦
          rw (zero_it, here)
            (ap (λ ns. record (entry_node (e, ss)) { services = ns } ∷ nodes more)
              (remove_at-without service_node (same_service s) ss j place))
      | inr (k, off, suc_it, found') ↦
          rw (suc_it, off)
            (ap (◌∷◌ (entry_node (e, ss))) (change_services-withdraw s d more k j found'))
    ]

-- `remove_service_from_XML` implements the withdrawal of a service: on a file that lists an
-- inventory it faults nowhere and returns that the service is not in the list exactly if the
-- inventory does not hold it. Otherwise it returns HPD_YES, the file lists the inventory without the
-- first service of that type and ID of such a device, and the device stays.
pub remove_service_from_xml-withdraw :
    (opens : Bool) (s : Service) (d : Device) (x : XmlFile) (inv : Inventory)
    → x.tree.devices ≡ nodes inv
    → (x' : XmlFile) × (remove_service_from_xml opens s d x
        ≡ some (x', if held s d inv then hpd_yes else service_not_in_list))
      × (x'.tree.devices ≡ nodes (if held s d inv then withdraw s d inv else inv))
      × ((held s d inv ≡ false) ⊎ (opens ≡ false) ⊎ (x'.file ≡ some x'.tree))
unfolding remove_service_from_xml get_xml_node_of_service get_xml_node_of_device known
remove_service_from_xml-withdraw opens s d x inv tree =
    let is_held = (is_in_xml_file-held s d x inv tree).1 in
    let node = find_node_lem d x inv tree in
    let service = find_service_lem s d x inv tree in
    elim (find_held-held s d inv) [
      | inl (absent, off) ↦
          (x, rw (remove_service_from_xml, is_held, off) refl, rw off tree, inl off)
      | inr (i, j, found, on, is_known) ↦ elim (find-some_of (of_device d) inv) [
        | inl (absent, unknown) ↦ absurd (ground arith)
        | inr (k, found', known') ↦
            let x' = with_devices (nodes (withdraw s d inv)) x in
            let changed : change_services (remove_at j) i x.tree.devices
                ≡ nodes (withdraw s d inv) =
              rw tree (change_services-withdraw s d inv i j found) in
            (
              save_xml_tree opens x',
              rw
                  (
                    remove_service_from_xml, is_held, on, get_xml_node_of_service,
                    get_xml_node_of_device, node, found', service, found,
                  )
                  (ap (λ ns. some (save_xml_tree opens (with_devices ns x), hpd_yes)) changed),
              rw on (ap (λ t. t.devices) (save_xml_tree-tree opens x')),
              inr (save_xml_tree-file opens x'),
            )
      ]
    ]

-- An element behind those that fail a test is removed again by it.
without-append :
    {A : Type 0} (p : A → Bool) (xs : List A) (a : A)
    → some_of p xs ≡ false
    → p a ≡ true
    → (without p (xs ++ a ∷ []) ≡ xs) × (some_of p (xs ++ a ∷ []) ≡ true)
unfolding without some_of
without-append p [] a off on = (rw on refl, rw on refl)
without-append p (x ∷ xs) a off on = elim (Bool-cases (p x)) [
  | inl here ↦ absurd (ground arith)
  | inr differs ↦
      let (w, e) = without-append p xs a (ground arith) on in
      (rw (differs) (ap (◌∷◌ x) w), rw (differs) e)
]

-- In an inventory that knows the device and does not hold the service, a service that is inserted
-- and withdrawn leaves no trace.
pub withdraw-insert :
    (s : Service) (d : Device) (inv : Inventory)
    → known d inv ≡ true
    → held s d inv ≡ false
    → (withdraw s d (insert s d inv) ≡ inv) × (held s d (insert s d inv) ≡ true)
unfolding withdraw insert known held some_of
withdraw-insert s d [] is_known unheld = cc
withdraw-insert s d ((e, ss) ∷ more) is_known unheld = elim (Bool-cases (alike d e)) [
  | inl is_it ↦
      let self_type = str_eq_refl s.type in
      let self_id = str_eq_refl s.id in
      let (w, on) =
        without-append (same_service s) ss s (ground arith) (rw (self_type, self_id) refl) in
      (
        rw (insert, is_it, withdraw, is_it, on) (ap (λ ts. (e, ts) ∷ more) w),
        rw (insert, is_it, held, some_of, is_it, on) refl,
      )
  | inr differs ↦
      let (w, on) = withdraw-insert s d more (ground arith) (ground arith) in
      (
        rw (insert, differs, withdraw, differs) (ap (◌∷◌ (e, ss)) w),
        rw (insert, differs, held, some_of, differs) on,
      )
]

-- On a file that lists an inventory which knows the device and does not hold the service, the service
-- is added and removed again, whether or not services.xml can be opened: the first call returns
-- success, the second HPD_YES, and the file lists what it listed before.
pub remove_service_from_xml-add_service_to_xml :
    (opens_device opens : Bool) (s : Service) (d : Device) (x : XmlFile) (inv : Inventory)
    → x.tree.devices ≡ nodes inv
    → known d inv ≡ true
    → held s d inv ≡ false
    → (x' x'' : XmlFile) × (add_service_to_xml opens_device opens s d x ≡ some (x', success))
      × (remove_service_from_xml opens s d x' ≡ some (x'', hpd_yes))
      × (x''.tree.devices ≡ x.tree.devices)
remove_service_from_xml-add_service_to_xml opens_device opens s d x inv tree is_known unheld =
    let (x', added, lists, saved) = add_service_to_xml-insert opens_device opens s d x inv tree in
    let new = insert s d inv in
    let (back, on) = withdraw-insert s d inv is_known unheld in
    let lists' : x'.tree.devices ≡ nodes new =
      lists ∙ ap (λ b. nodes (if b then inv else new)) unheld in
    let (x'', removed, lists'', saved'') =
      remove_service_from_xml-withdraw opens s d x' new lists' in
    (
      x',
      x'',
      added ∙ ap (λ b. some (x', if b then service_already_in_xml else success)) unheld,
      removed ∙ ap (λ b. some (x'', if b then hpd_yes else service_not_in_list)) on,
      lists'' ∙ ap (λ b. nodes (if b then withdraw s d new else new)) on ∙ ap nodes back ∙ sym tree,
    )
