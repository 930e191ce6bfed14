-- ===== src/Hpd/Xml/Inventory/Add.antt =====
-- Devices and services that are added to the XML tree.
use home_automation_bridge_z.Prelude.{
  ℕ, ◌≡◌, ◌∙◌, refl, ap, sym, Bool, true, false, some, [], ◌∷◌, ◌++◌, arith, if◌then◌else◌,
  Bool-cases, ◌⊎◌, inl, inr,
}
use home_automation_bridge_z.Hpd.Error.{
  Code, success, hpd_yes, hpd_no, device_already_in_xml, service_already_in_xml,
}
use home_automation_bridge_z.Hpd.Services.{Device, Service}
use home_automation_bridge_z.Hpd.Xml.{
  XmlFile, is_node_of, find_node, find_service, device_is_in_xml_file, service_is_in_xml_file,
  get_xml_node_of_device, save_xml_tree, with_devices, service_node, device_node,
}
use home_automation_bridge_z.Hpd.Xml.Change.{
  change_services, add_device_to_xml, append_service, add_service_to_xml,
}
use home_automation_bridge_z.Hpd.Xml.Nodes.{find}
use home_automation_bridge_z.Hpd.Xml.Inventory.{
  Inventory, nodes, entry_node, of_device, known, held, insert, find_held, find-some_of,
  find-append, insert-append, find_service-find_held, get_xml_node_of_device-nodes,
  change_services-insert, find_held-held, map-append,
}

-- The lookups of the code in a file that lists an inventory.
pub find_node_lem :
    (d : Device) (x : XmlFile) (inv : Inventory)
    → x.tree.devices ≡ nodes inv
    → find_node (λ n. is_node_of n.attributes d.type d.id) x.tree.devices
      ≡ some (find (of_device d) inv)
find_node_lem d x inv tree = rw tree (get_xml_node_of_device-nodes d inv)

pub find_service_lem :
    (s : Service) (d : Device) (x : XmlFile) (inv : Inventory)
    → x.tree.devices ≡ nodes inv
    → find_service s d x.tree.devices ≡ some (find_held s d inv)
find_service_lem s d x inv tree = rw tree (find_service-find_held s d inv)

-- The answer whether something is in the file.
abbrev pub yes_no : Bool → Code
yes_no b = if b then hpd_yes else hpd_no

device_is_in_xml_file-known :
    (d : Device) (x : XmlFile) (inv : Inventory)
    → x.tree.devices ≡ nodes inv
    → device_is_in_xml_file d x ≡ some (yes_no (known d inv))
unfolding device_is_in_xml_file known
device_is_in_xml_file-known d x inv tree =
    let node = find_node_lem d x inv tree in
    elim (find-some_of (of_device d) inv) [
      | inl (absent, unknown) ↦ rw (device_is_in_xml_file, node, absent, unknown) refl
      | inr (i, found, is_known) ↦ rw (device_is_in_xml_file, node, found, is_known) refl
    ]

service_is_in_xml_file-held :
    (s : Service) (d : Device) (x : XmlFile) (inv : Inventory)
    → x.tree.devices ≡ nodes inv
    → service_is_in_xml_file s d x ≡ some (yes_no (held s d inv))
unfolding service_is_in_xml_file get_xml_node_of_device known
service_is_in_xml_file-held s d x inv tree =
    let node = find_node_lem d x inv tree in
    let service = find_service_lem s d x inv tree in
    elim (find_held-held s d inv) [
      | inl (none_it, off) ↦ elim (find-some_of (of_device d) inv) [
        | inl (absent, unknown) ↦
            rw (service_is_in_xml_file, get_xml_node_of_device, node, absent, off) refl
        | inr (i, found, is_known) ↦
            rw (service_is_in_xml_file, get_xml_node_of_device, node, found, service, none_it, off)
              refl
      ]
      | inr (i, j, some_it, on, known_it) ↦ elim (find-some_of (of_device d) inv) [
        | inl (absent, unknown) ↦ absurd (ground arith)
        | inr (i', found, is_known) ↦
            rw (service_is_in_xml_file, get_xml_node_of_device, node, found, service, some_it, on)
              refl
      ]
    ]

-- In a file that lists an inventory a device is found exactly if the inventory knows it, and a
-- service exactly if the inventory holds it. No lookup faults.
pub is_in_xml_file-held :
    (s : Service) (d : Device) (x : XmlFile) (inv : Inventory)
    → x.tree.devices ≡ nodes inv
    → (device_is_in_xml_file d x ≡ some (yes_no (known d inv)))
      × (service_is_in_xml_file s d x ≡ some (yes_no (held s d inv)))
is_in_xml_file-held s d x inv tree =
    (device_is_in_xml_file-known d x inv tree, service_is_in_xml_file-held s d x inv tree)

pub save_xml_tree-tree : (opens : Bool) (x : XmlFile) → (save_xml_tree opens x).tree ≡ x.tree
unfolding save_xml_tree
save_xml_tree-tree true x = refl
save_xml_tree-tree false x = refl

append_service-insert :
    (opens : Bool) (s : Service) (d : Device) (x : XmlFile) (inv : Inventory) (i : ℕ)
    → x.tree.devices ≡ nodes inv
    → find (of_device d) inv ≡ some i
    → append_service opens s d x
      ≡ some (save_xml_tree opens (with_devices (nodes (insert s d inv)) x), success)
unfolding append_service get_xml_node_of_device
append_service-insert opens s d x inv i tree found =
    let node = find_node_lem d x inv tree in
    let changed : change_services (λ ns. ns ++ service_node s ∷ []) i x.tree.devices
        ≡ nodes (insert s d inv) =
      rw tree (change_services-insert s d inv i found) in
    rw (append_service, get_xml_node_of_device, node, found)
      (ap (λ ns. some (save_xml_tree opens (with_devices ns x), success)) changed)

-- What `add_device_to_xml` does to a file that lists an inventory: an unknown device is listed last
-- without services, a known one is refused.
pub add_device_to_xml-lists :
    (opens : Bool) (d : Device) (x : XmlFile) (inv : Inventory)
    → x.tree.devices ≡ nodes inv
    → add_device_to_xml opens d x
      ≡ some (
          if known d inv
          then (x, device_already_in_xml)
          else (save_xml_tree opens (with_devices (nodes (inv ++ (d, []) ∷ [])) x), success))
unfolding add_device_to_xml
add_device_to_xml-lists opens d x inv tree =
    let is_in = device_is_in_xml_file-known d x inv tree in
    elim (Bool-cases (known d inv)) [
      | inl is_known ↦ rw (add_device_to_xml, is_in, is_known) refl
      | inr unknown ↦
          rw (add_device_to_xml, is_in, unknown)
            (ap (λ ns. some (save_xml_tree opens (with_devices ns x), success))
              (ap (λ ns. ns ++ device_node d ∷ []) tree
                ∙ sym (map-append entry_node inv ((d, []) ∷ []))))
    ]

-- The inventory after a service was added: nothing changes if it holds the service.
abbrev pub with_service : Service → Device → Inventory → Inventory
with_service s d inv = if held s d inv then inv else insert s d inv

add_service_to_xml-unheld :
    (opens_device opens : Bool) (s : Service) (d : Device) (x : XmlFile) (inv : Inventory)
    → x.tree.devices ≡ nodes inv
    → held s d inv ≡ false
    → (x' : XmlFile) × (add_service_to_xml opens_device opens s d x
        ≡ some (save_xml_tree opens x', success))
      × (x'.tree.devices ≡ nodes (insert s d inv))
unfolding add_service_to_xml known
add_service_to_xml-unheld opens_device opens s d x inv tree unheld =
    let is_held = service_is_in_xml_file-held s d x inv tree in
    let is_in = device_is_in_xml_file-known d x inv tree in
    let added = add_device_to_xml-lists opens_device d x inv tree in
    elim (find-some_of (of_device d) inv) [
      | inl (absent, unknown) ↦
          let new : Inventory = inv ++ (d, []) ∷ [] in
          let y = save_xml_tree opens_device (with_devices (nodes new) x) in
          let (i, found) = find-append d inv absent in
          let tree' : y.tree.devices ≡ nodes new =
            ap (λ t. t.devices) (save_xml_tree-tree opens_device (with_devices (nodes new) x)) in
          let appended = append_service-insert opens s d y new i tree' found in
          let same = insert-append s d inv absent in
          (
            with_devices (nodes (insert s d new)) y,
            rw (add_service_to_xml, is_held, unheld, is_in, unknown, added, unknown) appended,
            ap nodes same,
          )
      | inr (i, found, is_known) ↦
          let appended = append_service-insert opens s d x inv i tree found in
          (
            with_devices (nodes (insert s d inv)) x,
            rw (add_service_to_xml, is_held, unheld, is_in, is_known) appended,
            refl,
          )
    ]

pub save_xml_tree-file :
    (opens : Bool) (x : XmlFile)
    → (opens ≡ false) ⊎ ((save_xml_tree opens x).file ≡ some (save_xml_tree opens x).tree)
unfolding save_xml_tree
save_xml_tree-file true x = inr refl
save_xml_tree-file false x = inl refl

-- The functions of the file implement an inventory of devices and their services: on a file that
-- lists an inventory, `add_service_to_xml` faults nowhere and returns that the service is already in
-- the file exactly if the inventory holds it. Otherwise it returns success, the file lists the
-- inventory with the service as the last one of its device, which is listed last if it was not
-- known, and what was saved is that tree, if services.xml could be opened.
pub add_service_to_xml-insert :
    (opens_device opens : Bool) (s : Service) (d : Device) (x : XmlFile) (inv : Inventory)
    → x.tree.devices ≡ nodes inv
    → (x' : XmlFile) × (add_service_to_xml opens_device opens s d x
        ≡ some (x', if held s d inv then service_already_in_xml else success))
      × (x'.tree.devices ≡ nodes (with_service s d inv))
      × ((held s d inv ≡ true) ⊎ (opens ≡ false) ⊎ (x'.file ≡ some x'.tree))
unfolding add_service_to_xml
add_service_to_xml-insert opens_device opens s d x inv tree =
    let is_held = service_is_in_xml_file-held s d x inv tree in
    elim (Bool-cases (held s d inv)) [
      | inl on ↦ (x, rw (add_service_to_xml, is_held, on) refl, rw on tree, inl on)
      | inr off ↦
          let (x', added, lists) =
            add_service_to_xml-unheld opens_device opens s d x inv tree off in
          (
            save_xml_tree opens x',
            rw off added,
            rw off (ap (λ t. t.devices) (save_xml_tree-tree opens x') ∙ lists),
            inr (save_xml_tree-file opens x'),
          )
    ]
