-- ===== src/Hpd/Xml/Change.antt =====
-- hpbridge/hpdaemon/hpd_xml.c: devices and services that are added to the tree and removed.
use home_automation_bridge_z.Prelude.{
  ℕ, zero, suc, Bool, Option, none, some, List, [], ◌∷◌, ◌++◌, remove_at,
}
use home_automation_bridge_z.Hpd.Error.{
  Code, success, hpd_yes, hpd_no, device_already_in_xml, service_already_in_xml,
  impossible_to_retrieve_device_xml_node, impossible_to_retrieve_service_xml_node,
  service_not_in_list,
}
use home_automation_bridge_z.Hpd.Services.{Device, Service}
use home_automation_bridge_z.Hpd.Xml.{
  DeviceNode, ServiceNode, XmlFile, device_is_in_xml_file, device_node, get_xml_node_of_device,
  get_xml_node_of_service, save_xml_tree, service_is_in_xml_file, service_node, with_devices,
}

-- A new element is the last child. The tree always has a `devicelist`, which `init_xml_file` makes
-- and nothing removes.
unfoldable pub add_device_to_xml : Bool → Device → XmlFile → Option (XmlFile × Code)
unfolding save_xml_tree
add_device_to_xml opens d x = elim (device_is_in_xml_file d x) [
  | none ↦ none
  | some hpd_yes ↦ some (x, device_already_in_xml)
  | some code ↦
      some (save_xml_tree opens (with_devices (x.tree.devices ++ device_node d ∷ []) x), success)
]

-- The services of the device node at a place.
unfoldable pub change_services :
    (List ServiceNode → List ServiceNode) → ℕ → List DeviceNode → List DeviceNode
change_services f i [] = []
change_services f zero (n ∷ more) = record n { services = f n.services } ∷ more
change_services f (suc i) (n ∷ more) = n ∷ change_services f i more

-- The service under the node of its device.
unfoldable pub append_service : Bool → Service → Device → XmlFile → Option (XmlFile × Code)
unfolding save_xml_tree
append_service opens s d x = elim (get_xml_node_of_device d x) [
  | none ↦ none
  | some none ↦ some (x, impossible_to_retrieve_device_xml_node)
  | some (some i) ↦ some (
    save_xml_tree opens
        (with_devices (change_services (λ ns. ns ++ service_node s ∷ []) i x.tree.devices) x),
    success,
  )
]

-- The device is added first if it is not there. `opens_device` is the save of that.
unfoldable pub add_service_to_xml :
    (opens_device opens : Bool) → Service → Device → XmlFile → Option (XmlFile × Code)
add_service_to_xml opens_device opens s d x = elim (service_is_in_xml_file s d x) [
  | none ↦ none
  | some hpd_yes ↦ some (x, service_already_in_xml)
  | some code ↦ elim (device_is_in_xml_file d x) [
    | none ↦ none
    | some hpd_no ↦ elim (add_device_to_xml opens_device d x) [
      | none ↦ none
      | some (x', c) ↦ append_service opens s d x'
    ]
    | some code' ↦ append_service opens s d x
  ]
]

unfoldable pub remove_service_from_xml : Bool → Service → Device → XmlFile → Option (XmlFile × Code)
unfolding save_xml_tree
remove_service_from_xml opens s d x = elim (service_is_in_xml_file s d x) [
  | none ↦ none
  | some hpd_no ↦ some (x, service_not_in_list)
  | some code ↦ elim (get_xml_node_of_service s d x) [
    | none ↦ none
    | some none ↦ some (x, impossible_to_retrieve_service_xml_node)
    | some (some (i, j)) ↦ some (
      save_xml_tree opens (with_devices (change_services (remove_at j) i x.tree.devices) x),
      hpd_yes,
    )
  ]
]

-- The device goes with the services under it.
unfoldable pub remove_device_from_xml : Bool → Device → XmlFile → Option (XmlFile × Code)
unfolding save_xml_tree
remove_device_from_xml opens d x = elim (device_is_in_xml_file d x) [
  | none ↦ none
  | some hpd_no ↦ some (x, service_not_in_list)
  | some code ↦ elim (get_xml_node_of_device d x) [
    | none ↦ none
    | some none ↦ some (x, impossible_to_retrieve_device_xml_node)
    | some (some i) ↦
        some (save_xml_tree opens (with_devices (remove_at i x.tree.devices) x), hpd_yes)
  ]
]
