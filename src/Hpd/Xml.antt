-- ===== src/Hpd/Xml.antt =====
-- hpbridge/hpdaemon/hpd_xml.c: the XML file of the devices and their services, and the XML of a
-- value and of a subscription. The tree of Mini-XML is a record per level of what the functions
-- below build: the device list, its devices, their services. What Mini-XML writes and reads is a
-- parameter. The mutex of the file is held in each function that is called from a server.
pub mod Change
pub mod Document
pub mod Nodes
pub mod Inventory
mod Tests
use home_automation_bridge_z.Prelude.{
  ℕ, suc, Bool, true, false, Option, none, some, List, [], ◌∷◌, if◌then◌else◌, Text, codes, str_eq,
  map,
}
use home_automation_bridge_z.Hpd.Error.{Code, success, hpd_yes, hpd_no}
use home_automation_bridge_z.Hpd.Parameter.{Parameter}
use home_automation_bridge_z.Hpd.Services.{Device, Service}

abbrev pub Attributes : Type 0
Attributes = List (Text × Text)

-- `mxmlElementSetAttr`: the value of a name that is there is replaced.
unfoldable pub set_attr : Text → Text → Attributes → Attributes
set_attr name value [] = (name, value) ∷ []
set_attr name value ((n, v) ∷ more) =
    if str_eq n name then (n, value) ∷ more else (n, v) ∷ set_attr name value more

-- `mxmlElementGetAttr`, `none` for NULL.
unfoldable pub get_attr : Text → Attributes → Option Text
get_attr name [] = none
get_attr name ((n, v) ∷ more) = if str_eq n name then some v else get_attr name more

-- `if(value != NULL) mxmlElementSetAttr(node, name, value)`.
abbrev pub set_given : Text → Option Text → Attributes → Attributes
set_given name none attrs = attrs
set_given name (some value) attrs = set_attr name value attrs

pub record ServiceNode : Type 0 where
  pub attributes : Attributes
  pub parameters : List Attributes

pub record DeviceNode : Type 0 where
  pub attributes : Attributes
  pub services : List ServiceNode

pub record DeviceList : Type 0 where
  pub attributes : Attributes
  pub devices : List DeviceNode

-- `file` is what services.xml holds, `none` if it is not there.
pub record XmlFile : Type 0 where
  pub tree : DeviceList
  pub file : Option DeviceList

-- `opens` is whether `fopen` succeeds. No caller looks at a failure.
pub save_xml_tree : Bool → XmlFile → XmlFile
save_xml_tree opens x = if opens then record x { file = some x.tree } else x

unfoldable pub init_xml_file : Bool → (file : Option DeviceList) → (name id : Text) → XmlFile × Code
unfolding set_attr
init_xml_file opens file name id = (
  save_xml_tree opens (record {
    tree = record {
      attributes =
          set_attr (codes "xsi:noNamespaceSchemaLocation")
            (codes "http://cs.au.dk/dithus/xml/devicedescription.xsd")
            (set_attr (codes "xmlns:xsi") (codes "http://www.w3.org/2001/XMLSchema-instance")
              (set_attr (codes "id") id (set_attr (codes "name") name [])));
      devices = [];
    };
    file = file;
  }),
  success,
)

-- `strcmp(mxmlElementGetAttr(node, name), value) == 0`, which faults if there is no attribute.
abbrev pub attr_is : Text → Text → Attributes → Option Bool
attr_is name value attrs = elim (get_attr name attrs) [
  | none ↦ none
  | some v ↦ some (str_eq v value)
]

-- The test of the type and, if it is the same, of the ID.
unfoldable pub is_node_of : Attributes → (type id : Text) → Option Bool
is_node_of attrs type id = elim (attr_is (codes "type") type attrs) [
  | none ↦ none
  | some false ↦ some false
  | some true ↦ attr_is (codes "id") id attrs
]

abbrev pub next_place : Option ℕ → Option ℕ
next_place none = none
next_place (some i) = some (suc i)

-- A loop with `mxmlFindElement` over nodes: the place of the first one that passes the test.
unfoldable pub find_node : {A : Type 0} → (A → Option Bool) → List A → Option (Option ℕ)
find_node test [] = some none
find_node test (n ∷ more) = elim (test n) [
  | none ↦ none
  | some true ↦ some (some 0)
  | some false ↦ elim (find_node test more) [ none ↦ none | some place ↦ some (next_place place) ]
]

-- The node of a device is its place among the devices.
unfoldable pub get_xml_node_of_device : Device → XmlFile → Option (Option ℕ)
get_xml_node_of_device d x = find_node (λ n. is_node_of n.attributes d.type d.id) x.tree.devices

unfoldable pub device_is_in_xml_file : Device → XmlFile → Option Code
device_is_in_xml_file d x =
    elim (find_node (λ n. is_node_of n.attributes d.type d.id) x.tree.devices) [
      | none ↦ none
      | some none ↦ some hpd_no
      | some (some i) ↦ some hpd_yes
    ]

abbrev pub next_device : Option (ℕ × ℕ) → Option (ℕ × ℕ)
next_device none = none
next_device (some (i, j)) = some (suc i, j)

-- The two loops that look for a service in each device node with the device's type and ID: the
-- places of the device and of the service.
unfoldable pub find_service : Service → Device → List DeviceNode → Option (Option (ℕ × ℕ))
find_service s d [] = some none
find_service s d (n ∷ more) = elim (is_node_of n.attributes d.type d.id) [
  | none ↦ none
  | some true ↦ elim (find_node (λ m. is_node_of m.attributes s.type s.id) n.services) [
    | none ↦ none
    | some (some j) ↦ some (some (0, j))
    | some none ↦ elim (find_service s d more) [
      | none ↦ none
      | some place ↦ some (next_device place)
    ]
  ]
  | some false ↦ elim (find_service s d more) [
    | none ↦ none
    | some place ↦ some (next_device place)
  ]
]

-- The device is `service->device`. Between the test of the device and the loops its node is looked
-- up once more; that lookup finds it too.
unfoldable pub service_is_in_xml_file : Service → Device → XmlFile → Option Code
service_is_in_xml_file s d x = elim (get_xml_node_of_device d x) [
  | none ↦ none
  | some none ↦ some hpd_no
  | some (some i) ↦ elim (find_service s d x.tree.devices) [
    | none ↦ none
    | some none ↦ some hpd_no
    | some (some place) ↦ some hpd_yes
  ]
]

unfoldable pub get_xml_node_of_service : Service → Device → XmlFile → Option (Option (ℕ × ℕ))
get_xml_node_of_service s d x = elim (get_xml_node_of_device d x) [
  | none ↦ none
  | some none ↦ some none
  | some (some i) ↦ find_service s d x.tree.devices
]

unfoldable pub device_attributes : Device → Attributes
device_attributes d = set_given (codes "type") (some d.type) (
    set_given (codes "location") d.location (
      set_given (codes "port") d.port (
        set_given (codes "ip") d.ip (
          set_given (codes "version") d.version (
            set_given (codes "productID") d.product_id (
              set_given (codes "vendorID") d.vendor_id (
                set_given (codes "id") (some d.id)
                  (set_given (codes "desc") d.description []))))))))

unfoldable pub service_attributes : Service → Attributes
service_attributes s = set_given (codes "unit") s.unit (
    set_given (codes "type") (some s.type) (
      set_given (codes "value_url") (some s.value_url)
        (set_given (codes "id") (some s.id) (set_given (codes "desc") s.description []))))

pub parameter_attributes : Parameter → Attributes
parameter_attributes p = set_given (codes "values") p.values (
    set_given (codes "unit") p.unit (
      set_given (codes "type") p.type (
        set_given (codes "step") p.step (
          set_given (codes "scale") p.scale (
            set_given (codes "min") p.min
              (set_given (codes "max") p.max (set_given (codes "id") p.id [])))))))

unfoldable pub service_node : Service → ServiceNode
unfolding parameter_attributes
service_node s = record {
  attributes = service_attributes s;
  parameters = map parameter_attributes s.parameter_head;
}

abbrev pub device_node : Device → DeviceNode
device_node d = record { attributes = device_attributes d; services = [] }

abbrev pub with_devices : List DeviceNode → XmlFile → XmlFile
with_devices ns x = record x { tree = record x.tree { devices = ns } }
