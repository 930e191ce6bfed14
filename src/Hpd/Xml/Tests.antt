-- ===== src/Hpd/Xml/Tests.antt =====
-- Runs of the XML file.
use home_automation_bridge_z.Prelude.{
  ◌+◌, ◌≡◌, refl, arith, true, false, none, some, [], ◌∷◌, if◌then◌else◌, Text, codes, str_eq,
  length, ◌⊎◌,
}
use home_automation_bridge_z.Hpd.Error.{success, hpd_yes, service_already_in_xml, pos}
use home_automation_bridge_z.Hpd.Services.{Device, Service}
use home_automation_bridge_z.Hpd.Xml.{XmlFile}
use home_automation_bridge_z.Hpd.Xml.Change.{add_service_to_xml, remove_service_from_xml}
use home_automation_bridge_z.Hpd.Xml.Document.{Tm, digits, timestamp}
use home_automation_bridge_z.Hpd.Xml.Document.Timestamp.{timestamp-Fits}
use home_automation_bridge_z.Hpd.Xml.Inventory.{nodes, held, known, some_of}
use home_automation_bridge_z.Hpd.Xml.Inventory.Remove.{remove_service_from_xml-add_service_to_xml}
use home_automation_bridge_z.Hpd.Xml.Inventory.Add.{with_service, add_service_to_xml-insert}

abbrev lamp : Device
lamp = record {
  description = none;
  id = codes "1";
  vendor_id = none;
  product_id = none;
  version = none;
  ip = none;
  port = none;
  location = some (codes "hall");
  type = codes "lamp";
  secure_device = pos 0;
  service_head = [];
}

abbrev light_switch : Service
light_switch = record {
  description = none;
  id = codes "0";
  value_url = codes "/lamp/1/switch/0";
  type = codes "switch";
  unit = none;
  dns_sd_type = none;
  zero_conf_name = codes "lamp 1 switch 0";
  device = 0;
  get_function = 7;
  put_function = some 8;
  user_data_pointer = none;
  parameter_head = [];
}

abbrev device_list : XmlFile
device_list = record { tree = record { attributes = []; devices = [] }; file = none }

abbrev with_lamp : XmlFile
with_lamp = record {
  tree = record { attributes = []; devices = nodes ((lamp, []) ∷ []) };
  file = none;
}

abbrev noon : Tm
noon = record {
  tm_sec = 0;
  tm_min = 0;
  tm_hour = 12;
  tm_mday = 9;
  tm_mon = 8;
  tm_year = 111;
  tm_wday = 5;
}

noon_text : timestamp noon ≡ some (codes "Fri Sep  9 12:00:00 2011")
unfolding timestamp digits
noon_text = refl

is_known : known lamp ((lamp, []) ∷ []) ≡ true
unfolding known some_of str_eq
is_known = refl

unheld : held light_switch lamp ((lamp, []) ∷ []) ≡ false
unfolding held some_of str_eq
unheld = refl

add_service_to_xml-insert_example :
    (x' : XmlFile) × (add_service_to_xml true true light_switch lamp device_list
      ≡ some (x', if held light_switch lamp [] then service_already_in_xml else success))
    × (x'.tree.devices ≡ nodes (with_service light_switch lamp []))
    × ((held light_switch lamp [] ≡ true) ⊎ (true ≡ false) ⊎ (x'.file ≡ some x'.tree))
add_service_to_xml-insert_example =
    add_service_to_xml-insert true true light_switch lamp device_list [] refl

remove_service_from_xml-add_service_to_xml_example :
    (x' x'' : XmlFile) × (add_service_to_xml true true light_switch lamp with_lamp
      ≡ some (x', success))
    × (remove_service_from_xml true light_switch lamp x' ≡ some (x'', hpd_yes))
    × (x''.tree.devices ≡ with_lamp.tree.devices)
remove_service_from_xml-add_service_to_xml_example =
    remove_service_from_xml-add_service_to_xml true true light_switch lamp with_lamp
      ((lamp, []) ∷ []) refl is_known unheld

timestamp-Fits_example : (t : Text) × (timestamp noon ≡ some t) × (length t + 1 ≡ 25)
timestamp-Fits_example =
    timestamp-Fits noon (omega arith) (omega arith) (omega arith) (omega arith) (omega arith)
      (omega arith) (omega arith)
