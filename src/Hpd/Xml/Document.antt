-- ===== src/Hpd/Xml/Document.antt =====
-- hpbridge/hpdaemon/hpd_xml.c: the documents that are sent to clients, and the value that a client
-- sends. What `mxmlSaveAllocString` writes for a tree and `mxmlLoadString` reads are parameters.
pub mod Timestamp
pub mod Value
use home_automation_bridge_z.Prelude.{
  ℕ, zero, suc, ◌+◌, ◌-◌, ◌/◌, ◌%◌, Option, none, some, List, [], ◌∷◌, ◌++◌, ltb, if◌then◌else◌,
  Text, codes, str_eq, length, get_elem?, replicate,
}
use home_automation_bridge_z.Hpd.Error.{hpd_no, int_eq, value}
use home_automation_bridge_z.Hpd.Parameter.{Parameter}
use home_automation_bridge_z.Hpd.Services.{Device, Service}
use home_automation_bridge_z.Hpd.Xml.{
  Attributes, XmlFile, set_attr, device_attributes, service_attributes, parameter_attributes,
  service_is_in_xml_file,
}

-- A tree of Mini-XML below the `?xml` node.
mutual
  pub data Node : Type 0 where
    element : Text → Attributes → Nodes → Node
    text : Text → Node

  pub data Nodes : Type 0 where
    nil : Nodes
    cons : Node → Nodes → Nodes

-- `%d` of a number that an `int` holds, which has at most ten digits.
unfoldable pub digits : ℕ → ℕ → Text
digits zero n = []
digits (suc fuel) n =
    let rest = digits fuel (n / 10) in
    if ltb n 10 then (48 + n) ∷ [] else rest ++ (48 + n % 10) ∷ []

abbrev pub decimal : ℕ → Text
decimal n = digits 10 n

-- A field that is filled up on the left.
abbrev pub pad : (fill width : ℕ) → Text → Text
pad fill width t = replicate (width - length t) fill ++ t

-- `struct tm`
pub record Tm : Type 0 where
  pub tm_sec : ℕ
  pub tm_min : ℕ
  pub tm_hour : ℕ
  pub tm_mday : ℕ
  pub tm_mon : ℕ
  pub tm_year : ℕ
  pub tm_wday : ℕ

abbrev pub wday_name : List Text
wday_name =
    codes "Sun"
    ∷ codes "Mon"
    ∷ codes "Tue"
    ∷ codes "Wed"
    ∷ codes "Thu"
    ∷ codes "Fri"
    ∷ codes "Sat"
    ∷ []

abbrev pub mon_name : List Text
mon_name =
    codes "Jan"
    ∷ codes "Feb"
    ∷ codes "Mar"
    ∷ codes "Apr"
    ∷ codes "May"
    ∷ codes "Jun"
    ∷ codes "Jul"
    ∷ codes "Aug"
    ∷ codes "Sep"
    ∷ codes "Oct"
    ∷ codes "Nov"
    ∷ codes "Dec"
    ∷ []

-- The format `%.3s %.3s%3d %.2d:%.2d:%.2d %d`.
abbrev pub stamp : Text → Text → Tm → Text
stamp wday mon tm =
    wday
    ++ codes " "
    ++ mon
    ++ pad b' ' 3 (decimal tm.tm_mday)
    ++ codes " "
    ++ pad b'0' 2 (decimal tm.tm_hour)
    ++ codes ":"
    ++ pad b'0' 2 (decimal tm.tm_min)
    ++ codes ":"
    ++ pad b'0' 2 (decimal tm.tm_sec)
    ++ codes " "
    ++ decimal (1900 + tm.tm_year)

-- What is written to the static `result`; a name that is out of range is a fault.
unfoldable pub timestamp : Tm → Option Text
timestamp tm = elim (get_elem? wday_name tm.tm_wday) [
  | none ↦ none
  | some wday ↦ elim (get_elem? mon_name tm.tm_mon) [
    | none ↦ none
    | some mon ↦ some (stamp wday mon tm)
  ]
]

-- The timestamp `now` is an argument of the documents.
unfoldable pub value_document : (now value : Text) → Node
unfolding set_attr
value_document now value =
    element (codes "value") (set_attr (codes "timestamp") now []) (cons (text value) nil)

unfoldable pub subscription_document : (now value url : Text) → Node
unfolding set_attr
subscription_document now value url =
    element (codes "subscription")
      (set_attr (codes "url") url (set_attr (codes "timestamp") now [])) (cons (text value) nil)

unfoldable pub parameter_nodes : List Parameter → Nodes
unfolding parameter_attributes
parameter_nodes [] = nil
parameter_nodes (p ∷ ps) =
    cons (element (codes "parameter") (parameter_attributes p) nil) (parameter_nodes ps)

-- The device stands under the service here.
unfoldable pub service_document : Service → Device → Node
service_document s d =
    element (codes "service") (service_attributes s)
      (cons (element (codes "device") (device_attributes d) nil) (parameter_nodes s.parameter_head))

module _ (mxml_save : Node → Option Text) where
  unfoldable pub get_xml_value : (now value : Text) → Option Text
  get_xml_value now value = mxml_save (value_document now value)

  unfoldable pub get_xml_subscription : (now value url : Text) → Option Text
  get_xml_subscription now value url = mxml_save (subscription_document now value url)

  -- NULL for a service that is not in the file; a fault is `none`.
  unfoldable pub extract_service_xml : Service → Device → XmlFile → Option (Option Text)
  unfolding value
  extract_service_xml s d x = elim (service_is_in_xml_file s d x) [
    | none ↦ none
    | some code ↦
        if int_eq (value code) (value hpd_no)
        then some none
        else some (mxml_save (service_document s d))
  ]

-- `mxmlFindElement` with `MXML_DESCEND`: the first element with the name, parents before children.
unfoldable mutual
  pub find_element : Text → Node → Option Node
  find_element name (text t) = none
  find_element name (element n attrs children) =
      let below = find_in name children in
      if str_eq n name then some (element n attrs children) else below

  pub find_in : Text → Nodes → Option Node
  find_in name nil = none
  find_in name (cons n more) = elim (find_element name n) [
    | none ↦ find_in name more
    | some e ↦ some e
  ]

-- The text of the first child. `none` is a child that is no text, whose `value.text` is not the
-- member of the union that was written.
unfoldable pub first_text : Option Node → Option (Option Text)
first_text none = some none
first_text (some (text t)) = some none
first_text (some (element n attrs nil)) = some none
first_text (some (element n attrs (cons (text t) more))) = some (some t)
first_text (some (element n attrs (cons (element m as' children) more))) = none

-- NULL for what is no XML or has no value in it.
module _ (mxml_load : Text → Option Node) where
  unfoldable pub get_value_from_xml_value : Text → Option (Option Text)
  get_value_from_xml_value xml = elim (mxml_load xml) [
    | none ↦ some none
    | some root ↦ first_text (find_element (codes "value") root)
  ]
