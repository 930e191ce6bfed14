-- ===== src/Hpd/Xml/Document/Value.antt =====
-- The value that a client sends, and the one that it gets.
use home_automation_bridge_z.Prelude.{◌≡◌, refl, Option, some, Text, str_eq}
use home_automation_bridge_z.Hpd.Xml.Document.{
  Node, value_document, get_xml_value, get_value_from_xml_value, find_element, first_text,
}

-- What the daemon relies on of Mini-XML: a value document whose value is one word is read back from
-- what was written for it. (A value with white space is read as several texts.)
module _ (mxml_save : Node → Option Text) (mxml_load : Text → Option Node) (IsWord : Text → Type 0)
    (reads : (now value xml : Text)
      → IsWord value
      → mxml_save (value_document now value) ≡ some xml
      → mxml_load xml ≡ some (value_document now value)) where
  -- The value of a document that `get_xml_value` made is the one that it was made for.
  pub get_value_from_xml_value-get_xml_value :
      (now value xml : Text)
      → IsWord value
      → get_xml_value mxml_save now value ≡ some xml
      → get_value_from_xml_value mxml_load xml ≡ some (some value)
  unfolding get_xml_value get_value_from_xml_value value_document find_element first_text str_eq
  get_value_from_xml_value-get_xml_value now value xml word saved =
      let loaded = reads now value xml word saved in rw (get_value_from_xml_value, loaded) refl
