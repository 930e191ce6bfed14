-- ===== src/Hpd/Xml/Nodes.antt =====
-- The nodes of the XML tree and the attributes by which they are found.
use home_automation_bridge_z.Prelude.{
  ℕ, ◌≡◌, ◌∙◌, refl, Bool, false, ◌&&◌, Option, none, some, List, [], ◌∷◌, if◌then◌else◌, Text,
  codes, str_eq, str_eq_refl, str_eq_iff, Bool-cases, inl, inr, map,
}
use home_automation_bridge_z.Hpd.Services.{Device, Service}
use home_automation_bridge_z.Hpd.Xml.{
  Attributes, set_attr, get_attr, set_given, is_node_of, attr_is, find_node, next_place,
  device_attributes, service_attributes,
}

get_attr-set_attr : (n v : Text) (attrs : Attributes) → get_attr n (set_attr n v attrs) ≡ some v
unfolding set_attr get_attr
get_attr-set_attr n v [] = let self = str_eq_refl n in rw self refl
get_attr-set_attr n v ((m, w) ∷ more) =
    let rest = get_attr-set_attr n v more in
    elim (Bool-cases (str_eq m n)) [
      | inl here ↦ rw (here, here) refl
      | inr other ↦ rw (other, other) rest
    ]

get_attr-set_attr_ne :
    (n m v : Text) (attrs : Attributes)
    → str_eq m n ≡ false
    → get_attr n (set_attr m v attrs) ≡ get_attr n attrs
unfolding set_attr get_attr
get_attr-set_attr_ne n m v [] ne = rw ne refl
get_attr-set_attr_ne n m v ((k, w) ∷ more) ne =
    let rest = get_attr-set_attr_ne n m v more ne in
    elim (Bool-cases (str_eq k m)) [
      | inl here ↦
          let same : k ≡ m = (str_eq_iff k m).0 here in
          let off : str_eq k n ≡ false = rw same ne in rw (here, off) refl
      | inr other ↦ rw (other, rest) refl
    ]

get_attr-set_given_ne :
    (n m : Text)
    → str_eq m n ≡ false
    → (o : Option Text) (attrs : Attributes) → get_attr n (set_given m o attrs) ≡ get_attr n attrs
get_attr-set_given_ne n m ne none attrs = refl
get_attr-set_given_ne n m ne (some v) attrs = get_attr-set_attr_ne n m v attrs ne

get_attr-set_given :
    (n v : Text) (attrs : Attributes) → get_attr n (set_given n (some v) attrs) ≡ some v
get_attr-set_given n v attrs = get_attr-set_attr n v attrs

device_attributes-type : (d : Device) → get_attr (codes "type") (device_attributes d) ≡ some d.type
unfolding device_attributes
device_attributes-type d = get_attr-set_given (codes "type") d.type _

device_attributes-id : (d : Device) → get_attr (codes "id") (device_attributes d) ≡ some d.id
unfolding device_attributes str_eq
device_attributes-id d =
    let keep = get_attr-set_given_ne (codes "id") in
    keep (codes "type") refl (some d.type) _
    ∙ keep (codes "location") refl d.location _
    ∙ keep (codes "port") refl d.port _
    ∙ keep (codes "ip") refl d.ip _
    ∙ keep (codes "version") refl d.version _
    ∙ keep (codes "productID") refl d.product_id _
    ∙ keep (codes "vendorID") refl d.vendor_id _
    ∙ get_attr-set_given (codes "id") d.id _

service_attributes-type :
    (s : Service) → get_attr (codes "type") (service_attributes s) ≡ some s.type
unfolding service_attributes str_eq
service_attributes-type s =
    get_attr-set_given_ne (codes "type") (codes "unit") refl s.unit _
    ∙ get_attr-set_given (codes "type") s.type _

service_attributes-id : (s : Service) → get_attr (codes "id") (service_attributes s) ≡ some s.id
unfolding service_attributes str_eq
service_attributes-id s =
    let keep = get_attr-set_given_ne (codes "id") in
    keep (codes "unit") refl s.unit _
    ∙ keep (codes "type") refl (some s.type) _
    ∙ keep (codes "value_url") refl (some s.value_url) _
    ∙ get_attr-set_given (codes "id") s.id _

is_node_of-attributes :
    (attrs : Attributes) (t i type id : Text)
    → get_attr (codes "type") attrs ≡ some t
    → get_attr (codes "id") attrs ≡ some i
    → is_node_of attrs type id ≡ some (str_eq t type && str_eq i id)
unfolding is_node_of
is_node_of-attributes attrs t i type id has_type has_id = elim (Bool-cases (str_eq t type)) [
  | inl same ↦ rw (is_node_of, has_type, same, attr_is, has_id) refl
  | inr differs ↦ rw (is_node_of, has_type, differs) refl
]

-- The first that passes a test, by its place.
unfoldable pub find : {A : Type 0} → (A → Bool) → List A → Option ℕ
find p [] = none
find p (a ∷ more) = if p a then some 0 else next_place (find p more)

-- A loop over the nodes of things faults nowhere if the test does not.
pub find_node-find :
    {A B : Type 0} (node : A → B) (test : B → Option Bool) (p : A → Bool) (xs : List A)
    → ((a : A) → test (node a) ≡ some (p a))
    → find_node test (map node xs) ≡ some (find p xs)
unfolding find_node find
find_node-find node test p [] passes = refl
find_node-find node test p (a ∷ more) passes =
    let rest = find_node-find node test p more passes in
    let here = passes a in
    elim (Bool-cases (p a)) [
      | inl same ↦ rw (here, same) refl
      | inr differs ↦ rw (here, differs, rest) refl
    ]

-- A device, and a service, with the type and the ID of another.
abbrev pub alike : Device → Device → Bool
alike d e = str_eq e.type d.type && str_eq e.id d.id

abbrev pub same_service : Service → Service → Bool
same_service s t = str_eq t.type s.type && str_eq t.id s.id

pub is_node_of-alike :
    (d e : Device) → is_node_of (device_attributes e) d.type d.id ≡ some (alike d e)
is_node_of-alike d e =
    is_node_of-attributes (device_attributes e) e.type e.id d.type d.id (device_attributes-type e)
      (device_attributes-id e)

pub is_node_of-same_service :
    (s t : Service) → is_node_of (service_attributes t) s.type s.id ≡ some (same_service s t)
is_node_of-same_service s t =
    is_node_of-attributes (service_attributes t) t.type t.id s.type s.id (service_attributes-type t)
      (service_attributes-id t)
