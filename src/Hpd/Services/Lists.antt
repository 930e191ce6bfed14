-- ===== src/Hpd/Services/Lists.antt =====
-- The list of the services of a device: no URL stands in it twice, and a service is found by its
-- URL.
pub mod Create
use home_automation_bridge_z.Prelude.{
  ◌⊎◌, ℕ, zero, suc, ◌+◌, ◌≤◌, ◌≡◌, ◌≢◌, ◌↔◌, refl, ap, sym, ◌∙◌, Bool, true, false, ◌&&◌, ◌||◌,
  negb, Option, none, some, List, [], ◌∷◌, ◌++◌, ◌==◌, arith, Ordering, if◌then◌else◌, Text, strcmp,
  str_eq, str_eq_refl, str_eq_iff, strcmp-eq_iff, update, Bool-cases, Option-cases, inl, inr,
}
use home_automation_bridge_z.Hpd.Error.{success, service_already_in_list}
use home_automation_bridge_z.Hpd.Services.{
  Heap, Device, Service, Cell, unused, live, freed, deref, put_device, put_service, is_eq,
  cmp_service_element, search_service, add_service_to_device, unlink_alike,
  remove_service_from_device, matching_service,
}

-- Every service of the list is there.
unfoldable pub all_live : (ℕ → Cell Service) → List ℕ → Bool
all_live cells [] = true
all_live cells (b ∷ bs) = elim (deref (cells b)) [ none ↦ false | some s ↦ all_live cells bs ]

-- How many services of the list have the URL.
unfoldable pub count_url : (ℕ → Cell Service) → Text → List ℕ → ℕ
count_url cells url [] = 0
count_url cells url (b ∷ bs) = elim (deref (cells b)) [
  | none ↦ count_url cells url bs
  | some s ↦ (if str_eq s.value_url url then 1 else 0) + count_url cells url bs
]

abbrev pub has_url : (ℕ → Cell Service) → Text → List ℕ → Bool
has_url cells url bs = negb (count_url cells url bs == 0)

is_eq_iff : (o : Ordering) → (is_eq o ≡ true) ↔ (o ≡ Ordering.eq)
unfolding is_eq
is_eq_iff Ordering.eq = (λ e. refl, λ e. refl)
is_eq_iff Ordering.lt = (λ e. cc, λ e. cc)
is_eq_iff Ordering.gt = (λ e. cc, λ e. cc)

is_eq-cmp : (a b : Service) → is_eq (cmp_service_element a b) ≡ str_eq a.value_url b.value_url
unfolding cmp_service_element
is_eq-cmp a b =
    let same = strcmp-eq_iff a.value_url b.value_url in
    let iff = str_eq_iff a.value_url b.value_url in
    let eq = is_eq_iff (strcmp a.value_url b.value_url) in ground arith

module _ (h : Heap) (b : ℕ) (bs : List ℕ) (t : Service)
    (there : deref (h.services b) ≡ some t) where
  all_live-cons : all_live h.services (b ∷ bs) ≡ all_live h.services bs
  unfolding all_live
  all_live-cons = rw (all_live, there) refl

  count_url-cons :
      (url : Text)
      → count_url h.services url (b ∷ bs)
        ≡ (if str_eq t.value_url url then 1 else 0) + count_url h.services url bs
  unfolding count_url
  count_url-cons url = rw (count_url, there) refl

  search_service-cons :
      (s : Service)
      → search_service h s (b ∷ bs)
        ≡ (if str_eq t.value_url s.value_url then some true else search_service h s bs)
  unfolding search_service
  search_service-cons s = rw (search_service, there, is_eq-cmp t s) refl

  matching_service-cons :
      (url : Text)
      → matching_service h (b ∷ bs) url
        ≡ (if str_eq t.value_url url then some (some b) else matching_service h bs url)
  unfolding matching_service
  matching_service-cons url = rw (matching_service, there) refl

all_live-head :
    (h : Heap) (b : ℕ) (bs : List ℕ)
    → all_live h.services (b ∷ bs) ≡ true
    → (t : Service) × (deref (h.services b) ≡ some t) × (all_live h.services bs ≡ true)
unfolding all_live
all_live-head h b bs alive = elim (Option-cases (deref (h.services b))) [
  | inl gone ↦ absurd (ground (arith, gone, alive))
  | inr (t, there) ↦ (t, there, sym (all_live-cons h b bs t there) ∙ alive)
]

-- The search answers whether a service has the URL.
pub search_service-has_url :
    (h : Heap) (s : Service) (bs : List ℕ)
    → all_live h.services bs ≡ true
    → search_service h s bs ≡ some (has_url h.services s.value_url bs)
unfolding search_service count_url
search_service-has_url h s [] alive = refl
search_service-has_url h s (b ∷ bs) alive =
    let (t, there, alive') = all_live-head h b bs alive in
    let rest = search_service-has_url h s bs alive' in
    let one = search_service-cons h b bs t there s in
    let counted = count_url-cons h b bs t there s.value_url in
    elim (Bool-cases (str_eq t.value_url s.value_url)) [
      | inl hit ↦ ground arith
      | inr miss ↦ ground arith
    ]

count_url-append :
    (h : Heap) (url : Text) (bs : List ℕ) (a : ℕ) (s : Service)
    → all_live h.services bs ≡ true
    → h.services a ≡ live s
    → count_url h.services url (bs ++ a ∷ [])
      ≡ count_url h.services url bs + (if str_eq s.value_url url then 1 else 0)
unfolding count_url
count_url-append h url [] a s alive there =
    let one = count_url-cons h a [] s (ap deref there) url in one ∙ ground arith
count_url-append h url (b ∷ bs) a s alive there =
    let (t, is_t, alive') = all_live-head h b bs alive in
    let rest = count_url-append h url bs a s alive' there in
    let one = count_url-cons h b bs t is_t url in
    let other = count_url-cons h b (bs ++ a ∷ []) t is_t url in ground arith

matching_service-append :
    (h : Heap) (url : Text) (bs : List ℕ) (a : ℕ) (s : Service)
    → all_live h.services bs ≡ true
    → h.services a ≡ live s
    → count_url h.services url bs ≡ 0
    → matching_service h (bs ++ a ∷ []) url ≡ some (if str_eq s.value_url url then some a else none)
unfolding count_url matching_service
matching_service-append h url [] a s alive there absent =
    let one = matching_service-cons h a [] s (ap deref there) url in one ∙ ground arith
matching_service-append h url (b ∷ bs) a s alive there absent =
    let (t, is_t, alive') = all_live-head h b bs alive in
    let counted = count_url-cons h b bs t is_t url in
    let none_here : count_url h.services url bs ≡ 0 = ground arith in
    let rest = matching_service-append h url bs a s alive' there none_here in
    let other = matching_service-cons h b (bs ++ a ∷ []) t is_t url in ground arith

-- No URL stands in the list twice.
abbrev pub Unique : (ℕ → Cell Service) → List ℕ → Type 0
Unique cells bs = (url : Text) → count_url cells url bs ≤ 1

-- Adding a service to a device whose services are all there, no two under one URL: if none has the
-- URL of the new one it comes to the end of the list, and is then the one that its URL finds;
-- otherwise the result is an error and the device stays as it was. Either way no URL stands in the
-- list twice.
pub add_service_to_device-Unique :
    (h : Heap) (a d : ℕ) (s : Service) (dev : Device)
    → h.services a ≡ live s
    → h.devices d ≡ live dev
    → all_live h.services dev.service_head ≡ true
    → Unique h.services dev.service_head
    → (h' : Heap) × (bs : List ℕ) × (add_service_to_device (some a) (some d) h
        ≡ some (
          h',
          if has_url h.services s.value_url dev.service_head
              then service_already_in_list
              else success,
        ))
      × (h'.services ≡ h.services)
      × (h'.devices d ≡ live (record dev { service_head = bs }))
      × (bs ≡ (
          if has_url h.services s.value_url dev.service_head
          then dev.service_head
          else dev.service_head ++ a ∷ []))
      × ((has_url h.services s.value_url dev.service_head ≡ true)
          ⊎ (matching_service h' bs s.value_url ≡ some (some a)))
      × Unique h'.services bs
unfolding add_service_to_device
add_service_to_device-Unique h a d s dev is_s is_dev alive unique =
    let found = search_service-has_url h s dev.service_head alive in
    elim (Bool-cases (has_url h.services s.value_url dev.service_head)) [
      | inl there ↦ (
        h,
        dev.service_head,
        rw (is_s, is_dev, found, there, add_service_to_device) refl,
        refl,
        is_dev,
        rw there refl,
        inl there,
        unique,
      )
      | inr absent ↦
          let bs = dev.service_head ++ a ∷ [] in
          let h' = put_device d (live (record dev { service_head = bs })) h in
          let zero_there : count_url h.services s.value_url dev.service_head ≡ 0 = ground arith in
          (
            h',
            bs,
            rw (is_s, is_dev, found, absent, add_service_to_device) refl,
            refl,
            ground arith,
            rw absent refl,
            inr (
                matching_service-append h' s.value_url dev.service_head a s alive is_s zero_there
                ∙ rw (str_eq_refl s.value_url) refl),
            λ url.
                let counted = count_url-append h url dev.service_head a s alive is_s in
                let before = unique url in
                elim (Bool-cases (str_eq s.value_url url)) [
                  | inl same ↦
                      let eq : s.value_url ≡ url = ground (arith, str_eq_iff s.value_url url) in
                      let zero_too = ap (λ u. count_url h.services u dev.service_head) eq in
                      ground arith
                  | inr differs ↦ ground arith
                ],
          )
    ]
