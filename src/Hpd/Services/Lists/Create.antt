-- ===== src/Hpd/Services/Lists/Create.antt =====
-- What `create_service_struct` gives.
use home_automation_bridge_z.Prelude.{
  ℕ, ◌≡◌, refl, ap, ◌∙◌, Bool, true, false, Option, none, some, List, [], ◌∷◌, ◌++◌, ◌==◌, arith,
  if◌then◌else◌, Text, Bool-cases, inl, inr,
}
use home_automation_bridge_z.Hpd.Error.{success, service_already_in_list, value}
use home_automation_bridge_z.Hpd.Parameter.{Parameter}
use home_automation_bridge_z.Hpd.Services.{
  Heap, Device, Service, Cell, live, deref, put_service, url_of, new_service, finish_create,
  create_service_struct,
}
use home_automation_bridge_z.Hpd.Services.Lists.{
  all_live, all_live-cons, all_live-head, count_url, count_url-cons, has_url, Unique,
  add_service_to_device-Unique,
}

-- A service at an address where none was is in no list of services that are there.
module _ (h : Heap) (a : ℕ) (c : Cell Service) (new : deref (h.services a) ≡ none) where
  put_service-other :
      (b : ℕ) (t : Service)
      → deref (h.services b) ≡ some t
      → deref ((put_service a c h).services b) ≡ some t
  put_service-other b t there = elim (Bool-cases (b == a)) [
    | inl here ↦
        let eq : b ≡ a = ground arith in
        let same = ap (λ i. deref (h.services i)) eq in absurd (ground arith)
    | inr other ↦ rw other there
  ]

  put_service-all_live :
      (bs : List ℕ)
      → all_live h.services bs ≡ true
      → all_live (put_service a c h).services bs ≡ true
  unfolding all_live
  put_service-all_live [] alive = refl
  put_service-all_live (b ∷ bs) alive =
      let (t, there, alive') = all_live-head h b bs alive in
      all_live-cons (put_service a c h) b bs t (put_service-other b t there)
      ∙ put_service-all_live bs alive'

  put_service-count_url :
      (url : Text) (bs : List ℕ)
      → all_live h.services bs ≡ true
      → count_url (put_service a c h).services url bs ≡ count_url h.services url bs
  unfolding count_url
  put_service-count_url url [] alive = refl
  put_service-count_url url (b ∷ bs) alive =
      let (t, there, alive') = all_live-head h b bs alive in
      let rest = put_service-count_url url bs alive' in
      let one = count_url-cons (put_service a c h) b bs t (put_service-other b t there) url in
      let other = count_url-cons h b bs t there url in ground arith

finish_create-same :
    (a : ℕ) (h : Heap) (b : Bool)
    → finish_create a (some (h, if b then service_already_in_list else success)) ≡ some (h, some a)
unfolding finish_create value
finish_create-same a h true = refl
finish_create-same a h false = refl

-- With an ID, a type, a device and a function to get the value there is a new service, under the
-- URL made of the types and IDs of the device and the service. It comes to the end of the device's
-- list, whose services are all there, no two under one URL, if none has its URL; otherwise it is
-- returned all the same and the list stays. Either way no URL stands in the list twice.
pub create_service_struct-listed :
    (h : Heap) (a d get : ℕ) (dev : Device) (description unit : Option Text) (id type : Text)
    (put data_pointer : Option ℕ) (parameter : Option Parameter)
    → deref (h.services a) ≡ none
    → h.devices d ≡ live dev
    → all_live h.services dev.service_head ≡ true
    → Unique h.services dev.service_head
    → (h' : Heap) × (s : Service) × (bs : List ℕ) × (create_service_struct a description
          (some id)
          (some type)
          unit
          (some d)
          (some get)
          put
          parameter
          data_pointer
          h
        ≡ some (h', some a))
      × (h'.services a ≡ live s)
      × (s.value_url ≡ url_of dev type id)
      × (s.device ≡ d)
      × (h'.devices d ≡ live (record dev { service_head = bs }))
      × (bs ≡ (
          if has_url h.services (url_of dev type id) dev.service_head
          then dev.service_head
          else dev.service_head ++ a ∷ []))
      × Unique h'.services bs
unfolding create_service_struct
create_service_struct-listed h a d get dev description unit id type put data_pointer parameter new
      is_dev alive unique =
    let s = new_service description id type unit d get put parameter data_pointer dev in
    let h₁ = put_service a (live s) h in
    let is_s : h₁.services a ≡ live s = ground arith in
    let counted = put_service-count_url h a (live s) new in
    let unique₁ : Unique h₁.services dev.service_head =
      λ url. let same = counted url dev.service_head alive in let one = unique url in omega arith in
    let (h', bs, run, same, is_dev', list, found, unique') =
      add_service_to_device-Unique h₁ a d s dev is_s is_dev
        (put_service-all_live h a (live s) new dev.service_head alive) unique₁ in
    let url = url_of dev type id in
    (
      h',
      s,
      bs,
      rw (is_dev, create_service_struct)
          (ap (finish_create a) run
            ∙ finish_create-same a h' (has_url h₁.services url dev.service_head)),
      ap (λ cells. cells a) same ∙ is_s,
      refl,
      refl,
      is_dev',
      rw (← counted url dev.service_head alive) list,
      unique',
    )
