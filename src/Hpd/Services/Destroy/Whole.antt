-- ===== src/Hpd/Services/Destroy/Whole.antt =====
-- The destruction of a device with all its services.
use home_automation_bridge_z.Prelude.{
  ℕ, ◌≡◌, ◌≢◌, refl, ap, sym, subst, ◌∙◌, Bool, true, false, some, List, [], ◌∷◌, ◌==◌, arith,
  update, Bool-cases, inl, inr, map, none, Text, Option-cases,
}
use home_automation_bridge_z.Hpd.Error.{success}
use home_automation_bridge_z.Hpd.Services.{
  Heap, Device, Service, live, freed, deref, put_device, put_service, put_string, unlink_alike,
  remove_service_from_device,
}
use home_automation_bridge_z.Hpd.Services.Destroy.{
  free_device, free_type, leave_device, destroy_service_struct, unlink_head, destroy_services,
  destroy_device_struct,
}
use home_automation_bridge_z.Hpd.Services.Destroy.Types.{
  deref-live, update-here, update-away, own_types, own_types-head, update-own_types, own_types-bad,
}
use home_automation_bridge_z.Hpd.Services.Destroy.Owned.{
  member, unlike, owned, owned-head, unlink_alike-unlike, update-owned,
}

remove_service_from_device-left :
    (a : ℕ) (s : Service) (h : Heap) (dev : Device) (left : List ℕ)
    → h.services a ≡ live s
    → h.devices s.device ≡ live dev
    → unlink_alike h s dev.service_head ≡ some left
    → remove_service_from_device a h
      ≡ some (put_device s.device (live (record dev { service_head = left })) h, success)
unfolding remove_service_from_device
remove_service_from_device-left a s h dev left is_s is_dev unlinked =
    rw (is_s, is_dev, unlinked, remove_service_from_device) refl

-- A service that is not alike any service in its device's list leaves the list as it is, and the
-- device stays.
leave_device-unlike :
    (a : ℕ) (s : Service) (h : Heap) (dev : Device) (bs : List ℕ)
    → h.services a ≡ live s
    → h.devices s.device ≡ live dev
    → dev.service_head ≡ bs
    → unlike h.services s bs ≡ true
    → (h' : Heap) × (leave_device a s h ≡ some h')
      × (h'.services ≡ h.services)
      × ((h'.type_of ≡ h.type_of) × (h'.strings ≡ h.strings))
      × (h'.devices s.device ≡ live dev)
      × ((e : ℕ) → e ≢ s.device → h'.devices e ≡ h.devices e)
unfolding leave_device
leave_device-unlike a s h dev [] is_s is_dev has others =
    (h, rw (is_dev, has, leave_device) refl, refl, (refl, refl), is_dev, λ e ne. refl)
leave_device-unlike a s h dev (x ∷ xs) is_s is_dev has others =
    let dev' : Device = record dev { service_head = x ∷ xs } in
    let h' = put_device s.device (live dev') h in
    let unlinked = ap (unlink_alike h s) has ∙ unlink_alike-unlike h s (x ∷ xs) others in
    let removed = remove_service_from_device-left a s h dev (x ∷ xs) is_s is_dev unlinked in
    let here = update-here h.devices s.device (live dev') s.device refl in
    (
      h',
      rw (is_dev, has, removed, here, leave_device) refl,
      refl,
      (refl, refl),
      here ∙ ap (λ bs. live (record dev { service_head = bs })) (sym has),
      λ e ne. update-away h.devices s.device (live dev') e ne,
    )

-- The device and the services of the list are gone with their types, and everything else is as it
-- was.
abbrev pub Gone : ℕ → List ℕ → Heap → Heap → Type 0
Gone d bs h h' =
    (h'.devices d ≡ freed)
    × ((b : ℕ) → member b bs ≡ true → h'.services b ≡ freed)
    × ((b : ℕ) → member b bs ≡ false → h'.services b ≡ h.services b)
    × ((p : ℕ) → member p (map h.type_of bs) ≡ true → h'.strings p ≡ freed)
    × ((p : ℕ) → member p (map h.type_of bs) ≡ false → h'.strings p ≡ h.strings p)
    × ((e : ℕ) → e ≢ d → h'.devices e ≡ h.devices e)

module _ (registered : ℕ → Bool) (none_is : (b : ℕ) → registered b ≡ false) (d : ℕ) where
  unlink_head-first :
      (a : ℕ) (bs : List ℕ) (h : Heap) (dev : Device)
      → h.devices d ≡ live dev
      → dev.service_head ≡ a ∷ bs
      → unlink_head d a h ≡ some (put_device d (live (record dev { service_head = bs })) h)
  unfolding unlink_head
  unlink_head-first a bs h dev is_dev has =
      let same : (a == a) ≡ true = ground arith in rw (is_dev, has, same, unlink_head) refl

  destroy_service_struct-left :
      (a : ℕ) (s : Service) (h h' : Heap) (t : Text)
      → h.services a ≡ live s
      → leave_device a s h ≡ some h'
      → h'.strings (h'.type_of a) ≡ live t
      → destroy_service_struct registered (some a) h
        ≡ some (put_service a freed (put_string (h'.type_of a) freed h'), success)
  unfolding destroy_service_struct free_type
  destroy_service_struct-left a s h h' t is_s left is_type =
      rw (is_s, none_is a, left, is_type, free_type, destroy_service_struct) refl

  destroy_services-cons :
      (a : ℕ) (bs : List ℕ) (h h₁ h₂ : Heap)
      → unlink_head d a h ≡ some h₁
      → destroy_service_struct registered (some a) h₁ ≡ some (h₂, success)
      → destroy_services registered d (a ∷ bs) h ≡ destroy_services registered d bs h₂
  unfolding destroy_services
  destroy_services-cons a bs h h₁ h₂ unlinked destroyed =
      rw (none_is a, unlinked, destroyed, destroy_services) refl

  Gone-cons :
      (a : ℕ) (bs : List ℕ) (h h₂ h' : Heap)
      → h₂.services ≡ h.services
      → h₂.type_of ≡ h.type_of
      → h₂.strings ≡ h.strings
      → ((e : ℕ) → e ≢ d → h₂.devices e ≡ h.devices e)
      → Gone d bs (put_service a freed (put_string (h.type_of a) freed h₂)) h'
      → Gone d (a ∷ bs) h h'
  unfolding member
  Gone-cons a bs h h₂ h' same same_types same_strings frame
        (gone, all, others, types, strings, rest) =
      (
        gone,
        λ b is_in. elim (Bool-cases (member b bs)) [
          | inl later ↦ all b later
          | inr here ↦ others b here ∙ update-here h₂.services a freed b (ground arith)
        ],
        λ b out.
            others b (ground arith)
            ∙ update-away h₂.services a freed b (λ e. ground arith)
            ∙ ap (λ cells. cells b) same,
        λ p is_in. elim (Bool-cases (member p (map h.type_of bs))) [
          | inl later ↦ types p (ap (λ f. member p (map f bs)) same_types ∙ later)
          | inr here ↦
              strings p (ap (λ f. member p (map f bs)) same_types ∙ here)
              ∙ update-here h₂.strings (h.type_of a) freed p (ground arith)
        ],
        λ p out.
            strings p (ap (λ f. member p (map f bs)) same_types ∙ ground arith)
            ∙ update-away h₂.strings (h.type_of a) freed p (λ e. ground arith)
            ∙ ap (λ cells. cells p) same_strings,
        λ e ne. rest e ne ∙ frame e ne,
      )

  destroy_services-Gone :
      (bs : List ℕ) (h : Heap) (dev : Device)
      → h.devices d ≡ live dev
      → dev.service_head ≡ bs
      → owned h.services d bs ≡ true
      → own_types h.type_of h.strings bs ≡ true
      → (h' : Heap) × (destroy_services registered d bs h ≡ some (h', success)) × Gone d bs h h'
  unfolding destroy_services free_device member
  destroy_services-Gone [] h dev is_dev has own types = (
    put_device d freed h,
    rw (is_dev, free_device, destroy_services) refl,
    (
      update-here h.devices d freed d refl,
      λ b e. cc,
      λ b e. refl,
      λ p e. cc,
      λ p e. refl,
      update-away h.devices d freed,
    ),
  )
  destroy_services-Gone (a ∷ bs) h dev is_dev has own types =
      let (s, there, mine, once, others, rest) = owned-head h.services d a bs own in
      let (t, is_type, type_once, more_types) = own_types-head h.type_of h.strings a bs types in
      let dev₁ : Device = record dev { service_head = bs } in
      let h₁ = put_device d (live dev₁) h in
      let is_s = deref-live (h.services a) s there in
      let (h₂, left, same, (same_types, same_strings), is_dev₂, frame) =
        leave_device-unlike a s h₁ dev₁ bs is_s (update-here h.devices d (live dev₁) s.device mine)
          refl others in
      let p = h₂.type_of a in
      let same_p : p ≡ h.type_of a = ap (λ f. f a) same_types in
      let h₃ = put_service a freed (put_string p freed h₂) in
      let is_type₂ : h₂.strings p ≡ live t =
        ap (λ f. f p) same_strings ∙ ap h.strings same_p ∙ is_type in
      let types₃ : own_types h₂.type_of (update h₂.strings p freed) bs ≡ true =
        update-own_types h₂.type_of h₂.strings p bs
          (ap (λ q. member q (map h₂.type_of bs)) same_p
            ∙ ap (λ f. member (h.type_of a) (map f bs)) same_types
            ∙ type_once)
          (ap (λ f. own_types f h₂.strings bs) same_types
            ∙ ap (λ f. own_types h.type_of f bs) same_strings
            ∙ more_types) in
      let (h', run, gone) =
        destroy_services-Gone bs h₃ dev₁ (ap h₂.devices (sym mine) ∙ is_dev₂) refl
          (subst (λ cells. owned (update cells a freed) d bs ≡ true) (sym same)
            (update-owned h.services a freed d bs once rest))
          types₃ in
      (
        h',
        destroy_services-cons a bs h h₁ h₃ (unlink_head-first a bs h dev is_dev has)
              (destroy_service_struct-left a s h₁ h₂ t is_s left is_type₂)
            ∙ run,
        Gone-cons a bs h h₂ h' same same_types same_strings
            (λ e ne. frame e (λ eq. ne (eq ∙ mine)) ∙ update-away h.devices d (live dev₁) e ne)
            (subst (λ q. Gone d bs (put_service a freed (put_string q freed h₂)) h') same_p gone),
      )

  destroy_services-fault :
      (a : ℕ) (bs : List ℕ) (s : Service) (h h₁ h₂ : Heap)
      → unlink_head d a h ≡ some h₁
      → h₁.services a ≡ live s
      → leave_device a s h₁ ≡ some h₂
      → deref (h₂.strings (h₂.type_of a)) ≡ none
      → destroy_services registered d (a ∷ bs) h ≡ none
  unfolding destroy_services destroy_service_struct free_type
  destroy_services-fault a bs s h h₁ h₂ unlinked is_s left no_type =
      let faults : destroy_service_struct registered (some a) h₁ ≡ none =
        rw (is_s, none_is a, left, no_type, free_type, destroy_service_struct) refl in
      rw (none_is a, unlinked, faults, destroy_services) refl

  destroy_services-bad :
      (bs : List ℕ) (h : Heap) (dev : Device)
      → h.devices d ≡ live dev
      → dev.service_head ≡ bs
      → owned h.services d bs ≡ true
      → own_types h.type_of h.strings bs ≡ false
      → destroy_services registered d bs h ≡ none
  unfolding own_types
  destroy_services-bad [] h dev is_dev has own bad = absurd (ground arith)
  destroy_services-bad (a ∷ bs) h dev is_dev has own bad =
      let (s, there, mine, once, others, rest) = owned-head h.services d a bs own in
      let dev₁ : Device = record dev { service_head = bs } in
      let h₁ = put_device d (live dev₁) h in
      let is_s = deref-live (h.services a) s there in
      let (h₂, left, same, (same_types, same_strings), is_dev₂, frame) =
        leave_device-unlike a s h₁ dev₁ bs is_s (update-here h.devices d (live dev₁) s.device mine)
          refl others in
      let p = h₂.type_of a in
      let unlinked = unlink_head-first a bs h dev is_dev has in
      let bad₂ : own_types h₂.type_of h₂.strings (a ∷ bs) ≡ false =
        ap (λ f. own_types f h₂.strings (a ∷ bs)) same_types
        ∙ ap (λ f. own_types h.type_of f (a ∷ bs)) same_strings
        ∙ bad in
      elim (Option-cases (deref (h₂.strings p))) [
        | inl no_type ↦ destroy_services-fault a bs s h h₁ h₂ unlinked is_s left no_type
        | inr (t, is_type) ↦
            let h₃ = put_service a freed (put_string p freed h₂) in
            let is_live = deref-live (h₂.strings p) t is_type in
            let bad₃ = own_types-bad h₂.type_of h₂.strings a bs t is_type bad₂ in
            destroy_services-cons a bs h h₁ h₃ unlinked
              (destroy_service_struct-left a s h₁ h₂ t is_s left is_live)
            ∙ destroy_services-bad bs h₃ dev₁ (ap h₂.devices (sym mine) ∙ is_dev₂) refl
                (subst (λ cells. owned (update cells a freed) d bs ≡ true) (sym same)
                  (update-owned h.services a freed d bs once rest))
                bad₃
      ]

-- A device none of whose services is registered, whose list holds services of its own that are there,
-- no two with the same type and ID, and whose services keep as their types strings that can be freed,
-- no two the same string: it is destroyed with all its services and those strings, each freed once,
-- and no other device, service or string of a caller is touched.
pub destroy_device_struct-Gone :
    (registered : ℕ → Bool) (d : ℕ) (h : Heap) (dev : Device)
    → ((b : ℕ) → registered b ≡ false)
    → h.devices d ≡ live dev
    → owned h.services d dev.service_head ≡ true
    → own_types h.type_of h.strings dev.service_head ≡ true
    → (h' : Heap) × (destroy_device_struct registered (some d) h ≡ some (h', success))
      × Gone d dev.service_head h h'
unfolding destroy_device_struct
destroy_device_struct-Gone registered d h dev none_is is_dev own types =
    let (h', run, gone) =
      destroy_services-Gone registered none_is d dev.service_head h dev is_dev refl own types in
    (h', rw (is_dev, destroy_device_struct) run, gone)

-- A device none of whose services is registered, and whose list holds services of its own that are
-- there, no two with the same type and ID: if one of them keeps as its type a string of the caller
-- that cannot be freed, or two of them keep the same string, the destruction of the device is a fault.
pub destroy_device_struct_shared_type :
    (registered : ℕ → Bool) (d : ℕ) (h : Heap) (dev : Device)
    → ((b : ℕ) → registered b ≡ false)
    → h.devices d ≡ live dev
    → owned h.services d dev.service_head ≡ true
    → own_types h.type_of h.strings dev.service_head ≡ false
    → destroy_device_struct registered (some d) h ≡ none
unfolding destroy_device_struct
destroy_device_struct_shared_type registered d h dev none_is is_dev own bad =
    rw (is_dev, destroy_device_struct)
      (destroy_services-bad registered none_is d dev.service_head h dev is_dev refl own bad)
