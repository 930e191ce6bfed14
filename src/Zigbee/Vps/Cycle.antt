-- ===== src/Zigbee/Vps/Cycle.antt =====
-- The life of a port: allocated, looked up, released and reused.
use home_automation_bridge_z.Prelude.{
  ℕ, ◌≤◌, ◌<◌, ◌≡◌, refl, ◌≢◌, inl, inr, true, some, arith, Option-cases, get_elem?-some_lt,
  get_elem?-lt, get_elem?-map, length-map, get_elem?, set, length-set, get_elem?-set_self,
  get_elem?-set_ne, Text, str_eq_refl, length, ap, ◌∙◌, sym,
}
use home_automation_bridge_z.Zigbee.Vps.{
  Entry, Table, Holds, IsTable, claim, matches, clearvpstable, clear_entry, vps_add, vps_del,
  vps_vtoa, vps_vtoa_nwk, vps_atov, vps_atov_nwk, check_valid_vps,
}
use home_automation_bridge_z.Zigbee.Vps.Add.{vps_add-FirstFree}
use home_automation_bridge_z.Zigbee.Vps.Find.{
  NoneMatch, Finds, Finds-first, Finds-free, vps_atov-Finds, vps_atov_nwk-Finds,
}

NoneMatch-set :
    (t : Table) (field : Entry → Text) (a : Text) (lo j : ℕ) (e : Entry)
    → NoneMatch field a t lo j
    → NoneMatch field a (set t j e) lo j
NoneMatch-set t field a lo j e below m p q e' h =
    below m p q e' (sym (get_elem?-set_ne t j m e (λ eq. omega arith)) ∙ h)

-- A port that `vps_add` hands out to an address without a port is from 1 to 10 and was free;
-- afterwards it is valid, it maps to the address and the address maps back to it. Every other
-- entry, and the network address in the entry itself, are as before.
pub vps_atov-vps_add :
    (t t' : Table) (a : Text) (j : ℕ)
    → IsTable t
    → NoneMatch (λ e. e.addr) a t 1 11
    → vps_add t a ≡ some (j, t')
    → (1 ≤ j)
      × (j < 11)
      × (check_valid_vps t j ≢ some 1)
      × (check_valid_vps t' j ≡ some 1)
      × (vps_vtoa t' j ≡ some a)
      × (vps_atov t' a ≡ some j)
      × (vps_vtoa_nwk t' j ≡ vps_vtoa_nwk t j)
      × ((i : ℕ) → i ≢ j → get_elem? t' i ≡ get_elem? t i)
unfolding check_valid_vps vps_vtoa vps_vtoa_nwk
vps_atov-vps_add t t' a j len fresh run =
    let (e, f, eq) = vps_add-FirstFree t t' a j len run in
    let hi : j < length t = let p = f.under in omega arith in
    let new : Holds t' j (claim e a) =
      ap (λ u. get_elem? u j) eq ∙ get_elem?-set_self t j (claim e a) hi in
    let len' : IsTable t' = ap length eq ∙ length-set t j (claim e a) ∙ len in
    let (v, found, out) = vps_atov-Finds t' a len' in
    let below : NoneMatch (λ x. x.addr) a t' 1 j = rw eq (
      NoneMatch-set t (λ x. x.addr) a 1 j (claim e a)
        (λ m p q. fresh m p (omega (arith, f.under)))) in
    let hit : matches (λ x. x.addr) a (claim e a) ≡ true = rw (str_eq_refl a) in
    let at : v ≡ j =
      Finds-first (λ x. x.addr) a t' 1 11 j v (claim e a) f.above f.under (omega arith) new hit
        below out in
    let free = f.free in
    let old = f.entry in
    (
      f.above,
      f.under,
      ground arith,
      ground arith,
      ground arith,
      ground arith,
      ground arith,
      λ i ne. rw eq (get_elem?-set_ne t j i (claim e a) (λ p. ne (sym p))),
    )

-- After `vps_del` the port is no longer valid and no search returns it, for either kind of address,
-- until it is allocated again. The addresses stay in the entry.
pub vps_atov-vps_del :
    (t t' : Table) (a : Text) (j : ℕ)
    → IsTable t
    → 1 ≤ j
    → vps_del t j ≡ some t'
    → (check_valid_vps t' j ≡ some 0)
      × (vps_atov t' a ≢ some j)
      × (vps_atov_nwk t' a ≢ some j)
      × (vps_vtoa t' j ≡ vps_vtoa t j)
      × (vps_vtoa_nwk t' j ≡ vps_vtoa_nwk t j)
unfolding vps_del check_valid_vps vps_vtoa vps_vtoa_nwk
vps_atov-vps_del t t' a j len pos run = elim (Option-cases (get_elem? t j)) [
  | inl out ↦ ground arith
  | inr (e, h) ↦
      let gone : Entry = clear_entry e in
      let eq : t' ≡ set t j gone = ground arith in
      let new : Holds t' j gone =
        ap (λ u. get_elem? u j) eq ∙ get_elem?-set_self t j gone (get_elem?-some_lt t j e h) in
      let len' : IsTable t' = ap length eq ∙ length-set t j gone ∙ len in
      let (v, found, out) = vps_atov-Finds t' a len' in
      let (w, found', out') = vps_atov_nwk-Finds t' a len' in
      (
        ground arith,
        λ p. Finds-free (λ x. x.addr) a t' 1 11 j v gone pos new refl out (ground arith),
        λ p. Finds-free (λ x. x.nwkaddr) a t' 1 11 j w gone pos new refl out' (ground arith),
        ground arith,
        ground arith,
      )
]

-- When a port is released and the next node gets it, the network address of the first node still
-- stands in the entry: a search by that address finds the new node's port, unless a lower port in
-- use has it too.
pub vps_atov_nwk_stale :
    (t u v : Table) (a nwk : Text) (j : ℕ)
    → IsTable t
    → vps_del t j ≡ some u
    → vps_add u a ≡ some (j, v)
    → vps_vtoa_nwk t j ≡ some nwk
    → NoneMatch (λ e. e.nwkaddr) nwk v 1 j
    → vps_atov_nwk v nwk ≡ some j
unfolding vps_del vps_vtoa_nwk
vps_atov_nwk_stale t u v a nwk j len del add had below = elim (Option-cases (get_elem? t j)) [
  | inl out ↦ ground arith
  | inr (e, h) ↦
      let lt = get_elem?-some_lt t j e h in
      let eq : u ≡ set t j (clear_entry e) = ground arith in
      let len-u : IsTable u = ap length eq ∙ length-set t j (clear_entry e) ∙ len in
      let (e', f, eq') = vps_add-FirstFree u v a j len-u add in
      let new : Holds v j (claim e' a) =
        ap (λ w. get_elem? w j) eq'
        ∙ get_elem?-set_self u j (claim e' a) (let p = f.under in omega arith) in
      let kept : get_elem? u j ≡ some (clear_entry e) =
        ap (λ w. get_elem? w j) eq ∙ get_elem?-set_self t j (clear_entry e) lt in
      let got = f.entry in
      let same : e'.nwkaddr ≡ nwk = ground arith in
      let len-v : IsTable v = ap length eq' ∙ length-set u j (claim e' a) ∙ len-u in
      let (w, found, out) = vps_atov_nwk-Finds v nwk len-v in
      let hit : matches (λ x. x.nwkaddr) nwk (claim e' a) ≡ true = rw (same, str_eq_refl nwk) in
      found
      ∙ ap some (
          Finds-first (λ x. x.nwkaddr) nwk v 1 11 j w (claim e' a) f.above f.under (omega arith) new
            hit below out)
]

cleared_free : (t : Table) (i : ℕ) (e : Entry) → Holds (clearvpstable t) i e → e.used ≡ 0
unfolding clearvpstable
cleared_free t i e h = let (e', h', eq) = get_elem?-map clear_entry t i e h in ap (λ x. x.used) eq

Finds-cleared :
    (field : Entry → Text) (a : Text) (t : Table) (v : ℕ)
    → Finds field a (clearvpstable t) 1 11 v
    → v ≡ 0
Finds-cleared field a t v (inl (z, none_match)) = z
Finds-cleared field a t v (inr (e, p, q, h, used, same, none_match)) =
    absurd (used (cleared_free t v e h))

-- After `clearvpstable` no address of either kind has a port, and every port is free.
pub clearvpstable_lem :
    (t : Table) (a : Text)
    → IsTable t
    → (vps_atov (clearvpstable t) a ≡ some 0)
      × (vps_atov_nwk (clearvpstable t) a ≡ some 0)
      × ((j : ℕ) → j < 11 → check_valid_vps (clearvpstable t) j ≡ some 0)
unfolding check_valid_vps
clearvpstable_lem t a len =
    let len' : IsTable (clearvpstable t) = unfold clearvpstable in length-map clear_entry t ∙ len in
    let (v, found, out) = vps_atov-Finds (clearvpstable t) a len' in
    let (w, found', out') = vps_atov_nwk-Finds (clearvpstable t) a len' in
    (
      found ∙ ap some (Finds-cleared (λ x. x.addr) a t v out),
      found' ∙ ap some (Finds-cleared (λ x. x.nwkaddr) a t w out'),
      λ j lt.
          let (e, h) = get_elem?-lt (clearvpstable t) j (omega arith) in
          let free = cleared_free t j e h in ground arith,
    )
