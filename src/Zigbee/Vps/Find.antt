-- ===== src/Zigbee/Vps/Find.antt =====
-- The searches `vps_atov` and `vps_atov_nwk`, from an address to a port.
use home_automation_bridge_z.Prelude.{
  ℕ, zero, suc, ◌+◌, ◌≤◌, ◌<◌, ◌≡◌, refl, ap, ◌≢◌, ◌⊎◌, inl, inr, true, false, some, arith, ◌==◌,
  ltb, ltb→lt, Bool-cases, get_elem?, get_elem?-lt, length, Text, str_eq_iff,
}
use home_automation_bridge_z.Zigbee.Vps.{
  Entry, Table, Holds, IsTable, matches, vps_find_loop, vps_atov, vps_atov_nwk,
}

module _ (field : Entry → Text) (a : Text) (t : Table) where
  -- No entry from port `lo` up to, not including, `hi` is used under the address.
  abbrev pub NoneMatch : ℕ → ℕ → Type 0
  NoneMatch lo hi =
      (m : ℕ) → lo ≤ m → m < hi → (e : Entry) → Holds t m e → matches field a e ≡ false

  -- The outcome of a search from `lo` below `hi`: the first port that is used under the address,
  -- or 0 if there is none.
  abbrev pub Finds : ℕ → ℕ → ℕ → Type 0
  Finds lo hi v =
      ((v ≡ 0) × NoneMatch lo hi)
      ⊎ ((e : Entry) × (lo ≤ v)
          × (v < hi)
          × Holds t v e
          × (e.used ≢ 0)
          × (field e ≡ a)
          × NoneMatch lo v)

  NoneMatch-cons :
      (i hi : ℕ) (e : Entry)
      → Holds t i e
      → matches field a e ≡ false
      → NoneMatch (suc i) hi
      → NoneMatch i hi
  NoneMatch-cons i hi e h miss rest m lo lt e' h' = elim (Bool-cases (i == m)) [
    | inl here ↦
        let eq : i ≡ m = ground arith in
        let same : e ≡ e' = ground (arith, ap (get_elem? t) eq) in rw (← same) miss
    | inr later ↦ rest m (ground arith) lt e' h'
  ]

  Finds-cons :
      (i hi v : ℕ) (e : Entry)
      → Holds t i e
      → matches field a e ≡ false
      → Finds (suc i) hi v
      → Finds i hi v
  Finds-cons i hi v e h miss (inl (z, none_match)) =
      inl (z, NoneMatch-cons i hi e h miss none_match)
  Finds-cons i hi v e h miss (inr (e', lo, lt, h', used, same, none_match)) =
      inr (e', omega arith, lt, h', used, same, NoneMatch-cons i v e h miss none_match)

  Finds-here :
      (i hi : ℕ) (e : Entry) → i < hi → Holds t i e → matches field a e ≡ true → Finds i hi i
  Finds-here i hi e lt h hit = inr (
    e,
    omega arith,
    lt,
    h,
    ground arith,
    ground (arith, str_eq_iff a (field e)),
    λ m lo below e' h'. absurd (omega arith),
  )

  -- One round of the search, from the entry under the index and the rest of the search.
  abbrev Searches : ℕ → ℕ → ℕ → Type 0
  Searches k i n = (v : ℕ) × (vps_find_loop field k i t a ≡ some v) × Finds i n v

  find_step :
      (k i n : ℕ) (e : Entry) → i < n → Holds t i e → Searches k (suc i) n → Searches (suc k) i n
  unfolding vps_find_loop
  find_step k i n e lt h (v, run, out) = elim (Bool-cases (matches field a e)) [
    | inl hit ↦ (i, rw (h, vps_find_loop) (rw hit), Finds-here i n e lt h hit)
    | inr miss ↦ (v, rw (h, vps_find_loop) (rw miss run), Finds-cons i n v e h miss out)
  ]

  find_loop_Finds : (k i n : ℕ) → i + k ≡ n → n ≤ length t → Searches k i n
  unfolding vps_find_loop
  find_loop_Finds zero i n sum len = (0, refl, inl (refl, λ m lo hi e h. absurd (omega arith)))
  find_loop_Finds (suc k) i n sum len =
      let (e, h) = get_elem?-lt t i (omega arith) in
      find_step k i n e (omega arith) h (find_loop_Finds k (suc i) n (omega arith) len)

-- `vps_atov` always returns: the first port from 1 to 10 that is in use under the IEEE address, or
-- 0 if there is none.
pub vps_atov-Finds :
    (t : Table) (a : Text)
    → IsTable t
    → (v : ℕ) × (vps_atov t a ≡ some v) × Finds (λ e. e.addr) a t 1 11 v
unfolding vps_atov
vps_atov-Finds t a len = find_loop_Finds (λ e. e.addr) a t 10 1 11 (omega arith) (omega arith)

-- `vps_atov_nwk` always returns: the first port from 1 to 10 that is in use under the network
-- address, or 0 if there is none.
pub vps_atov_nwk-Finds :
    (t : Table) (a : Text)
    → IsTable t
    → (v : ℕ) × (vps_atov_nwk t a ≡ some v) × Finds (λ e. e.nwkaddr) a t 1 11 v
unfolding vps_atov_nwk
vps_atov_nwk-Finds t a len =
    find_loop_Finds (λ e. e.nwkaddr) a t 10 1 11 (omega arith) (omega arith)

module _ (field : Entry → Text) (a : Text) (t : Table) where
  -- A port that is used under the address, with no match below it, is what a search finds.
  pub Finds-first :
      (lo hi j v : ℕ) (e : Entry)
      → lo ≤ j
      → j < hi
      → 0 < lo
      → Holds t j e
      → matches field a e ≡ true
      → NoneMatch field a t lo j
      → Finds field a t lo hi v
      → v ≡ j
  Finds-first lo hi j v e p q pos h hit below (inl (z, none_match)) =
      absurd (ground (arith, none_match j p q e h))
  Finds-first lo hi j v e p q pos h hit below (inr (e', p', q', h', used, same, none_match)) =
      elim (Bool-cases (ltb v j)) [
        | inl before ↦
            absurd (ground (arith, below v p' (ltb→lt v j before) e' h', str_eq_iff a (field e')))
        | inr not_before ↦ elim (Bool-cases (ltb j v)) [
          | inl after ↦ absurd (ground (arith, none_match j p (ltb→lt j v after) e h))
          | inr not_after ↦ ground arith
        ]
      ]

  -- A free entry is never what a search finds.
  pub Finds-free :
      (lo hi j v : ℕ) (e : Entry)
      → 1 ≤ j
      → Holds t j e
      → e.used ≡ 0
      → Finds field a t lo hi v
      → v ≢ j
  Finds-free lo hi j v e pos h free (inl (z, none_match)) eq = omega arith
  Finds-free lo hi j v e pos h free (inr (e', p', q', h', used, same, none_match)) eq =
      used (ground (arith, ap (get_elem? t) eq))
