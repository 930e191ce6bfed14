-- ===== src/Zigbee/Vps/Add.antt =====
-- Allocation of a port by `vps_add`.
use home_automation_bridge_z.Prelude.{
  ℕ, zero, suc, ◌+◌, ◌≤◌, ◌<◌, ◌≡◌, ◌⊎◌, inl, inr, none, some, arith, ◌==◌, Bool-cases, get_elem?,
  set, get_elem?-ge, get_elem?-lt, length, subst, Text,
}
use home_automation_bridge_z.Zigbee.Vps.{
  Entry, Table, Holds, IsUsed, IsTable, claim, vps_add_loop, vps_add,
}

-- Every port from `lo` up to, not including, `hi` is in use.
abbrev pub AllUsed : Table → ℕ → ℕ → Type 0
AllUsed t lo hi = (m : ℕ) → lo ≤ m → m < hi → IsUsed t m

module _ (t : Table) (a : Text) where
  skip_used : (k i : ℕ) → IsUsed t i → vps_add_loop (suc k) i t a ≡ vps_add_loop k (suc i) t a
  unfolding vps_add_loop
  skip_used k i (e, h, u) = rw (h, vps_add_loop) (ground arith)

  add_loop_first :
      (k i j : ℕ) (e : Entry)
      → i ≤ j
      → j < i + k
      → Holds t j e
      → e.used ≡ 0
      → AllUsed t i j
      → vps_add_loop k i t a ≡ some (j, set t j (claim e a))
  unfolding vps_add_loop
  add_loop_first zero i j e lo hi h free below = absurd (omega arith)
  add_loop_first (suc k) i j e lo hi h free below = elim (Bool-cases (i == j)) [
    | inl here ↦ let eq : i ≡ j = ground arith in rw (eq, h, vps_add_loop) (ground arith)
    | inr later ↦ rw (skip_used k i (below i (omega arith) (ground arith))) (
        add_loop_first k (suc i) j e (ground arith) (omega arith) h free
          (λ m p q. below m (omega arith) q))
  ]

  add_loop_full :
      (k i n : ℕ) → i ≤ n → n < i + k → length t ≡ n → AllUsed t i n → vps_add_loop k i t a ≡ none
  unfolding vps_add_loop
  add_loop_full zero i n lo hi len below = absurd (omega arith)
  add_loop_full (suc k) i n lo hi len below = elim (Bool-cases (i == n)) [
    | inl here ↦
        let out : get_elem? t i ≡ none = get_elem?-ge t i (ground arith) in rw (out, vps_add_loop)
    | inr more ↦ rw (skip_used k i (below i (omega arith) (ground arith))) (
        add_loop_full k (suc i) n (ground arith) (omega arith) len
          (λ m p q. below m (omega arith) q))
  ]

-- A port that is free while those below it are in use.
pub record FirstFree (t : Table) (lo hi j : ℕ) (e : Entry) : Type 0 where
  pub above : lo ≤ j
  pub under : j < hi
  pub entry : Holds t j e
  pub free : e.used ≡ 0
  pub below : AllUsed t lo j

abbrev pub Scanned : Table → ℕ → ℕ → Type 0
Scanned t lo hi = AllUsed t lo hi ⊎ ((j : ℕ) × (e : Entry) × FirstFree t lo hi j e)

module _ (t : Table) where
  AllUsed-cons : (i n : ℕ) → IsUsed t i → AllUsed t (suc i) n → AllUsed t i n
  AllUsed-cons i n used rest m lo hi = elim (Bool-cases (i == m)) [
    | inl here ↦ let eq : i ≡ m = ground arith in subst (IsUsed t) eq used
    | inr later ↦ rest m (ground arith) hi
  ]

  Scanned-cons : (i n : ℕ) → IsUsed t i → Scanned t (suc i) n → Scanned t i n
  Scanned-cons i n used (inl all) = inl (AllUsed-cons i n used all)
  Scanned-cons i n used (inr (j, e, f)) = inr (
    j,
    e,
    record {
      above = let p : suc i ≤ j = f.above in omega arith;
      under = f.under;
      entry = f.entry;
      free = f.free;
      below = AllUsed-cons i j used f.below;
    },
  )

  -- The ports of a range are all in use, or there is a first free one.
  pub scan : (k i n : ℕ) → i + k ≡ n → n ≤ length t → Scanned t i n
  scan zero i n sum len = inl (λ m lo hi. absurd (omega arith))
  scan (suc k) i n sum len =
      let (e, h) = get_elem?-lt t i (omega arith) in
      elim (Bool-cases (e.used == 0)) [
        | inl free ↦ inr (
          i,
          e,
          record {
            above = omega arith;
            under = omega arith;
            entry = h;
            free = ground arith;
            below = λ m lo hi. absurd (omega arith);
          },
        )
        | inr used ↦ Scanned-cons i n (e, h, λ z. ground arith) (scan k (suc i) n (omega arith) len)
      ]

-- `vps_add` takes the lowest free port, from 1 on: it returns the port and marks its entry used
-- with the new address.
pub vps_add_first :
    (t : Table) (a : Text) (j : ℕ) (e : Entry)
    → 1 ≤ j
    → j < 256
    → Holds t j e
    → e.used ≡ 0
    → AllUsed t 1 j
    → vps_add t a ≡ some (j, set t j (claim e a))
unfolding vps_add
vps_add_first t a j e lo hi h free below =
    add_loop_first t a 255 1 j e lo (omega arith) h free below

-- With every port of the table in use `vps_add` runs past the end of the table: its `return 0`
-- for a full table is not reached.
pub vps_add_full : (t : Table) (a : Text) → IsTable t → AllUsed t 1 11 → vps_add t a ≡ none
unfolding vps_add
vps_add_full t a len below = add_loop_full t a 255 1 11 (omega arith) (omega arith) len below

-- What a successful `vps_add` did: it claimed the first free port from 1 to 10.
pub vps_add-FirstFree :
    (t t' : Table) (a : Text) (j : ℕ)
    → IsTable t
    → vps_add t a ≡ some (j, t')
    → (e : Entry) × FirstFree t 1 11 j e × (t' ≡ set t j (claim e a))
vps_add-FirstFree t t' a j len run = from (scan t 10 1 11 (omega arith) (omega arith))
  where
    from : Scanned t 1 11 → (e : Entry) × FirstFree t 1 11 j e × (t' ≡ set t j (claim e a))
    from (inl all) = cc (vps_add_full t a len all)
    from (inr (i, e, f)) =
        let got = vps_add_first t a i e f.above (omega arith) f.entry f.free f.below in
        let same : i ≡ j = ground arith in
        (e, subst (λ k. FirstFree t 1 11 k e) same f, ground arith)
