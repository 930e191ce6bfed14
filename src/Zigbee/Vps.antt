-- ===== src/Zigbee/Vps.antt =====
-- DZigbee-bridge/vps2addr.c and vps2addr.h: the table that maps a virtual port (VPS) to the IEEE
-- address and the network address of a ZigBee node. The table is what `genvpstable` allocates; a
-- subscript outside it is undefined behaviour in C, here the fault `none`.

pub mod Add
pub mod Cycle
pub mod Find
mod Tests
use home_automation_bridge_z.Prelude.{
  ℕ, zero, suc, ◌≡◌, ◌≢◌, Bool, true, false, ◌&&◌, Option, none, some, List, [], ◌∷◌, map, ◌==◌,
  negb, if◌then◌else◌, length, get_elem?, set, replicate, Text, str_eq,
}

-- An address is the bytes that `memcpy` copies: ADDRLEN (8) of `addr`, ADDRLEN2 (2) of `nwkaddr`.
pub record Entry : Type 0 where
  pub used : ℕ
  pub addr : Text
  pub nwkaddr : Text

abbrev pub Table : Type 0
Table = List Entry

abbrev pub max_vps : ℕ
max_vps = 11

-- `calloc` gives zeroed entries.
abbrev pub blank : Entry
blank = record { used = 0; addr = replicate 8 0; nwkaddr = replicate 2 0 }

pub genvpstable : Table
genvpstable = replicate max_vps blank

abbrev clear_entry : Entry → Entry
clear_entry e = record e { used = 0 }

-- The loop runs over the indices below MAXVPS, which is the length of the table.
pub clearvpstable : Table → Table
clearvpstable t = map clear_entry t

-- What `vps_add` writes into a free entry. It leaves `nwkaddr` as it was.
abbrev pub claim : Entry → Text → Entry
claim e a = record e { used = 1; addr = a }

-- `for (i = 1; i != 0; i++)` over an `unsigned char`: the bound is the wrap to 0, not MAXVPS.
-- The first argument is the rounds left, so the loop ends with `return 0` when `i` has wrapped.
vps_add_loop : ℕ → ℕ → Table → Text → Option (ℕ × Table)
vps_add_loop zero i t a = some (0, t)
vps_add_loop (suc k) i t a = elim (get_elem? t i) [
  | none ↦ none
  | some e ↦
      let rest = vps_add_loop k (suc i) t a in
      if e.used == 0 then some (i, set t i (claim e a)) else rest
]

pub vps_add : Table → Text → Option (ℕ × Table)
unfolding vps_add_loop
vps_add t a = vps_add_loop 255 1 t a

pub vps_add_nwk : Table → ℕ → Text → Option Table
vps_add_nwk t vps a = elim (get_elem? t vps) [
  | none ↦ none
  | some e ↦ some (set t vps (record e { nwkaddr = a }))
]

pub vps_del : Table → ℕ → Option Table
vps_del t vps = elim (get_elem? t vps) [
  | none ↦ none
  | some e ↦ some (set t vps (record e { used = 0 }))
]

pub vps_vtoa : Table → ℕ → Option Text
vps_vtoa t vps = elim (get_elem? t vps) [ none ↦ none | some e ↦ some e.addr ]

pub vps_vtoa_nwk : Table → ℕ → Option Text
vps_vtoa_nwk t vps = elim (get_elem? t vps) [ none ↦ none | some e ↦ some e.nwkaddr ]

-- The two searches differ in the field that they compare. The test is `used != 0` and equal bytes.
abbrev pub matches : (Entry → Text) → Text → Entry → Bool
matches field a e = negb (e.used == 0) && str_eq a (field e)

vps_find_loop : (Entry → Text) → ℕ → ℕ → Table → Text → Option ℕ
vps_find_loop field zero i t a = some 0
vps_find_loop field (suc k) i t a = elim (get_elem? t i) [
  | none ↦ none
  | some e ↦
      let rest = vps_find_loop field k (suc i) t a in if matches field a e then some i else rest
]

-- `for (i = 1; i < MAXVPS; i++)`: ten rounds.
pub vps_atov : Table → Text → Option ℕ
unfolding vps_find_loop
vps_atov t a = vps_find_loop (λ e. e.addr) 10 1 t a

pub vps_atov_nwk : Table → Text → Option ℕ
unfolding vps_find_loop
vps_atov_nwk t a = vps_find_loop (λ e. e.nwkaddr) 10 1 t a

pub check_valid_vps : Table → ℕ → Option ℕ
check_valid_vps t vps = elim (get_elem? t vps) [
  | none ↦ none
  | some e ↦ some (if e.used == 1 then 1 else 0)
]

-- What `genvpstable` establishes and every operation keeps.
abbrev pub IsTable : Table → Type 0
IsTable t = length t ≡ max_vps

-- The entry at a port, and the ports that are in use.
abbrev pub Holds : Table → ℕ → Entry → Type 0
Holds t i e = get_elem? t i ≡ some e

abbrev pub IsFree : Table → ℕ → Type 0
IsFree t i = (e : Entry) × Holds t i e × (e.used ≡ 0)

abbrev pub IsUsed : Table → ℕ → Type 0
IsUsed t i = (e : Entry) × Holds t i e × (e.used ≢ 0)
