-- ===== src/Zigbee/Vps/Tests.antt =====
-- Runs of the functions of DZigbee-bridge/vps2addr.c on small tables.
use home_automation_bridge_z.Prelude.{
  ℕ, zero, suc, ◌≤◌, ◌<◌, ◌≡◌, ◌≢◌, refl, arith, none, some, get_elem?, replicate, set, Text, codes,
}
use home_automation_bridge_z.Zigbee.Vps.{
  Entry, Table, blank, claim, vps_add, vps_del, vps_vtoa, vps_vtoa_nwk, vps_atov, vps_atov_nwk,
  check_valid_vps, genvpstable, vps_add_nwk,
}
use home_automation_bridge_z.Zigbee.Vps.Add.{AllUsed, vps_add_full}
use home_automation_bridge_z.Zigbee.Vps.Find.{NoneMatch}
use home_automation_bridge_z.Zigbee.Vps.Cycle.{vps_atov-vps_add, vps_atov_nwk_stale}

abbrev ieee : Text
ieee = codes "00158D00"

abbrev other : Text
other = codes "00158D01"

abbrev short : Text
short = codes "7F"

abbrev empty : Table
empty = replicate 11 blank

abbrev one_node : Table
one_node = set empty 1 (claim blank ieee)

abbrev no_room : Table
no_room = replicate 11 (claim blank ieee)

-- A node with both addresses, the table after its port is free again, and after the next node.
abbrev named : Entry
named = record { used = 1; addr = ieee; nwkaddr = short }

abbrev gone : Table
gone = set empty 1 (record named { used = 0 })

abbrev next_node : Table
next_node = set empty 1 (claim named other)

empty_is_generated : genvpstable ≡ empty
unfolding genvpstable
empty_is_generated = refl

add_to_empty : vps_add empty ieee ≡ some (1, one_node)
unfolding vps_add
add_to_empty = refl

del_named : vps_del (set empty 1 named) 1 ≡ some gone
unfolding vps_del
del_named = refl

add_to_gone : vps_add gone other ≡ some (1, next_node)
unfolding vps_add
add_to_gone = refl

named_nwk : vps_vtoa_nwk (set empty 1 named) 1 ≡ some short
unfolding vps_vtoa_nwk
named_nwk = refl

-- A run of `vps_add_nwk` keeps the rest of the entry.
nwk_added : vps_add_nwk one_node 1 short ≡ some (set empty 1 named)
unfolding vps_add_nwk
nwk_added = refl

get_elem?-replicate : (n m : ℕ) (e : Entry) → m < n → get_elem? (replicate n e) m ≡ some e
get_elem?-replicate zero m e lt = absurd (omega arith)
get_elem?-replicate (suc n) zero e lt = refl
get_elem?-replicate (suc n) (suc m) e lt = get_elem?-replicate n m e (omega arith)

empty-NoneMatch : NoneMatch (λ e. e.addr) ieee empty 1 11
empty-NoneMatch m lo lt e h =
    let same : e ≡ blank = ground (arith, get_elem?-replicate 11 m blank lt) in rw same refl

no_room-AllUsed : AllUsed no_room 1 11
no_room-AllUsed m lo lt =
    (claim blank ieee, get_elem?-replicate 11 m (claim blank ieee) lt, λ e. omega arith)

vps_atov-vps_add_example :
    (1 ≤ 1)
    × (1 < 11)
    × (check_valid_vps empty 1 ≢ some 1)
    × (check_valid_vps one_node 1 ≡ some 1)
    × (vps_vtoa one_node 1 ≡ some ieee)
    × (vps_atov one_node ieee ≡ some 1)
    × (vps_vtoa_nwk one_node 1 ≡ vps_vtoa_nwk empty 1)
    × ((i : ℕ) → i ≢ 1 → get_elem? one_node i ≡ get_elem? empty i)
vps_atov-vps_add_example = vps_atov-vps_add empty one_node ieee 1 refl empty-NoneMatch add_to_empty

vps_add_full_example : vps_add no_room other ≡ none
vps_add_full_example = vps_add_full no_room other refl no_room-AllUsed

vps_atov_nwk_stale_example : vps_atov_nwk next_node short ≡ some 1
vps_atov_nwk_stale_example =
    vps_atov_nwk_stale (set empty 1 named) gone next_node other short 1 refl del_named add_to_gone
      named_nwk (λ m lo lt e h. absurd (omega arith))
