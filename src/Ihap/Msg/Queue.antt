-- ===== src/Ihap/Msg/Queue.antt =====
-- The slots that `queue_add` fills.
use home_automation_bridge_z.Prelude.{
  ℕ, zero, suc, ◌+◌, ◌≤◌, ◌<◌, ◌≡◌, ◌≢◌, inl, inr, true, false, arith, ◌==◌, Bool-cases, update,
}
use home_automation_bridge_z.Ihap.Msg.{Handler, queue_add_loop, queue_add}

-- Every slot from `lo` up to, not including, `hi` is taken.
abbrev pub AllTaken : Handler → ℕ → ℕ → Type 0
AllTaken h lo hi = (m : ℕ) → lo ≤ m → m < hi → h.queue m ≢ 0

-- The message in `msg_context` stands in slot `j`.
abbrev pub filled : ℕ → Handler → Handler
filled j h = record h {
  queue_struct = update h.queue_struct j h.msg_context;
  queue = update h.queue j 1;
}

add_loop_first :
    (r i j : ℕ) (h : Handler)
    → i ≤ j
    → j < i + r
    → h.queue j ≡ 0
    → AllTaken h i j
    → queue_add_loop r i h ≡ (filled j h, 0)
unfolding queue_add_loop
add_loop_first zero i j h lo hi free below = absurd (omega arith)
add_loop_first (suc r) i j h lo hi free below = elim (Bool-cases (i == j)) [
  | inl here ↦
      let eq : i ≡ j = ground arith in
      let empty : (h.queue j == 0) ≡ true = ground arith in rw (eq, empty)
  | inr later ↦
      let taken : (h.queue i == 0) ≡ false = ground (arith, below i) in
      rw taken (
        add_loop_first r (suc i) j h (ground arith) (omega arith) free
          (λ m p q. below m (omega arith) q))
]

-- `queue_add` puts the message of `msg_context` into the lowest free slot, and returns 0.
pub queue_add_first :
    (j : ℕ) (h : Handler) → j < 4 → h.queue j ≡ 0 → AllTaken h 0 j → queue_add h ≡ (filled j h, 0)
unfolding queue_add
queue_add_first j h lt free below = add_loop_first 4 0 j h (omega arith) lt free below

-- With every slot taken it returns EOVERFLOW, and changes nothing.
pub queue_add_full : (h : Handler) → AllTaken h 0 4 → queue_add h ≡ (h, 75)
unfolding queue_add queue_add_loop
queue_add_full h full = ground (arith, full 0, full 1, full 2, full 3)
