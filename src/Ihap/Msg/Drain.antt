-- ===== src/Ihap/Msg/Drain.antt =====
-- The loop over `queue_nextmsg`, whose cursor is a global, against a plain loop over the slots.
use home_automation_bridge_z.Prelude.{
  ℕ, zero, suc, ◌+◌, ◌-◌, ◌≤◌, ◌≡◌, refl, sym, ap, ◌∙◌, inl, inr, true, false, arith, ◌==◌,
  Bool-cases, Option-cases, if◌then◌else◌, Bool, Option, some, none,
}
use home_automation_bridge_z.Ihap.Msg.{
  Handler, MsgTable, queue_nextmsg_loop, queue_nextmsg, deliver, drain_loop,
}

-- `queue_nextmsg` found slot `i`.
abbrev pub loaded : ℕ → Handler → Handler
loaded i h = record h { msg_context = h.queue_struct i; next_slot = suc i }

module _ (max_tasks : ℕ) (table : MsgTable) (free : ℕ → Bool) where
  -- One slot: nothing if it is free, otherwise one try to deliver its message.
  pub visit : ℕ → Handler → Option Handler
  visit i h = if h.queue i == 0 then some h else deliver max_tasks table (free i) (loaded i h)

  -- The slots from `i` on, in order, with the rounds left first.
  unfoldable pub visit_from : ℕ → ℕ → Handler → Option Handler
  visit_from zero i h = some (record h { next_slot = 0 })
  visit_from (suc r) i h = elim (visit i h) [ none ↦ none | some h' ↦ visit_from r (suc i) h' ]

  module _ (r i : ℕ) (h : Handler) where
    pub visit_from-skip : (h.queue i == 0) ≡ true → visit_from (suc r) i h ≡ visit_from r (suc i) h
    unfolding visit_from visit
    visit_from-skip empty = rw (empty, visit_from)

    pub visit_from-fault :
        (h.queue i == 0) ≡ false
        → deliver max_tasks table (free i) (loaded i h) ≡ none
        → visit_from (suc r) i h ≡ none
    unfolding visit_from visit
    visit_from-fault taken fault = rw (taken, visit_from) (rw fault)

    pub visit_from-got :
        (h' : Handler)
        → (h.queue i == 0) ≡ false
        → deliver max_tasks table (free i) (loaded i h) ≡ some h'
        → visit_from (suc r) i h ≡ visit_from r (suc i) h'
    unfolding visit_from visit
    visit_from-got h' taken got = rw (taken, visit_from) (rw got)

  deliver-next_slot :
      (b : Bool) (h h' : Handler)
      → deliver max_tasks table b h ≡ some h'
      → h'.next_slot ≡ h.next_slot
  unfolding deliver
  deliver-next_slot b h h' e = ground arith

  -- What the loop does with the result of `queue_nextmsg`.
  abbrev continue : ℕ → Handler × Bool → Option Handler
  continue f next = elim next.1 [
    | false ↦ some next.0
    | true ↦ elim (deliver max_tasks table (free (next.0.next_slot - 1)) next.0) [
      | none ↦ none
      | some h' ↦ drain_loop f max_tasks table free h'
    ]
  ]

  continue-fault :
      (f slot : ℕ) (h : Handler)
      → h.next_slot ≡ suc slot
      → deliver max_tasks table (free slot) h ≡ none
      → continue f (h, true) ≡ none
  continue-fault f slot h at fault =
      let e : h.next_slot - 1 ≡ slot = omega arith in rw (e, continue) (rw fault)

  continue-got :
      (f slot : ℕ) (h h' : Handler)
      → h.next_slot ≡ suc slot
      → deliver max_tasks table (free slot) h ≡ some h'
      → continue f (h, true) ≡ drain_loop f max_tasks table free h'
  continue-got f slot h h' at got =
      let e : h.next_slot - 1 ≡ slot = omega arith in rw (e, continue) (rw got)

  resume :
      (slot r f : ℕ) (h : Handler)
      → h.next_slot ≡ suc slot
      → slot + suc r ≡ 4
      → continue f (queue_nextmsg_loop r (suc slot) h) ≡ visit_from r (suc slot) h
      → drain_loop (suc f) max_tasks table free h ≡ visit_from r (suc slot) h
  unfolding drain_loop queue_nextmsg
  resume slot r f h at sum rest =
      let left : 4 - h.next_slot ≡ r = omega arith in
      ap (λ n. continue f (queue_nextmsg_loop n h.next_slot h)) left
      ∙ ap (λ n. continue f (queue_nextmsg_loop r n h)) at
      ∙ rest

  continue-visit_from :
      (r f slot : ℕ) (h : Handler)
      → slot + r ≡ 4
      → r ≤ f
      → continue f (queue_nextmsg_loop r slot h) ≡ visit_from r slot h
  unfolding visit_from queue_nextmsg_loop
  continue-visit_from zero f slot h sum fuel = refl
  continue-visit_from (suc r) zero slot h sum fuel = absurd (omega arith)
  continue-visit_from (suc r) (suc f) slot h sum fuel = elim (Bool-cases (h.queue slot == 0)) [
    | inl empty ↦
        let rest = continue-visit_from r (suc f) (suc slot) h (omega arith) (omega arith) in
        rw empty rest ∙ sym (visit_from-skip r slot h empty)
    | inr taken ↦
        rw taken (elim (Option-cases (deliver max_tasks table (free slot) (loaded slot h))) [
          | inl fault ↦
              continue-fault (suc f) slot (loaded slot h) refl fault
              ∙ sym (visit_from-fault r slot h taken fault)
          | inr (h', got) ↦
              continue-got (suc f) slot (loaded slot h) h' refl got
              ∙ resume slot r f h' (deliver-next_slot (free slot) (loaded slot h) h' got) sum
                  (continue-visit_from r f (suc slot) h' (omega arith) (omega arith))
              ∙ sym (visit_from-got r slot h h' taken got)
        ])
  ]

  -- The loop over `queue_nextmsg` tries each slot from the cursor on once, in order, and ends with
  -- the cursor at the start; one round more than there are slots is enough.
  pub drain_loop-visit_from :
      (h : Handler)
      → h.next_slot ≤ 4
      → drain_loop 5 max_tasks table free h ≡ visit_from (4 - h.next_slot) h.next_slot h
  unfolding drain_loop queue_nextmsg
  drain_loop-visit_from h bound =
      continue-visit_from (4 - h.next_slot) 4 h.next_slot h (omega arith) (omega arith)
