-- ===== src/Ihap/Msg/Deliver.antt =====
-- What one wake-up of the handler does with every message in the queue.
use home_automation_bridge_z.Prelude.{
  ℕ, zero, suc, ◌+◌, ◌-◌, ◌≤◌, ◌<◌, ◌≡◌, ◌≢◌, refl, sym, ap, ◌∙◌, ◌⊎◌, inl, inr, true, false, arith,
  ◌==◌, Bool-cases, subst, Bool, some,
}
use home_automation_bridge_z.Ihap.Msg.{Handler, Context, MsgTable, addressed, drain_loop}
use home_automation_bridge_z.Ihap.Msg.Drain.{visit_from, drain_loop-visit_from}
use home_automation_bridge_z.Ihap.Msg.Slot.{
  Sent, Routable, Routed, Got, Same, left, Visited, visit_slot,
}

module _ (max_tasks : ℕ) (table : MsgTable) (free : ℕ → Bool) where
  -- All slots from `lo` on.
  pub record Drained (lo : ℕ) (h h' : Handler) : Type 0 where
    pub cursor : h'.next_slot ≡ 0
    pub structs : h'.queue_struct ≡ h.queue_struct
    pub slots : (m : ℕ) → lo ≤ m → m < 4 → h'.queue m ≡ left max_tasks table free h m
    pub others : (m : ℕ) → (m < lo) ⊎ (4 ≤ m) → h'.queue m ≡ h.queue m
    pub last :
        (m r : ℕ)
        → lo ≤ m
        → m < 4
        → Sent max_tasks table free h m r
        → ((k : ℕ) → m < k → k < 4 → ¬ Sent max_tasks table free h k r)
        → Got max_tasks table free h h' m r
    pub untouched :
        (r : ℕ)
        → ((k : ℕ) → lo ≤ k → k < 4 → ¬ Sent max_tasks table free h k r)
        → Same max_tasks table free h h' r
    pub quiet : ((m : ℕ) → lo ≤ m → m < 4 → h.queue m ≢ 0 → free m ≡ true) → h'.alarms ≡ h.alarms
    pub asked : (h'.alarms ≡ h.alarms) ⊎ (h'.alarms.countdown (max_tasks - 1) ≡ 2)
    pub blocked :
        (m : ℕ)
        → lo ≤ m
        → m < 4
        → h.queue m ≢ 0
        → free m ≡ false
        → h'.alarms.countdown (max_tasks - 1) ≡ 2

  Sent-mono :
      (h g : Handler) (k r : ℕ)
      → g.queue_struct ≡ h.queue_struct
      → g.queue k ≡ h.queue k
      → Sent max_tasks table free h k r
      → Sent max_tasks table free g k r
  Sent-mono h g k r structs same (taken, open_lock, to) = (
    λ z. taken (sym same ∙ z),
    open_lock,
    ap (λ (q : ℕ → Context). (table (q k).sender.task_id ((q k).sender.output_id - 1)).0) structs
        ∙ to,
  )

  Got-structs :
      (h g h' : Handler) (m r : ℕ)
      → g.queue_struct ≡ h.queue_struct
      → Got max_tasks table free g h' m r
      → Got max_tasks table free h h' m r
  Got-structs h g h' m r structs (a, b, c) = (
    a ∙ ap (λ (q : ℕ → Context). (q m).holder) structs,
    b
        ∙ ap
            (λ (q : ℕ → Context).
              addressed (q m).sender (table (q m).sender.task_id ((q m).sender.output_id - 1)))
            structs,
    c,
  )

  Got-Same :
      (h g h' : Handler) (m r : ℕ)
      → Got max_tasks table free h g m r
      → Same max_tasks table free g h' r
      → Got max_tasks table free h h' m r
  Got-Same h g h' m r (a, b, c) (same, signal) =
      (ap (λ x. x.holder) same ∙ a, ap (λ x. x.sender) same ∙ b, signal ∙ c)

  module _ (i : ℕ) (h g h' : Handler) (lt : i < 4) (v : Visited max_tasks table free i h g)
      (d : Drained (suc i) g h') where
    later_Sent :
        (k r : ℕ) → suc i ≤ k → Sent max_tasks table free g k r → Sent max_tasks table free h k r
    later_Sent k r lo = Sent-mono g h k r (sym v.structs) (sym (v.others k (λ e. omega arith)))

    slots_cons : (m : ℕ) → i ≤ m → m < 4 → h'.queue m ≡ left max_tasks table free h m
    slots_cons m lo hi = elim (Bool-cases (i == m)) [
      | inl here ↦
          let eq : i ≡ m = ground arith in
          d.others m (inl (omega arith))
          ∙ ap g.queue (sym eq)
          ∙ v.here
          ∙ ap (left max_tasks table free h) eq
      | inr other ↦ d.slots m (ground arith) hi ∙ ground (arith, v.others m)
    ]

    last_cons :
        (m r : ℕ)
        → i ≤ m
        → m < 4
        → Sent max_tasks table free h m r
        → ((k : ℕ) → m < k → k < 4 → ¬ Sent max_tasks table free h k r)
        → Got max_tasks table free h h' m r
    last_cons m r lo hi s no_later = elim (Bool-cases (i == m)) [
      | inl here ↦
          let eq : i ≡ m = ground arith in
          subst (λ n. Got max_tasks table free h h' n r) eq
            (Got-Same h g h' i r
              (v.sent r (subst (λ n. Sent max_tasks table free h n r) (sym eq) s))
              (d.untouched r (λ k p q s'. no_later k (omega arith) q (later_Sent k r p s'))))
      | inr other ↦ Got-structs h g h' m r v.structs (
          d.last m r (ground arith) hi
            (Sent-mono h g m r v.structs (v.others m (λ e. ground arith)) s)
            (λ k p q s'. no_later k p q (later_Sent k r (omega arith) s')))
    ]

    untouched_cons :
        (r : ℕ)
        → ((k : ℕ) → i ≤ k → k < 4 → ¬ Sent max_tasks table free h k r)
        → Same max_tasks table free h h' r
    untouched_cons r nobody =
        let (a, b) = d.untouched r (λ k p q s. nobody k (omega arith) q (later_Sent k r p s)) in
        let (a', b') = v.unsent r (nobody i (omega arith) lt) in (a ∙ a', b ∙ b')

    blocked_cons :
        (m : ℕ)
        → i ≤ m
        → m < 4
        → h.queue m ≢ 0
        → free m ≡ false
        → h'.alarms.countdown (max_tasks - 1) ≡ 2
    blocked_cons m lo hi taken shut = elim (Bool-cases (i == m)) [
      | inl here ↦
          let eq : i ≡ m = ground arith in
          let set = v.blocked (λ z. taken (ap h.queue (sym eq) ∙ z)) (ap free eq ∙ shut) in
          elim d.asked [
            | inl same ↦ ap (λ x. x.countdown (max_tasks - 1)) same ∙ set
            | inr again ↦ again
          ]
      | inr other ↦
          d.blocked m (ground arith) hi (λ z. taken (sym (v.others m (λ e. ground arith)) ∙ z)) shut
    ]

    quiet_cons : ((m : ℕ) → i ≤ m → m < 4 → h.queue m ≢ 0 → free m ≡ true) → h'.alarms ≡ h.alarms
    quiet_cons all =
        d.quiet (λ m lo hi t. all m (omega arith) hi (λ z. t (v.others m (λ e. omega arith) ∙ z)))
        ∙ v.quiet (all i (omega arith) lt)

    asked_cons : (h'.alarms ≡ h.alarms) ⊎ (h'.alarms.countdown (max_tasks - 1) ≡ 2)
    asked_cons = elim d.asked [
      | inl same ↦ elim v.asked [
        | inl same' ↦ inl (same ∙ same')
        | inr set ↦ inr (ap (λ x. x.countdown (max_tasks - 1)) same ∙ set)
      ]
      | inr set ↦ inr set
    ]

    Drained-cons : Drained i h h'
    Drained-cons = record {
      cursor = d.cursor;
      structs = d.structs ∙ v.structs;
      slots = slots_cons;
      others = λ m o. d.others m (omega arith) ∙ v.others m (λ e. omega arith);
      last = last_cons;
      untouched = untouched_cons;
      quiet = quiet_cons;
      asked = asked_cons;
      blocked = blocked_cons;
    }

  Routed-Visited :
      (i : ℕ) (h g : Handler)
      → Visited max_tasks table free i h g
      → Routed max_tasks table free h i
      → Routed max_tasks table free g (suc i)
  Routed-Visited i h g v routed m lo hi taken =
      subst (λ (q : ℕ → Context). Routable max_tasks table free (q m).sender) (sym v.structs)
        (routed m (omega arith) hi (λ e. taken (v.others m (λ eq. omega arith) ∙ e)))

  visit_from-Drained :
      (r i : ℕ) (h : Handler)
      → i + r ≡ 4
      → Routed max_tasks table free h i
      → (h' : Handler) × (visit_from max_tasks table free r i h ≡ some h') × Drained i h h'
  unfolding visit_from
  visit_from-Drained zero i h sum routed = (
    record h { next_slot = 0 },
    refl,
    record {
      cursor = refl;
      structs = refl;
      slots = λ m lo hi. absurd (omega arith);
      others = λ m o. refl;
      last = λ m r lo hi. absurd (omega arith);
      untouched = λ r n. (refl, refl);
      quiet = λ q. refl;
      asked = inl refl;
      blocked = λ m lo hi. absurd (omega arith);
    },
  )
  visit_from-Drained (suc r) i h sum routed =
      let (g, step, v) = visit_slot max_tasks table free r i h (omega arith) routed in
      let (h', run, d) =
        visit_from-Drained r (suc i) g (omega arith) (Routed-Visited i h g v routed) in
      (h', step ∙ run, Drained-cons i h g h' (omega arith) v d)

  -- From any cursor, if every waiting message from there on was sent by a task on an output from 1 to
  -- 11, for which the routing table names a task, the loop ends without a fault. From the cursor on, a slot is freed exactly if the mutex of its receiver was free; the
  -- others keep their message for another try, and the handler's alarm is requested exactly if
  -- there is one. A task gets the last message that was for it, addressed to the input that the
  -- routing table names, with its signal up; a task with no message is untouched.
  pub drain_loop-Drained :
      (h : Handler)
      → h.next_slot ≤ 4
      → Routed max_tasks table free h h.next_slot
      → (h' : Handler) × (drain_loop 5 max_tasks table free h ≡ some h') × Drained h.next_slot h h'
  drain_loop-Drained h bound routed =
      let (h', run, d) = visit_from-Drained (4 - h.next_slot) h.next_slot h (omega arith) routed in
      (h', drain_loop-visit_from max_tasks table free h bound ∙ run, d)
