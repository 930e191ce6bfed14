-- ===== src/Ihap/Alarm/Tick.antt =====
-- What one pass of the time manager does to every task.
use home_automation_bridge_z.Prelude.{
  ℕ, zero, suc, ◌+◌, ◌-◌, ◌≤◌, ◌<◌, ◌≡◌, ◌≢◌, refl, ◌⊎◌, inl, inr, arith, ◌==◌, if◌then◌else◌,
  Bool-cases,
}
use home_automation_bridge_z.Ihap.Alarm.{Alarms, tick_task, tick_loop, tick}

-- The signal of a task after its countdown went down by one: raised if the countdown was at 1.
abbrev pub raised : ℕ → ℕ → ℕ
raised count old = if count == 1 then 1 else old

pub record Ticked (lo hi : ℕ) (a b : Alarms) : Type 0 where
  pub inside :
      (t : ℕ)
      → lo ≤ t
      → t < hi
      → (b.countdown t ≡ a.countdown t - 1) × (b.signal t ≡ raised (a.countdown t) (a.signal t))
  pub outside :
      (t : ℕ) → (t < lo) ⊎ (hi ≤ t) → (b.countdown t ≡ a.countdown t) × (b.signal t ≡ a.signal t)

tick_task_self :
    (i : ℕ) (a : Alarms)
    → ((tick_task i a).0.countdown i ≡ a.countdown i - 1)
      × ((tick_task i a).0.signal i ≡ raised (a.countdown i) (a.signal i))
unfolding tick_task
tick_task_self i a = ground arith

tick_task_other :
    (i t : ℕ) (a : Alarms)
    → i ≢ t
    → ((tick_task i a).0.countdown t ≡ a.countdown t) × ((tick_task i a).0.signal t ≡ a.signal t)
unfolding tick_task
tick_task_other i t a ne = ground arith

loop_Ticked : (r i hi : ℕ) (a : Alarms) → i + r ≡ hi → Ticked i hi a (tick_loop r i a).0
unfolding tick_loop
loop_Ticked zero i hi a sum = record {
  inside = λ t p q. absurd (omega arith);
  outside = λ t o. (refl, refl);
}
loop_Ticked (suc r) i hi a sum =
    let ih = loop_Ticked r (suc i) hi (tick_task i a).0 (omega arith) in
    record {
      inside = λ t p q. elim (Bool-cases (i == t)) [
        | inl here ↦ ground (arith, ih.outside t, tick_task_self i a)
        | inr other ↦ ground (arith, ih.inside t, tick_task_other i t a)
      ];
      outside = λ t o. ground (arith, ih.outside t, tick_task_other i t a);
    }

-- One pass takes every countdown below MAX_TASKS down by one, to no less than 0, and raises the
-- signal of exactly those tasks whose countdown was at 1; nothing else changes.
pub tick-Ticked : (max_tasks : ℕ) (a : Alarms) → Ticked 0 max_tasks a (tick max_tasks a).0
unfolding tick
tick-Ticked max_tasks a = loop_Ticked max_tasks 0 max_tasks a (omega arith)
