-- ===== src/Ihap/Alarm/Fires.antt =====
-- The life of an alarm.
use home_automation_bridge_z.Prelude.{
  ℕ, zero, suc, ◌-◌, ◌≤◌, ◌<◌, ◌≡◌, refl, true, false, arith, update,
}
use home_automation_bridge_z.Ihap.Alarm.{Alarms, tick, ticks, alarm_set, alarm_test_and_reset}
use home_automation_bridge_z.Ihap.Alarm.Tick.{tick-Ticked}

counting :
    (max t k n : ℕ) (a : Alarms)
    → t < max
    → a.countdown t ≡ n
    → a.signal t ≡ 0
    → k < n
    → ((ticks max k a).countdown t ≡ n - k) × ((ticks max k a).signal t ≡ 0)
unfolding ticks
counting max t zero n a lt c s h = (omega arith, s)
counting max t (suc k) n a lt c s h =
    let p = (tick-Ticked max a).inside t (omega arith) lt in
    let q =
      counting max t k (n - 1) (tick max a).0 lt (ground arith) (ground arith) (omega arith) in
    (omega arith, q.1)

ticks-suc : (max k : ℕ) (a : Alarms) → ticks max (suc k) a ≡ (tick max (ticks max k a)).0
unfolding ticks
ticks-suc max zero a = refl
ticks-suc max (suc k) a = ticks-suc max k (tick max a).0

-- An alarm that a task sets for `n` ticks, `n` at least 1, while its signal is down, is seen after
-- exactly `n` passes of the time manager and not before; the test that sees it takes it down again.
pub alarm_fires :
    (max t n : ℕ) (a : Alarms)
    → t < max
    → 1 ≤ n
    → a.signal t ≡ 0
    → ((k : ℕ) → k < n → (alarm_test_and_reset t (ticks max k (alarm_set t n a))).1 ≡ false)
      × ((alarm_test_and_reset t (ticks max n (alarm_set t n a))).1 ≡ true)
      × ((alarm_test_and_reset t (alarm_test_and_reset t (ticks max n (alarm_set t n a))).0).1
          ≡ false)
unfolding alarm_set alarm_test_and_reset
alarm_fires max t (suc n) a lt pos down =
    let start : Alarms = record a { countdown = update a.countdown t (suc n) } in
    let before =
      λ (k : ℕ) (h : k < suc n). counting max t k (suc n) start lt (ground arith) down h in
    let last = before n (omega arith) in
    let final = (tick-Ticked max (ticks max n start)).inside t (omega arith) lt in
    let on : (ticks max (suc n) start).signal t ≡ 1 = rw (ticks-suc max n start) (ground arith) in
    (λ k h. let p = (before k h).1 in ground arith, ground arith, ground arith)
alarm_fires max t zero a lt pos down = absurd (omega arith)
