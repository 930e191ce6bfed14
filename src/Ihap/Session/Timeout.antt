-- ===== src/Ihap/Session/Timeout.antt =====
-- The countdown of the sessions.
use home_automation_bridge_z.Prelude.{
  ℕ, zero, suc, ◌+◌, ◌-◌, ◌%◌, ◌≤◌, ◌<◌, ◌≡◌, ◌≢◌, refl, ap, ap₂, subst, ◌∙◌, sym, ◌⊎◌, inl, inr,
  Bool, false, ◌||◌, some, List, [], ◌∷◌, ◌++◌, map, arith, ◌==◌, if◌then◌else◌, Bool-cases,
}
use home_automation_bridge_z.Ihap.Alarm.{alarm_set}
use home_automation_bridge_z.Ihap.Session.{
  Session, Config, Output, broadcast, count_down, count_down_loop, on_alarm, from_client,
}
use home_automation_bridge_z.Ihap.Session.Answer.{from_client-opens}

-- The ports whose sessions end in this pass: those from `i` on, `r` of them, that are at 1.
pub expiring : (ℕ → ℕ) → ℕ → ℕ → List ℕ
expiring t zero i = []
expiring t (suc r) i = let rest = expiring t r (suc i) in if t i == 1 then i ∷ rest else rest

pub has : ℕ → List ℕ → Bool
has v [] = false
has v (w ∷ ws) = (v == w) || has v ws

abbrev pub notice : (ℕ → ℕ) → ℕ → Output
notice fresh v = broadcast ((v + 2) % 256) (fresh v)

expiring-same :
    (t u : ℕ → ℕ) (r i : ℕ) → ((v : ℕ) → i ≤ v → t v ≡ u v) → expiring t r i ≡ expiring u r i
unfolding expiring
expiring-same t u zero i same = refl
expiring-same t u (suc r) i same =
    ground (arith, same i, expiring-same t u r (suc i) (λ v lo. same v (omega arith)))

has-outside : (t : ℕ → ℕ) (r i v : ℕ) → (v < i) ⊎ (i + r ≤ v) → has v (expiring t r i) ≡ false
unfolding expiring has
has-outside t zero i v o = refl
has-outside t (suc r) i v o = let rest = has-outside t r (suc i) v (omega arith) in ground arith

-- A port is among those that end in this pass exactly if its session is at 1.
has-expiring : (t : ℕ → ℕ) (r i v : ℕ) → i ≤ v → v < i + r → has v (expiring t r i) ≡ (t v == 1)
unfolding expiring has
has-expiring t zero i v lo hi = absurd (omega arith)
has-expiring t (suc r) i v lo hi = elim (Bool-cases (v == i)) [
  | inl here ↦
      let eq : v ≡ i = ground arith in
      let rest = has-outside t r (suc i) v (inl (omega arith)) in
      rw eq (ground (arith, ap t eq, rest, eq))
  | inr other ↦ let rest = has-expiring t r (suc i) v (ground arith) (omega arith) in ground arith
]

module _ (c : Config) (fresh : ℕ → ℕ) where
  pub record Counted (lo r : ℕ) (s s' : Session) (out : List Output) : Type 0 where
    pub inside : (v : ℕ) → lo ≤ v → v < lo + r → s'.session_table v ≡ s.session_table v - 1
    pub outside : (v : ℕ) → (v < lo) ⊎ (lo + r ≤ v) → s'.session_table v ≡ s.session_table v
    pub notices : out ≡ map (notice fresh) (expiring s.session_table r lo)
    pub rearmed :
        (v : ℕ) → lo ≤ v → v < lo + r → 2 ≤ s.session_table v → s'.alarms.countdown c.task_id ≡ 10
    pub armed : (s'.alarms ≡ s.alarms) ⊎ (s'.alarms.countdown c.task_id ≡ 10)

  record CountedOne (i : ℕ) (s s' : Session) (out : List Output) : Type 0 where
    here : s'.session_table i ≡ s.session_table i - 1
    others : (v : ℕ) → v ≢ i → s'.session_table v ≡ s.session_table v
    notices : out ≡ (if s.session_table i == 1 then notice fresh i ∷ [] else [])
    rearmed : 2 ≤ s.session_table i → s'.alarms.countdown c.task_id ≡ 10
    armed : (s'.alarms ≡ s.alarms) ⊎ (s'.alarms.countdown c.task_id ≡ 10)

  count_down-CountedOne :
      (i : ℕ) (s : Session) → CountedOne i s (count_down c fresh i s).0 (count_down c fresh i s).1
  unfolding count_down alarm_set
  count_down-CountedOne i s = record {
    here = ground arith;
    others = λ v ne. ground arith;
    notices = ground arith;
    rearmed = ground arith;
    armed = ground arith;
  }

  Counted-cons :
      (r i : ℕ) (s s' s'' : Session) (out rest : List Output)
      → CountedOne i s s' out
      → Counted (suc i) r s' s'' rest
      → Counted i (suc r) s s'' (out ++ rest)
  unfolding expiring
  Counted-cons r i s s' s'' out rest one d = record {
    inside = λ v lo hi. elim (Bool-cases (i == v)) [
      | inl here ↦
          let eq : i ≡ v = ground arith in
          d.outside v (inl (omega arith))
          ∙ subst (λ w. s'.session_table w ≡ s.session_table w - 1) eq one.here
      | inr other ↦
          d.inside v (ground arith) (omega arith)
          ∙ ap (λ (n : ℕ). n - 1) (one.others v (λ e. ground arith))
    ];
    outside = λ v o. d.outside v (omega arith) ∙ one.others v (λ e. omega arith);
    notices =
        let tail =
          d.notices
          ∙ ap (map (notice fresh)) (
              expiring-same s'.session_table s.session_table r (suc i)
                (λ v lo. one.others v (λ e. omega arith))) in
        ap₂ (λ (a b : List Output). a ++ b) one.notices tail ∙ ground arith;
    rearmed = λ v lo hi two. elim (Bool-cases (i == v)) [
      | inl here ↦
          let eq : i ≡ v = ground arith in
          let set = one.rearmed (subst (λ w. 2 ≤ s.session_table w) (sym eq) two) in
          elim d.armed [ inl same ↦ ap (λ a. a.countdown c.task_id) same ∙ set | inr again ↦ again ]
      | inr other ↦
          d.rearmed v (ground arith) (omega arith)
            (let e = one.others v (λ e. ground arith) in omega arith)
    ];
    armed = elim d.armed [
      | inl same ↦ elim one.armed [
        | inl same' ↦ inl (same ∙ same')
        | inr set ↦ inr (ap (λ a. a.countdown c.task_id) same ∙ set)
      ]
      | inr set ↦ inr set
    ];
  }

  loop_Counted :
      (r i : ℕ) (s : Session)
      → Counted i r s (count_down_loop c fresh r i s).0 (count_down_loop c fresh r i s).1
  unfolding count_down_loop expiring
  loop_Counted zero i s = record {
    inside = λ v lo hi. absurd (omega arith);
    outside = λ v o. refl;
    notices = refl;
    rearmed = λ v lo hi. absurd (omega arith);
    armed = inl refl;
  }
  loop_Counted (suc r) i s =
      let (s', out) = count_down c fresh i s in
      let (s'', rest) = count_down_loop c fresh r (suc i) s' in
      Counted-cons r i s s' s'' out rest (count_down-CountedOne i s) (loop_Counted r (suc i) s')

  -- One pass over the sessions takes every session below MAX_VPS down by one second, notifies
  -- exactly the ports whose session was at its last second, in order, and leaves all else; the
  -- task's alarm is set again if a session is still open.
  pub on_alarm-Counted :
      (s : Session) → Counted 0 c.max_vps s (on_alarm c fresh s).0 (on_alarm c fresh s).1
  unfolding on_alarm
  on_alarm-Counted s = loop_Counted c.max_vps 0 s

  -- A number of passes.
  pub passes : ℕ → Session → Session
  passes zero s = s
  passes (suc n) s = passes n (on_alarm c fresh s).0

  passes_inside :
      (n v : ℕ) (s : Session) → v < c.max_vps → (passes n s).session_table v ≡ s.session_table v - n
  unfolding passes
  passes_inside zero v s lt = omega arith
  passes_inside (suc n) v s lt =
      let one = (on_alarm-Counted s).inside v (omega arith) (omega arith) in
      let rest = passes_inside n v (on_alarm c fresh s).0 lt in omega arith

  passes_outside :
      (n v : ℕ) (s : Session) → c.max_vps ≤ v → (passes n s).session_table v ≡ s.session_table v
  unfolding passes
  passes_outside zero v s ge = refl
  passes_outside (suc n) v s ge =
      passes_outside n v (on_alarm c fresh s).0 ge
      ∙ (on_alarm-Counted s).outside v (inr (omega arith))

  -- An open session that nobody answers is notified exactly once: in the pass whose number is the
  -- seconds that it had left. After it the session is closed.
  pub session_expires_once :
      (v : ℕ) (s : Session)
      → v < c.max_vps
      → ((n : ℕ)
          → ((on_alarm c fresh (passes n s)).1
              ≡ map (notice fresh) (expiring (passes n s).session_table c.max_vps 0))
            × (has v (expiring (passes n s).session_table c.max_vps 0)
                ≡ (s.session_table v == n + 1)))
        × ((n : ℕ) → s.session_table v ≤ n → (passes n s).session_table v ≡ 0)
  session_expires_once v s lt = (
    λ n. (
      (on_alarm-Counted (passes n s)).notices,
      has-expiring (passes n s).session_table c.max_vps 0 v (omega arith) (omega arith)
          ∙ ground (arith, passes_inside n v s lt),
    ),
    λ n le. let e = passes_inside n v s lt in omega arith,
  )

  -- A client's message for the port MAX_VPS itself passes the check of its VPS and opens a session,
  -- but no pass counts that session down: it is never notified.
  pub edge_session_stays :
      (p n : ℕ) (s s' : Session) (out : List Output)
      → s.memory p ≡ c.max_vps
      → from_client c p s ≡ some (s', out)
      → ((passes n s').session_table c.max_vps ≡ 15)
        × (has c.max_vps (expiring (passes n s').session_table c.max_vps 0) ≡ false)
  edge_session_stays p n s s' out edge run =
      let (opened, others, sent) = from_client-opens c p s s' out (omega arith) run in
      (
        passes_outside n c.max_vps s' (omega arith) ∙ ap s'.session_table (sym edge) ∙ opened,
        has-outside (passes n s').session_table c.max_vps 0 c.max_vps (inr (omega arith)),
      )
