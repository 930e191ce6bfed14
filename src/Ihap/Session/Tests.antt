-- ===== src/Ihap/Session/Tests.antt =====
-- Runs of the session manager.
use home_automation_bridge_z.Prelude.{
  ℕ, ◌+◌, ◌*◌, ◌%◌, ◌≤◌, ◌≡◌, ◌≢◌, inl, refl, arith, ◌==◌, if◌then◌else◌, some, [], ◌∷◌, map,
  update,
}
use home_automation_bridge_z.Ihap.Alarm.{alarm_set}
use home_automation_bridge_z.Ihap.Hex.{Memory}
use home_automation_bridge_z.Ihap.Session.{
  Session, Config, broadcast, udp, from_client, to_client, on_alarm,
}
use home_automation_bridge_z.Ihap.Session.Answer.{answered_once}
use home_automation_bridge_z.Ihap.Session.Timeout.{
  expiring, has, notice, passes, session_expires_once,
}

abbrev config : Config
config = record { task_id = 2; max_vps = 11; buffer = 1000 }

-- Where the notice to a VPS goes.
abbrev fresh : ℕ → ℕ
fresh v = 5000 + 256 * v

-- At 100 a message of two bytes for VPS 3, at 200 one for VPS 11, at 300 one of 90 bytes for VPS 3.
abbrev memory : Memory
memory a =
    if a == 100
    then 3
    else if a == 101
    then 2
    else if a == 200
    then 11
    else if a == 201
    then 2
    else if a == 300
    then 3
    else if a == 301
    then 90
    else 65

-- The session of VPS 5 ends in the third pass.
abbrev session : Session
session = record {
  session_table = λ v. if v == 5 then 3 else 0;
  memory = memory;
  alarms = record { countdown = λ t. 0; signal = λ t. 0 };
}

abbrev opened : ℕ → Session
opened v = record session {
  session_table = update session.session_table v 15;
  alarms = record { countdown = update (λ t. 0) 2 10; signal = λ t. 0 };
}

opens_3 : from_client config 100 session ≡ some (opened 3, broadcast 1 100 ∷ [])
unfolding from_client alarm_set
opens_3 = refl

opens_11 : from_client config 200 session ≡ some (opened 11, broadcast 1 200 ∷ [])
unfolding from_client alarm_set
opens_11 = refl

session_expires_once_example :
    ((n : ℕ)
      → ((on_alarm config fresh (passes config fresh n session)).1
          ≡ map
              (notice fresh)
              (expiring (passes config fresh n session).session_table config.max_vps 0))
        × (has 5 (expiring (passes config fresh n session).session_table config.max_vps 0)
            ≡ (session.session_table 5 == n + 1)))
    × ((n : ℕ) → session.session_table 5 ≤ n → (passes config fresh n session).session_table 5 ≡ 0)
session_expires_once_example = session_expires_once config fresh 5 session (omega arith)

answered_once_example :
    (s'' : Session) × (t : Session) × (to_client config 100 (opened 3)
      ≡ some (s'', broadcast ((session.memory 100 + 2) % 256) 100 ∷ []))
    × (s''.session_table (session.memory 100) ≡ 0)
    × ((w : ℕ) → w ≢ session.memory 100 → s''.session_table w ≡ session.session_table w)
    × (to_client config 100 s''
        ≡ some (t, udp (10000 + session.memory 100) ((opened 3).memory (100 + 1) * 2) ∷ []))
    × ((w : ℕ) → t.session_table w ≡ s''.session_table w)
answered_once_example =
    answered_once config 100 100 100 session (opened 3) (broadcast 1 100 ∷ []) (omega arith) opens_3
      refl refl (omega arith) (inl (omega arith))
