-- ===== src/Ihap/Session/Answer.antt =====
-- A session from the message that opens it to the message that answers it.
use home_automation_bridge_z.Prelude.{
  ℕ, ◌+◌, ◌*◌, ◌%◌, ◌≤◌, ◌<◌, ◌≡◌, ◌≢◌, refl, ap, ◌∙◌, false, some, List, [], ◌∷◌, arith, leb,
  update, if◌then◌else◌,
}
use home_automation_bridge_z.Ihap.Hex.{Memory}
use home_automation_bridge_z.Ihap.Hex.Encode.{Disjoint, binary_to_hexbinary-Encoded}
use home_automation_bridge_z.Ihap.Session.{
  Session, Config, Output, broadcast, udp, from_client, to_client, send_udp, is_time,
}

-- A message from a client that is accepted opens the session of its VPS, for 15 seconds, and no
-- other; it goes out on port 1, from the address where it begins or five bytes on.
pub from_client-opens :
    (c : Config) (p : ℕ) (s s' : Session) (out : List Output)
    → s.memory p ≤ c.max_vps
    → from_client c p s ≡ some (s', out)
    → (s'.session_table (s.memory p) ≡ 15)
      × ((w : ℕ) → w ≢ s.memory p → s'.session_table w ≡ s.session_table w)
      × (out ≡ broadcast 1 (if is_time s.memory p then p + 5 else p) ∷ [])
unfolding from_client
from_client-opens c p s s' out small run = (ground arith, λ w ne. ground arith, ground arith)

-- The answer on an open session goes to the client's port, two above the VPS, and closes it.
to_client-open :
    (c : Config) (q : ℕ) (s : Session)
    → s.memory q ≤ c.max_vps
    → s.session_table (s.memory q) ≢ 0
    → to_client c q s
      ≡ some (
        record s { session_table = update s.session_table (s.memory q) 0 },
        broadcast ((s.memory q + 2) % 256) q ∷ [],
      )
unfolding to_client
to_client-open c q s small live = ground arith

to_client-closed :
    (c : Config) (q : ℕ) (s : Session)
    → s.memory q ≤ c.max_vps
    → s.session_table (s.memory q) ≡ 0
    → to_client c q s ≡ send_udp c q s
unfolding to_client
to_client-closed c q s small shut = ground arith

-- Without a session a message of at most 85 bytes goes out by UDP to the port of its VPS, as twice
-- as many characters.
send_udp-short :
    (c : Config) (q : ℕ) (s : Session)
    → 3 * s.memory (q + 1) < 256
    → Disjoint (q + 2) c.buffer (s.memory (q + 1))
    → (m : Memory) × (send_udp c q s
        ≡ some (record s { memory = m }, udp (10000 + s.memory q) (s.memory (q + 1) * 2) ∷ []))
unfolding send_udp
send_udp-short c q s short apart =
    let n = s.memory (q + 1) in
    let (m, run, enc) =
      binary_to_hexbinary-Encoded (q + 2) c.buffer n s.memory (omega arith) apart in
    let fits : leb 256 (3 * n) ≡ false = ground arith in
    let whole : n * 2 % 256 ≡ n * 2 = omega arith in (m, rw (fits, send_udp) (rw run (rw whole)))

-- A session is answered once: after a message from a client of a VPS, the next message for that
-- VPS is handed to the client's port and closes the session, and one after it, of at most 85
-- bytes, finds no session and goes out by UDP. Sessions of other ports are as before.
pub answered_once :
    (c : Config) (p q r : ℕ) (s s' : Session) (out : List Output)
    → s.memory p ≤ c.max_vps
    → from_client c p s ≡ some (s', out)
    → s'.memory q ≡ s.memory p
    → s'.memory r ≡ s.memory p
    → 3 * s'.memory (r + 1) < 256
    → Disjoint (r + 2) c.buffer (s'.memory (r + 1))
    → (s'' : Session) × (t : Session) × (to_client c q s'
        ≡ some (s'', broadcast ((s.memory p + 2) % 256) q ∷ []))
      × (s''.session_table (s.memory p) ≡ 0)
      × ((w : ℕ) → w ≢ s.memory p → s''.session_table w ≡ s.session_table w)
      × (to_client c r s'' ≡ some (t, udp (10000 + s.memory p) (s'.memory (r + 1) * 2) ∷ []))
      × ((w : ℕ) → t.session_table w ≡ s''.session_table w)
answered_once c p q r s s' out small run same same' short apart =
    let (opened, others, sent) = from_client-opens c p s s' out small run in
    let s'' = record s' { session_table = update s'.session_table (s'.memory q) 0 } in
    let (m, gone) = send_udp-short c r s'' short apart in
    let open_run = to_client-open c q s' (omega arith) (λ z. ground arith) in
    let shut : s''.session_table (s''.memory r) ≡ 0 = ground arith in
    (
      s'',
      record s'' { memory = m },
      open_run ∙ ap (λ (v : ℕ). some (s'', broadcast ((v + 2) % 256) q ∷ [])) same,
      ground arith,
      λ w ne. ground (arith, others w),
      to_client-closed c r s'' (omega arith) shut
          ∙ gone
          ∙ ap
              (λ (v : ℕ).
                some (record s'' { memory = m }, udp (10000 + v) (s'.memory (r + 1) * 2) ∷ []))
              same',
      λ w. refl,
    )
