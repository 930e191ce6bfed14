-- ===== src/Ihap/Session.antt =====
-- ihaplite/sessionmanager.c: sessions by virtual port (VPS). A message from a client opens a
-- session, a message to it closes the session, and an open session is counted down once a second.
-- What the task sends is a list of outputs; the memory is the one of `Hex`, and a message at
-- address `p` is its VPS at `p`, its length at `p + 1` and its bytes behind. What `calloc` returns
-- for the notice to a VPS is an argument.

pub mod Answer
pub mod Timeout
mod Tests
use home_automation_bridge_z.Prelude.{
  ℕ, zero, suc, ◌+◌, ◌-◌, ◌*◌, ◌%◌, ◌≡◌, ◌<◌, Bool, true, false, ◌&&◌, Option, none, some, List, [],
  ◌∷◌, ◌==◌, leb, ltb, if◌then◌else◌, update, negb, ◌++◌, Text, codes,
}
use home_automation_bridge_z.Ihap.Hex.{Memory, binary_to_hexbinary}
use home_automation_bridge_z.Ihap.Alarm.{Alarms, alarm_set, alarm_test_and_reset}

pub data Output : Type 0 where
  -- `broadcast_msg` on an output port, and the address of the message
  broadcast : ℕ → ℕ → Output
  -- `UDP_broadcast` on a port (UDPPORTBASE is 10000), and the number of bytes sent
  udp : ℕ → ℕ → Output
  -- `free`
  freed : ℕ → Output

-- The locals of the task, the memory and the alarms.
pub record Session : Type 0 where
  pub session_table : ℕ → ℕ
  pub memory : Memory
  pub alarms : Alarms

-- What the task is started with: its number, MAX_VPS, and the address of `broadcastbuffer`.
pub record Config : Type 0 where
  pub task_id : ℕ
  pub max_vps : ℕ
  pub buffer : ℕ

abbrev pub session_timeout : ℕ
session_timeout = 15

-- `strncmp(dataPtr + 2, "0TIME", 5) == 0`
pub is_time : Memory → ℕ → Bool
is_time m p =
    m (p + 2) == b'0'
    && (m (p + 3) == b'T' && (m (p + 4) == b'I' && (m (p + 5) == b'M' && m (p + 6) == b'E')))

-- `binary_to_hexbinaryString` writes three characters for each byte and a zero: it fits into
-- `printbuffer[DATASIZE]` or overruns it.
pub fits_printbuffer : ℕ → Bool
fits_printbuffer n = leb (3 * n + 1) 255

-- The keyword is cut off: the message now begins five bytes on, and is that much shorter.
abbrev pub cut_time : ℕ → ℕ → Memory → Memory
cut_time vps p m = update (update m (p + 5) vps) (p + 6) ((m (p + 1) + 256 - 5) % 256)

-- A message from a client, `case In1`. The fault `none` is an overrun of `printbuffer`.
pub from_client : Config → ℕ → Session → Option (Session × List Output)
unfolding is_time fits_printbuffer
from_client c p s =
    let vps = s.memory p in
    let opened = update s.session_table vps session_timeout in
    let cut = cut_time vps p s.memory in
    let timed = record s {
      session_table = opened;
      memory = cut;
      alarms = alarm_set c.task_id 3000 s.alarms;
    } in
    let plain = record s { session_table = opened; alarms = alarm_set c.task_id 10 s.alarms } in
    if ltb c.max_vps vps
    then some (s, freed p ∷ [])
    else if negb (fits_printbuffer (s.memory (p + 1) + 2))
    then none
    else if negb (is_time s.memory p)
    then some (plain, broadcast 1 p ∷ [])
    else if fits_printbuffer (cut (p + 6) + 2)
    then some (timed, broadcast 1 (p + 5) ∷ [])
    else none

-- With no session the message goes out by UDP, as hexadecimal text. The fault `none` is a write
-- behind the 256 bytes of `broadcastbuffer`: the last one is at three times the length.
unfoldable pub send_udp : Config → ℕ → Session → Option (Session × List Output)
send_udp c p s =
    let vps = s.memory p in
    let n = s.memory (p + 1) in
    if leb 256 (3 * n) then none else elim (binary_to_hexbinary 256 (p + 2) c.buffer n s.memory) [
      | none ↦ none
      | some (len, m) ↦ some (record s { memory = m }, udp (10000 + vps) len ∷ [])
    ]

-- A message for a client, `case In2`.
pub to_client : Config → ℕ → Session → Option (Session × List Output)
to_client c p s =
    let vps = s.memory p in
    if ltb c.max_vps vps
    then some (s, freed p ∷ [])
    else if s.session_table vps == 0
    then send_udp c p s
    else some (
      record s { session_table = update s.session_table vps 0 },
      broadcast ((vps + 2) % 256) p ∷ [],
    )

-- The switch on `context->sender[InputID]`.
pub on_message : Config → ℕ → ℕ → Session → Option (Session × List Output)
on_message c input p s =
    if input == 1 then from_client c p s else if input == 2 then to_client c p s else some (s, [])

-- What `calloc(1, DATASIZE)` returns at `p`, and a text written at `p`.
pub zeroed : ℕ → Memory → Memory
zeroed p m a = if leb p a && ltb a (p + 255) then 0 else m a

pub write_text : ℕ → Text → Memory → Memory
write_text p [] m = m
write_text p (x ∷ xs) m = write_text (suc p) xs (update m p x)

-- The notice of a timeout: the VPS, the length of the text, and the text.
pub write_notice : ℕ → ℕ → Memory → Memory
unfolding zeroed write_text
write_notice vps p m =
    update (update (write_text (p + 2) (codes "TIMEOUT_SEND") (zeroed p m)) (p + 1) 12) p vps

-- One round of the loop over the sessions.
pub count_down : Config → (ℕ → ℕ) → ℕ → Session → Session × List Output
count_down c fresh i s =
    if s.session_table i == 0
    then (s, [])
    else if leb (s.session_table i) 1
    then (
      record s {
        session_table = update s.session_table i 0;
        memory = write_notice i (fresh i) s.memory;
      },
      broadcast ((i + 2) % 256) (fresh i) ∷ [],
    )
    else (
      record s {
        session_table = update s.session_table i (s.session_table i - 1);
        alarms = alarm_set c.task_id 10 s.alarms;
      },
      [],
    )

-- `for (i = 0; i < MAX_VPS; i++)`, with the rounds left first.
pub count_down_loop : Config → (ℕ → ℕ) → ℕ → ℕ → Session → Session × List Output
count_down_loop c fresh zero i s = (s, [])
count_down_loop c fresh (suc r) i s =
    let (s', out) = count_down c fresh i s in
    let (s'', rest) = count_down_loop c fresh r (suc i) s' in (s'', out ++ rest)

-- An alarm of the task.
pub on_alarm : Config → (ℕ → ℕ) → Session → Session × List Output
on_alarm c fresh s = count_down_loop c fresh c.max_vps 0 s

-- The body of the task's loop behind `receive`: the message if there is one, then the alarm.
pub session_manager : Config → (ℕ → ℕ) → Bool → ℕ → ℕ → Session → Option (Session × List Output)
session_manager c fresh msg_flag input p s =
    elim (if msg_flag then on_message c input p s else some (s, [])) [
      | none ↦ none
      | some (s', out) ↦
          let (alarms', rang) = alarm_test_and_reset c.task_id s'.alarms in
          let s'' = record s' { alarms = alarms' } in
          if rang
          then (let (t, rest) = on_alarm c fresh s'' in some (t, out ++ rest))
          else some (s'', out)
    ]
