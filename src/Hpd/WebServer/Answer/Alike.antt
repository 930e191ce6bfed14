-- ===== src/Hpd/WebServer/Answer/Alike.antt =====
-- What it is for two answers to be alike, and that calls of the log without a log change nothing.
use home_automation_bridge_z.Prelude.{
  ℕ, ◌≡◌, ◌≢◌, refl, Bool, true, false, Option, none, some, arith, ◌==◌, ltb, if◌then◌else◌, Text,
  length, Bool-cases, Option-cases, inl, inr, get_elem?,
}
use home_automation_bridge_z.Hpd.Events.{EventQueue}
use home_automation_bridge_z.Hpd.LogFile.{log}
use home_automation_bridge_z.Hpd.ServerSentEvents.{Sessions}
use home_automation_bridge_z.Hpd.ServerSentEvents.Stream.{
  Mhd, Reply, Response, send_cookied_xml, get_queue, set_up_server_sent_event_connection, listens,
}
use home_automation_bridge_z.Hpd.ServerSentEvents.Subscribe.{Toggled, answer_toggled, subscribe_at}
use home_automation_bridge_z.Hpd.WebServer.Answer.{answered, driven, after_subscription}
use home_automation_bridge_z.Hpd.WebServer.RequestLog.{
  log_request, then_log, with_log, logged_again, logged_after,
}
use home_automation_bridge_z.Hpd.WebServer.Reply.{
  ConCls, Call, Outside, ServerState, Answer, http_server, https_server, send_xml, secure_send_xml,
  send_error, secure_send_error,
}

-- Both none, or the same status and content type and, if the status is 200, the same body.
unfoldable pub SameResponse : Option Response → Option Response → Type 0
SameResponse none none = Unit
SameResponse none (some b) = ⊥
SameResponse (some a) none = ⊥
SameResponse (some a) (some b) =
    (a.status ≡ b.status) × (a.content_type ≡ b.content_type) × (a.status ≡ 200 → a.body ≡ b.body)

abbrev pub SameReply : Reply → Reply → Type 0
SameReply r r' = (r.result ≡ r'.result) × SameResponse r.response r'.response

-- Both a fault, or the same state, `*con_cls` and result and the same response but for its cookie and
-- the text of an error.
unfoldable pub Alike : Answer → Answer → Type 0
Alike none none = Unit
Alike none (some b) = ⊥
Alike (some a) none = ⊥
Alike (some (m, con, r)) (some (m', con', r')) = (m ≡ m') × (con ≡ con') × SameReply r r'

pub SameReply-refl : (r : Reply) → SameReply r r
unfolding SameResponse
SameReply-refl r = (
  refl,
  elim (Option-cases r.response) [
    | inl quiet ↦ rw quiet tt
    | inr (a, given) ↦ rw given (refl, refl, λ ok. refl)
  ],
)

pub Alike-refl : (a : Answer) → Alike a a
unfolding Alike
Alike-refl none = tt
Alike-refl (some (m, con, r)) = (refl, refl, SameReply-refl r)

pub Alike-if :
    (b : Bool) (x x' y y' : Answer)
    → Alike x x'
    → Alike y y'
    → Alike (if b then x else y) (if b then x' else y')
Alike-if true x x' y y' p q = p
Alike-if false x x' y y' p q = q

pub Alike-send_xml :
    (mhd : Mhd) (m : ServerState) (con : ConCls) (xml : Option Text)
    → xml ≢ none
    → Alike (answered m con (send_xml mhd xml)) (answered m con (secure_send_xml mhd xml))
unfolding secure_send_xml
Alike-send_xml mhd m con none is_some = absurd (is_some refl)
Alike-send_xml mhd m con (some t) is_some = Alike-refl (answered m con (send_xml mhd (some t)))

pub send_error-SameReply :
    (mhd : Mhd) (status : ℕ)
    → (status ≡ 200 → ⊥)
    → SameReply (send_error mhd status) (secure_send_error mhd status)
unfolding send_error secure_send_error SameResponse
send_error-SameReply mhd status is_error = elim (Bool-cases mhd.created) [
  | inl created ↦ rw created (refl, (refl, refl, λ ok. absurd (is_error ok)))
  | inr failed ↦ rw failed (refl, tt)
]

pub Alike-driven :
    (bytes : Text) (failed failed' : Answer) (next next' : Text → Answer)
    → Alike failed failed'
    → ((b : Text) → Alike (next b) (next' b))
    → Alike (driven bytes failed next) (driven bytes failed' next')
unfolding driven
Alike-driven bytes failed failed' next next' fails goes =
    Alike-if (length bytes == 0) _ _ _ _ fails
      (Alike-if (ltb (length bytes) 255) _ _ _ _ (goes bytes) (Alike-refl none))

send_cookied_xml-SameReply :
    (mhd : Mhd) (xml : Text) (q : EventQueue) (k k' : ℕ)
    → SameResponse (send_cookied_xml mhd xml q k).response (send_cookied_xml mhd xml q k').response
unfolding send_cookied_xml SameResponse
send_cookied_xml-SameReply mhd xml q k k' = elim (Bool-cases mhd.created) [
  | inl created ↦ rw created (refl, refl, λ ok. refl)
  | inr failed ↦ rw failed tt
]

answer_toggled-SameReply :
    (xml_subscription : Text → Text → Option Text) (mhd : Mhd) (k k' : ℕ) (t : Toggled)
    → SameReply (answer_toggled xml_subscription mhd k t) (answer_toggled xml_subscription mhd k' t)
unfolding answer_toggled SameResponse
answer_toggled-SameReply xml_subscription mhd k k' (q, none) = (refl, tt)
answer_toggled-SameReply xml_subscription mhd k k' (q, some xml) =
    (refl, send_cookied_xml-SameReply mhd xml q k k')

pub Alike-subscribe_at :
    (xml_subscription : Text → Text → Option Text) (toggle : EventQueue → Toggled) (mhd : Mhd)
    (k k' : ℕ) (m : ServerState) (p : Sessions × ℕ)
    → Alike
        (after_subscription m (subscribe_at xml_subscription toggle mhd k p))
        (after_subscription m (subscribe_at xml_subscription toggle mhd k' p))
unfolding subscribe_at Alike
Alike-subscribe_at xml_subscription toggle mhd k k' m (s, i) =
    elim (Option-cases (get_elem? s.queues i)) [
      | inl gone ↦ rw (subscribe_at, gone) tt
      | inr (q, there) ↦
          rw (subscribe_at, there)
            (refl, refl, answer_toggled-SameReply xml_subscription mhd k k' (toggle q))
    ]

pub set_up-alike :
    (mhd : Mhd) (cookie : Option Text) (id : Text) (k k' : ℕ) (s : Sessions)
    → ((set_up_server_sent_event_connection mhd cookie id k s).0
        ≡ (set_up_server_sent_event_connection mhd cookie id k' s).0)
      × SameReply
          (set_up_server_sent_event_connection mhd cookie id k s).1
          (set_up_server_sent_event_connection mhd cookie id k' s).1
unfolding set_up_server_sent_event_connection SameResponse
set_up-alike mhd cookie id k k' s = elim (Option-cases (get_queue cookie s)) [
  | inl gone ↦ rw (set_up_server_sent_event_connection, gone) (refl, (refl, tt))
  | inr (i, found) ↦ elim (Option-cases (get_elem? s.queues i)) [
    | inl out ↦ rw (set_up_server_sent_event_connection, found, out) (refl, (refl, tt))
    | inr (q, at) ↦ elim (Bool-cases (listens q)) [
      | inl wants ↦ elim (Bool-cases mhd.created) [
        | inl created ↦
            rw (set_up_server_sent_event_connection, found, at, wants, created)
              (refl, (refl, (refl, refl, λ ok. refl)))
        | inr failed ↦
            rw (set_up_server_sent_event_connection, found, at, wants, failed) (refl, (refl, tt))
      ]
      | inr deaf ↦ rw (set_up_server_sent_event_connection, found, at, deaf) (refl, (refl, tt))
    ]
  ]
]

-- A result of 404 is answered with an error.
pub or_not_found :
    (mhd : Mhd) (r r' : Reply)
    → SameReply r r'
    → SameReply
        (if r.result == 404 then send_error mhd 404 else r)
        (if r'.result == 404 then secure_send_error mhd 404 else r')
or_not_found mhd r r' (same, responses) = elim (Bool-cases (r.result == 404)) [
  | inl missing ↦
      let missing' : (r'.result == 404) ≡ true = ground arith in
      rw (missing, missing') (send_error-SameReply mhd 404 (λ ok. omega arith))
  | inr there ↦
      let there' : (r'.result == 404) ≡ false = ground arith in rw (there, there') (same, responses)
]

-- A state without a log, or a fault.
abbrev pub Quiet : Answer → Type 0
Quiet none = Unit
Quiet (some (m, con, r)) = m.hpd_log ≡ none

Quiet-if : (b : Bool) (x y : Answer) → Quiet x → Quiet y → Quiet (if b then x else y)
Quiet-if true x y p q = p
Quiet-if false x y p q = q

pub Quiet-answered :
    (m : ServerState) (con : ConCls) (r : Option Reply)
    → m.hpd_log ≡ none
    → Quiet (answered m con r)
Quiet-answered m con none no_log = tt
Quiet-answered m con (some r) no_log = no_log

pub Quiet-after_subscription :
    (m : ServerState) (n : Option (Sessions × Reply))
    → m.hpd_log ≡ none
    → Quiet (after_subscription m n)
Quiet-after_subscription m none no_log = tt
Quiet-after_subscription m (some (n, r)) no_log = no_log

pub Quiet-driven :
    (bytes : Text) (failed : Answer) (next : Text → Answer)
    → Quiet failed
    → ((b : Text) → Quiet (next b))
    → Quiet (driven bytes failed next)
unfolding driven
Quiet-driven bytes failed next fails goes =
    Quiet-if (length bytes == 0) _ _ fails (Quiet-if (ltb (length bytes) 255) _ _ (goes bytes) tt)

log_request-none :
    (o : Outside) (c : Call) (query : Option Text) (m : ServerState)
    → m.hpd_log ≡ none
    → log_request o c query m ≡ some m
unfolding log_request log
log_request-none o c query m no_log = rw no_log refl

then_log-Quiet :
    (o : Outside) (c : Call) (query : Option Text) (a : Answer) → Quiet a → then_log o c query a ≡ a
unfolding then_log
then_log-Quiet o c query none quiet = refl
then_log-Quiet o c query (some (m, con, r)) quiet =
    rw (then_log, log_request-none o c query m quiet) refl

pub Alike-with_log :
    (o : Outside) (c : Call) (query : Option Text) (act act' : ServerState → Answer)
    (m : ServerState)
    → m.hpd_log ≡ none
    → Quiet (act m)
    → Alike (act m) (act' m)
    → Alike (with_log o (http_server o) c query act m) (with_log o (https_server o) c query act' m)
unfolding with_log
Alike-with_log o c query act act' m no_log quiet alike =
    rw (log_request-none o c query m no_log, then_log-Quiet o c query (act m) quiet) alike

pub Alike-logged_again :
    (o : Outside) (c : Call) (a a' : Answer)
    → Quiet a'
    → Alike a a'
    → Alike (logged_again o (http_server o) c a) (logged_again o (https_server o) c a')
unfolding logged_again
Alike-logged_again o c a a' quiet alike = rw (then_log-Quiet o c none a' quiet) alike

pub Alike-logged_after :
    (o : Outside) (c : Call) (a a' : Answer)
    → Quiet a
    → Alike a a'
    → Alike (logged_after o (http_server o) c a) (logged_after o (https_server o) c a')
unfolding logged_after
Alike-logged_after o c a a' quiet alike = rw (then_log-Quiet o c none a quiet) alike
