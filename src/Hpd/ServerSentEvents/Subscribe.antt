-- ===== src/Hpd/ServerSentEvents/Subscribe.antt =====
-- hpbridge/hpdaemon/hpd_server_sent_events.c: the requests that subscribe a session to a service or
-- to the log, or end the subscription.
pub mod Toggle
use home_automation_bridge_z.Prelude.{
  ℕ, ◌+◌, Option, none, some, [], ◌∷◌, ◌++◌, ◌==◌, if◌then◌else◌, Text, codes, length, get_elem?,
}
use home_automation_bridge_z.Hpd.Error.{hpd_no, int_eq, value}
use home_automation_bridge_z.Hpd.Events.{
  EventQueue, create_event_queue, create_service_id, is_queue_subscribed_to_service,
  add_service_id_to_queue, remove_service_id_from_queue,
}
use home_automation_bridge_z.Hpd.ServerSentEvents.{Sessions}
use home_automation_bridge_z.Hpd.ServerSentEvents.Stream.{
  Mhd, Reply, no_reply, send_cookied_xml, get_queue, put_queue,
}

-- The queue of the session, which is made and appended if there is none.
unfoldable pub queue_of_session :
    (cookie : Option Text) → (session : Text) → Sessions → Sessions × ℕ
queue_of_session cookie session s = elim (get_queue cookie s) [
  | some i ↦ (s, i)
  | none ↦ (record s { queues = s.queues ++ create_event_queue session ∷ [] }, length s.queues)
]

-- A queue of the list after a subscription: the queue, and the XML or `none`.
abbrev pub Toggled : Type 0
Toggled = EventQueue × Option Text

-- `xml_subscription value url` is the document that `get_xml_subscription` makes, `none` for NULL.
module _ (xml_subscription : Text → Text → Option Text) where
  -- `pthread_mutex_unlock` of the queue's mutex, which this function did not lock, is passed over.
  unfoldable pub toggle_service : (url : Text) → EventQueue → Toggled
  unfolding value
  toggle_service url q =
      if int_eq (value (is_queue_subscribed_to_service (some q) (some url))) (value hpd_no)
      then (
        elim (add_service_id_to_queue (create_service_id (some url)) (some q)).0 [
          | none ↦ q
          | some q' ↦ q'
        ],
        xml_subscription (codes "yes") url,
      )
      else elim (xml_subscription (codes "no") url) [
        | none ↦ (q, none)
        | some xml ↦ (
          elim (remove_service_id_from_queue (some url) (some q)).0 [ none ↦ q | some q' ↦ q' ],
          some xml,
        )
      ]

  unfoldable pub toggle_log : EventQueue → Toggled
  toggle_log q =
      if q.send_log_events == 1
      then (record q { send_log_events = 2 }, xml_subscription (codes "no") (codes "log"))
      else (record q { send_log_events = 1 }, xml_subscription (codes "yes") (codes "log"))

  -- The common end: MHD_NO without XML, and otherwise MHD_YES, whatever became of the response.
  unfoldable pub answer_toggled : Mhd → (is_secure : ℕ) → Toggled → Reply
  answer_toggled mhd is_secure (q, none) = no_reply 0
  answer_toggled mhd is_secure (q, some xml) = record (send_cookied_xml mhd xml q is_secure) {
    result = 1;
  }

  unfoldable pub subscribe_at :
      (EventQueue → Toggled) → Mhd → (is_secure : ℕ) → Sessions × ℕ → Option (Sessions × Reply)
  subscribe_at toggle mhd is_secure (s, i) = elim (get_elem? s.queues i) [
    | none ↦ none
    | some q ↦ some (put_queue i (toggle q).0 s, answer_toggled mhd is_secure (toggle q))
  ]

  unfoldable pub subscribe :
      (EventQueue → Toggled)
      → Mhd
      → (cookie : Option Text) → (session : Text) → (is_secure : ℕ) → Sessions
      → Option (Sessions × Reply)
  subscribe toggle mhd cookie session is_secure s =
      subscribe_at toggle mhd is_secure (queue_of_session cookie session s)

  unfoldable pub subscribe_to_service :
      Mhd
      → (cookie : Option Text) → (session url : Text) → (is_secure : ℕ) → Sessions
      → Option (Sessions × Reply)
  subscribe_to_service mhd cookie session url is_secure s =
      subscribe (toggle_service url) mhd cookie session is_secure s

  unfoldable pub subscribe_to_log_events :
      Mhd
      → (cookie : Option Text) → (session : Text) → (is_secure : ℕ) → Sessions
      → Option (Sessions × Reply)
  subscribe_to_log_events mhd cookie session is_secure s =
      subscribe toggle_log mhd cookie session is_secure s
