-- ===== src/Hpd/WebServer/Answer/Secure.antt =====
-- The HTTP and the HTTPS server answer alike.
use home_automation_bridge_z.Prelude.{
  ℕ, ◌≡◌, ◌≢◌, refl, ap, true, Option, none, some, arith, Text, codes, str_eq, str_eq_iff,
  Option-cases, inl, inr,
}
use home_automation_bridge_z.Hpd.Error.{hpd_yes, value}
use home_automation_bridge_z.Hpd.Services.{Device, Service, deref, matching_service}
use home_automation_bridge_z.Hpd.Xml.{DeviceList, service_is_in_xml_file}
use home_automation_bridge_z.Hpd.Xml.Document.{
  Node, get_xml_value, get_xml_subscription, extract_service_xml, service_document,
}
use home_automation_bridge_z.Hpd.ServerSentEvents.Stream.{Reply, no_reply}
use home_automation_bridge_z.Hpd.ServerSentEvents.Subscribe.{
  toggle_log, toggle_service, subscribe, queue_of_session, subscribe_to_service,
  subscribe_to_log_events,
}
use home_automation_bridge_z.Hpd.WebServer.RequestLog.{logged_again}
use home_automation_bridge_z.Hpd.WebServer.Answer.{
  answered, answer_value, answer_description, answer_events, answer_service, answer_get,
  answer_to_connection, secure_answer_to_connection, secure_answer_on, is_one,
}
use home_automation_bridge_z.Hpd.WebServer.Answer.Alike.{
  SameReply-refl, Alike, Alike-refl, Alike-if, Alike-send_xml, send_error-SameReply, Alike-driven,
  Alike-subscribe_at, set_up-alike, or_not_found, Quiet, Quiet-answered, Quiet-after_subscription,
  Quiet-driven, Alike-with_log, Alike-logged_again, Alike-logged_after,
}
use home_automation_bridge_z.Hpd.WebServer.Reply.{
  nothing, first_call, Call, Outside, ServerState, Answer, http_server, https_server, send_xml,
  secure_send_xml, send_error, secure_send_error,
}

-- What a handler makes of a description.
abbrev described : ServerState → (Option Text → Option Reply) → Option (Option Text) → Answer
described m send r = elim r [ none ↦ none | some xml ↦ answered m nothing (send xml) ]

-- Mini-XML can write every document.
abbrev pub Writes : Outside → Type 0
Writes o = ((n : Node) → o.mxml_save n ≢ none) × ((l : DeviceList) → o.save_list l ≢ none)

module _ (o : Outside) (writes : Writes o) where
  Alike-answer_value :
      (c : Call) (s : Service) (m : ServerState)
      → m.hpd_log ≡ none
      → Alike (answer_value o (http_server o) c s m) (answer_value o (https_server o) c s m)
        × Quiet (answer_value o (http_server o) c s m)
  unfolding answer_value get_xml_value Alike logged_again
  Alike-answer_value c s m no_log = (
    Alike-driven (o.drive_get s.get_function s) _ _ _ _
        (Alike-logged_again o c (some (m, nothing, send_error o.mhd 500))
          (some (m, nothing, secure_send_error o.mhd 500)) no_log
          (refl, refl, send_error-SameReply o.mhd 500 (λ ok. omega arith)))
        (λ b. Alike-send_xml o.mhd m nothing (get_xml_value o.mxml_save o.now b) (writes.0 _)),
    Quiet-driven (o.drive_get s.get_function s) _ _ no_log (λ b. Quiet-answered m nothing _ no_log),
  )

  Alike-extract :
      (m : ServerState) (s : Service) (d : Device)
      → service_is_in_xml_file s d m.xml ≡ some hpd_yes
      → Alike
          (described m (send_xml o.mhd) (extract_service_xml o.mxml_save s d m.xml))
          (described m (secure_send_xml o.mhd) (extract_service_xml o.mxml_save s d m.xml))
  unfolding extract_service_xml value
  Alike-extract m s d is_in =
      let given : extract_service_xml o.mxml_save s d m.xml
          ≡ some (o.mxml_save (service_document s d)) =
        rw (extract_service_xml, is_in) refl in
      rw given (Alike-send_xml o.mhd m nothing (o.mxml_save (service_document s d)) (writes.0 _))

  Alike-answer_description :
      (s : Service) (m : ServerState)
      → m.hpd_log ≡ none
      → ((d : Device)
          → deref (m.heap.devices s.device) ≡ some d
          → service_is_in_xml_file s d m.xml ≡ some hpd_yes)
      → Alike (answer_description o (http_server o) s m) (answer_description o (https_server o) s m)
        × Quiet (answer_description o (http_server o) s m)
  unfolding answer_description Alike
  Alike-answer_description s m no_log is_in =
      elim (Option-cases (deref (m.heap.devices s.device))) [
        | inl no_device ↦ rw (answer_description, no_device) (tt, tt)
        | inr (d, has_device) ↦
            let alike = Alike-extract m s d (is_in d has_device) in
            elim (Option-cases (extract_service_xml o.mxml_save s d m.xml)) [
              | inl faults ↦ rw (answer_description, has_device, faults) (tt, tt)
              | inr (xml, given) ↦
                  rw (answer_description, has_device)
                    (alike, rw given (Quiet-answered m nothing (send_xml o.mhd xml) no_log))
            ]
      ]

  Alike-answer_service :
      (c : Call) (a : ℕ) (m : ServerState)
      → m.hpd_log ≡ none
      → ((s : Service) (d : Device)
          → deref (m.heap.services a) ≡ some s
          → deref (m.heap.devices s.device) ≡ some d
          → service_is_in_xml_file s d m.xml ≡ some hpd_yes)
      → Alike (answer_service o (http_server o) c a m) (answer_service o (https_server o) c a m)
  unfolding answer_service subscribe_to_service subscribe
  Alike-answer_service c a m no_log is_in = elim (Option-cases (deref (m.heap.services a))) [
    | inl gone ↦ rw (answer_service, gone) (Alike-refl none)
    | inr (s, there) ↦
        let (describes, describes_quietly) =
          Alike-answer_description s m no_log (λ d. is_in s d there) in
        let (values, values_quietly) = Alike-answer_value c s m no_log in
        rw (answer_service, there)
          (Alike-if (is_one c.x) _ _ _ _
            (Alike-with_log o c _ _ _ m no_log describes_quietly describes)
            (Alike-if (is_one c.p) _ _ _ _
              (Alike-with_log o c _ _ _ m no_log (Quiet-after_subscription m _ no_log) (
                Alike-subscribe_at (get_xml_subscription o.mxml_save o.now)
                  (toggle_service (get_xml_subscription o.mxml_save o.now) s.value_url) o.mhd 3 2 m
                  (queue_of_session c.cookie o.session m.sessions)))
              (Alike-with_log o c _ _ _ m no_log values_quietly values)))
  ]

  Alike-answer_events :
      (c : Call) (m : ServerState)
      → Alike (answer_events o (http_server o) c m) (answer_events o (https_server o) c m)
  unfolding answer_events Alike
  Alike-answer_events c m =
      let (same, replies) = set_up-alike o.mhd c.cookie o.connection_id 3 2 m.sessions in
      (ap (λ n. record m { sessions = n }) same, refl, or_not_found o.mhd _ _ replies)

  Alike-answer_get :
      (c : Call) (m : ServerState)
      → m.hpd_log ≡ none
      → ((a : ℕ) (s : Service) (d : Device)
          → matching_service m.heap m.services c.url ≡ some (some a)
          → deref (m.heap.services a) ≡ some s
          → deref (m.heap.devices s.device) ≡ some d
          → service_is_in_xml_file s d m.xml ≡ some hpd_yes)
      → Alike (answer_get o (http_server o) c m) (answer_get o (https_server o) c m)
  unfolding answer_get answer_events subscribe_to_log_events subscribe Alike
  Alike-answer_get c m no_log is_in =
      Alike-if (str_eq c.url (codes "/log")) _ _ _ _
        (Alike-with_log o c _ _ _ m no_log (Quiet-after_subscription m _ no_log) (
          Alike-subscribe_at (get_xml_subscription o.mxml_save o.now)
            (toggle_log (get_xml_subscription o.mxml_save o.now)) o.mhd 3 2 m
            (queue_of_session c.cookie o.session m.sessions)))
        (Alike-if (str_eq c.url (codes "/events")) _ _ _ _
          (Alike-with_log o c _ (answer_events o (http_server o) c) _ m no_log no_log
            (Alike-answer_events c m))
          (Alike-if (str_eq c.url (codes "/devices")) _ _ _ _
            (Alike-with_log o c _ _ _ m no_log (Quiet-answered m nothing _ no_log)
              (Alike-send_xml o.mhd m nothing (o.save_list m.xml.tree) (writes.1 _)))
            (elim (Option-cases (matching_service m.heap m.services c.url)) [
              | inl faults ↦ rw faults tt
              | inr (none, nowhere) ↦ rw nowhere (
                  Alike-logged_after o c (some (m, nothing, send_error o.mhd 404))
                    (some (m, nothing, secure_send_error o.mhd 404)) no_log
                    (refl, refl, send_error-SameReply o.mhd 404 (λ ok. omega arith)))
              | inr (some a, found) ↦
                  rw found (Alike-answer_service c a m no_log (λ s d. is_in a s d found))
            ])))

  -- Mini-XML can write every document, the daemon has no log, and the service that is found by the
  -- URL, if there is one, is in the XML file. Then a GET request's two calls do over HTTP and over
  -- HTTPS, from a client whose certificate is trusted, the same: both servers fault or both leave the
  -- same state of the daemon, the same `*con_cls` and result, and answer with the same status and
  -- content type and, if the status is 200, the same body. The answers differ at most in the cookie and
  -- in the text of an error.
  pub secure_answer_to_connection-Alike :
      (c : Call) (m : ServerState)
      → c.method ≡ codes "GET"
      → m.hpd_log ≡ none
      → ((a : ℕ) (s : Service) (d : Device)
          → matching_service m.heap m.services c.url ≡ some (some a)
          → deref (m.heap.services a) ≡ some s
          → deref (m.heap.devices s.device) ≡ some d
          → service_is_in_xml_file s d m.xml ≡ some hpd_yes)
      → Alike (answer_to_connection o c nothing m) (secure_answer_to_connection o true c nothing m)
        × Alike
            (answer_to_connection o c first_call m)
            (secure_answer_to_connection o true c first_call m)
  unfolding answer_to_connection secure_answer_to_connection secure_answer_on Alike
  secure_answer_to_connection-Alike c m is_get no_log is_in =
      let get : str_eq c.method (codes "GET") ≡ true =
        (str_eq_iff c.method (codes "GET")).1 is_get in
      (
        rw (answer_to_connection, get) (refl, refl, SameReply-refl (no_reply 1)),
        rw (answer_to_connection, get) (Alike-answer_get c m no_log is_in),
      )
