-- ===== src/Hpd/ServerSentEvents/Subscribe/Toggle.antt =====
-- What a request to subscribe does to the session's queue and how it is answered.
use home_automation_bridge_z.Prelude.{
  ℕ, ◌+◌, ◌≡◌, ◌∙◌, refl, ap, true, false, Option, none, some, [], ◌∷◌, ◌++◌, Text, codes, inl, inr,
  ◌⊎◌, length, get_elem?, set-set, set-get_elem?, set-append, get_elem?-append, get_elem?-set_self,
  get_elem?-some_lt, str_eq_refl, ap₂,
}
use home_automation_bridge_z.Hpd.Error.{value}
use home_automation_bridge_z.Hpd.Events.{
  EventQueue, ServiceId, null, subscribed, create_event_queue, create_service_id,
  is_queue_subscribed_to_service, add_service_id_to_queue, remove_service_id_from_queue,
  remove_service_id,
}
use home_automation_bridge_z.Hpd.Events.Subscription.{subscribed-append, remove_service_id-append}
use home_automation_bridge_z.Hpd.ServerSentEvents.{Sessions}
use home_automation_bridge_z.Hpd.ServerSentEvents.Stream.{
  Mhd, Reply, whole, session_cookie, send_cookied_xml, get_queue, session_place, connection_place,
  server_sent_events_callback, get_event_queue_with_connection_id, put_queue,
}
use home_automation_bridge_z.Hpd.ServerSentEvents.Stream.Lookup.{
  get_queue-put_queue, session_place-append, connection_place-null,
}
use home_automation_bridge_z.Hpd.ServerSentEvents.Subscribe.{
  Toggled, toggle_service, toggle_log, answer_toggled, subscribe, subscribe_at, queue_of_session,
  subscribe_to_service,
}

module _ (xml_subscription : Text → Text → Option Text) where
  toggle_service-absent :
      (url : Text) (q : EventQueue)
      → subscribed url q.service_ids ≡ false
      → toggle_service xml_subscription url q ≡ (
        record q { service_ids = q.service_ids ++ record { id = url; available = 1 } ∷ [] },
        xml_subscription (codes "yes") url,
      )
  unfolding toggle_service is_queue_subscribed_to_service add_service_id_to_queue create_service_id
      value
  toggle_service-absent url q absent = rw (toggle_service, absent) refl

  toggle_service-present :
      (url xml : Text) (q : EventQueue)
      → subscribed url q.service_ids ≡ true
      → xml_subscription (codes "no") url ≡ some xml
      → toggle_service xml_subscription url q
        ≡ (record q { service_ids = remove_service_id url q.service_ids }, some xml)
  unfolding toggle_service is_queue_subscribed_to_service remove_service_id_from_queue value
  toggle_service-present url xml q is_in made = rw (toggle_service, is_in, made, is_in) refl

  subscribe_at-toggled :
      (toggle : EventQueue → Toggled) (mhd : Mhd) (is_secure : ℕ) (s : Sessions) (i : ℕ)
      (q : EventQueue) (t : Toggled)
      → get_elem? s.queues i ≡ some q
      → toggle q ≡ t
      → subscribe_at xml_subscription toggle mhd is_secure (s, i)
        ≡ some (put_queue i t.0 s, answer_toggled xml_subscription mhd is_secure t)
  unfolding subscribe_at
  subscribe_at-toggled toggle mhd is_secure s i q t at toggled = rw (subscribe_at, at, toggled) refl

  -- A request is answered for the changed queue.
  subscribe-toggled :
      (toggle : EventQueue → Toggled) (mhd : Mhd) (cookie : Option Text) (session : Text)
      (is_secure : ℕ) (s s' : Sessions) (i : ℕ) (q : EventQueue) (t : Toggled)
      → queue_of_session cookie session s ≡ (s', i)
      → get_elem? s'.queues i ≡ some q
      → toggle q ≡ t
      → subscribe xml_subscription toggle mhd cookie session is_secure s
        ≡ some (put_queue i t.0 s', answer_toggled xml_subscription mhd is_secure t)
  unfolding subscribe
  subscribe-toggled toggle mhd cookie session is_secure s s' i q t found at toggled =
      ap (subscribe_at xml_subscription toggle mhd is_secure) found
      ∙ subscribe_at-toggled toggle mhd is_secure s' i q t at toggled

  queue_of_session-found :
      (cookie : Option Text) (session : Text) (s : Sessions) (i : ℕ)
      → get_queue cookie s ≡ some i
      → queue_of_session cookie session s ≡ (s, i)
  unfolding queue_of_session
  queue_of_session-found cookie session s i found = rw (queue_of_session, found) refl

  -- What a client is answered with: the XML, with status 200 and the cookie of its session.
  abbrev pub xml_reply : Text → EventQueue → (is_secure : ℕ) → Reply
  xml_reply xml q is_secure = record {
    response = some (record {
      status = 200;
      content_type = some (codes "text/xml");
      cookie = some (session_cookie q is_secure);
      body = whole xml;
    });
    result = 1;
  }

  answer_toggled-xml :
      (mhd : Mhd) (is_secure : ℕ) (q : EventQueue) (xml : Text)
      → mhd.created ≡ true
      → answer_toggled xml_subscription mhd is_secure (q, some xml) ≡ xml_reply xml q is_secure
  unfolding answer_toggled send_cookied_xml
  answer_toggled-xml mhd is_secure q xml created = rw created refl

  -- A session that has a queue and is not subscribed to a service asks twice for the service, and all
  -- XML and responses can be made: the first request is answered with the XML of "yes" and the
  -- queue is then subscribed, the second is answered with that of "no", and all sessions are then as
  -- they were before.
  pub subscribe_to_service-subscribe_to_service :
      (mhd : Mhd) (cookie : Option Text) (session url yes_xml no_xml : Text) (is_secure : ℕ)
      (s : Sessions) (i : ℕ) (q : EventQueue)
      → get_queue cookie s ≡ some i
      → get_elem? s.queues i ≡ some q
      → subscribed url q.service_ids ≡ false
      → mhd.created ≡ true
      → xml_subscription (codes "yes") url ≡ some yes_xml
      → xml_subscription (codes "no") url ≡ some no_xml
      → (s' : Sessions) × (q' : EventQueue) × (subscribe_to_service xml_subscription mhd cookie
            session url is_secure s
          ≡ some (s', xml_reply yes_xml q' is_secure))
        × (get_elem? s'.queues i ≡ some q')
        × (subscribed url q'.service_ids ≡ true)
        × (subscribe_to_service xml_subscription mhd cookie session url is_secure s'
            ≡ some (s, xml_reply no_xml q is_secure))
  unfolding subscribe_to_service
  subscribe_to_service-subscribe_to_service mhd cookie session url yes_xml no_xml is_secure s i q
        found at absent created makes_yes makes_no =
      let new : ServiceId = record { id = url; available = 1 } in
      let q' : EventQueue = record q { service_ids = q.service_ids ++ new ∷ [] } in
      let s' = put_queue i q' s in
      let at' = get_elem?-set_self s.queues i q' (get_elem?-some_lt s.queues i q at) in
      let now = subscribed-append url q.service_ids new (str_eq_refl url) in
      let back = remove_service_id-append url q.service_ids new absent (str_eq_refl url) in
      let found' = get_queue-put_queue cookie i q q' s at refl ∙ found in
      let first =
        subscribe-toggled (toggle_service xml_subscription url) mhd cookie session is_secure s s i q
          (q', some yes_xml) (queue_of_session-found cookie session s i found) at
          (toggle_service-absent url q absent ∙ ap (λ o. (q', o)) makes_yes) in
      let second =
        subscribe-toggled (toggle_service xml_subscription url) mhd cookie session is_secure s' s' i
          q' (q, some no_xml) (queue_of_session-found cookie session s' i found') at'
          (toggle_service-present url no_xml q' now makes_no
            ∙ ap (λ ss. (record q { service_ids = ss }, some no_xml)) back) in
      (
        s',
        q',
        first ∙ ap (λ r. some (s', r)) (answer_toggled-xml mhd is_secure q' yes_xml created),
        at',
        now,
        second
            ∙ ap₂ (λ qs r. some (record s { queues = qs }, r))
                (set-set s.queues i q' q ∙ set-get_elem? s.queues i q at)
                (answer_toggled-xml mhd is_secure q no_xml created),
      )

  -- A client without a session asks for a service, the generated session id is of no other queue, and
  -- the XML and the response can be made: a queue that is subscribed to the service is appended, it is
  -- found by the session id from then on, and the answer is the XML of "yes" with its cookie.
  pub subscribe_to_service_new :
      (mhd : Mhd) (cookie : Option Text) (session url yes_xml : Text) (is_secure : ℕ) (s : Sessions)
      → get_queue cookie s ≡ none
      → session_place session s.queues ≡ none
      → mhd.created ≡ true
      → xml_subscription (codes "yes") url ≡ some yes_xml
      → (s' : Sessions) × (q : EventQueue) × (subscribe_to_service xml_subscription mhd cookie
            session url is_secure s
          ≡ some (s', xml_reply yes_xml q is_secure))
        × (s'.queues ≡ s.queues ++ q ∷ [])
        × (q.session_id ≡ session)
        × (subscribed url q.service_ids ≡ true)
        × (q.connection_id ≡ null)
        × (get_queue (some session) s' ≡ some (length s.queues))
  unfolding subscribe_to_service queue_of_session create_event_queue get_queue subscribed
  subscribe_to_service_new mhd cookie session url yes_xml is_secure s nowhere fresh created
        makes_yes =
      let new : ServiceId = record { id = url; available = 1 } in
      let made = create_event_queue session in
      let q : EventQueue = record made { service_ids = new ∷ [] } in
      let s' : Sessions = record s { queues = s.queues ++ q ∷ [] } in
      let first =
        subscribe-toggled (toggle_service xml_subscription url) mhd cookie session is_secure s
          (record s { queues = s.queues ++ made ∷ [] }) (length s.queues) made (q, some yes_xml)
          (rw (queue_of_session, nowhere) refl) (get_elem?-append s.queues made)
          (toggle_service-absent url made refl ∙ ap (λ o. (q, o)) makes_yes) in
      (
        s',
        q,
        first
            ∙ ap₂ (λ qs r. some (record s { queues = qs }, r)) (set-append s.queues made q)
                (answer_toggled-xml mhd is_secure q yes_xml created),
        refl,
        refl,
        subscribed-append url [] new (str_eq_refl url),
        refl,
        session_place-append session q s.queues fresh refl,
      )

  -- After a client without a session was subscribed, and until it opens a connection, a stream
  -- whose connection id is that of no queue, because another connection has replaced it, faults in
  -- its callback: the lookup goes on to the new queue, which has no connection id.
  pub new_session_breaks_streams :
      (mhd : Mhd) (cookie : Option Text) (session url yes_xml id : Text) (is_secure : ℕ)
      (s : Sessions) (others : EventQueue → EventQueue) (max : ℕ)
      → get_queue cookie s ≡ none
      → session_place session s.queues ≡ none
      → mhd.created ≡ true
      → xml_subscription (codes "yes") url ≡ some yes_xml
      → get_event_queue_with_connection_id (some id) s ≡ some none
      → (s' : Sessions) × (r : Reply) × (subscribe_to_service xml_subscription mhd cookie session
            url is_secure s
          ≡ some (s', r))
        × (server_sent_events_callback others max (some id) s' ≡ none)
  unfolding server_sent_events_callback get_event_queue_with_connection_id
  new_session_breaks_streams mhd cookie session url yes_xml id is_secure s others max nowhere fresh
        created makes_yes unknown =
      let (s', q, done, appended, of_session, is_in, is_null, found) =
        subscribe_to_service_new mhd cookie session url yes_xml is_secure s nowhere fresh created
          makes_yes in
      let faults : connection_place id s'.queues ≡ none =
        ap (connection_place id) appended ∙ connection_place-null id q s.queues is_null unknown in
      (
        s',
        xml_reply yes_xml q is_secure,
        done,
        rw (server_sent_events_callback, get_event_queue_with_connection_id, faults) refl,
      )

  -- A queue whose flag is a HPD boolean is asked twice for the log: it takes log events after exactly
  -- one of the two requests, and it is then as it was.
  pub toggle_log-toggle_log :
      (q : EventQueue)
      → (q.send_log_events ≡ 1) ⊎ (q.send_log_events ≡ 2)
      → ((toggle_log xml_subscription q).0.send_log_events + q.send_log_events ≡ 3)
        × ((toggle_log xml_subscription (toggle_log xml_subscription q).0).0 ≡ q)
  unfolding toggle_log
  toggle_log-toggle_log q (inl is_on) = (rw is_on refl, rw is_on refl)
  toggle_log-toggle_log q (inr is_off) = (rw is_off refl, rw is_off refl)
