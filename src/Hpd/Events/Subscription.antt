-- ===== src/Hpd/Events/Subscription.antt =====
-- The services that a queue is subscribed to.
use home_automation_bridge_z.Prelude.{
  ℕ, ◌+◌, ◌≡◌, ◌≢◌, refl, ap, true, false, ◌&&◌, Option, none, some, List, [], ◌∷◌, ◌++◌, arith,
  ◌==◌, negb, if◌then◌else◌, Text, str_eq, str_eq_refl, str_eq_iff, Bool-cases, ◌⊎◌, inl, inr, ltb,
}
use home_automation_bridge_z.Hpd.Error.{success, hpd_yes, hpd_no, service_id_not_in_event_queue}
use home_automation_bridge_z.Hpd.Events.{
  EventQueue, ServiceId, subscribed, is_queue_subscribed_to_service, add_service_id_to_queue,
  remove_service_id, remove_service_id_from_queue, set_availability, set_availability_of_service,
}

-- How often a URL is subscribed to.
pub count : Text → List ServiceId → ℕ
count url [] = 0
count url (s ∷ ss) = (if str_eq s.id url then 1 else 0) + count url ss

subscribed-count : (url : Text) (ss : List ServiceId) → subscribed url ss ≡ negb (count url ss == 0)
unfolding subscribed count
subscribed-count url [] = refl
subscribed-count url (s ∷ ss) = let rest = subscribed-count url ss in ground arith

count-append :
    (url : Text) (ss : List ServiceId) (s : ServiceId)
    → count url (ss ++ s ∷ []) ≡ count url ss + (if str_eq s.id url then 1 else 0)
unfolding count
count-append url [] s = ground arith
count-append url (t ∷ ss) s = let rest = count-append url ss s in ground arith

count-remove_service_id :
    (url other : Text) (ss : List ServiceId)
    → subscribed url ss ≡ true
    → count other ss ≡ count other (remove_service_id url ss) + (if str_eq url other then 1 else 0)
unfolding count remove_service_id subscribed
count-remove_service_id url other [] is_in = cc
count-remove_service_id url other (s ∷ ss) is_in = elim (Bool-cases (str_eq s.id url)) [
  | inl same ↦
      let eq : s.id ≡ url = ground (arith, str_eq_iff s.id url) in
      let moved = ap (λ t. str_eq t other) eq in ground arith
  | inr differs ↦ let rest = count-remove_service_id url other ss in ground arith
]

pub subscribed-append :
    (url : Text) (ss : List ServiceId) (s : ServiceId)
    → str_eq s.id url ≡ true
    → subscribed url (ss ++ s ∷ []) ≡ true
unfolding subscribed
subscribed-append url [] s same = ground arith
subscribed-append url (t ∷ ss) s same = let rest = subscribed-append url ss s same in ground arith

pub remove_service_id-append :
    (url : Text) (ss : List ServiceId) (s : ServiceId)
    → subscribed url ss ≡ false
    → str_eq s.id url ≡ true
    → remove_service_id url (ss ++ s ∷ []) ≡ ss
unfolding remove_service_id subscribed
remove_service_id-append url [] s absent same = ground arith
remove_service_id-append url (t ∷ ss) s absent same =
    let rest = remove_service_id-append url ss s in ground arith

-- Adding a service id to a queue succeeds and the queue is then subscribed to the service; for any
-- other URL the answer stays what it was.
pub add_service_id_to_queue-subscribes :
    (q : EventQueue) (s : ServiceId)
    → (q' : EventQueue) × (add_service_id_to_queue (some s) (some q) ≡ (some q', success))
      × (is_queue_subscribed_to_service (some q') (some s.id) ≡ hpd_yes)
      × ((url : Text)
          → url ≢ s.id
          → is_queue_subscribed_to_service (some q') (some url)
            ≡ is_queue_subscribed_to_service (some q) (some url))
unfolding add_service_id_to_queue is_queue_subscribed_to_service
add_service_id_to_queue-subscribes q s =
    let q' : EventQueue = record q { service_ids = q.service_ids ++ s ∷ [] } in
    let self = str_eq_refl s.id in
    let counted = count-append s.id q.service_ids s in
    let now = subscribed-count s.id (q.service_ids ++ s ∷ []) in
    (
      q',
      refl,
      ground arith,
      λ url ne.
          let c = count-append url q.service_ids s in
          let before = subscribed-count url q.service_ids in
          let after = subscribed-count url (q.service_ids ++ s ∷ []) in
          let iff = str_eq_iff s.id url in ground arith,
    )

-- Removing a URL succeeds exactly if the queue is subscribed to it. One subscription to it is gone
-- then and those to other URLs stay; a URL that was added twice is still subscribed to.
pub remove_service_id_from_queue-removes :
    (q : EventQueue) (url : Text)
    → (q' : EventQueue) × (remove_service_id_from_queue (some url) (some q) ≡ (
      some q',
      if subscribed url q.service_ids then success else service_id_not_in_event_queue,
    ))
      × ((other : Text)
          → count other q.service_ids
            ≡ count other q'.service_ids
              + (if str_eq url other && subscribed url q.service_ids then 1 else 0))
      × (is_queue_subscribed_to_service (some q') (some url)
          ≡ (if ltb 1 (count url q.service_ids) then hpd_yes else hpd_no))
unfolding remove_service_id_from_queue is_queue_subscribed_to_service
remove_service_id_from_queue-removes q url =
    let self = str_eq_refl url in
    let before = subscribed-count url q.service_ids in
    elim (Bool-cases (subscribed url q.service_ids)) [
      | inl is_in ↦
          let left = remove_service_id url q.service_ids in
          let after = subscribed-count url left in
          let counted = count-remove_service_id url url q.service_ids is_in in
          (
            record q { service_ids = left },
            rw (is_in) refl,
            λ other. let c = count-remove_service_id url other q.service_ids is_in in ground arith,
            ground arith,
          )
      | inr absent ↦ (q, rw (absent) refl, λ other. ground arith, ground arith)
    ]

-- A service id that is added to a queue that is not subscribed to it and is removed again leaves the
-- queue as it was.
pub remove_service_id_from_queue-add_service_id_to_queue :
    (q : EventQueue) (s : ServiceId)
    → is_queue_subscribed_to_service (some q) (some s.id) ≡ hpd_no
    → remove_service_id_from_queue (some s.id) (add_service_id_to_queue (some s) (some q)).0
      ≡ (some q, success)
unfolding add_service_id_to_queue remove_service_id_from_queue is_queue_subscribed_to_service
remove_service_id_from_queue-add_service_id_to_queue q s is_no =
    let absent : subscribed s.id q.service_ids ≡ false = ground arith in
    let self = str_eq_refl s.id in
    let counted = count-append s.id q.service_ids s in
    let is_in : subscribed s.id (q.service_ids ++ s ∷ []) ≡ true =
      ground (arith, subscribed-count s.id (q.service_ids ++ s ∷ [])) in
    rw (is_in, remove_service_id-append s.id q.service_ids s absent self) refl

-- The availability of the first subscription to a URL.
pub availability : Text → List ServiceId → Option ℕ
availability url [] = none
availability url (s ∷ ss) = if str_eq s.id url then some s.available else availability url ss

set_availability-same :
    (url : Text) (a : ℕ) (ss : List ServiceId)
    → subscribed url ss ≡ true
    → availability url (set_availability url a ss) ≡ some a
unfolding availability set_availability subscribed
set_availability-same url a [] is_in = cc
set_availability-same url a (s ∷ ss) is_in =
    let rest = set_availability-same url a ss in ground arith

availability-none :
    (url : Text) (ss : List ServiceId) → subscribed url ss ≡ false → availability url ss ≡ none
unfolding availability subscribed
availability-none url [] absent = refl
availability-none url (s ∷ ss) absent = let rest = availability-none url ss in ground arith

set_availability-other :
    (url other : Text) (a : ℕ) (ss : List ServiceId)
    → other ≢ url
    → availability other (set_availability url a ss) ≡ availability other ss
unfolding availability set_availability
set_availability-other url other a [] ne = refl
set_availability-other url other a (s ∷ ss) ne =
    let rest = set_availability-other url other a ss ne in
    let iff = str_eq_iff s.id url in let iff' = str_eq_iff s.id other in ground arith

-- Given a HPD boolean (1 or 2), the result says whether the queue is subscribed to the URL. The
-- first subscription to the URL, if there is one, then has the availability, and that of every other
-- URL stays.
pub set_availability_of_service-sets :
    (q : EventQueue) (url : Text) (a : ℕ)
    → (a ≡ 1) ⊎ (a ≡ 2)
    → (q' : EventQueue) × (set_availability_of_service (some url) (some q) a
        ≡ (some q', is_queue_subscribed_to_service (some q) (some url)))
      × (availability url q'.service_ids ≡ (if subscribed url q.service_ids then some a else none))
      × ((other : Text)
          → other ≢ url
          → availability other q'.service_ids ≡ availability other q.service_ids)
unfolding set_availability_of_service is_queue_subscribed_to_service
set_availability_of_service-sets q url a boolean =
    let in_range : negb (a == 1) && negb (a == 2) ≡ false = ground arith in
    elim (Bool-cases (subscribed url q.service_ids)) [
      | inl is_in ↦ (
        record q { service_ids = set_availability url a q.service_ids },
        rw (in_range, is_in) refl,
        rw is_in (set_availability-same url a q.service_ids is_in),
        λ other. set_availability-other url other a q.service_ids,
      )
      | inr absent ↦ (
        q,
        rw (in_range, absent) refl,
        rw absent (availability-none url q.service_ids absent),
        λ other ne. refl,
      )
    ]
