-- ===== src/Hpd/ServerSentEvents/Stream/Lookup.antt =====
-- Queues that are found by the id of their connection or session.
use home_automation_bridge_z.Prelude.{
  ℕ, zero, suc, ◌≡◌, ◌≢◌, refl, false, Option, none, some, List, [], ◌∷◌, ◌++◌, arith, Text, str_eq,
  str_eq_iff, str_eq_refl, Bool-cases, Option-cases, inl, inr, length, set, get_elem?,
}
use home_automation_bridge_z.Hpd.Events.{EventQueue, CharPtr, chars}
use home_automation_bridge_z.Hpd.ServerSentEvents.{Sessions}
use home_automation_bridge_z.Hpd.ServerSentEvents.Stream.{
  check_place, connection_place, session_place, get_queue, put_queue,
}

-- The queues before a place have connections, whose ids are not the given one.
abbrev pub FreshBefore : Text → ℕ → List EventQueue → Type 0
FreshBefore id zero qs = Unit
FreshBefore id (suc i) [] = Unit
FreshBefore id (suc i) (q ∷ qs) =
    ((t : Text) × (q.connection_id ≡ chars t) × (t ≢ id)) × FreshBefore id i qs

pub connection_place-FreshBefore :
    (id : Text) (i : ℕ) (q : EventQueue) (qs : List EventQueue)
    → get_elem? qs i ≡ some q
    → q.connection_id ≡ chars id
    → FreshBefore id i qs
    → connection_place id qs ≡ some (some i)
unfolding connection_place check_place
connection_place-FreshBefore id i q [] at has fresh = cc
connection_place-FreshBefore id zero q (p ∷ qs) at has fresh =
    let same : p.connection_id ≡ chars id = cc in
    let self = str_eq_refl id in rw (connection_place, same, self) refl
connection_place-FreshBefore id (suc i) q (p ∷ qs) at has ((t, conn, differs), fresh) =
    let rest = connection_place-FreshBefore id i q qs at has fresh in
    let off : str_eq t id ≡ false = elim (Bool-cases (str_eq t id)) [
      | inl e ↦ absurd (differs ((str_eq_iff t id).0 e))
      | inr ne ↦ ne
    ] in
    rw (connection_place, conn, off, rest) refl

check_place-none :
    (c : CharPtr) (id : Text) (rest : Option (Option ℕ))
    → check_place c id rest ≡ some none
    → (rest ≡ some none) × (check_place c id none ≡ none)
unfolding check_place
check_place-none CharPtr.null id rest e = cc
check_place-none CharPtr.indeterminate id rest e = cc
check_place-none (chars t) id none e = ground arith
check_place-none (chars t) id (some none) e = ground arith
check_place-none (chars t) id (some (some i)) e = ground arith

-- A queue that has had no connection yet stands behind those that were looked through: the lookup of
-- a connection id that none of them has goes to `strcmp` with NULL, which faults.
pub connection_place-null :
    (id : Text) (q : EventQueue) (qs : List EventQueue)
    → q.connection_id ≡ CharPtr.null
    → connection_place id qs ≡ some none
    → connection_place id (qs ++ q ∷ []) ≡ none
unfolding connection_place check_place
connection_place-null id q [] is_null nowhere = rw (connection_place, is_null) refl
connection_place-null id q (p ∷ qs) is_null nowhere =
    let (later, faults) = check_place-none p.connection_id id (connection_place id qs) nowhere in
    rw (connection_place, connection_place-null id q qs is_null later) faults

pub session_place-append :
    (id : Text) (q : EventQueue) (qs : List EventQueue)
    → session_place id qs ≡ none
    → q.session_id ≡ id
    → session_place id (qs ++ q ∷ []) ≡ some (length qs)
unfolding session_place
session_place-append id q [] nowhere same =
    let self = str_eq_refl id in rw (session_place, same, self) refl
session_place-append id q (p ∷ qs) nowhere same = elim (Bool-cases (str_eq id p.session_id)) [
  | inl here ↦ absurd (ground arith)
  | inr off ↦ elim (Option-cases (session_place id qs)) [
    | inl later ↦ rw (session_place, off, session_place-append id q qs later same) refl
    | inr (i, found) ↦ absurd (ground arith)
  ]
]

-- A write to a queue that keeps its session id does not change where sessions are found.
pub session_place-set :
    (id : Text) (i : ℕ) (q p : EventQueue) (qs : List EventQueue)
    → get_elem? qs i ≡ some q
    → p.session_id ≡ q.session_id
    → session_place id (set qs i p) ≡ session_place id qs
unfolding session_place
session_place-set id i q p [] at same = refl
session_place-set id zero q p (r ∷ qs) at same =
    let eq : p.session_id ≡ r.session_id = cc in rw (session_place, eq) refl
session_place-set id (suc i) q p (r ∷ qs) at same =
    rw (session_place, session_place-set id i q p qs at same) refl

pub get_queue-put_queue :
    (cookie : Option Text) (i : ℕ) (q p : EventQueue) (s : Sessions)
    → get_elem? s.queues i ≡ some q
    → p.session_id ≡ q.session_id
    → get_queue cookie (put_queue i p s) ≡ get_queue cookie s
unfolding get_queue
get_queue-put_queue none i q p s at same = refl
get_queue-put_queue (some id) i q p s at same = session_place-set id i q p s.queues at same
