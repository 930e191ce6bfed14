-- ===== src/Hpd/WebServer/Listed.antt =====
-- Services that are found in the list of a server.
use home_automation_bridge_z.Prelude.{
  ℕ, ◌≡◌, ◌∙◌, refl, sym, Bool, true, false, Option, none, some, List, [], ◌∷◌, ◌++◌, arith,
  if◌then◌else◌, Text, str_eq, str_eq_refl, Bool-cases, Option-cases, inl, inr,
}
use home_automation_bridge_z.Hpd.Services.{Heap, Service, deref, matching_service}
use home_automation_bridge_z.Hpd.WebServer.{Key, same_key, key_at, find_listed, unlink_url}

pub same_key_refl : (k : Key) → same_key k k ≡ true
same_key_refl k =
    let a = str_eq_refl k.device_type in
    let b = str_eq_refl k.device_id in
    let c = str_eq_refl k.service_type in let d = str_eq_refl k.service_id in ground arith

-- One step of the loop: what the test of the first service says of a search that finds nothing.
step_of :
    (b : Bool) (a : ℕ) (rest : Option (Option ℕ))
    → (if b then some (some a) else rest) ≡ some none
    → (b ≡ false) × (rest ≡ some none)
step_of true a rest e = ground arith
step_of false a rest e = (refl, e)

find_listed-cons :
    (test : Key → Bool) (h : Heap) (b : ℕ) (more : List ℕ)
    → find_listed test h (b ∷ more) ≡ some none
    → (c : Key) × (key_at h b ≡ some c) × (test c ≡ false) × (find_listed test h more ≡ some none)
unfolding find_listed
find_listed-cons test h b more nothing = elim (Option-cases (key_at h b)) [
  | inl gone ↦
      let faults : find_listed test h (b ∷ more) ≡ none = rw (find_listed, gone) refl in
      absurd (ground (arith, faults, nothing))
  | inr (c, there) ↦
      let rest = find_listed test h more in
      let step : find_listed test h (b ∷ more) ≡ (if test c then some (some b) else rest) =
        rw (find_listed, there) refl in
      let (fails, later) = step_of (test c) b rest (sym step ∙ nothing) in (c, there, fails, later)
]

-- A service behind a list in which none passes the test.
pub find_listed-append :
    (test : Key → Bool) (h : Heap) (a : ℕ) (k : Key) (more : List ℕ)
    → key_at h a ≡ some k
    → find_listed test h more ≡ some none
    → find_listed test h (more ++ a ∷ []) ≡ some (if test k then some a else none)
unfolding find_listed
find_listed-append test h a k [] at nothing = elim (Bool-cases (test k)) [
  | inl passes ↦ rw (find_listed, at, passes) refl
  | inr fails ↦ rw (find_listed, at, fails) refl
]
find_listed-append test h a k (b ∷ more) at nothing =
    let (c, there, fails, later) = find_listed-cons test h b more nothing in
    rw (find_listed, there, fails) (find_listed-append test h a k more at later)

matching_service-cons :
    (h : Heap) (url : Text) (b : ℕ) (more : List ℕ)
    → matching_service h (b ∷ more) url ≡ some none
    → (t : Service) × (deref (h.services b) ≡ some t)
      × (str_eq t.value_url url ≡ false)
      × (matching_service h more url ≡ some none)
unfolding matching_service
matching_service-cons h url b more nothing = elim (Option-cases (deref (h.services b))) [
  | inl gone ↦
      let faults : matching_service h (b ∷ more) url ≡ none = rw (matching_service, gone) refl in
      absurd (ground (arith, faults, nothing))
  | inr (t, there) ↦
      let rest = matching_service h more url in
      let step : matching_service h (b ∷ more) url
          ≡ (if str_eq t.value_url url then some (some b) else rest) =
        rw (matching_service, there) refl in
      let (differs, later) = step_of (str_eq t.value_url url) b rest (sym step ∙ nothing) in
      (t, there, differs, later)
]

-- A service that is unlinked by a URL that none before it has.
pub unlink_url-append :
    (h : Heap) (url : Text) (a : ℕ) (s : Service) (more : List ℕ)
    → deref (h.services a) ≡ some s
    → str_eq s.value_url url ≡ true
    → matching_service h more url ≡ some none
    → unlink_url h url (more ++ a ∷ []) ≡ some more
unfolding unlink_url
unlink_url-append h url a s [] there same absent = rw (unlink_url, there, same) refl
unlink_url-append h url a s (b ∷ more) there same absent =
    let (t, is_t, differs, later) = matching_service-cons h url b more absent in
    rw (unlink_url, is_t, differs, unlink_url-append h url a s more there same later) refl
