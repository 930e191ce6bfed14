-- ===== src/Hpd/Services/Destroy/Owned.antt =====
-- The services of a device: they are there, they are its own, and no two are alike.
use home_automation_bridge_z.Prelude.{
  ℕ, ◌≡◌, refl, sym, ◌∙◌, Bool, true, false, ◌&&◌, negb, none, some, List, [], ◌∷◌, ◌==◌, arith,
  str_eq, update, Option-cases, inl, inr, ◌||◌,
}
use home_automation_bridge_z.Hpd.Services.{Heap, Service, Cell, deref, unlink_alike}

unfoldable pub member : ℕ → List ℕ → Bool
member b [] = false
member b (c ∷ cs) = b == c || member b cs

abbrev pub alike : Service → Service → Bool
alike s t = str_eq s.type t.type && str_eq s.id t.id

-- Every service of the list is there and none has the type and the ID of `s`.
unfoldable pub unlike : (ℕ → Cell Service) → Service → List ℕ → Bool
unlike cells s [] = true
unlike cells s (b ∷ bs) = elim (deref (cells b)) [
  | none ↦ false
  | some t ↦ negb (alike s t) && unlike cells s bs
]

-- The services of the list are there and belong to the device `d`, and no two are alike.
unfoldable pub owned : (ℕ → Cell Service) → ℕ → List ℕ → Bool
owned cells d [] = true
owned cells d (b ∷ bs) = elim (deref (cells b)) [
  | none ↦ false
  | some s ↦ (s.device == d) && (negb (member b bs) && (unlike cells s bs && owned cells d bs))
]

unlike-cons :
    (cells : ℕ → Cell Service) (s t : Service) (b : ℕ) (bs : List ℕ)
    → deref (cells b) ≡ some t
    → unlike cells s (b ∷ bs) ≡ (negb (alike s t) && unlike cells s bs)
unfolding unlike
unlike-cons cells s t b bs there = rw (unlike, there) refl

unlike-head :
    (cells : ℕ → Cell Service) (s : Service) (b : ℕ) (bs : List ℕ)
    → unlike cells s (b ∷ bs) ≡ true
    → (t : Service) × (deref (cells b) ≡ some t) × (alike s t ≡ false) × (unlike cells s bs ≡ true)
unfolding unlike
unlike-head cells s b bs other = elim (Option-cases (deref (cells b))) [
  | inl gone ↦ absurd (ground (arith, gone, other))
  | inr (t, there) ↦
      let both = sym (unlike-cons cells s t b bs there) ∙ other in
      (t, there, ground arith, ground arith)
]

owned-cons :
    (cells : ℕ → Cell Service) (d : ℕ) (s : Service) (b : ℕ) (bs : List ℕ)
    → deref (cells b) ≡ some s
    → owned cells d (b ∷ bs)
      ≡ ((s.device == d) && (negb (member b bs) && (unlike cells s bs && owned cells d bs)))
unfolding owned
owned-cons cells d s b bs there = rw (owned, there) refl

pub owned-head :
    (cells : ℕ → Cell Service) (d : ℕ) (b : ℕ) (bs : List ℕ)
    → owned cells d (b ∷ bs) ≡ true
    → (s : Service) × (deref (cells b) ≡ some s)
      × (s.device ≡ d)
      × (member b bs ≡ false)
      × (unlike cells s bs ≡ true)
      × (owned cells d bs ≡ true)
unfolding owned
owned-head cells d b bs own = elim (Option-cases (deref (cells b))) [
  | inl gone ↦ absurd (ground (arith, gone, own))
  | inr (s, there) ↦
      let all = sym (owned-cons cells d s b bs there) ∙ own in
      (s, there, ground arith, ground arith, ground arith, ground arith)
]

pub unlink_alike-unlike :
    (h : Heap) (s : Service) (bs : List ℕ)
    → unlike h.services s bs ≡ true
    → unlink_alike h s bs ≡ some bs
unfolding unlink_alike
unlink_alike-unlike h s [] other = refl
unlink_alike-unlike h s (b ∷ bs) other =
    let (t, there, differs, others) = unlike-head h.services s b bs other in
    let rest = unlink_alike-unlike h s bs others in rw (unlink_alike, there, differs, rest) refl

-- A service that is not in the list may go.
module _ (cells : ℕ → Cell Service) (a : ℕ) (c : Cell Service) where
  update-deref :
      (b : ℕ) (bs : List ℕ) (t : Service)
      → member a (b ∷ bs) ≡ false
      → deref (cells b) ≡ some t
      → (deref (update cells a c b) ≡ some t) × (member a bs ≡ false)
  unfolding member
  update-deref b bs t out there =
      let differs : (b == a) ≡ false = ground arith in (rw differs there, ground arith)

  update-unlike :
      (s : Service) (bs : List ℕ)
      → member a bs ≡ false
      → unlike cells s bs ≡ true
      → unlike (update cells a c) s bs ≡ true
  unfolding unlike
  update-unlike s [] out alive = refl
  update-unlike s (b ∷ bs) out alive =
      let (t, there, differs, others) = unlike-head cells s b bs alive in
      let (there', out') = update-deref b bs t out there in
      let rest = update-unlike s bs out' others in
      unlike-cons (update cells a c) s t b bs there' ∙ ground arith

  pub update-owned :
      (d : ℕ) (bs : List ℕ)
      → member a bs ≡ false
      → owned cells d bs ≡ true
      → owned (update cells a c) d bs ≡ true
  unfolding owned
  update-owned d [] out own = refl
  update-owned d (b ∷ bs) out own =
      let (s, there, mine, once, others, rest) = owned-head cells d b bs own in
      let (there', out') = update-deref b bs s out there in
      let unlike' = update-unlike s bs out' others in
      let owned' = update-owned d bs out' rest in
      owned-cons (update cells a c) d s b bs there' ∙ ground arith
