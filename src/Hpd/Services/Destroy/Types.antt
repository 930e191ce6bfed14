-- ===== src/Hpd/Services/Destroy/Types.antt =====
-- The types of a device's services: strings of the callers, which are freed with the services.
use home_automation_bridge_z.Prelude.{
  ℕ, ◌≡◌, ◌≢◌, refl, ap, sym, ◌∙◌, Bool, true, false, none, some, List, [], ◌∷◌, ◌==◌, arith,
  update, Bool-cases, inl, inr, map, negb, ◌&&◌, Text, Option-cases,
}
use home_automation_bridge_z.Hpd.Services.{Cell, unused, live, freed, deref}
use home_automation_bridge_z.Hpd.Services.Destroy.Owned.{member}

pub deref-live : {A : Type 0} → (c : Cell A) (x : A) → deref c ≡ some x → c ≡ live x
deref-live unused x e = cc
deref-live (live y) x e = ground arith
deref-live freed x e = cc

freed-live : {A : Type 0} → (x : A) (c : Cell A) → c ≡ freed → c ≢ live x
freed-live x c e f = cc

module _ {A : Type 0} (f : ℕ → A) (i : ℕ) (v : A) where
  pub update-here : (j : ℕ) → j ≡ i → update f i v j ≡ v
  update-here j e = ground arith

  pub update-away : (j : ℕ) → j ≢ i → update f i v j ≡ f j
  update-away j ne = ground arith

-- The types of the services of the list can be freed, and no two are the same string.
unfoldable pub own_types : (ℕ → ℕ) → (ℕ → Cell Text) → List ℕ → Bool
own_types type_of strings [] = true
own_types type_of strings (b ∷ bs) = elim (deref (strings (type_of b))) [
  | none ↦ false
  | some t ↦ negb (member (type_of b) (map type_of bs)) && own_types type_of strings bs
]

pub own_types-head :
    (type_of : ℕ → ℕ) (strings : ℕ → Cell Text) (b : ℕ) (bs : List ℕ)
    → own_types type_of strings (b ∷ bs) ≡ true
    → (t : Text) × (strings (type_of b) ≡ live t)
      × (member (type_of b) (map type_of bs) ≡ false)
      × (own_types type_of strings bs ≡ true)
unfolding own_types
own_types-head type_of strings b bs own = elim (Option-cases (deref (strings (type_of b)))) [
  | inl gone ↦ absurd (ground (arith, gone, own))
  | inr (t, there) ↦
      let all : (negb (member (type_of b) (map type_of bs)) && own_types type_of strings bs)
          ≡ true =
        sym (rw (own_types, there) refl) ∙ own in
      (t, deref-live (strings (type_of b)) t there, ground arith, ground arith)
]

-- A string that is not a type of the list may go.
pub update-own_types :
    (type_of : ℕ → ℕ) (strings : ℕ → Cell Text) (p : ℕ) (bs : List ℕ)
    → member p (map type_of bs) ≡ false
    → own_types type_of strings bs ≡ true
    → own_types type_of (update strings p freed) bs ≡ true
unfolding own_types member
update-own_types type_of strings p [] out own = refl
update-own_types type_of strings p (b ∷ bs) out own =
    let (t, there, once, rest) = own_types-head type_of strings b bs own in
    let away : update strings p freed (type_of b) ≡ live t =
      update-away strings p freed (type_of b) (λ e. ground arith) ∙ there in
    let rest' = update-own_types type_of strings p bs (ground arith) rest in
    rw (own_types, away) (ground arith)

-- A string that is freed makes no list better, and a list with it is bad.
own_types-cons :
    (type_of : ℕ → ℕ) (strings : ℕ → Cell Text) (b : ℕ) (bs : List ℕ) (t : Text)
    → deref (strings (type_of b)) ≡ some t
    → own_types type_of strings (b ∷ bs)
      ≡ (negb (member (type_of b) (map type_of bs)) && own_types type_of strings bs)
unfolding own_types
own_types-cons type_of strings b bs t there = rw (own_types, there) refl

update-bad :
    (type_of : ℕ → ℕ) (strings : ℕ → Cell Text) (p : ℕ) (bs : List ℕ)
    → own_types type_of (update strings p freed) bs ≡ true
    → (own_types type_of strings bs ≡ true) × (member p (map type_of bs) ≡ false)
unfolding own_types member
update-bad type_of strings p [] own = (refl, refl)
update-bad type_of strings p (b ∷ bs) own =
    let (t, there, once, rest) = own_types-head type_of (update strings p freed) b bs own in
    let (rest', out) = update-bad type_of strings p bs rest in
    elim (Bool-cases (type_of b == p)) [
      | inl same ↦
          let gone = update-here strings p freed (type_of b) (ground arith) in
          absurd (freed-live t _ gone there)
      | inr differs ↦
          let kept = update-away strings p freed (type_of b) (λ e. ground arith) in
          let there' : deref (strings (type_of b)) ≡ some t = ap deref (sym kept ∙ there) in
          (own_types-cons type_of strings b bs t there' ∙ ground arith, ground arith)
    ]

pub own_types-bad :
    (type_of : ℕ → ℕ) (strings : ℕ → Cell Text) (b : ℕ) (bs : List ℕ) (t : Text)
    → deref (strings (type_of b)) ≡ some t
    → own_types type_of strings (b ∷ bs) ≡ false
    → own_types type_of (update strings (type_of b) freed) bs ≡ false
own_types-bad type_of strings b bs t there bad =
    let both = sym (own_types-cons type_of strings b bs t there) ∙ bad in
    elim (Bool-cases (own_types type_of (update strings (type_of b) freed) bs)) [
      | inl own ↦
          let (fine, out) = update-bad type_of strings (type_of b) bs own in absurd (ground arith)
      | inr is_bad ↦ is_bad
    ]
