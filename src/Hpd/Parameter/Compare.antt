-- ===== src/Hpd/Parameter/Compare.antt =====
-- What `cmp_Parameter` compares.
use home_automation_bridge_z.Prelude.{
  ◌≡◌, ◌↔◌, ◌⊎◌, inl, inr, refl, sym, ◌∙◌, Option, none, some, Ordering, arith, Text, strcmp-eq_iff,
}
use home_automation_bridge_z.Hpd.Parameter.{Parameter, cmp_attribute, cmp_parameter}

-- An attribute of `a` is NULL, or equal to that of `b`.
abbrev pub Agrees : Option Text → Option Text → Type 0
Agrees a b = (a ≡ none) ⊎ (a ≡ b)

-- All eight attributes.
pub record AllAgree (a b : Parameter) : Type 0 where
  pub id : Agrees a.id b.id
  pub max : Agrees a.max b.max
  pub min : Agrees a.min b.min
  pub scale : Agrees a.scale b.scale
  pub step : Agrees a.step b.step
  pub type : Agrees a.type b.type
  pub unit : Agrees a.unit b.unit
  pub values : Agrees a.values b.values

attribute_eq :
    (a b : Option Text) (next : Option Ordering)
    → (cmp_attribute a b next ≡ some Ordering.eq) ↔ (Agrees a b × (next ≡ some Ordering.eq))
unfolding cmp_attribute
attribute_eq none b next = (λ e. (inl refl, e), λ p. p.1)
attribute_eq (some x) none next = (λ e. cc, λ p. ground arith)
attribute_eq (some x) (some y) next =
    (λ e. ground (arith, strcmp-eq_iff x y), λ p. ground (arith, strcmp-eq_iff x y))

attribute_agrees :
    (a b : Option Text) (next : Option Ordering) → a ≡ b → cmp_attribute a b next ≡ next
unfolding cmp_attribute
attribute_agrees none b next e = refl
attribute_agrees (some x) none next e = cc
attribute_agrees (some x) (some y) next e = ground (arith, strcmp-eq_iff x y)

attribute_missing :
    (a b : Option Text) (m : Text) (next : Option Ordering)
    → a ≡ some m
    → b ≡ none
    → cmp_attribute a b next ≡ none
unfolding cmp_attribute
attribute_missing a b m next has lacks = rw (has, lacks)

-- `cmp_Parameter` returns 0 exactly if every attribute of the first parameter is NULL or equal to
-- that of the second. An attribute that is NULL in the first is not compared.
pub cmp_parameter-eq_iff : (a b : Parameter) → (cmp_parameter a b ≡ some Ordering.eq) ↔ AllAgree a b
unfolding cmp_parameter
cmp_parameter-eq_iff a b = (
  λ e.
      let (h0, e0) = (attribute_eq a.id b.id _).0 e in
      let (h1, e1) = (attribute_eq a.max b.max _).0 e0 in
      let (h2, e2) = (attribute_eq a.min b.min _).0 e1 in
      let (h3, e3) = (attribute_eq a.scale b.scale _).0 e2 in
      let (h4, e4) = (attribute_eq a.step b.step _).0 e3 in
      let (h5, e5) = (attribute_eq a.type b.type _).0 e4 in
      let (h6, e6) = (attribute_eq a.unit b.unit _).0 e5 in
      let (h7, e7) = (attribute_eq a.values b.values _).0 e6 in
      record {
        id = h0;
        max = h1;
        min = h2;
        scale = h3;
        step = h4;
        type = h5;
        unit = h6;
        values = h7;
      },
  λ p. (attribute_eq a.id b.id _).1 (
    p.id,
    (attribute_eq a.max b.max _).1 (
      p.max,
      (attribute_eq a.min b.min _).1 (
        p.min,
        (attribute_eq a.scale b.scale _).1 (
          p.scale,
          (attribute_eq a.step b.step _).1 (
            p.step,
            (attribute_eq a.type b.type _).1 (
              p.type,
              (attribute_eq a.unit b.unit _).1
                  (p.unit, (attribute_eq a.values b.values _).1 (p.values, refl)),
            ),
          ),
        ),
      ),
    ),
  ),
)

-- `cmp_Parameter` is not symmetric: with the other attributes equal, a parameter with no maximum compares
-- equal to one that has a maximum, and the comparison the other way round passes NULL to `strcmp`.
pub cmp_parameter_asymmetric :
    (a b : Parameter) (m : Text)
    → a.id ≡ b.id
    → a.max ≡ none
    → b.max ≡ some m
    → a.min ≡ b.min
    → a.scale ≡ b.scale
    → a.step ≡ b.step
    → a.type ≡ b.type
    → a.unit ≡ b.unit
    → a.values ≡ b.values
    → (cmp_parameter a b ≡ some Ordering.eq) × (cmp_parameter b a ≡ none)
unfolding cmp_parameter
cmp_parameter_asymmetric a b m e0 no_max has_max e2 e3 e4 e5 e6 e7 = (
  (cmp_parameter-eq_iff a b).1 (record {
    id = inr e0;
    max = inl no_max;
    min = inr e2;
    scale = inr e3;
    step = inr e4;
    type = inr e5;
    unit = inr e6;
    values = inr e7;
  }),
  attribute_agrees b.id a.id _ (sym e0) ∙ attribute_missing b.max a.max m _ has_max no_max,
)
