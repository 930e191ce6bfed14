-- ===== src/Hpd/Parameter.antt =====
-- hpbridge/hpdaemon/hpd_parameters.c: the parameters of a service. An attribute is a `char *` that
-- may be NULL.
pub mod Compare
mod Tests
use home_automation_bridge_z.Prelude.{Option, none, some, Ordering, Text, strcmp}

pub record Parameter : Type 0 where
  pub id : Option Text
  pub max : Option Text
  pub min : Option Text
  pub scale : Option Text
  pub step : Option Text
  pub type : Option Text
  pub unit : Option Text
  pub values : Option Text

-- The attributes are taken as they are; without an ID there is no parameter.
pub create_parameter_struct :
    (id max min scale step type unit values : Option Text) → Option Parameter
create_parameter_struct id max min scale step type unit values = elim id [
  | none ↦ none
  | some t ↦ some (record {
    id = some t;
    max = max;
    min = min;
    scale = scale;
    step = step;
    type = type;
    unit = unit;
    values = values;
  })
]

-- One comparison of `cmp_parameter`: an attribute that is NULL in `a` is passed over; one that is
-- NULL only in `b` goes to `strcmp`, the fault `none`; a difference is returned at once.
cmp_attribute : Option Text → Option Text → Option Ordering → Option Ordering
cmp_attribute none b next = next
cmp_attribute (some x) none next = none
cmp_attribute (some x) (some y) next = elim (strcmp x y) [
  | Ordering.eq ↦ next
  | Ordering.lt ↦ some Ordering.lt
  | Ordering.gt ↦ some Ordering.gt
]

-- The result is the sign of the `int`; 0 is `eq`.
pub cmp_parameter : Parameter → Parameter → Option Ordering
unfolding cmp_attribute
cmp_parameter a b = cmp_attribute a.id b.id (
    cmp_attribute a.max b.max (
      cmp_attribute a.min b.min (
        cmp_attribute a.scale b.scale (
          cmp_attribute a.step b.step (
            cmp_attribute a.type b.type (
              cmp_attribute a.unit b.unit (cmp_attribute a.values b.values (some Ordering.eq))))))))
