-- ===== src/Hpd/Parameter/Tests.antt =====
-- Runs of the comparison of parameters.
use home_automation_bridge_z.Prelude.{◌≡◌, ◌↔◌, none, some, Ordering, codes}
use home_automation_bridge_z.Hpd.Parameter.{Parameter, cmp_parameter}
use home_automation_bridge_z.Hpd.Parameter.Compare.{AllAgree, cmp_parameter-eq_iff}

abbrev unbounded : Parameter
unbounded = record {
  id = some (codes "0");
  max = none;
  min = none;
  scale = none;
  step = none;
  type = some (codes "ON/OFF");
  unit = none;
  values = none;
}

abbrev bounded : Parameter
bounded = record unbounded { max = some (codes "10") }

cmp_parameter-eq_iff_example :
    (cmp_parameter unbounded bounded ≡ some Ordering.eq) ↔ AllAgree unbounded bounded
cmp_parameter-eq_iff_example = cmp_parameter-eq_iff unbounded bounded
