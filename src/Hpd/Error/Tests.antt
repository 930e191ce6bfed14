-- ===== src/Hpd/Error/Tests.antt =====
-- Runs of the function that names a code.
use home_automation_bridge_z.Prelude.{◌≡◌, refl, some}
use home_automation_bridge_z.Hpd.Error.{hpd_error_code_to_string, pos}

success_named : hpd_error_code_to_string (pos 0) ≡ some "Success"
unfolding hpd_error_code_to_string
success_named = refl
