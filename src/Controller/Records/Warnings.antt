-- ===== src/Controller/Records/Warnings.antt =====
-- `warnProfileMisconfig` against `setProfileValidCondition`.
use kompakt.Prelude.{◌≡◌, is_empty, arith}
use kompakt.Api.{Spec}
use kompakt.Controller.Conditions.{config_issues}
use kompakt.Controller.Records.{warn_profile_misconfig}

-- A profile is warned about exactly if it is reported as invalid.
pub warn_profile_misconfig-config_issues :
    (spec : Spec) → is_empty (warn_profile_misconfig spec) ≡ is_empty (config_issues spec)
unfolding warn_profile_misconfig config_issues
warn_profile_misconfig-config_issues spec = ground arith
