-- ===== src/Controller/Status.antt =====
-- `updateProfileStatus`, and the deferred function of `Reconcile` that calls it. The pods that the
-- API server lists for the profile's label are a parameter, `none` where the list fails; the update
-- that is sent to the API server is the result.
pub mod Reporting
use kompakt.Prelude.{
  ℕ, zero, suc, ◌+◌, ◌-◌, ◌%◌, ◌^◌, String, ◌==◌, ◌≡◌, refl, ◌∙◌, ap, Bool, true, false, Option,
  none, some, List, [], ◌∷◌, length, is_empty, ltb, ◌&&◌, arith, if◌then◌else◌,
}
use kompakt.Int.{ℤ, pos, negsuc}
use kompakt.Kube.{Pod}
use kompakt.Api.{Status, PackingProfile}
use kompakt.Ledger.{Ledger, snapshot}
use kompakt.Controller.Gates.{has_kompakt_gates}
use kompakt.Controller.Conditions.{
  cond_ready, cond_ledger_ready, config_issues, set_profile_valid_condition,
  set_ledger_ready_condition, set_inflight_detection_condition, set_ready_condition,
  condition_is_true,
}
use kompakt.Controller.Conditions.Reading.{set_condition-is_true}
use kompakt.Controller.Conditions.Ready.{profile_valid-reads, inflight_detection-reads, ready-reads}

-- A count in an int32.
unfoldable pub int32 : ℕ → ℤ
int32 n = let w = n % 2 ^ 32 in if ltb w (2 ^ 31) then pos w else negsuc (2 ^ 32 - 1 - w)

-- How many pods have gates of the program.
unfoldable pub count_gated : List Pod → ℕ
count_gated [] = 0
count_gated (pod ∷ pods) =
    let rest = count_gated pods in if has_kompakt_gates pod then suc rest else rest

-- The counts and the detectors that `updateProfileStatus` writes first.
abbrev pub counted : PackingProfile → List Pod → Ledger → List String → PackingProfile
counted profile pods l active_detectors = record profile {
  status = record profile.status {
    active_gates = int32 (count_gated pods);
    inflight_nodes = int32 (snapshot l).inflight_count;
    active_detectors = active_detectors;
  };
}

-- `updateProfileStatus`, up to the update.
unfoldable pub update_profile_status :
    ℤ → PackingProfile → List Pod → Ledger → List String → ℕ → PackingProfile
update_profile_status now profile pods l active_detectors all_detectors = set_ready_condition now (
    set_inflight_detection_condition now
      (set_profile_valid_condition now (counted profile pods l active_detectors))
      (snapshot l).inflight_count active_detectors all_detectors)

-- The deferred function: the update that is sent, if the pods could be listed.
unfoldable pub report_status :
    ℤ
    → PackingProfile
    → Option String
    → Option (List Pod)
    → Ledger
    → List String
    → ℕ
    → Option PackingProfile
report_status now profile sync_err none l active_detectors all_detectors = none
report_status now profile sync_err (some pods) l active_detectors all_detectors = some (
    update_profile_status now (set_ledger_ready_condition now profile sync_err) pods l
      active_detectors all_detectors)
