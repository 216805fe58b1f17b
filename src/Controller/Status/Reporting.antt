-- ===== src/Controller/Status/Reporting.antt =====
-- The status that a reconciliation reports.
use mathlib.Core.Path.{ap₂}
use kompakt.Prelude.{
  ℕ, zero, suc, String, ◌==◌, ◌≡◌, refl, ◌∙◌, ap, Bool, true, false, Option, none, some, List,
  is_empty, ◌&&◌, arith, if◌then◌else◌,
}
use kompakt.Int.{ℤ}
use kompakt.Kube.{Pod}
use kompakt.Api.{PackingProfile}
use kompakt.Ledger.{Ledger, snapshot}
use kompakt.Controller.Conditions.{
  cond_ready, cond_profile_valid, cond_ledger_ready, config_issues, set_condition,
  set_profile_valid_condition, set_ledger_ready_condition, set_inflight_detection_condition,
  set_ready_condition, condition_is_true,
}
use kompakt.Controller.Conditions.Reading.{set_condition-is_true}
use kompakt.Controller.Conditions.Ready.{profile_valid-reads, inflight_detection-reads, ready-reads}
use kompakt.Controller.Status.{int32, count_gated, counted, update_profile_status, report_status}

abbrev pub no_error : Option String → Bool
no_error none = true
no_error (some _) = false

ledger_ready-reads :
    (now : ℤ) (profile : PackingProfile) (err : Option String)
    → condition_is_true (set_ledger_ready_condition now profile err) cond_ledger_ready
      ≡ no_error err
unfolding set_ledger_ready_condition
ledger_ready-reads now profile none = rw (set_condition-is_true now profile) refl
ledger_ready-reads now profile (some err) = rw (set_condition-is_true now profile) refl

ledger_ready-spec :
    (now : ℤ) (profile : PackingProfile) (err : Option String)
    → (set_ledger_ready_condition now profile err).spec ≡ profile.spec
unfolding set_ledger_ready_condition set_condition
ledger_ready-spec now profile none = refl
ledger_ready-spec now profile (some err) = refl

set_ready-gates :
    (now : ℤ) (profile : PackingProfile)
    → (set_ready_condition now profile).status.active_gates ≡ profile.status.active_gates
unfolding set_ready_condition set_condition
set_ready-gates now profile = ground arith

set_detection-gates :
    (now : ℤ) (profile : PackingProfile) (count : ℕ) (active : List String) (all : ℕ)
    → (set_inflight_detection_condition now profile count active all).status.active_gates
      ≡ profile.status.active_gates
unfolding set_inflight_detection_condition set_condition
set_detection-gates now profile count active zero = refl
set_detection-gates now profile count active (suc _) = ground arith

set_valid-gates :
    (now : ℤ) (profile : PackingProfile)
    → (set_profile_valid_condition now profile).status.active_gates ≡ profile.status.active_gates
unfolding set_profile_valid_condition set_condition
set_valid-gates now profile = ground arith

module _ (now : ℤ) (profile : PackingProfile) (pods : List Pod) (l : Ledger)
    (active_detectors : List String) (all_detectors : ℕ) where
  abbrev first : PackingProfile
  first = counted profile pods l active_detectors

  abbrev valid : PackingProfile
  valid = set_profile_valid_condition now first

  abbrev detected : PackingProfile
  detected =
      set_inflight_detection_condition now valid (snapshot l).inflight_count active_detectors
        all_detectors

  first-reads : (kind : String) → condition_is_true first kind ≡ condition_is_true profile kind
  unfolding condition_is_true
  first-reads kind = refl

  detected-reads :
      (kind : String)
      → ("InflightDetectionActive" == kind) ≡ false
      → condition_is_true detected kind ≡ (
          if cond_profile_valid == kind
          then is_empty (config_issues profile.spec)
          else condition_is_true profile kind)
  detected-reads kind other =
      inflight_detection-reads now valid (snapshot l).inflight_count active_detectors all_detectors
        kind other
      ∙ profile_valid-reads now first kind
      ∙ ap (λ b. if cond_profile_valid == kind then is_empty (config_issues profile.spec) else b)
          (first-reads kind)

  update_profile_status-ready :
      condition_is_true
        (update_profile_status now profile pods l active_detectors all_detectors)
        cond_ready
      ≡ (is_empty (config_issues profile.spec) && condition_is_true profile cond_ledger_ready)
  unfolding update_profile_status
  update_profile_status-ready =
      ready-reads now detected
      ∙ ap₂ ◌&&◌ (detected-reads cond_profile_valid refl) (detected-reads cond_ledger_ready refl)

  update_profile_status-gates :
      (update_profile_status now profile pods l active_detectors all_detectors).status.active_gates
      ≡ int32 (count_gated pods)
  unfolding update_profile_status
  update_profile_status-gates =
      set_ready-gates now detected
      ∙ set_detection-gates now valid (snapshot l).inflight_count active_detectors all_detectors
      ∙ set_valid-gates now first

-- A profile is reported ready exactly if its configuration has no issue and the ledger was synced,
-- whatever its conditions said before.
pub report_status-ready :
    (now : ℤ) (profile : PackingProfile) (sync_err : Option String) (pods : List Pod) (l : Ledger)
    (active_detectors : List String) (all_detectors : ℕ)
    → (updated : PackingProfile) × (report_status now profile sync_err
          (some pods)
          l
          active_detectors
          all_detectors
        ≡ some updated)
      × (condition_is_true updated cond_ready
          ≡ (is_empty (config_issues profile.spec) && no_error sync_err))
      × (updated.status.active_gates ≡ int32 (count_gated pods))
unfolding report_status
report_status-ready now profile sync_err pods l active_detectors all_detectors =
    let profile' : PackingProfile = set_ledger_ready_condition now profile sync_err in
    (
      update_profile_status now profile' pods l active_detectors all_detectors,
      refl,
      update_profile_status-ready now profile' pods l active_detectors all_detectors
          ∙ ap₂ (λ spec b. is_empty (config_issues spec) && b)
              (ledger_ready-spec now profile sync_err) (ledger_ready-reads now profile sync_err),
      update_profile_status-gates now profile' pods l active_detectors all_detectors,
    )
