-- ===== src/Controller/Conditions/Ready.antt =====
-- `updateProfileStatus`: what the status says after the three conditions are set.
use kompakt.Prelude.{
  ℕ, zero, suc, String, ltb, ◌==◌, ◌≡◌, refl, false, List, is_empty, ◌&&◌, arith, Bool-cases, inl,
  inr, if◌then◌else◌,
}
use kompakt.Int.{ℤ}
use kompakt.Api.{PackingProfile}
use kompakt.Controller.Conditions.{
  cond_ready, cond_profile_valid, cond_ledger_ready, config_issues, join,
  set_profile_valid_condition, set_inflight_detection_condition, set_ready_condition,
  condition_is_true,
}
use kompakt.Controller.Conditions.Reading.{set_condition-is_true}

pub profile_valid-reads :
    (now : ℤ) (profile : PackingProfile) (kind : String)
    → condition_is_true (set_profile_valid_condition now profile) kind ≡ (
        if cond_profile_valid == kind
        then is_empty (config_issues profile.spec)
        else condition_is_true profile kind)
unfolding set_profile_valid_condition
profile_valid-reads now profile kind = ground (
  arith,
  set_condition-is_true now profile cond_profile_valid "False" "ConfigurationError"
      (join (config_issues profile.spec) "; ") kind,
  set_condition-is_true now profile cond_profile_valid "True" "Valid"
      "profile configuration is valid" kind,
)

pub inflight_detection-reads :
    (now : ℤ) (profile : PackingProfile) (count : ℕ) (active : List String) (all : ℕ)
    (kind : String)
    → ("InflightDetectionActive" == kind) ≡ false
    → condition_is_true (set_inflight_detection_condition now profile count active all) kind
      ≡ condition_is_true profile kind
unfolding set_inflight_detection_condition
inflight_detection-reads now profile count active zero kind other =
    rw (set_condition-is_true now profile, other) refl
inflight_detection-reads now profile count active (suc _) kind other =
    elim (Bool-cases (ltb 0 count)) [
      | inl some_node ↦ rw (some_node, set_condition-is_true now profile, other) refl
      | inr no_node ↦ rw (no_node, set_condition-is_true now profile, other) refl
    ]

pub ready-reads :
    (now : ℤ) (profile : PackingProfile)
    → condition_is_true (set_ready_condition now profile) cond_ready ≡ (
        condition_is_true profile cond_profile_valid && condition_is_true profile cond_ledger_ready)
unfolding set_ready_condition
ready-reads now profile =
    elim (Bool-cases (
      condition_is_true profile cond_profile_valid
      && condition_is_true profile cond_ledger_ready)) [
        | inl both ↦ rw (both, set_condition-is_true now profile) refl
        | inr lacking ↦ rw (lacking, set_condition-is_true now profile) refl
      ]
