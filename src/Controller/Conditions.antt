-- ===== src/Controller/Conditions.antt =====
-- The conditions in a profile's status: `setCondition` and the functions that call it, and
-- `conditionIsTrue`. The time is a parameter.
pub mod Decimal
pub mod Reading
pub mod Ready
use kompakt.Prelude.{
  ℕ, zero, suc, ◌+◌, ◌/◌, ◌%◌, String, ◌==◌, Bool, true, false, Option, none, some, List, [], ◌∷◌,
  ◌++◌, ltb, any, not, is_empty, ◌&&◌, ◌||◌, if◌then◌else◌,
}
use kompakt.Int.{ℤ}
use kompakt.Text.{◌+++◌}
use kompakt.Api.{Condition, Spec, Status, PackingProfile, DemandSource, CapacitySource}

abbrev pub cond_ready : String
cond_ready = "Ready"

abbrev pub cond_profile_valid : String
cond_profile_valid = "ProfileValid"

abbrev pub cond_ledger_ready : String
cond_ledger_ready = "LedgerReady"

abbrev pub cond_inflight_detection_active : String
cond_inflight_detection_active = "InflightDetectionActive"

-- `strings.Join`
abbrev pub join : List String → String → String
join [] sep = ""
join (s ∷ []) sep = s
join (s ∷ ss) sep = s +++ (sep +++ join ss sep)

abbrev digit : ℕ → String
digit zero = "0"
digit (suc zero) = "1"
digit (suc (suc zero)) = "2"
digit (suc (suc (suc zero))) = "3"
digit (suc (suc (suc (suc zero)))) = "4"
digit (suc (suc (suc (suc (suc zero))))) = "5"
digit (suc (suc (suc (suc (suc (suc zero)))))) = "6"
digit (suc (suc (suc (suc (suc (suc (suc zero))))))) = "7"
digit (suc (suc (suc (suc (suc (suc (suc (suc zero)))))))) = "8"
digit _ = "9"

-- The decimal digits of a number, on fuel; more fuel than the number is enough.
unfoldable pub decimal : ℕ → ℕ → String
decimal zero n = ""
decimal (suc fuel) n =
    let front = decimal fuel (n / 10) in if ltb n 10 then digit n else front +++ digit (n % 10)

-- `%d` of a count.
unfoldable pub show : ℕ → String
unfolding decimal
show n = decimal (suc n) n

-- The loop of `setCondition` and the append behind it.
unfoldable pub put_condition :
    String → String → String → String → ℤ → List Condition → List Condition
put_condition kind status reason message now [] =
    (record {
      kind = kind;
      status = status;
      reason = reason;
      message = message;
      last_transition = now;
    })
    ∷ []
put_condition kind status reason message now (c ∷ cs) =
    if c.kind == kind
    then (if not (c.status == status) || not (c.reason == reason)
        then record c { status = status; reason = reason; message = message; last_transition = now }
        else c)
      ∷ cs
    else c ∷ put_condition kind status reason message now cs

-- `setCondition`
unfoldable pub set_condition :
    ℤ → PackingProfile → String → String → String → String → PackingProfile
unfolding put_condition
set_condition now profile kind status reason message = record profile {
  status = record profile.status {
    conditions = put_condition kind status reason message now profile.status.conditions;
  };
}

-- `if test { issues = append(issues, text) }`
abbrev pub issue : Bool → String → List String
issue test text = if test then text ∷ [] else []

-- The issues that `setProfileValidCondition` gathers.
unfoldable pub config_issues : Spec → List String
config_issues spec =
    let ds = spec.demand_source in
    let cs = spec.capacity_source in
    let has_scale_up = any (λ rule. rule == "WaitForNodeReady") spec.rules in
    issue (ds.kind == "ResourceRequest" && is_empty ds.resources)
      "demandSource.type=ResourceRequest but resources is empty"
    ++ (issue (ds.kind == "Annotation" && ds.annotation == "")
          "demandSource.type=Annotation but annotation is empty"
        ++ (issue (cs.kind == "NodeLabel" && cs.label == "")
              "capacitySource.type=NodeLabel but label is empty"
            ++ issue (has_scale_up && is_empty cs.node_group_templates)
                "WaitForNodeReady rule requires nodeGroupTemplates"))

-- `setProfileValidCondition`
unfoldable pub set_profile_valid_condition : ℤ → PackingProfile → PackingProfile
set_profile_valid_condition now profile =
    let issues = config_issues profile.spec in
    if not (is_empty issues)
    then set_condition now profile cond_profile_valid "False" "ConfigurationError"
        (join issues "; ")
    else set_condition now profile cond_profile_valid "True" "Valid"
        "profile configuration is valid"

-- `setLedgerReadyCondition`; the error is its text.
unfoldable pub set_ledger_ready_condition : ℤ → PackingProfile → Option String → PackingProfile
set_ledger_ready_condition now profile (some err) =
    set_condition now profile cond_ledger_ready "False" "SyncFailed" err
set_ledger_ready_condition now profile none =
    set_condition now profile cond_ledger_ready "True" "Synced" "ledger synced from cluster state"

-- `setInflightDetectionCondition`; of all detectors only their number is read.
unfoldable pub set_inflight_detection_condition :
    ℤ → PackingProfile → ℕ → List String → ℕ → PackingProfile
set_inflight_detection_condition now profile inflight_count active_detectors zero =
    set_condition now profile cond_inflight_detection_active "False" "NoDetectors"
      "no inflight detectors configured"
set_inflight_detection_condition now profile inflight_count active_detectors (suc _) =
    if ltb 0 inflight_count
    then set_condition now profile cond_inflight_detection_active "True" "Detected"
        (show inflight_count +++ (" inflight node(s) detected by " +++ join active_detectors ", "))
    else set_condition now profile cond_inflight_detection_active "False" "NoneDetected"
        "no inflight nodes detected"

-- `conditionIsTrue`
unfoldable pub is_true_in : String → List Condition → Bool
is_true_in kind [] = false
is_true_in kind (c ∷ cs) = if c.kind == kind then c.status == "True" else is_true_in kind cs

unfoldable pub condition_is_true : PackingProfile → String → Bool
unfolding is_true_in
condition_is_true profile kind = is_true_in kind profile.status.conditions

-- `setReadyCondition`
unfoldable pub set_ready_condition : ℤ → PackingProfile → PackingProfile
set_ready_condition now profile =
    let profile_valid = condition_is_true profile cond_profile_valid in
    let ledger_ready = condition_is_true profile cond_ledger_ready in
    if profile_valid && ledger_ready
    then set_condition now profile cond_ready "True" "Ready" "profile is valid and ledger is synced"
    else set_condition now profile cond_ready "False" "NotReady" (
        join
          (issue (not profile_valid) "ProfileValid=False"
            ++ issue (not ledger_ready) "LedgerReady=False")
          ", ")
