-- ===== src/Controller/Records/Counted.antt =====
-- The metrics of the loop over the rules against the verdict of `evaluate_rules`.
use kompakt.Prelude.{
  String, ◌==◌, ◌≡◌, refl, sym, ap, ◌∙◌, true, false, none, some, List, [], ◌∷◌, Option-cases, inl,
  inr, arith, if◌then◌else◌,
}
use kompakt.Int.{ℤ}
use kompakt.Dict.{lookup}
use kompakt.Kube.{Quantity, Pod}
use kompakt.Api.{PackingProfile}
use kompakt.Ledger.{Ledger}
use kompakt.Metrics.{Update, increment, observe, rule_evaluations_total, rule_evaluation_duration}
use kompakt.Rules.{Rule, decided, failed, registry}
use kompakt.Controller.Reconcile.{Verdict, held_by, evaluate_rules}
use kompakt.Controller.Reconcile.Verdicts.{
  next_target, turn-unknown, turn-released, turn-held, turn-failed, Evaluation-cases,
}
use kompakt.Controller.Records.{rule_updates}

-- The rules that are counted as holding.
abbrev pub held_rules : List Update → List String
held_rules [] = []
held_rules (increment c (name ∷ result ∷ []) ∷ us) =
    let rest = held_rules us in if result == "hold" then name ∷ rest else rest
held_rules (_ ∷ us) = held_rules us

abbrev pub holder : Verdict → List String
holder (held_by name) = name ∷ []
holder _ = []

module _ (milli_value : Quantity → ℤ) (pod : Pod) (profile : PackingProfile)
    (took : String → ℤ) where
  abbrev updates : List String → Ledger → List Update
  updates names l = rule_updates milli_value pod profile took names l

  updates-unknown :
      (name : String) (names : List String) (l : Ledger)
      → lookup name (registry milli_value) ≡ none
      → updates (name ∷ names) l ≡ updates names l
  unfolding rule_updates
  updates-unknown name names l e = ground arith

  updates-failed :
      (name : String) (names : List String) (l : Ledger) (rule : Rule milli_value)
      → lookup name (registry milli_value) ≡ some rule
      → (rule pod l profile).0 ≡ failed
      → updates (name ∷ names) l
        ≡ observe rule_evaluation_duration (name ∷ []) (took name)
          ∷ increment rule_evaluations_total (name ∷ "error" ∷ [])
          ∷ []
  unfolding rule_updates
  updates-failed name names l rule e err = ground arith

  updates-held :
      (name : String) (names : List String) (l : Ledger) (rule : Rule milli_value) (n : String)
      → lookup name (registry milli_value) ≡ some rule
      → (rule pod l profile).0 ≡ decided false n
      → updates (name ∷ names) l
        ≡ observe rule_evaluation_duration (name ∷ []) (took name)
          ∷ increment rule_evaluations_total (name ∷ "hold" ∷ [])
          ∷ []
  unfolding rule_updates
  updates-held name names l rule n e held = ground arith

  updates-released :
      (name : String) (names : List String) (l : Ledger) (rule : Rule milli_value) (n : String)
      → lookup name (registry milli_value) ≡ some rule
      → (rule pod l profile).0 ≡ decided true n
      → updates (name ∷ names) l
        ≡ observe rule_evaluation_duration (name ∷ []) (took name)
          ∷ increment rule_evaluations_total (name ∷ "release" ∷ [])
          ∷ updates names (rule pod l profile).1
  unfolding rule_updates
  updates-released name names l rule n e released = ground arith

  -- The counter of rules that hold counts, in one call, the rule that holds the pod and no other.
  pub rule_updates-evaluate_rules :
      (names : List String) (target : String) (l : Ledger)
      → held_rules (rule_updates milli_value pod profile took names l)
        ≡ holder (evaluate_rules milli_value pod profile names target l).0
  unfolding rule_updates evaluate_rules
  rule_updates-evaluate_rules [] target l = refl
  rule_updates-evaluate_rules (name ∷ names) target l =
      elim (Option-cases (lookup name (registry milli_value))) [
        | inl e ↦
            ap held_rules (updates-unknown name names l e)
            ∙ rule_updates-evaluate_rules names target l
            ∙ sym
                (ap (λ r. holder r.0) (turn-unknown milli_value pod profile name names target l e))
        | inr (rule, e) ↦ elim (Evaluation-cases milli_value pod profile (rule pod l profile).0) [
          | inl err ↦
              ap held_rules (updates-failed name names l rule e err)
              ∙ sym (
                  ap (λ r. holder r.0)
                    (turn-failed milli_value pod profile name names target l rule e err))
          | inr (inl (n, released)) ↦
              ap held_rules (updates-released name names l rule n e released)
              ∙ rule_updates-evaluate_rules names (next_target n target) (rule pod l profile).1
              ∙ sym (
                  ap (λ r. holder r.0)
                    (turn-released milli_value pod profile name names target l rule n e released))
          | inr (inr (n, held)) ↦
              ap held_rules (updates-held name names l rule n e held)
              ∙ sym (
                  ap (λ r. holder r.0)
                    (turn-held milli_value pod profile name names target l rule n e held))
        ]
      ]
