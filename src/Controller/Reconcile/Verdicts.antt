-- ===== src/Controller/Reconcile/Verdicts.antt =====
-- The loop over the rules in `Reconcile`, against a relation of its turns.
use mathlib.Core.Path.{subst}
use kompakt.Prelude.{
  String, ◌==◌, ◌≡◌, ◌≢◌, refl, sym, ap, ◌∙◌, true, false, not, ◌⊎◌, none, some, List, [], ◌∷◌,
  Option-cases, inl, inr, arith, if◌then◌else◌,
}
use kompakt.Int.{ℤ}
use kompakt.Dict.{lookup}
use kompakt.Kube.{Quantity, Pod}
use kompakt.Api.{PackingProfile}
use kompakt.Ledger.{Ledger}
use kompakt.Rules.{Rule, Evaluation, decided, failed, registry}
use kompakt.Controller.Reconcile.{Verdict, all_release, held_by, rule_error, evaluate_rules}

abbrev pub next_target : String → String → String
next_target node_name target = if not (node_name == "") then node_name else target

abbrev target_of : Verdict → String
target_of (all_release target) = target
target_of (held_by rule) = ""
target_of rule_error = ""

module _ (milli_value : Quantity → ℤ) (pod : Pod) (profile : PackingProfile) where
  -- The rules of a list in turn, with the target node and the ledger before and after: a name that
  -- no rule has is passed over, and a rule that releases hands on its ledger, and its node if it
  -- names one.
  pub data Passes : List String → String → Ledger → String → Ledger → Type 0 where
    over : {target : String} {l : Ledger} → Passes [] target l target l
    unknown :
        {name : String} {names : List String} {target target' : String} {l l' : Ledger}
        → lookup name (registry milli_value) ≡ none
        → Passes names target l target' l'
        → Passes (name ∷ names) target l target' l'
    passed :
        {name : String} {names : List String} {target target' : String} {l l' : Ledger}
        (rule : Rule milli_value) (node_name : String)
        → lookup name (registry milli_value) ≡ some rule
        → (rule pod l profile).0 ≡ decided true node_name
        → Passes names (next_target node_name target) (rule pod l profile).1 target' l'
        → Passes (name ∷ names) target l target' l'

  -- One turn of the loop, on what the registry has.
  pub turn-unknown :
      (name : String) (names : List String) (target : String) (l : Ledger)
      → lookup name (registry milli_value) ≡ none
      → evaluate_rules milli_value pod profile (name ∷ names) target l
        ≡ evaluate_rules milli_value pod profile names target l
  unfolding evaluate_rules
  turn-unknown name names target l e = ground arith

  pub turn-released :
      (name : String) (names : List String) (target : String) (l : Ledger) (rule : Rule milli_value)
      (node_name : String)
      → lookup name (registry milli_value) ≡ some rule
      → (rule pod l profile).0 ≡ decided true node_name
      → evaluate_rules milli_value pod profile (name ∷ names) target l
        ≡ evaluate_rules milli_value pod profile names
            (next_target node_name target)
            (rule pod l profile).1
  unfolding evaluate_rules
  turn-released name names target l rule node_name e released = ground arith

  pub turn-held :
      (name : String) (names : List String) (target : String) (l : Ledger) (rule : Rule milli_value)
      (node_name : String)
      → lookup name (registry milli_value) ≡ some rule
      → (rule pod l profile).0 ≡ decided false node_name
      → evaluate_rules milli_value pod profile (name ∷ names) target l
        ≡ (held_by name, (rule pod l profile).1)
  unfolding evaluate_rules
  turn-held name names target l rule node_name e held = ground arith

  pub turn-failed :
      (name : String) (names : List String) (target : String) (l : Ledger) (rule : Rule milli_value)
      → lookup name (registry milli_value) ≡ some rule
      → (rule pod l profile).0 ≡ failed
      → evaluate_rules milli_value pod profile (name ∷ names) target l
        ≡ (rule_error, (rule pod l profile).1)
  unfolding evaluate_rules
  turn-failed name names target l rule e err = ground arith

  pub Passes-evaluate_rules :
      {names : List String} {target target' : String} {l l' : Ledger}
      → Passes names target l target' l'
      → evaluate_rules milli_value pod profile names target l ≡ (all_release target', l')
  unfolding evaluate_rules
  Passes-evaluate_rules over = refl
  Passes-evaluate_rules {names = name ∷ names} {target} {target'} {l} {l'} (unknown e p) =
      turn-unknown name names target l e ∙ Passes-evaluate_rules p
  Passes-evaluate_rules {names = name ∷ names} {target} {target'} {l} {l'}
        (passed rule n e released p) =
      turn-released name names target l rule n e released ∙ Passes-evaluate_rules p

  pub Evaluation-cases :
      (e : Evaluation)
      → (e ≡ failed)
        ⊎ ((n : String) × (e ≡ decided true n))
        ⊎ ((n : String) × (e ≡ decided false n))
  Evaluation-cases failed = inl refl
  Evaluation-cases (decided true n) = inr (inl (n, refl))
  Evaluation-cases (decided false n) = inr (inr (n, refl))

  release-held : (t rule : String) → all_release t ≢ held_by rule
  release-held t rule e = cc

  release-error : (t : String) → all_release t ≢ rule_error
  release-error t e = cc

  pub evaluate_rules-Passes :
      (names : List String) (target target' : String) (l l' : Ledger)
      → evaluate_rules milli_value pod profile names target l ≡ (all_release target', l')
      → Passes names target l target' l'
  unfolding evaluate_rules
  evaluate_rules-Passes [] target target' l l' h =
      subst (λ v. Passes [] target l (target_of v.0) v.1) h over
  evaluate_rules-Passes (name ∷ names) target target' l l' h =
      elim (Option-cases (lookup name (registry milli_value))) [
        | inl e ↦ unknown e (
            evaluate_rules-Passes names target target' l l'
              (sym (turn-unknown name names target l e) ∙ h))
        | inr (rule, e) ↦ elim (Evaluation-cases (rule pod l profile).0) [
          | inl err ↦ absurd (
              release-error target'
                (sym (ap (λ r. r.0) (sym (turn-failed name names target l rule e err) ∙ h))))
          | inr (inl (n, released)) ↦ passed rule n e released (
              evaluate_rules-Passes names (next_target n target) target' (rule pod l profile).1 l'
                (sym (turn-released name names target l rule n e released) ∙ h))
          | inr (inr (n, held)) ↦ absurd (
              release-held target' name
                (sym (ap (λ r. r.0) (sym (turn-held name names target l rule n e held) ∙ h))))
        ]
      ]
