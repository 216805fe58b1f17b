-- ===== src/Metrics/Accepted.antt =====
-- The updates of the program's metrics against the collectors that are registered.
use kompakt.Prelude.{
  String, ◌≡◌, refl, true, false, Option, none, some, List, [], ◌∷◌, length, All, Option-cases, inl,
  inr,
}
use kompakt.Int.{ℤ, pos}
use kompakt.Inflight.{InflightNode}
use kompakt.Dict.{lookup}
use kompakt.Kube.{Quantity, Pod}
use kompakt.Api.{PackingProfile}
use kompakt.Ledger.{Ledger}
use kompakt.Rules.{Rule, Evaluation, decided, failed, registry}
use kompakt.Controller.Sync.{Detection}
use kompakt.Controller.Records.{record_release, ledger_gauges, detector_gauges, rule_updates}
use kompakt.Webhook.{Response, errored, allowed, denied, patched}
use kompakt.Webhook.Records.{told}
use kompakt.Metrics.{
  Update, increment, observe, set_gauge, ledger_inflight_nodes, rule_evaluations_total,
  rule_evaluation_duration, accepts,
}

abbrev AllAccepted : List Update → Type 0
AllAccepted us = All (λ u. accepts u ≡ true) us

record_release-AllAccepted :
    (now : ℤ) (pod : Pod) (profile_name reason target_node : String)
    → AllAccepted (record_release now pod profile_name reason target_node).0
unfolding record_release accepts
record_release-AllAccepted now pod profile_name reason target_node =
    elim (Option-cases pod.creation) [
      | inl e ↦ rw e (refl, tt)
      | inr (created, e) ↦ rw e (refl, (refl, tt))
    ]

ledger_gauges-AllAccepted : (l : Ledger) → AllAccepted (ledger_gauges l)
unfolding ledger_gauges accepts
ledger_gauges-AllAccepted l = (refl, (refl, (refl, tt)))

detector_gauges-AllAccepted : (ds : List Detection) → AllAccepted (detector_gauges ds)
unfolding detector_gauges accepts
detector_gauges-AllAccepted [] = tt
detector_gauges-AllAccepted (d ∷ ds) = go (detector_gauges-AllAccepted ds) d.found
  where
    go :
        AllAccepted (detector_gauges ds)
        → (o : Option (List InflightNode))
        → AllAccepted (elim o as (λ _. List Update) [
          | none ↦ detector_gauges ds
          | some nodes ↦
              set_gauge ledger_inflight_nodes (d.name ∷ []) (pos (length nodes))
              ∷ elim nodes as (λ _. List Update) [ [] ↦ detector_gauges ds | _ ∷ _ ↦ [] ]
        ])
    go again none = again
    go again (some []) = (refl, again)
    go again (some (n ∷ ns)) = (refl, tt)

module _ (milli_value : Quantity → ℤ) (pod : Pod) (profile : PackingProfile)
    (took : String → ℤ) where
  rule_updates-AllAccepted :
      (names : List String) (l : Ledger)
      → AllAccepted (rule_updates milli_value pod profile took names l)
  unfolding rule_updates accepts
  rule_updates-AllAccepted [] l = tt
  rule_updates-AllAccepted (name ∷ names) l =
      go (λ l'. rule_updates-AllAccepted names l') (lookup name (registry milli_value))
    where
      answered :
          ((l' : Ledger) → AllAccepted (rule_updates milli_value pod profile took names l'))
          → (e : Evaluation) (l' : Ledger)
          → AllAccepted (elim e as (λ _. List Update) [
            | failed ↦ increment rule_evaluations_total (name ∷ "error" ∷ []) ∷ []
            | decided release node_name ↦ elim release as (λ _. List Update) [
              | false ↦ increment rule_evaluations_total (name ∷ "hold" ∷ []) ∷ []
              | true ↦
                  increment rule_evaluations_total (name ∷ "release" ∷ [])
                  ∷ rule_updates milli_value pod profile took names l'
            ]
          ])
      answered again failed l' = (refl, tt)
      answered again (decided false n) l' = (refl, tt)
      answered again (decided true n) l' = (refl, again l')

      go :
          ((l' : Ledger) → AllAccepted (rule_updates milli_value pod profile took names l'))
          → (o : Option (Rule milli_value))
          → AllAccepted (elim o as (λ _. List Update) [
            | none ↦ rule_updates milli_value pod profile took names l
            | some rule ↦
                observe rule_evaluation_duration (name ∷ []) (took name)
                ∷ elim (rule pod l profile).0 as (λ _. List Update) [
                  | failed ↦ increment rule_evaluations_total (name ∷ "error" ∷ []) ∷ []
                  | decided release node_name ↦ elim release as (λ _. List Update) [
                    | false ↦ increment rule_evaluations_total (name ∷ "hold" ∷ []) ∷ []
                    | true ↦
                        increment rule_evaluations_total (name ∷ "release" ∷ [])
                        ∷ rule_updates milli_value pod profile took names (rule pod l profile).1
                  ]
                ]
          ])
      go again none = again l
      go again (some rule) = (refl, answered again (rule pod l profile).0 (rule pod l profile).1)

told-AllAccepted : (elapsed : ℤ) (response : Response) → AllAccepted (told elapsed response)
unfolding accepts
told-AllAccepted elapsed (errored code) = tt
told-AllAccepted elapsed (allowed reason) = (refl, (refl, tt))
told-AllAccepted elapsed (denied reason) = (refl, (refl, tt))
told-AllAccepted elapsed (patched raw out) = (refl, (refl, tt))
