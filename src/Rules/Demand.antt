-- ===== src/Rules/Demand.antt =====
-- internal/rules/demand.go: what a pod demands.
pub mod Sums
use kompakt.Prelude.{
  ℕ, suc, ◌+◌, ◌-◌, ◌*◌, ◌^◌, String, ◌==◌, Bool, true, false, Option, none, some, List, [], ◌∷◌,
  ◌++◌, leb, ltb, nat_eq, is_empty, ◌&&◌, not, if◌then◌else◌,
}
use kompakt.Int.{ℤ, pos, negsuc, add64}
use kompakt.Dict.{Dict, lookup, get_or, insert}
use kompakt.Strconv.{parse_int64}
use kompakt.Kube.{Quantity, Container, Pod}
use kompakt.Api.{DemandSource}

module _ (milli_value : Quantity → ℤ) where
  -- `demand[res] += qty.MilliValue()`, or `continue` where the container requests none.
  unfoldable pub add_request : Container → String → Dict ℤ → Dict ℤ
  unfolding lookup get_or insert
  add_request container res demand = elim (lookup res container.requests) [
    | none ↦ demand
    | some qty ↦ insert res (add64 (get_or (pos 0) res demand) (milli_value qty)) demand
  ]

  -- The inner loop of `extractFromRequests`.
  unfoldable pub add_requests : Container → List String → Dict ℤ → Dict ℤ
  unfolding add_request
  add_requests container [] demand = demand
  add_requests container (res ∷ resources) demand =
      add_requests container resources (add_request container res demand)

  -- The outer loop of `extractFromRequests`.
  unfoldable pub add_containers : List Container → List String → Dict ℤ → Dict ℤ
  unfolding add_requests
  add_containers [] resources demand = demand
  add_containers (c ∷ containers) resources demand =
      add_containers containers resources (add_requests c resources demand)

  -- `extractFromRequests`
  unfoldable pub extract_from_requests : Pod → List String → Dict ℤ
  unfolding add_containers
  extract_from_requests pod resources = add_containers pod.containers resources []

  -- `extractFromAnnotation`
  unfoldable pub extract_from_annotation : Pod → String → Dict ℤ
  unfolding lookup parse_int64
  extract_from_annotation pod annotation = elim (lookup annotation pod.annotations) [
    | none ↦ []
    | some val ↦ elim (parse_int64 val) [ none ↦ [] | some qty ↦ (annotation, qty) ∷ [] ]
  ]

  -- `ExtractDemand`
  unfoldable pub extract_demand : Pod → DemandSource → Dict ℤ
  unfolding extract_from_requests extract_from_annotation
  extract_demand pod source =
      if source.kind == "ResourceRequest"
      then if not (is_empty source.resources)
        then extract_from_requests pod source.resources
        else extract_from_requests pod (("cpu" ∷ "memory" ∷ []) ++ source.additional_resources)
      else if source.kind == "Annotation"
      then extract_from_annotation pod source.annotation
      else []
