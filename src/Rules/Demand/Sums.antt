-- ===== src/Rules/Demand/Sums.antt =====
-- internal/rules/demand.go: the loops of `extractFromRequests` against a sum for each resource.
use mathlib.Core.Path.{subst}
use kompakt.Prelude.{
  ℕ, zero, suc, String, ◌==◌, eq_iff, ◌≡◌, refl, sym, ap, ◌∙◌, none, some, List, [], ◌∷◌, arith,
  Bool-cases, Option-cases, inl, inr, if◌then◌else◌,
}
use kompakt.Int.{ℤ, pos, ◌+ℤ◌, add64, wrap64, IsInt64, int_laws}
use kompakt.Int.Wrap.{add64-IsInt64, add64-zero, wrap64-add64, wrap64_zero}
use kompakt.Dict.{Dict, lookup, get_or, insert, missing, UniqueKeys}
use kompakt.Dict.Laws.{get_or-insert, insert-UniqueKeys}
use kompakt.Kube.{Quantity, Container, Pod}
use kompakt.Api.{DemandSource}
use kompakt.Rules.Demand.{
  add_request, add_requests, add_containers, extract_from_requests, extract_demand,
}

-- How often a resource is listed.
abbrev pub count : String → List String → ℕ
count res [] = 0
count res (r ∷ rs) = if r == res then suc (count res rs) else count res rs

abbrev pub times : ℕ → ℤ → ℤ
times zero x = pos 0
times (suc n) x = x +ℤ times n x

module _ (milli_value : Quantity → ℤ) where
  -- What a container requests of a resource: nothing, if it names none.
  abbrev pub requested : Container → String → ℤ
  requested c res = elim (lookup res c.requests) [ none ↦ pos 0 | some q ↦ milli_value q ]

  -- The exact sum over the containers, each request counted n times.
  abbrev pub total_requested : List Container → ℕ → String → ℤ
  total_requested [] n res = pos 0
  total_requested (c ∷ cs) n res = times n (requested c res) +ℤ total_requested cs n res

  add_request-get_or :
      (c : Container) (r res : String) (d : Dict ℤ)
      → IsInt64 (get_or (pos 0) res d)
      → get_or (pos 0) res (add_request milli_value c r d) ≡ (
          if r == res then add64 (get_or (pos 0) res d) (requested c res) else get_or (pos 0) res d)
  unfolding add_request
  add_request-get_or c r res d h = elim (Option-cases (lookup r c.requests)) [
    | inl absent ↦ ground (arith, eq_iff r res, add64-zero (get_or (pos 0) res d) h)
    | inr (q, e) ↦ ground (
      arith,
      eq_iff r res,
      get_or-insert (pos 0) r res (add64 (get_or (pos 0) r d) (milli_value q)) d,
    )
  ]

  add_request-IsInt64 :
      (c : Container) (r res : String) (d : Dict ℤ)
      → IsInt64 (get_or (pos 0) res d)
      → IsInt64 (get_or (pos 0) res (add_request milli_value c r d))
  add_request-IsInt64 c r res d h =
      rw (add_request-get_or c r res d h)
        (ground (arith, add64-IsInt64 (get_or (pos 0) res d) (requested c res)))

  add_requests-get_or :
      (c : Container) (resources : List String) (res : String) (d : Dict ℤ)
      → IsInt64 (get_or (pos 0) res d)
      → get_or (pos 0) res (add_requests milli_value c resources d)
        ≡ wrap64 (get_or (pos 0) res d +ℤ times (count res resources) (requested c res))
  unfolding add_requests
  add_requests-get_or c [] res d h = sym (wrap64_zero (get_or (pos 0) res d) h)
  add_requests-get_or c (r ∷ rs) res d h =
      add_requests-get_or c rs res (add_request milli_value c r d) (add_request-IsInt64 c r res d h)
      ∙ ap (λ a. wrap64 (a +ℤ times (count res rs) (requested c res)))
          (add_request-get_or c r res d h)
      ∙ elim (Bool-cases (r == res)) [
        | inl e ↦ rw e (wrap64-add64 (get_or (pos 0) res d) (requested c res) _)
        | inr e ↦ rw e refl
      ]

  add_requests-add64 :
      (c : Container) (resources : List String) (res : String) (d : Dict ℤ)
      → IsInt64 (get_or (pos 0) res d)
      → get_or (pos 0) res (add_requests milli_value c resources d)
        ≡ add64 (get_or (pos 0) res d) (times (count res resources) (requested c res))
  unfolding add64
  add_requests-add64 c resources res d h = add_requests-get_or c resources res d h

  add_containers-get_or :
      (cs : List Container) (resources : List String) (res : String) (d : Dict ℤ)
      → IsInt64 (get_or (pos 0) res d)
      → get_or (pos 0) res (add_containers milli_value cs resources d)
        ≡ wrap64 (get_or (pos 0) res d +ℤ total_requested cs (count res resources) res)
  unfolding add_containers
  add_containers-get_or [] resources res d h = sym (wrap64_zero (get_or (pos 0) res d) h)
  add_containers-get_or (c ∷ cs) resources res d h =
      add_containers-get_or cs resources res (add_requests milli_value c resources d)
        (rw (add_requests-add64 c resources res d h) (add64-IsInt64 _ _))
      ∙ ap (λ a. wrap64 (a +ℤ total_requested cs (count res resources) res))
          (add_requests-add64 c resources res d h)
      ∙ wrap64-add64 (get_or (pos 0) res d) (times (count res resources) (requested c res)) _

  -- The demand of a resource is the int64 value of the sum of all containers' requests for it,
  -- counted as often as the list of resources names it.
  pub extract_from_requests-sum :
      (pod : Pod) (resources : List String) (res : String)
      → get_or (pos 0) res (extract_from_requests milli_value pod resources)
        ≡ wrap64 (total_requested pod.containers (count res resources) res)
  unfolding extract_from_requests get_or
  extract_from_requests-sum pod resources res =
      let zero_add : pos 0 +ℤ total_requested pod.containers (count res resources) res
          ≡ total_requested pod.containers (count res resources) res =
        omega int_laws in
      add_containers-get_or pod.containers resources res [] (omega arith) ∙ ap wrap64 zero_add

  add_request-UniqueKeys :
      (c : Container) (r : String) (d : Dict ℤ)
      → UniqueKeys d
      → UniqueKeys (add_request milli_value c r d)
  unfolding add_request
  add_request-UniqueKeys c r d u = elim (Option-cases (lookup r c.requests)) [
    | inl absent ↦ ground arith
    | inr (q, e) ↦
        let d' : Dict ℤ = insert r (add64 (get_or (pos 0) r d) (milli_value q)) d in
        let u' : UniqueKeys d' = insert-UniqueKeys r _ d u in
        let same : add_request milli_value c r d ≡ d' = ground arith in
        subst (λ x. UniqueKeys x) (sym same) u'
  ]

  add_requests-UniqueKeys :
      (c : Container) (resources : List String) (d : Dict ℤ)
      → UniqueKeys d
      → UniqueKeys (add_requests milli_value c resources d)
  unfolding add_requests
  add_requests-UniqueKeys c [] d u = u
  add_requests-UniqueKeys c (r ∷ rs) d u =
      add_requests-UniqueKeys c rs (add_request milli_value c r d) (add_request-UniqueKeys c r d u)

  add_containers-UniqueKeys :
      (cs : List Container) (resources : List String) (d : Dict ℤ)
      → UniqueKeys d
      → UniqueKeys (add_containers milli_value cs resources d)
  unfolding add_containers
  add_containers-UniqueKeys [] resources d u = u
  add_containers-UniqueKeys (c ∷ cs) resources d u =
      add_containers-UniqueKeys cs resources (add_requests milli_value c resources d)
        (add_requests-UniqueKeys c resources d u)

  pub extract_demand-UniqueKeys :
      (pod : Pod) (source : DemandSource) → UniqueKeys (extract_demand milli_value pod source)
  unfolding extract_demand missing
  extract_demand-UniqueKeys pod source = ground (
    arith,
    add_containers-UniqueKeys pod.containers source.resources [] tt,
    add_containers-UniqueKeys pod.containers ("cpu" ∷ "memory" ∷ source.additional_resources) [] tt,
  )
