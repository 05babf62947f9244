-- ===== src/Manager/Dependencies/Result.antt =====
-- TopologicalSort (internal/manager/dependencies.go): what its result says of the services.
use elnssm.Common.{
  ℕ, zero, suc, ◌≤◌, ◌<◌, String, str_eq_iff, List, [], ◌∷◌, some, Dict, times, length,
  length-le_of_times, times-eq_of_length, ◌≡◌, ◌≢◌, refl, sym, subst, ◌∙◌, arith,
}
use elnssm.Model.{Service}
use elnssm.Manager.Dependencies.Defs.{
  Edge, sorted, circular, out_of_fuel, outcome, edges, all_ids, topological_sort,
}
use elnssm.Manager.Dependencies.Release.{waiting, dependents}
use elnssm.Manager.Dependencies.Order.{IsOrderedAfter, due}
use elnssm.Manager.Dependencies.Sort.{IsMap, waiting-edges, sort_ends}

-- Each dependency is a service, and is of a lower rank than what depends on it.
abbrev pub IsRanked : (String → ℕ) → List String → List Edge → Type 0
IsRanked rank ids [] = Unit
IsRanked rank ids ((id, dep) ∷ es) =
    (rank dep < rank id) × (0 < times dep ids) × IsRanked rank ids es

outcome_complete :
    (n : ℕ) (order : List String) → length order ≡ n → outcome n (some order) ≡ sorted order
outcome_complete n order e = ground (arith, e)

outcome-sorted :
    (n : ℕ) (o order : List String)
    → outcome n (some o) ≡ sorted order
    → (o ≡ order) × (length o ≡ n)
outcome-sorted n o order e = ground (arith, e)

outcome-partial : (n : ℕ) (o : List String) → length o ≢ n → outcome n (some o) ≡ circular
outcome-partial n o e = ground (arith, e)

outcome-ends : (n : ℕ) (o : List String) → outcome n (some o) ≢ out_of_fuel
outcome-ends n o e = ground (arith, e)

-- The sort always ends: no service enters the queue twice, whatever the dependencies are.
pub topological_sort-ends :
    (services : Dict Service) → IsMap services → topological_sort services ≢ out_of_fuel
topological_sort-ends services unique e =
    let ends = sort_ends services unique in
    outcome-ends (length (all_ids services)) ends.0 (sym ends.1 ∙ e)

-- The order that the sort returns holds each service exactly once and nothing else, and in it each
-- service stands after all its dependencies.
pub topological_sort-sorted :
    (services : Dict Service) (order : List String)
    → IsMap services
    → topological_sort services ≡ sorted order
    → ((x : String) → times x order ≡ times x (all_ids services))
      × IsOrderedAfter (edges services) [] order
topological_sort-sorted services order unique e =
    let ends = sort_ends services unique in
    let same = outcome-sorted (length (all_ids services)) ends.0 order (sym ends.1 ∙ e) in
    let within : (x : String) → times x ends.0 ≤ times x (all_ids services) =
      λ x. ground (arith, ends.2 x) in
    subst
      (λ (o : List String).
        ((x : String) → times x o ≡ times x (all_ids services))
        × IsOrderedAfter (edges services) [] o)
      same.0 (times-eq_of_length ends.0 (all_ids services) within (omega (arith, same.1)), ends.3)

ready-of_ranks :
    (rank : String → ℕ) (ids order : List String) (es : List Edge) (x : String)
    → IsRanked rank ids es
    → ((y : String) → rank y < rank x → times y order ≡ times y ids)
    → waiting es order x ≡ 0
ready-of_ranks rank ids order [] x r below = refl
ready-of_ranks rank ids order ((id, dep) ∷ es) x r below =
    ground
      (arith, r.0, r.1, below dep, str_eq_iff id x, ready-of_ranks rank ids order es x r.2 below)

module _ (rank : String → ℕ) (ids order : List String) (es : List Edge)
    (ranked : IsRanked rank ids es)
    (placed : (x : String) → times x order ≡ due (waiting es order x) (times x ids)) where
  all_placed : (k : ℕ) (x : String) → rank x < k → times x order ≡ times x ids
  all_placed zero x l = absurd (omega (arith, l))
  all_placed (suc k) x l =
      let below : (y : String) → rank y < rank x → times y order ≡ times y ids =
        λ y m. all_placed k y (omega (arith, m, l)) in
      ground (arith, placed x, ready-of_ranks rank ids order es x ranked below)

-- If the dependencies have no cycle (they go down in some rank) and all of them are services, the sort
-- returns an order.
pub topological_sort_complete :
    (services : Dict Service) (rank : String → ℕ)
    → IsMap services
    → IsRanked rank (all_ids services) (edges services)
    → (order : List String) × (topological_sort services ≡ sorted order)
topological_sort_complete services rank unique ranked =
    let ends = sort_ends services unique in
    let ids = all_ids services in
    let same : (x : String) → times x ends.0 ≡ times x ids = λ x.
      all_placed rank ids ends.0 (edges services) ranked ends.2 (suc (rank x)) x (omega arith) in
    let at_most = length-le_of_times ends.0 ids (λ x. omega (arith, same x)) in
    let at_least = length-le_of_times ids ends.0 (λ x. omega (arith, same x)) in
    (ends.0, ends.1 ∙ outcome_complete (length ids) ends.0 (omega (arith, at_most, at_least)))

waiting-dependents :
    (es : List Edge) (done : List String) (x dep : String)
    → 0 < times x (dependents es dep)
    → times dep done ≡ 0
    → 0 < waiting es done x
waiting-dependents [] done x dep h z = absurd (omega (arith, h))
waiting-dependents ((id, d) ∷ es) done x dep h z =
    ground (arith, h, z, str_eq_iff d dep, str_eq_iff id x, waiting-dependents es done x dep)

-- A dependency on an identifier that is no service makes the sort report a cycle, also where there is none.
pub topological_sort-unknown :
    (services : Dict Service) (x dep : String)
    → IsMap services
    → 0 < times x (dependents (edges services) dep)
    → times dep (all_ids services) ≡ 0
    → topological_sort services ≡ circular
topological_sort-unknown services x dep unique depends unknown =
    let ends = sort_ends services unique in
    let ids = all_ids services in
    let within : (y : String) → times y ends.0 ≤ times y ids = λ y. ground (arith, ends.2 y) in
    let incomplete : length ends.0 ≢ length ids = λ e.
      let same = times-eq_of_length ends.0 ids within (omega (arith, e)) in
      ground (
        arith,
        same x,
        same dep,
        ends.2 x,
        waiting-dependents (edges services) ends.0 x dep depends,
        waiting-dependents (edges services) [] x dep depends,
        waiting-edges services x [],
      ) in
    ends.1 ∙ outcome-partial (length ids) ends.0 incomplete
