-- ===== src/Manager/Dependencies/Defs.antt =====
-- internal/manager/dependencies.go: TopologicalSort. The map of services is an association list with
-- each key once, and the tables are functions, which give the zero value for a missing key.
use elnssm.Common.{
  ℕ, zero, suc, ℤ, pos, negsuc, ◌+ℤ◌, eqb_ℤ, String, str_eq, List, [], ◌∷◌, ◌++◌, Option, none,
  some, Dict, length, ◌==◌, if◌then◌else◌,
}
use elnssm.Model.{Service, ServiceDependency}

-- The service on the left depends on the one on the right.
abbrev pub Edge : Type 0
Edge = String × String

abbrev pub edges_of : String → List ServiceDependency → List Edge
edges_of id [] = []
edges_of id (d ∷ ds) = (id, d.service_id) ∷ edges_of id ds

-- `graph`, in one of the orders in which Go may range over it.
unfoldable pub edges : Dict Service → List Edge
edges [] = []
edges ((id, svc) ∷ services) = edges_of id svc.dependencies ++ edges services

-- `allIDs`
unfoldable pub all_ids : Dict Service → List String
all_ids [] = []
all_ids ((id, svc) ∷ services) = id ∷ all_ids services

abbrev pub Degrees : Type 0
Degrees = String → ℤ

pub record Tables : Type 0 where
  pub in_degree : Degrees
  pub reverse : String → List String

-- inDegree[id] += by
abbrev pub bump : String → ℤ → Degrees → Degrees
bump id by degrees x = if str_eq id x then degrees x +ℤ by else degrees x

-- reverse[dep] = append(reverse[dep], id)
abbrev pub push : String → String → (String → List String) → String → List String
push dep id reverse x = if str_eq dep x then reverse x ++ id ∷ [] else reverse x

abbrev pub empty_tables : Tables
empty_tables = record { in_degree = λ x. pos 0; reverse = λ x. [] }

unfoldable pub add_edges : List Edge → Tables → Tables
add_edges [] t = t
add_edges ((id, dep) ∷ es) t =
    add_edges es
      (record { in_degree = bump id (pos 1) t.in_degree; reverse = push dep id t.reverse })

-- The first queue: the services with no dependencies.
unfoldable pub roots : Degrees → List String → List String
roots degrees [] = []
roots degrees (id ∷ ids) =
    let rest = roots degrees ids in if eqb_ℤ (degrees id) (pos 0) then id ∷ rest else rest

-- The loop over reverse[node].
unfoldable pub release : List String → Degrees → List String → Degrees × List String
release [] degrees queue = (degrees, queue)
release (dependent ∷ rest) degrees queue =
    let fewer : Degrees = bump dependent (negsuc 0) degrees in
    release rest fewer (if eqb_ℤ (fewer dependent) (pos 0) then queue ++ dependent ∷ [] else queue)

-- The loop over the queue; none where the fuel runs out.
unfoldable pub kahn :
    ℕ → (String → List String) → Degrees → List String → List String → Option (List String)
unfolding release
kahn fuel reverse degrees [] sorted = some sorted
kahn zero reverse degrees (node ∷ queue) sorted = none
kahn (suc fuel) reverse degrees (node ∷ queue) sorted =
    let next : Degrees × List String = release (reverse node) degrees queue in
    kahn fuel reverse next.0 next.1 (sorted ++ node ∷ [])

pub data Outcome : Type 0 where
  sorted : List String → Outcome
  circular out_of_fuel : Outcome

abbrev pub outcome : ℕ → Option (List String) → Outcome
outcome n none = out_of_fuel
outcome n (some order) = if length order == n then sorted order else circular

-- Each node enters the queue at most once, so there are no more rounds than services. Go's
-- ranges over the map and over its identifiers may differ in order; here both have the list's.
unfoldable pub topological_sort : Dict Service → Outcome
unfolding edges all_ids add_edges roots kahn
topological_sort services =
    let ids = all_ids services in
    let t = add_edges (edges services) empty_tables in
    outcome (length ids) (kahn (length ids) t.reverse t.in_degree (roots t.in_degree ids) [])
