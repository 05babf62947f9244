-- ===== src/Examples/Order.antt =====
-- The start order of a web service and its database.
use elnssm.Common.{ℕ, pos, String, str_eq_iff, List, [], ◌∷◌, Dict, times, ◌≡◌, ◌≢◌, refl, arith}
use elnssm.Model.{Service, DependencyType}
use elnssm.Manager.State.{ManagedService}
use elnssm.Manager.Dependencies.Defs.{
  sorted, out_of_fuel, edges, all_ids, add_edges, roots, release, kahn, topological_sort,
}
use elnssm.Manager.Dependencies.Order.{IsOrderedAfter}
use elnssm.Manager.Dependencies.Sort.{IsMap}
use elnssm.Manager.Dependencies.Result.{
  topological_sort-ends, topological_sort-sorted, topological_sort_complete,
}
use elnssm.Manager.Registry.Defs.{configs, new_managed_service}
use elnssm.Examples.Data.{web}

abbrev db : Service
db = record web { id = "db" }

abbrev front : Service
front = record web {
  dependencies = record { service_id = "db"; type = DependencyType.running; timeout = pos 0 } ∷ [];
}

abbrev pair : Dict Service
pair = ("web", front) ∷ ("db", db) ∷ []

-- The database is missing.
abbrev alone : Dict Service
alone = ("web", front) ∷ []

pair-IsMap : IsMap pair
unfolding all_ids
pair-IsMap x = ground (arith, str_eq_iff "web" x, str_eq_iff "db" x, str_eq_iff "web" "db")

alone-IsMap : IsMap alone
unfolding all_ids
alone-IsMap x = ground (arith, str_eq_iff "web" x)

pair_order : topological_sort pair ≡ sorted ("db" ∷ "web" ∷ [])
unfolding topological_sort edges all_ids add_edges roots release kahn
pair_order = refl

topological_sort-ends_example : topological_sort pair ≢ out_of_fuel
topological_sort-ends_example = topological_sort-ends pair pair-IsMap

topological_sort-sorted_example :
    ((x : String) → times x ("db" ∷ "web" ∷ []) ≡ times x (all_ids pair))
    × IsOrderedAfter (edges pair) [] ("db" ∷ "web" ∷ [])
topological_sort-sorted_example =
    topological_sort-sorted pair ("db" ∷ "web" ∷ []) pair-IsMap pair_order

abbrev rank : String → ℕ
rank id = times id ("web" ∷ [])

topological_sort_complete_example : (order : List String) × (topological_sort pair ≡ sorted order)
unfolding edges all_ids
topological_sort_complete_example =
    topological_sort_complete pair rank pair-IsMap (omega arith, omega arith, tt)

abbrev fleet : Dict ManagedService
fleet = ("web", new_managed_service 0 front) ∷ ("db", new_managed_service 1 db) ∷ []

fleet-IsMap : IsMap (configs fleet)
unfolding configs all_ids new_managed_service
fleet-IsMap x = ground (arith, str_eq_iff "web" x, str_eq_iff "db" x, str_eq_iff "web" "db")
