-- ===== src/Manager/Dependencies/Sort.antt =====
-- TopologicalSort (internal/manager/dependencies.go): the loop starts in a good round, so it ends in one.
use elnssm.Common.{
  ◌+◌, ◌≤◌, pos, String, str_eq, List, [], ◌∷◌, ◌++◌, some, false, Dict, times, length, ◌≡◌, refl,
  ap, arith,
}
use elnssm.Model.{Service, ServiceDependency}
use elnssm.Manager.Dependencies.Defs.{
  Edge, Degrees, outcome, edges_of, edges, all_ids, empty_tables, add_edges, roots,
  topological_sort,
}
use elnssm.Manager.Dependencies.Release.{
  waiting, dependents, degree-add_edges, reverse-add_edges, times-roots,
}
use elnssm.Manager.Dependencies.Order.{IsOrderedAfter, due, IsRound, kahn_ends}

-- Each service has one entry.
abbrev pub IsMap : Dict Service → Type 0
IsMap services = (x : String) → times x (all_ids services) ≤ 1

waiting-append :
    (es fs : List Edge) (done : List String) (x : String)
    → waiting (es ++ fs) done x ≡ waiting es done x + waiting fs done x
waiting-append [] fs done x = omega arith
waiting-append ((id, dep) ∷ es) fs done x = ground (arith, waiting-append es fs done x)

waiting-edges_of :
    (id : String) (ds : List ServiceDependency) (done : List String) (x : String)
    → str_eq id x ≡ false
    → waiting (edges_of id ds) done x ≡ 0
waiting-edges_of id [] done x h = refl
waiting-edges_of id (d ∷ ds) done x h = ground (arith, waiting-edges_of id ds done x h, h)

pub waiting-edges :
    (services : Dict Service) (x : String) (done : List String)
    → times x (all_ids services) ≡ 0
    → waiting (edges services) done x ≡ 0
unfolding edges all_ids
waiting-edges [] x done h = refl
waiting-edges ((id, svc) ∷ services) x done h = ground (
  arith,
  waiting-append (edges_of id svc.dependencies) (edges services) done x,
  waiting-edges_of id svc.dependencies done x,
  waiting-edges services x done,
)

module _ (services : Dict Service) (unique : IsMap services) where
  abbrev pub es : List Edge
  es = edges services

  abbrev pub ids : List String
  ids = all_ids services

  abbrev reverse : String → List String
  reverse = (add_edges es empty_tables).reverse

  abbrev degrees : Degrees
  degrees = (add_edges es empty_tables).in_degree

  abbrev reversed : (x : String) → reverse x ≡ dependents es x
  reversed x = reverse-add_edges es empty_tables x

  first_degree : (x : String) → degrees x ≡ pos (waiting es [] x)
  first_degree x = ground (arith, degree-add_edges es empty_tables x 0)

  first-IsRound :
      IsRound es ids unique (waiting-edges services) reverse reversed degrees (roots degrees ids) []
  first-IsRound = record {
    degree = first_degree;
    placed = λ x. ground (arith, times-roots degrees ids x (waiting es [] x) (first_degree x));
    ordered = tt;
  }

  abbrev pub Ends : Type 0
  Ends =
      (order : List String) × (topological_sort services ≡ outcome (length ids) (some order))
      × ((x : String) → times x order ≡ due (waiting es order x) (times x ids))
      × IsOrderedAfter es [] order

  pub sort_ends : Ends
  unfolding topological_sort
  sort_ends =
      let (order, e, placed, ordered) =
        kahn_ends es ids unique (waiting-edges services) reverse reversed (length ids) degrees
          (roots degrees ids) [] (omega arith) first-IsRound in
      (order, ap (outcome (length ids)) e, placed, ordered)
