-- ===== src/Manager/Registry/Startup.antt =====
-- internal/manager/manager.go: what AutoStart starts, and what LoadAll finds after Remove.
use elnssm.Common.{
  ℤ, String, str_eq, str_eq_iff, str_eq_refl, List, [], ◌∷◌, Option, none, some, Bool, true, false,
  ◌||◌, Dict, lookup, is_some, times, ◌≡◌, inl, inr, refl, ap, sym, subst, ◌∙◌, arith, Option-cases,
  Bool-cases, if◌then◌else◌,
}
use elnssm.Model.{Service, is_running, is_starting}
use elnssm.Config.Yaml.{ServiceConfigYaml}
use elnssm.Config.Texts.{Texts}
use elnssm.Config.Load.{to_service}
use elnssm.Scheduler.Defs.{Cron}
use elnssm.Manager.State.{ManagedService}
use elnssm.Manager.Dependencies.Defs.{
  Outcome, sorted, circular, out_of_fuel, all_ids, topological_sort,
}
use elnssm.Manager.Dependencies.Sort.{IsMap}
use elnssm.Manager.Dependencies.Result.{topological_sort-sorted}
use elnssm.Manager.Registry.Defs.{
  configs, start_plan, plan_one, plan, start_order, auto_start, Writes, Registry, remove,
  remove_found, load_all_service_configs, load_found, load_registry,
}
use elnssm.Manager.Registry.Jobs.{is_listed, lookup-load_services}

abbrev pub names : List (String × ℤ) → List String
names [] = []
names ((id, delay) ∷ starts) = id ∷ names starts

-- Whether AutoStart is for the service.
abbrev pub is_planned : Option ManagedService → Bool
is_planned none = false
is_planned (some ms) = is_some (start_plan ms.config.startup_type ms.config.start_delay)

names-plan_one :
    (id : String) (o : Option ManagedService) (rest : List (String × ℤ))
    → names (plan_one id o rest) ≡ (if is_planned o then id ∷ names rest else names rest)
names-plan_one id none rest = refl
names-plan_one id (some ms) rest = ground arith

times-plan :
    (services : Dict ManagedService) (ids : List String) (x : String)
    → times x (names (plan services ids))
      ≡ (if is_planned (lookup x services) then times x ids else 0)
unfolding plan
times-plan services [] x = ground arith
times-plan services (id ∷ ids) x = elim (Bool-cases (str_eq id x)) [
  | inl h ↦
      let same = ap (λ (i : String). is_planned (lookup i services)) ((str_eq_iff id x).0 h) in
      ground (
        arith,
        h,
        same,
        times-plan services ids x,
        ap (times x) (names-plan_one id (lookup id services) (plan services ids)),
      )
  | inr h ↦ ground (
    arith,
    h,
    times-plan services ids x,
    ap (times x) (names-plan_one id (lookup id services) (plan services ids)),
  )
]

times-start_order :
    (services : Dict Service) (o : Outcome) (x : String)
    → IsMap services
    → topological_sort services ≡ o
    → times x (start_order (all_ids services) o) ≡ times x (all_ids services)
times-start_order services (sorted order) x unique e =
    (topological_sort-sorted services order unique e).0 x
times-start_order services circular x unique e = refl
times-start_order services out_of_fuel x unique e = refl

-- AutoStart starts each service with an automatic startup type exactly once and no other, also when
-- the sort of the dependencies reports a cycle.
pub auto_start_once :
    (services : Dict ManagedService) (x : String)
    → IsMap (configs services)
    → times x (names (auto_start services))
      ≡ (if is_planned (lookup x services) then times x (all_ids (configs services)) else 0)
unfolding auto_start
auto_start_once services x unique =
    let o = topological_sort (configs services) in
    times-plan services (start_order (all_ids (configs services)) o) x
    ∙ rw (times-start_order (configs services) o x unique refl) refl

module _ (g : Texts) (cron : Cron) where
  removed_files :
      (w : Writes) (id : String) (r : Registry g cron) (o : Option ManagedService)
      → (remove_found g cron w id r o).0.files ≡ r.files
  removed_files w id r none = refl
  removed_files w id r (some ms) =
      elim (Bool-cases (is_running ms.config.state || is_starting ms.config.state)) [
        | inl e ↦ rw e refl
        | inr e ↦ rw e refl
      ]

  files-remove :
      (w : Writes) (id : String) (r : Registry g cron) → (remove g cron w id r).0.files ≡ r.files
  unfolding remove
  files-remove w id r = removed_files w id r (lookup id r.services)

  listed :
      (files : Dict ServiceConfigYaml) (id : String) (yaml : ServiceConfigYaml) (svc : Service)
      (svcs : List Service)
      → lookup id files ≡ some yaml
      → to_service g yaml ≡ some svc
      → svc.id ≡ id
      → load_all_service_configs g cron files ≡ some svcs
      → is_listed id svcs ≡ true
  unfolding lookup load_all_service_configs
  listed [] id yaml svc svcs f y e l = absurd (ground (arith, f))
  listed ((name, first) ∷ files) id yaml svc svcs f y e l =
      elim (Option-cases (to_service g first)) [
        | inl n ↦ absurd (ground (arith, n, l))
        | inr (svc1, s1) ↦ elim (Option-cases (load_all_service_configs g cron files)) [
          | inl n ↦ absurd (ground (arith, n, s1, l))
          | inr (rest, r) ↦
              ground (arith, f, y, e, l, s1, r, str_eq_refl id, listed files id yaml svc rest)
        ]
      ]

  load_found-listed :
      (readable : Bool) (id : String) (r : Registry g cron) (svcs : List Service)
      → is_listed id svcs ≡ true
      → is_some (lookup id (load_found g cron readable r (some svcs)).0.services) ≡ true
  load_found-listed readable id r svcs l =
      rw (lookup-load_services g cron readable id svcs r, l) refl

  -- A service that has a configuration file is in the map again after it was removed and all services
  -- were loaded anew: Remove leaves the file. All files of the directory are valid.
  pub remove-load_registry :
      (w : Writes) (readable : Bool) (id : String) (r : Registry g cron) (yaml : ServiceConfigYaml)
      (svc : Service) (svcs : List Service)
      → lookup id r.files ≡ some yaml
      → to_service g yaml ≡ some svc
      → svc.id ≡ id
      → load_all_service_configs g cron r.files ≡ some svcs
      → is_some (lookup id (load_registry g cron readable (remove g cron w id r).0).0.services)
        ≡ true
  unfolding load_registry
  remove-load_registry w readable id r yaml svc svcs f y e l =
      let r1 = (remove g cron w id r).0 in
      subst (λ o. is_some (lookup id (load_found g cron readable r1 o).0.services) ≡ true)
        (sym (ap (load_all_service_configs g cron) (files-remove w id r) ∙ l))
        (load_found-listed readable id r1 svcs (listed r.files id yaml svc svcs f y e l))
