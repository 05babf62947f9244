-- ===== src/Manager/Registry/Jobs.antt =====
-- internal/manager/manager.go with internal/scheduler: LoadAll, and what a triggered job can call.
use elnssm.Common.{
  ℕ, suc, String, str_eq, str_eq_refl, List, [], ◌∷◌, Option, none, some, Bool, true, false, ◌||◌,
  lookup, insert, lookup-insert, is_some, elem, any, ◌≡◌, inl, inr, refl, ◌∙◌, arith, Bool-cases,
}
use elnssm.Model.{Service}
use elnssm.Config.Texts.{Texts}
use elnssm.Scheduler.Defs.{Job, Cron, IsCron, Scheduler, entries_of, update_service_jobs, load_all}
use elnssm.Scheduler.Ownership.{loading, Step-IsExact}
use elnssm.Manager.State.{is_empty}
use elnssm.Manager.Registry.Defs.{
  Writes, Registry, add, remove, update, load_services, load_found, load_registry,
  load_all_service_configs, get_service_state, restore, new_managed_service,
}
use elnssm.Manager.Registry.Schedules.{
  entries-add_jobs, IsScheduled, add-IsScheduled, remove-IsScheduled, update-IsScheduled,
}

abbrev pub is_listed : String → List Service → Bool
is_listed id svcs = any (λ svc. str_eq svc.id id) svcs

entries-load_all :
    (cron : Cron) (id : String) (svcs : List Service) (s : Scheduler cron)
    → is_listed id svcs ≡ false
    → entries_of cron id (load_all cron svcs s) ≡ entries_of cron id s
unfolding load_all
entries-load_all cron id [] s h = refl
entries-load_all cron id (svc ∷ svcs) s h =
    entries-load_all cron id svcs (update_service_jobs cron svc s) (ground (arith, h))
    ∙ entries-add_jobs cron svc.id id svc.schedules s (ground (arith, h))

module _ (g : Texts) (cron : Cron) where
  pub lookup-load_services :
      (readable : Bool) (id : String) (svcs : List Service) (r : Registry g cron)
      → is_some (lookup id (load_services g cron readable svcs r).services)
        ≡ (is_listed id svcs || is_some (lookup id r.services))
  unfolding load_services
  lookup-load_services readable id [] r = refl
  lookup-load_services readable id (svc ∷ svcs) r =
      let ms =
        new_managed_service r.fresh (restore svc (get_service_state readable r.states svc.id)) in
      let r' : Registry g cron = record r {
        services = insert svc.id ms r.services;
        fresh = suc r.fresh;
      } in
      ground
        (arith, lookup-load_services readable id svcs r', lookup-insert svc.id id ms r.services)

  scheduler-load_services :
      (readable : Bool) (svcs : List Service) (r : Registry g cron)
      → (load_services g cron readable svcs r).scheduler ≡ r.scheduler
  unfolding load_services
  scheduler-load_services readable [] r = refl
  scheduler-load_services readable (svc ∷ svcs) r =
      let ms =
        new_managed_service r.fresh (restore svc (get_service_state readable r.states svc.id)) in
      scheduler-load_services readable svcs
        (record r { services = insert svc.id ms r.services; fresh = suc r.fresh })

  module _ (laws : IsCron cron) where
    load_found-IsScheduled :
        (readable : Bool) (r : Registry g cron) (o : Option (List Service))
        → IsScheduled g cron laws r
        → IsScheduled g cron laws (load_found g cron readable r o).0
    load_found-IsScheduled readable r none inv = inv
    load_found-IsScheduled readable r (some svcs) inv =
        rw (scheduler-load_services readable svcs r) (
          (Step-IsExact cron laws (loading svcs) inv.0).0,
          λ id.
              rw (lookup-load_services readable id svcs r) (elim (Bool-cases (is_listed id svcs)) [
                | inl l ↦ rw l refl
                | inr l ↦ rw (l, entries-load_all cron id svcs r.scheduler l) (inv.1 id)
              ]),
        )

    load_registry-IsScheduled :
        (readable : Bool) (r : Registry g cron)
        → IsScheduled g cron laws r
        → IsScheduled g cron laws (load_registry g cron readable r).0
    unfolding load_registry
    load_registry-IsScheduled readable r inv =
        load_found-IsScheduled readable r (load_all_service_configs g cron r.files) inv

    -- The manager's operations on its map. The update has the identifier of its path.
    pub data RegistryStep : Registry g cron → Registry g cron → Type 0 where
      load_step :
          {r : Registry g cron} (readable : Bool)
          → RegistryStep r (load_registry g cron readable r).0
      add_step :
          {r : Registry g cron} (w : Writes) (svc : Service) → RegistryStep r (add g cron w svc r).0
      remove_step :
          {r : Registry g cron} (w : Writes) (id : String) → RegistryStep r (remove g cron w id r).0
      update_step :
          {r : Registry g cron} (w : Writes) (id : String) (svc : Service)
          → svc.id ≡ id
          → RegistryStep r (update g cron w id svc r).0

    -- Whatever the operation and its result, the schedules stay exact, and no service outside the map
    -- has an entry in them.
    pub RegistryStep-IsScheduled :
        {r r' : Registry g cron}
        → RegistryStep r r'
        → IsScheduled g cron laws r
        → IsScheduled g cron laws r'
    RegistryStep-IsScheduled {r} (load_step readable) inv = load_registry-IsScheduled readable r inv
    RegistryStep-IsScheduled {r} (add_step w svc) inv = add-IsScheduled g cron laws w svc r inv
    RegistryStep-IsScheduled {r} (remove_step w id) inv = remove-IsScheduled g cron laws w id r inv
    RegistryStep-IsScheduled {r} (update_step w id svc e) inv =
        update-IsScheduled g cron laws w id svc r e inv

    some_elem : (n : ℕ) (entries : List ℕ) → elem n entries ≡ true → is_empty entries ≡ false
    some_elem n [] h = cc
    some_elem n (x ∷ xs) h = refl

    -- A live cron job calls Start, Stop or Restart with a service of the map.
    pub job_registered :
        (r : Registry g cron) (n : ℕ) (j : Job)
        → IsScheduled g cron laws r
        → cron.job r.scheduler.state n ≡ some j
        → is_some (lookup j.service r.services) ≡ true
    job_registered r n j inv e = ground (
      arith,
      e,
      inv.0 j.service n,
      inv.1 j.service,
      some_elem n (entries_of cron j.service r.scheduler),
      str_eq_refl j.service,
    )
