-- ===== src/Manager/Registry/Schedules.antt =====
-- internal/manager/manager.go with internal/scheduler: every cron job belongs to a service of the map.
use elnssm.Common.{
  ℕ, String, str_eq, str_eq_iff, List, [], ◌∷◌, ◌++◌, Option, none, some, Bool, true, false, ◌||◌,
  Dict, lookup, insert, lookup-insert, lookup-erase, is_some, ◌≡◌, inl, inr, refl, ◌∙◌, arith,
  Option-cases, Bool-cases, if◌then◌else◌,
}
use elnssm.Model.{Service, ServiceState, ScheduleEntry, is_running, is_starting}
use elnssm.Config.Texts.{Texts}
use elnssm.Scheduler.Defs.{
  Cron, IsCron, Scheduler, entries_of, remove_service, job_of, register_entry, add_jobs,
  update_service,
}
use elnssm.Scheduler.Ownership.{IsExact, updating, removing, Step-IsExact}
use elnssm.Manager.State.{ManagedService, is_empty}
use elnssm.Manager.Registry.Defs.{
  Writes, Registry, RegistryError, new_managed_service, with_file, with_stored, remove_found,
  update_found, add, remove, update, added, removed, updated, preserve,
}

module _ (cron : Cron) where
  entries-register_entry :
      (id other : String) (s : Scheduler cron) (o : Option (ℕ × cron.State))
      → str_eq id other ≡ false
      → entries_of cron other (register_entry cron id s o) ≡ entries_of cron other s
  entries-register_entry id other s none h = refl
  entries-register_entry id other s (some (i, c)) h =
      rw (lookup-insert id other (entries_of cron id s ++ i ∷ []) s.entry_ids, h) refl

  pub entries-add_jobs :
      (id other : String) (es : List ScheduleEntry) (s : Scheduler cron)
      → str_eq id other ≡ false
      → entries_of cron other (add_jobs cron id es s) ≡ entries_of cron other s
  unfolding add_jobs
  entries-add_jobs id other [] s h = refl
  entries-add_jobs id other (e ∷ es) s h =
      let o = cron.add_func s.state e.cron (job_of cron id e) in
      entries-add_jobs id other es (register_entry cron id s o) h
      ∙ entries-register_entry id other s o h

  entries-remove_service :
      (id other : String) (s : Scheduler cron)
      → entries_of cron other (remove_service cron id s)
        ≡ (if str_eq id other then [] else entries_of cron other s)
  unfolding remove_service
  entries-remove_service id other s = elim (Option-cases (lookup id s.entry_ids)) [
    | inl e ↦ rw e (ground (arith, e, str_eq_iff id other))
    | inr (entries, e) ↦ rw (e, lookup-erase id other s.entry_ids) (ground arith)
  ]

  entries-update_service :
      (svc : Service) (other : String) (s : Scheduler cron)
      → str_eq svc.id other ≡ false
      → entries_of cron other (update_service cron svc s) ≡ entries_of cron other s
  unfolding update_service
  entries-update_service svc other s h =
      entries-add_jobs svc.id other svc.schedules (remove_service cron svc.id s) h
      ∙ entries-remove_service svc.id other s
      ∙ rw h refl

without :
    (here : Bool) (o : Option ManagedService) (entries : List ℕ)
    → (is_some o || is_empty entries) ≡ true
    → (is_some (if here then none else o) || is_empty (if here then [] else entries)) ≡ true
without here o entries h = ground (arith, h)

module _ (g : Texts) (cron : Cron) (laws : IsCron cron) where
  -- A text that is no service of the map has no entry in the schedules.
  abbrev pub IsKnown : Registry g cron → Type 0
  IsKnown r =
      (id : String)
      → (is_some (lookup id r.services) || is_empty (entries_of cron id r.scheduler)) ≡ true

  abbrev pub IsScheduled : Registry g cron → Type 0
  IsScheduled r = IsExact cron laws r.scheduler × IsKnown r

  put_known :
      (id : String) (svc : Service) (ms : ManagedService) (d : Dict ManagedService)
      (s : Scheduler cron)
      → svc.id ≡ id
      → ((other : String) → (is_some (lookup other d) || is_empty (entries_of cron other s)) ≡ true)
      → (other : String)
      → (is_some (lookup other (insert id ms d))
          || is_empty (entries_of cron other (update_service cron svc s)))
        ≡ true
  put_known id svc ms d s e known other = elim (Bool-cases (str_eq id other)) [
    | inl h ↦ rw (lookup-insert id other ms d, h) refl
    | inr h ↦
        rw (lookup-insert id other ms d, h, entries-update_service cron svc other s (rw e h))
          (known other)
  ]

  added-IsScheduled :
      (svc : Service) (r : Registry g cron) → IsScheduled r → IsScheduled (added g cron svc r)
  added-IsScheduled svc r inv = (
    (Step-IsExact cron laws (updating svc) inv.0).0,
    put_known svc.id svc (new_managed_service r.fresh svc) r.services r.scheduler refl inv.1,
  )

  updated-IsScheduled :
      (id : String) (ms : ManagedService) (svc : Service) (r : Registry g cron)
      → svc.id ≡ id
      → IsScheduled r
      → IsScheduled (updated g cron id ms svc r)
  updated-IsScheduled id ms svc r e inv = (
    (Step-IsExact cron laws (updating svc) inv.0).0,
    put_known id svc (record ms { config = svc }) r.services r.scheduler e inv.1,
  )

  removed-IsScheduled :
      (w : Writes) (id : String) (r : Registry g cron)
      → IsScheduled r
      → IsScheduled (removed g cron w id r)
  removed-IsScheduled w id r inv = (
    (Step-IsExact cron laws (removing id) inv.0).0,
    λ other.
        rw (lookup-erase id other r.services, entries-remove_service cron id other r.scheduler)
          (without (str_eq id other) (lookup other r.services) (entries_of cron other r.scheduler)
            (inv.1 other)),
  )

  pub add-IsScheduled :
      (w : Writes) (svc : Service) (r : Registry g cron)
      → IsScheduled r
      → IsScheduled (add g cron w svc r).0
  unfolding add
  add-IsScheduled w svc r inv = elim (Bool-cases (is_some (lookup svc.id r.services))) [
    | inl e ↦ rw e inv
    | inr e ↦ elim (Bool-cases w.file) [
      | inr f ↦ rw (e, f) inv
      | inl f ↦ elim (Bool-cases w.save) [
        | inr b ↦ rw (e, f, b) inv
        | inl b ↦
            rw (e, f, b)
              (added-IsScheduled (record svc { state = ServiceState.stopped })
                (with_stored g cron (record svc { state = ServiceState.stopped })
                  (with_file g cron svc.id (record svc { state = ServiceState.stopped }) r))
                inv)
      ]
    ]
  ]

  -- An operation on a service that is looked up leaves the registry alone if there is none.
  found :
      (op : Option ManagedService → Registry g cron × Option RegistryError)
      (o : Option ManagedService)
      → IsScheduled (op none).0
      → ((ms : ManagedService) → IsScheduled (op (some ms)).0)
      → IsScheduled (op o).0
  found op none n s = n
  found op (some ms) n s = s ms

  same_id : (ms : ManagedService) (svc : Service) → (preserve ms.config svc).id ≡ svc.id
  unfolding preserve
  same_id ms svc = refl

  pub remove-IsScheduled :
      (w : Writes) (id : String) (r : Registry g cron)
      → IsScheduled r
      → IsScheduled (remove g cron w id r).0
  unfolding remove
  remove-IsScheduled w id r inv =
      found (λ o. remove_found g cron w id r o) (lookup id r.services) inv
        (λ ms. elim (Bool-cases (is_running ms.config.state || is_starting ms.config.state)) [
          | inl e ↦ rw e inv
          | inr e ↦ rw e (removed-IsScheduled w id r inv)
        ])

  pub update-IsScheduled :
      (w : Writes) (id : String) (svc : Service) (r : Registry g cron)
      → svc.id ≡ id
      → IsScheduled r
      → IsScheduled (update g cron w id svc r).0
  unfolding update
  update-IsScheduled w id svc r e inv =
      found (λ o. update_found g cron w id svc r o) (lookup id r.services) inv
        (λ ms. elim (Bool-cases w.file) [
          | inr f ↦ rw f inv
          | inl f ↦ elim (Bool-cases w.save) [
            | inr b ↦ rw (f, b) inv
            | inl b ↦
                rw (f, b)
                  (updated-IsScheduled id ms (preserve ms.config svc)
                    (with_stored g cron (preserve ms.config svc)
                      (with_file g cron id (preserve ms.config svc) r))
                    (same_id ms svc ∙ e) inv)
          ]
        ])
