-- ===== src/Scheduler/Ownership.antt =====
-- internal/scheduler/scheduler.go: the table holds exactly the live cron entries, each under the
-- service whose job it is, and what each operation does to the jobs.
use elnssm.Common.{
  filter, map, ℕ, String, str_eq, str_eq_iff, str_eq_refl, List, [], ◌∷◌, ◌++◌, Option, none, some,
  Bool, true, false, ◌||◌, lookup, insert, erase, lookup-insert, lookup-erase, elem, ◌==◌, ◌≡◌, inl,
  inr, refl, sym, subst, ◌∙◌, arith, Option-cases, Bool-cases, if◌then◌else◌,
}
use elnssm.Model.{Service, ScheduleEntry}
use elnssm.Scheduler.Kept.{KeepsJobs, add_jobs-KeepsJobs, load_all-KeepsJobs}
use elnssm.Scheduler.Jobs.{update_service-jobs}
use elnssm.Scheduler.Defs.{
  Job, Cron, IsCron, Scheduler, or_empty, entries_of, remove_entries, remove_found, remove_service,
  job_of, register_entry, add_jobs, update_service_jobs, update_service, load_all,
}

-- Whether an entry holds a job of the service.
abbrev pub is_of : String → Option Job → Bool
is_of id none = false
is_of id (some j) = str_eq j.service id

elem-snoc : (n i : ℕ) (xs : List ℕ) → elem n (xs ++ i ∷ []) ≡ (elem n xs || (i == n))
elem-snoc n i [] = ground arith
elem-snoc n i (x ∷ xs) = ground (arith, elem-snoc n i xs)

gone : (id : String) (o : Option Job) → false ≡ is_of id (if is_of id o then none else o)
gone id o = ground arith

kept :
    (id other : String) (o : Option Job)
    → str_eq id other ≡ false
    → is_of other o ≡ is_of other (if is_of id o then none else o)
kept id other none h = refl
kept id other (some j) h =
    ground (arith, h, str_eq_iff j.service id, str_eq_iff j.service other, str_eq_iff id other)

mine :
    (id : String) (j : Job) (here : Bool) (o : Option Job)
    → str_eq j.service id ≡ true
    → (is_of id o || here) ≡ is_of id (if here then some j else o)
mine id j here o h = ground (arith, h)

theirs :
    (other : String) (j : Job) (i n : ℕ) (job : ℕ → Option Job)
    → str_eq j.service other ≡ false
    → job i ≡ none
    → is_of other (job n) ≡ is_of other (if i == n then some j else job n)
theirs other j i n job h fresh = ground (arith, h, fresh)

module _ (cron : Cron) (laws : IsCron cron) where
  abbrev pub IsExact : Scheduler cron → Type 0
  IsExact s = (id : String) (n : ℕ) → elem n (entries_of cron id s) ≡ is_of id (cron.job s.state n)

  job-remove_entries :
      (is : List ℕ) (c : cron.State) (n : ℕ)
      → cron.job (remove_entries cron is c) n ≡ (if elem n is then none else cron.job c n)
  unfolding remove_entries
  job-remove_entries [] c n = refl
  job-remove_entries (i ∷ is) c n =
      ground (arith, job-remove_entries is (cron.remove c i) n, laws.removed c i n)

  remove_found-IsExact :
      (id : String) (s : Scheduler cron) (entries : List ℕ)
      → IsExact s
      → lookup id s.entry_ids ≡ some entries
      → IsExact (remove_found cron id s (some entries))
  remove_found-IsExact id s entries exact e other n =
      let mine : elem n entries ≡ is_of id (cron.job s.state n) =
        subst (λ o. elem n (or_empty o) ≡ is_of id (cron.job s.state n)) e (exact id n) in
      elim (Bool-cases (str_eq id other)) [
        | inl h ↦
            let eq : id ≡ other = (str_eq_iff id other).0 h in
            subst
              (λ (o : String).
                elem n (or_empty (lookup o (erase id s.entry_ids)))
                ≡ is_of o (cron.job (remove_entries cron entries s.state) n))
              eq
              (rw
                (
                  lookup-erase id id s.entry_ids,
                  str_eq_refl id,
                  job-remove_entries entries s.state n,
                  mine,
                )
                (gone id (cron.job s.state n)))
        | inr h ↦
            rw (lookup-erase id other s.entry_ids, h, job-remove_entries entries s.state n, mine)
              (exact other n ∙ kept id other (cron.job s.state n) h)
      ]

  remove_service-IsExact :
      (id : String) (s : Scheduler cron) → IsExact s → IsExact (remove_service cron id s)
  unfolding remove_service
  remove_service-IsExact id s exact = elim (Option-cases (lookup id s.entry_ids)) [
    | inl e ↦ subst (λ o. IsExact (remove_found cron id s o)) (sym e) exact
    | inr (entries, e) ↦
        subst (λ o. IsExact (remove_found cron id s o)) (sym e)
          (remove_found-IsExact id s entries exact e)
  ]

  register_entry-IsExact :
      (id : String) (s : Scheduler cron) (e : ScheduleEntry) (o : Option (ℕ × cron.State))
      → IsExact s
      → cron.add_func s.state e.cron (job_of cron id e) ≡ o
      → IsExact (register_entry cron id s o)
  register_entry-IsExact id s e none exact r other n = exact other n
  register_entry-IsExact id s e (some (i, c)) exact r other n =
      let law = laws.added s.state c e.cron (job_of cron id e) i r in
      elim (Bool-cases (str_eq id other)) [
        | inl h ↦
            subst
              (λ (o : String).
                elem n
                  (or_empty (lookup o (insert id (entries_of cron id s ++ i ∷ []) s.entry_ids)))
                ≡ is_of o (cron.job c n))
              ((str_eq_iff id other).0 h)
              (rw
                (
                  lookup-insert id id (entries_of cron id s ++ i ∷ []) s.entry_ids,
                  str_eq_refl id,
                  elem-snoc n i (entries_of cron id s),
                  exact id n,
                  law.1 n,
                )
                (mine id (job_of cron id e) (i == n) (cron.job s.state n) (str_eq_refl id)))
        | inr h ↦
            rw
              (
                lookup-insert id other (entries_of cron id s ++ i ∷ []) s.entry_ids,
                h,
                exact other n,
                law.1 n,
              )
              (theirs other (job_of cron id e) i n (cron.job s.state) h law.0)
      ]

  add_jobs-IsExact :
      (id : String) (es : List ScheduleEntry) (s : Scheduler cron)
      → IsExact s
      → IsExact (add_jobs cron id es s)
  unfolding add_jobs
  add_jobs-IsExact id [] s exact = exact
  add_jobs-IsExact id (e ∷ es) s exact =
      add_jobs-IsExact id es
        (register_entry cron id s (cron.add_func s.state e.cron (job_of cron id e)))
        (register_entry-IsExact id s e (cron.add_func s.state e.cron (job_of cron id e)) exact refl)

  load_all-IsExact :
      (svcs : List Service) (s : Scheduler cron) → IsExact s → IsExact (load_all cron svcs s)
  unfolding load_all
  load_all-IsExact [] s exact = exact
  load_all-IsExact (svc ∷ svcs) s exact =
      load_all-IsExact svcs (update_service_jobs cron svc s)
        (add_jobs-IsExact svc.id svc.schedules s exact)

  -- The operations of the scheduler.
  pub data Step : Scheduler cron → Scheduler cron → Type 0 where
    loading : {s : Scheduler cron} (svcs : List Service) → Step s (load_all cron svcs s)
    updating : {s : Scheduler cron} (svc : Service) → Step s (update_service cron svc s)
    removing : {s : Scheduler cron} (id : String) → Step s (remove_service cron id s)

  -- A removal ends just the jobs of the service.
  removed_jobs :
      (id : String) (s : Scheduler cron) (n : ℕ)
      → IsExact s
      → cron.job (remove_service cron id s).state n
        ≡ (if is_of id (cron.job s.state n) then none else cron.job s.state n)
  unfolding remove_service
  removed_jobs id s n exact = elim (Option-cases (lookup id s.entry_ids)) [
    | inl e ↦
        let mine : false ≡ is_of id (cron.job s.state n) =
          subst (λ o. elem n (or_empty o) ≡ is_of id (cron.job s.state n)) e (exact id n) in
        rw (e, sym mine) refl
    | inr (entries, e) ↦
        let mine : elem n entries ≡ is_of id (cron.job s.state n) =
          subst (λ o. elem n (or_empty o) ≡ is_of id (cron.job s.state n)) e (exact id n) in
        rw (e, job-remove_entries entries s.state n, mine) refl
  ]

  updated_jobs :
      (svc : Service) (s : Scheduler cron) (n : ℕ) (j : Job)
      → IsExact s
      → str_eq j.service svc.id ≡ false
      → cron.job s.state n ≡ some j
      → cron.job (update_service cron svc s).state n ≡ some j
  unfolding update_service
  updated_jobs svc s n j exact other h =
      add_jobs-KeepsJobs cron laws svc.id svc.schedules (remove_service cron svc.id s) n j
        (removed_jobs svc.id s n exact ∙ rw (h, other) refl)

  -- What a step does to the jobs. `loading`: each live entry keeps its job. `updating`: the entries
  -- listed under the service hold, in order, the jobs of its schedules whose cron expression is
  -- valid, and each job of another service stays. `removing`: just the jobs of the service are gone.
  abbrev pub Effect : {s s' : Scheduler cron} → Step s s' → Type 0
  Effect {s} {s'} (loading svcs) = KeepsJobs cron laws s s'
  Effect {s} {s'} (updating svc) =
      (map (cron.job s'.state) (entries_of cron svc.id s')
        ≡ map some (map (job_of cron svc.id) (filter (λ e. cron.parses e.cron) svc.schedules)))
      × ((n : ℕ) (j : Job)
          → str_eq j.service svc.id ≡ false
          → cron.job s.state n ≡ some j
          → cron.job s'.state n ≡ some j)
  Effect {s} {s'} (removing id) =
      (n : ℕ)
      → cron.job s'.state n ≡ (if is_of id (cron.job s.state n) then none else cron.job s.state n)

  -- Every operation keeps the table exact: it lists a cron entry under a service just if the entry is
  -- live and its job is of that service. Removing a service ends all its jobs and no other; updating
  -- one leaves it the jobs of its valid schedules, in order, and the jobs of others as they are;
  -- loading keeps every live job.
  pub Step-IsExact :
      {s s' : Scheduler cron} (step : Step s s') → IsExact s → IsExact s' × Effect step
  Step-IsExact {s} (loading svcs) exact =
      (load_all-IsExact svcs s exact, load_all-KeepsJobs cron laws svcs s)
  Step-IsExact {s} (updating svc) exact = (
    unfold update_service in
        add_jobs-IsExact svc.id svc.schedules (remove_service cron svc.id s)
          (remove_service-IsExact svc.id s exact),
    (update_service-jobs cron s svc laws, λ n j. updated_jobs svc s n j exact),
  )
  Step-IsExact {s} (removing id) exact =
      (remove_service-IsExact id s exact, λ n. removed_jobs id s n exact)
