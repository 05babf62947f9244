-- ===== src/Scheduler/Kept.antt =====
-- internal/scheduler/scheduler.go: adding jobs to cron leaves the live ones as they are.
use elnssm.Common.{ℕ, String, List, [], ◌∷◌, Option, none, some, ◌≡◌, refl, arith}
use elnssm.Model.{Service, ScheduleEntry}
use elnssm.Scheduler.Defs.{
  Job, Cron, IsCron, Scheduler, job_of, register_entry, add_jobs, update_service_jobs, load_all,
}

module _ (cron : Cron) (laws : IsCron cron) where
  -- Each live entry keeps its job.
  abbrev pub KeepsJobs : Scheduler cron → Scheduler cron → Type 0
  KeepsJobs s s' = (n : ℕ) (j : Job) → cron.job s.state n ≡ some j → cron.job s'.state n ≡ some j

  register_entry-KeepsJobs :
      (id : String) (s : Scheduler cron) (e : ScheduleEntry) (o : Option (ℕ × cron.State))
      → cron.add_func s.state e.cron (job_of cron id e) ≡ o
      → KeepsJobs s (register_entry cron id s o)
  register_entry-KeepsJobs id s e none r n j h = h
  register_entry-KeepsJobs id s e (some (i, c)) r n j h =
      let law = laws.added s.state c e.cron (job_of cron id e) i r in
      ground (arith, law.0, law.1 n, h)

  pub add_jobs-KeepsJobs :
      (id : String) (es : List ScheduleEntry) (s : Scheduler cron)
      → KeepsJobs s (add_jobs cron id es s)
  unfolding add_jobs
  add_jobs-KeepsJobs id [] s n j h = h
  add_jobs-KeepsJobs id (e ∷ es) s n j h =
      let o = cron.add_func s.state e.cron (job_of cron id e) in
      add_jobs-KeepsJobs id es (register_entry cron id s o) n j
        (register_entry-KeepsJobs id s e o refl n j h)

  pub load_all-KeepsJobs :
      (svcs : List Service) (s : Scheduler cron) → KeepsJobs s (load_all cron svcs s)
  unfolding load_all
  load_all-KeepsJobs [] s n j h = h
  load_all-KeepsJobs (svc ∷ svcs) s n j h =
      load_all-KeepsJobs svcs (update_service_jobs cron svc s) n j
        (add_jobs-KeepsJobs svc.id svc.schedules s n j h)
