-- ===== src/Examples/Registry.antt =====
-- A registry with the web service, restarted every night.
use elnssm.Common.{[], ◌∷◌, some, true, lookup, inl, ◌≡◌, refl, arith}
use elnssm.Model.{Service, ScheduleAction}
use elnssm.Config.Load.{to_service}
use elnssm.Config.Save.{service_to_yaml}
use elnssm.Config.RoundTrip.{to_service-service_to_yaml}
use elnssm.Config.Reload.{reloaded}
use elnssm.Scheduler.Defs.{remove_service, Scheduler, update_service}
use elnssm.Scheduler.Ownership.{IsExact, updating, removing, Effect, Step-IsExact}
use elnssm.Manager.Registry.Defs.{Writes, Registry, add, load_all_service_configs}
use elnssm.Manager.Registry.Schedules.{IsScheduled}
use elnssm.Manager.Registry.Jobs.{add_step, RegistryStep-IsScheduled}
use elnssm.Examples.Data.{web}
use elnssm.Examples.Go.{texts, texts-IsGo, cron, cron-IsCron}

-- The second schedule is no cron expression.
abbrev nightly : Service
nightly = record web {
  schedules =
      record { cron = "0 3 * * *"; action = ScheduleAction.restart; name = "night" }
      ∷ record { cron = ""; action = ScheduleAction.stop; name = "" }
      ∷ [];
}

abbrev pub no_jobs : Scheduler cron
no_jobs = record { state = []; entry_ids = [] }

no_jobs-IsExact : IsExact cron cron-IsCron no_jobs
unfolding lookup
no_jobs-IsExact id n = refl

abbrev one_job : Scheduler cron
one_job = update_service cron nightly no_jobs

one_job-IsExact : IsExact cron cron-IsCron one_job
one_job-IsExact = (Step-IsExact cron cron-IsCron (updating nightly) no_jobs-IsExact).0

Step-IsExact_example :
    IsExact cron cron-IsCron (remove_service cron "web" one_job)
    × Effect cron cron-IsCron {s = one_job} (removing {s = one_job} "web")
Step-IsExact_example = Step-IsExact cron cron-IsCron (removing {s = one_job} "web") one_job-IsExact

abbrev pub writes : Writes
writes = record { file = true; save = true; delete = true }

abbrev pub empty : Registry texts cron
empty = record {
  services = [];
  files = [];
  stored = [];
  states = [];
  scheduler = no_jobs;
  events = [];
  fresh = 0;
}

empty-IsScheduled : IsScheduled texts cron cron-IsCron empty
unfolding lookup
empty-IsScheduled = (no_jobs-IsExact, λ id. refl)

RegistryStep-IsScheduled_example :
    IsScheduled texts cron cron-IsCron (add texts cron writes nightly empty).0
RegistryStep-IsScheduled_example =
    RegistryStep-IsScheduled texts cron cron-IsCron (add_step writes nightly) empty-IsScheduled

-- The web service, added.
abbrev one_file : Registry texts cron
one_file = record empty { files = ("web", service_to_yaml texts web) ∷ [] }

web_loaded : to_service texts (service_to_yaml texts web) ≡ some (reloaded texts texts-IsGo web)
web_loaded = to_service-service_to_yaml texts texts-IsGo web (inl (omega arith))

all_loaded :
    load_all_service_configs texts cron one_file.files ≡ some (reloaded texts texts-IsGo web ∷ [])
unfolding load_all_service_configs
all_loaded = rw web_loaded refl
