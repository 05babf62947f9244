-- ===== src/Scheduler/Defs.antt =====
-- internal/scheduler/scheduler.go: the table of each service's cron entries, and what a job calls.
use elnssm.Common.{
  ℕ, String, List, [], ◌∷◌, ◌++◌, Option, none, some, Bool, Dict, lookup, insert, erase, ◌≡◌,
  if◌then◌else◌, ◌==◌,
}
use elnssm.Model.{Service, ScheduleEntry, ScheduleAction}

-- What the function given to AddFunc holds.
pub record Job : Type 0 where
  pub service : String
  pub action : ScheduleAction
  pub name : String

-- cron.Cron: a state with its operations. `job` is what Entry tells of an entry.
pub record Cron : Type 1 where
  pub State : Type 0
  pub add_func : State → String → Job → Option (ℕ × State)
  pub remove : State → ℕ → State
  pub job : State → ℕ → Option Job
  pub parses : String → Bool

-- An entry that is added has a number no entry has, and holds the job; only a text that is no cron
-- expression is refused; Remove takes an entry away. Neither touches other entries.
pub record IsCron (cron : Cron) : Type 0 where
  pub added :
      (c c' : cron.State) (spec : String) (j : Job) (i : ℕ)
      → cron.add_func c spec j ≡ some (i, c')
      → (cron.job c i ≡ none)
        × ((n : ℕ) → cron.job c' n ≡ (if i == n then some j else cron.job c n))
  pub refused :
      (c : cron.State) (spec : String) (j : Job)
      → (cron.add_func c spec j ≡ none → cron.parses spec ≡ Bool.false)
        × (cron.parses spec ≡ Bool.false → cron.add_func c spec j ≡ none)
  pub removed :
      (c : cron.State) (i n : ℕ)
      → cron.job (cron.remove c i) n ≡ (if i == n then none else cron.job c n)

-- The calls of the ServiceController.
pub data Call : Type 0 where
  start_call stop_call restart_call : String → Call

-- What a job calls when its time has come; an unknown action is only logged.
abbrev pub triggered : Job → Option Call
triggered j = elim j.action [
  | ScheduleAction.start ↦ some (start_call j.service)
  | ScheduleAction.stop ↦ some (stop_call j.service)
  | ScheduleAction.restart ↦ some (restart_call j.service)
  | ScheduleAction.other s ↦ none
]

abbrev pub or_empty : Option (List ℕ) → List ℕ
or_empty none = []
or_empty (some entries) = entries

module _ (cron : Cron) where
  pub record Scheduler : Type 0 where
    pub state : cron.State
    pub entry_ids : Dict (List ℕ)

  -- s.entryIDs[id]
  abbrev pub entries_of : String → Scheduler → List ℕ
  entries_of id s = or_empty (lookup id s.entry_ids)

  unfoldable pub remove_entries : List ℕ → cron.State → cron.State
  remove_entries [] c = c
  remove_entries (i ∷ is) c = remove_entries is (cron.remove c i)

  abbrev pub remove_found : String → Scheduler → Option (List ℕ) → Scheduler
  remove_found id s none = s
  remove_found id s (some entries) = record {
    state = remove_entries entries s.state;
    entry_ids = erase id s.entry_ids;
  }

  unfoldable pub remove_service : String → Scheduler → Scheduler
  remove_service id s = remove_found id s (lookup id s.entry_ids)

  abbrev pub job_of : String → ScheduleEntry → Job
  job_of id e = record { service = id; action = e.action; name = e.name }

  -- An entry that AddFunc refuses is logged and passed over.
  abbrev pub register_entry : String → Scheduler → Option (ℕ × cron.State) → Scheduler
  register_entry id s none = s
  register_entry id s (some (i, c)) = record {
    state = c;
    entry_ids = insert id (entries_of id s ++ i ∷ []) s.entry_ids;
  }

  unfoldable pub add_jobs : String → List ScheduleEntry → Scheduler → Scheduler
  add_jobs id [] s = s
  add_jobs id (e ∷ es) s =
      add_jobs id es (register_entry id s (cron.add_func s.state e.cron (job_of id e)))

  abbrev pub update_service_jobs : Service → Scheduler → Scheduler
  update_service_jobs svc = add_jobs svc.id svc.schedules

  unfoldable pub update_service : Service → Scheduler → Scheduler
  update_service svc s = update_service_jobs svc (remove_service svc.id s)

  unfoldable pub load_all : List Service → Scheduler → Scheduler
  load_all [] s = s
  load_all (svc ∷ svcs) s = load_all svcs (update_service_jobs svc s)
