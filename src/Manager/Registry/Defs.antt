-- ===== src/Manager/Registry/Defs.antt =====
-- internal/manager/manager.go: New, LoadAll, AutoStart, Add, Remove, Get, Update, and which services
-- StopAll stops. The configuration files are known by their name without ".yaml".
use elnssm.Common.{
  ℕ, suc, ℤ, pos, leb_ℤ, String, str_eq, List, [], ◌∷◌, Option, none, some, Bool, true, false, not,
  ◌||◌, Dict, lookup, insert, erase, is_some, if◌then◌else◌,
}
use elnssm.Model.{Service, ServiceState, StartupType, EventType, is_running, is_starting}
use elnssm.Config.Yaml.{ServiceConfigYaml}
use elnssm.Config.Texts.{Texts, ◌>>=◌}
use elnssm.Config.Load.{to_service}
use elnssm.Config.Save.{service_to_yaml}
use elnssm.Scheduler.Defs.{Cron, Scheduler, load_all, update_service, remove_service}
use elnssm.Manager.State.{ManagedService, ServiceRuntimeState}
use elnssm.Manager.Dependencies.Defs.{
  Outcome, sorted, circular, out_of_fuel, all_ids, topological_sort,
}

-- Which of the writes succeed.
pub record Writes : Type 0 where
  pub file : Bool
  pub save : Bool
  pub delete : Bool

pub data RegistryError : Type 0 where
  already_exists not_found not_stopped saving_file saving_store : RegistryError

-- A new stop channel is fresh. The other fields are nil.
unfoldable pub new_managed_service : ℕ → Service → ManagedService
new_managed_service channel svc = record {
  config = svc;
  wrapper = none;
  health_runner = none;
  capture = none;
  resource_monitor = none;
  resource_cancel = none;
  stop_ch = channel;
}

-- store.GetServiceState: none is an error; a service without an entry has the zero state.
abbrev pub zero_state : ServiceRuntimeState
zero_state = record {
  state = ServiceState.unset;
  pid = pos 0;
  started_at = none;
  restart_count = 0;
  last_exit_code = pos 0;
  last_error = "";
}

abbrev pub or_zero : Option ServiceRuntimeState → ServiceRuntimeState
or_zero none = zero_state
or_zero (some st) = st

unfoldable pub get_service_state :
    Bool → Dict ServiceRuntimeState → String → Option ServiceRuntimeState
get_service_state readable states id = if readable then some (or_zero (lookup id states)) else none

abbrev pub restore : Service → Option ServiceRuntimeState → Service
restore svc none = record svc { state = ServiceState.stopped }
restore svc (some st) = record svc {
  state = st.state;
  restart_count = st.restart_count;
  last_exit_code = st.last_exit_code;
  last_error = st.last_error;
}

unfoldable pub preserve : Service → Service → Service
preserve old svc = record svc {
  state = old.state;
  pid = old.pid;
  started_at = old.started_at;
  restart_count = old.restart_count;
  service_account_password =
      if str_eq svc.service_account_password ""
      then old.service_account_password
      else svc.service_account_password;
}

-- The configurations that TopologicalSort reads.
unfoldable pub configs : Dict ManagedService → Dict Service
configs [] = []
configs ((id, ms) ∷ services) = (id, ms.config) ∷ configs services

-- A service that AutoStart starts, after a delay or at once.
abbrev pub start_plan : StartupType → ℤ → Option ℤ
start_plan StartupType.auto delay = some (pos 0)
start_plan StartupType.delayed_auto delay =
    some (if leb_ℤ delay (pos 0) then pos 30000000000 else delay)
start_plan StartupType.manual delay = none
start_plan StartupType.disabled delay = none
start_plan (StartupType.other s) delay = none

abbrev pub plan_one : String → Option ManagedService → List (String × ℤ) → List (String × ℤ)
plan_one id none rest = rest
plan_one id (some ms) rest = elim (start_plan ms.config.startup_type ms.config.start_delay) [
  | none ↦ rest
  | some delay ↦ (id, delay) ∷ rest
]

unfoldable pub plan : Dict ManagedService → List String → List (String × ℤ)
plan services [] = []
plan services (id ∷ ids) = plan_one id (lookup id services) (plan services ids)

-- The order of the map is taken where the sort reports an error.
abbrev pub start_order : List String → Outcome → List String
start_order ids (sorted order) = order
start_order ids circular = ids
start_order ids out_of_fuel = ids

unfoldable pub auto_start : Dict ManagedService → List (String × ℤ)
auto_start services =
    plan services (start_order (all_ids (configs services)) (topological_sort (configs services)))

-- The services that StopAll stops.
unfoldable pub to_stop : Dict ManagedService → List String
to_stop [] = []
to_stop ((id, ms) ∷ services) =
    let rest = to_stop services in
    if is_running ms.config.state || is_starting ms.config.state then id ∷ rest else rest

module _ (g : Texts) (cron : Cron) where
  pub record Registry : Type 0 where
    pub services : Dict ManagedService
    pub files : Dict ServiceConfigYaml
    pub stored : Dict Service
    pub states : Dict ServiceRuntimeState
    pub scheduler : Scheduler cron
    pub events : List (EventType × String)
    pub fresh : ℕ

  abbrev pub emit : EventType → String → Registry → Registry
  emit e id r = record r { events = (e, id) ∷ r.events }

  -- config.LoadAllServiceConfigs: none if one of the files is refused.
  unfoldable pub load_all_service_configs : Dict ServiceConfigYaml → Option (List Service)
  load_all_service_configs [] = some []
  load_all_service_configs ((name, yaml) ∷ files) =
      to_service g yaml >>= λ svc. load_all_service_configs files >>= λ svcs. some (svc ∷ svcs)

  unfoldable pub load_services : Bool → List Service → Registry → Registry
  load_services readable [] r = r
  load_services readable (svc ∷ svcs) r =
      let restored = restore svc (get_service_state readable r.states svc.id) in
      load_services readable svcs (record r {
        services = insert svc.id (new_managed_service r.fresh restored) r.services;
        fresh = suc r.fresh;
      })

  abbrev pub load_found : Bool → Registry → Option (List Service) → Registry × Bool
  load_found readable r none = (r, false)
  load_found readable r (some svcs) =
      let loaded = load_services readable svcs r in
      (record loaded { scheduler = load_all cron svcs loaded.scheduler }, true)

  unfoldable pub load_registry : Bool → Registry → Registry × Bool
  load_registry readable r = load_found readable r (load_all_service_configs r.files)

  abbrev pub added : Service → Registry → Registry
  added svc r = emit EventType.service_added svc.id (record r {
    services = insert svc.id (new_managed_service r.fresh svc) r.services;
    scheduler = update_service cron svc r.scheduler;
    fresh = suc r.fresh;
  })

  abbrev pub with_file : String → Service → Registry → Registry
  with_file name svc r = record r { files = insert name (service_to_yaml g svc) r.files }

  abbrev pub with_stored : Service → Registry → Registry
  with_stored svc r = record r { stored = insert svc.id svc r.stored }

  unfoldable pub add : Writes → Service → Registry → Registry × Option RegistryError
  add w svc r =
      let stopped = record svc { state = ServiceState.stopped } in
      if is_some (lookup svc.id r.services)
      then (r, some already_exists)
      else if not w.file
      then (r, some saving_file)
      else if not w.save
      then (with_file svc.id stopped r, some saving_store)
      else (added stopped (with_stored stopped (with_file svc.id stopped r)), none)

  abbrev pub removed : Writes → String → Registry → Registry
  removed w id r = emit EventType.service_removed id (record r {
    stored = if w.delete then erase id r.stored else r.stored;
    services = erase id r.services;
    scheduler = remove_service cron id r.scheduler;
  })

  abbrev pub remove_found :
      Writes → String → Registry → Option ManagedService → Registry × Option RegistryError
  remove_found w id r none = (r, some not_found)
  remove_found w id r (some ms) =
      if is_running ms.config.state || is_starting ms.config.state
      then (r, some not_stopped)
      else (removed w id r, none)

  unfoldable pub remove : Writes → String → Registry → Registry × Option RegistryError
  remove w id r = remove_found w id r (lookup id r.services)

  abbrev pub updated : String → ManagedService → Service → Registry → Registry
  updated id ms svc r = emit EventType.service_config_changed id (record r {
    services = insert id (record ms { config = svc }) r.services;
    scheduler = update_service cron svc r.scheduler;
  })

  abbrev pub update_found :
      Writes → String → Service → Registry → Option ManagedService → Registry × Option RegistryError
  update_found w id svc r none = (r, some not_found)
  update_found w id svc r (some ms) =
      let kept = preserve ms.config svc in
      if not w.file
      then (r, some saving_file)
      else if not w.save
      then (with_file id kept r, some saving_store)
      else (updated id ms kept (with_stored kept (with_file id kept r)), none)

  unfoldable pub update : Writes → String → Service → Registry → Registry × Option RegistryError
  update w id svc r = update_found w id svc r (lookup id r.services)
