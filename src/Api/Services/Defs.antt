-- ===== src/Api/Services/Defs.antt =====
-- internal/api/handlers_services.go: handleAddService, handleUpdateService and handleDeleteService,
-- which write through the manager's registry.
use elnssm.Common.{
  ℤ, pos, eqb_ℤ, String, str_eq, any, Option, none, some, Bool, not, ◌&&◌, ◌||◌, if◌then◌else◌,
}
use elnssm.Model.{
  Float64, Service, StartupType, StopSignal, RestartMode, RestartPolicyConfig, HealthCheckConfig,
}
use elnssm.Config.Texts.{Texts, startup_type_text, stop_signal_text, restart_mode_text}
use elnssm.Config.Secrets.{Dpapi}
use elnssm.Scheduler.Defs.{Cron}
use elnssm.Manager.Registry.Defs.{Writes, Registry, RegistryError, add, remove, update}
use elnssm.Api.Services.Validation.{validate_service_id, contains_shell_meta}

-- The service of the body has no password, as its field is not read from JSON.
pub record ServiceRequest : Type 0 where
  pub service : Service
  pub service_account_password : String

-- The response without its body.
pub data Response : Type 0 where
  created ok removed bad_request internal_error conflict not_found : Response

abbrev pub or_default : String → String → String
or_default given default = if str_eq given "" then default else given

abbrev pub or_number : ℤ → ℤ → ℤ
or_number given default = if eqb_ℤ given (pos 0) then default else given

-- The float 2.0, and whether a float is 0.
pub record FloatDefaults : Type 0 where
  pub two : Float64
  pub is_zero : Float64 → Bool

unfoldable pub default_policy : FloatDefaults → RestartPolicyConfig → RestartPolicyConfig
default_policy fl p = record p {
  mode = if str_eq (restart_mode_text p.mode) "" then RestartMode.on_failure else p.mode;
  max_retries = or_number p.max_retries (pos 10);
  delay = or_number p.delay (pos 5000000000);
  backoff_multiplier = if fl.is_zero p.backoff_multiplier then fl.two else p.backoff_multiplier;
  max_backoff = or_number p.max_backoff (pos 300000000000);
}

unfoldable pub apply_defaults : FloatDefaults → Service → Service
apply_defaults fl svc = record svc {
  name = or_default svc.name svc.id;
  stop_timeout = or_number svc.stop_timeout (pos 30000000000);
  stop_signal =
      if str_eq (stop_signal_text svc.stop_signal) "" then StopSignal.ctrl_c else svc.stop_signal;
  priority = or_default svc.priority "normal";
  startup_type =
      if str_eq (startup_type_text svc.startup_type) ""
      then StartupType.manual
      else svc.startup_type;
  restart_policy = default_policy fl svc.restart_policy;
}

abbrev pub is_bad_check : HealthCheckConfig → Bool
is_bad_check hc =
    str_eq hc.type "script" && not (str_eq hc.target "") && contains_shell_meta hc.target

-- The service with its password encrypted; none is an error of the encryption.
unfoldable pub with_password : Dpapi → ServiceRequest → Option Service
with_password k req =
    if str_eq req.service_account_password ""
    then some req.service
    else elim (k.encrypt req.service_account_password) [
      | none ↦ none
      | some x ↦ some (record req.service { service_account_password = x })
    ]

module _ (g : Texts) (cron : Cron) where
  abbrev pub on_add : Registry g cron × Option RegistryError → Registry g cron × Response
  on_add (r, none) = (r, created)
  on_add (r, some e) = (r, conflict)

  abbrev pub add_encrypted :
      FloatDefaults → Writes → Registry g cron → Option Service → Registry g cron × Response
  add_encrypted fl w r none = (r, internal_error)
  add_encrypted fl w r (some svc) = on_add (add g cron w (apply_defaults fl svc) r)

  -- `none` is a body that cannot be decoded.
  unfoldable pub handle_add_service :
      FloatDefaults
      → Dpapi
      → Writes
      → Option ServiceRequest
      → Registry g cron
      → Registry g cron × Response
  handle_add_service fl k w none r = (r, bad_request)
  handle_add_service fl k w (some req) r =
      if str_eq req.service.id "" || str_eq req.service.executable ""
      then (r, bad_request)
      else if not (validate_service_id req.service.id)
      then (r, bad_request)
      else if any is_bad_check req.service.health_checks
      then (r, bad_request)
      else add_encrypted fl w r (with_password k req)

  abbrev pub on_update : Registry g cron × Option RegistryError → Registry g cron × Response
  on_update (r, none) = (r, ok)
  on_update (r, some e) = (r, not_found)

  abbrev pub update_encrypted :
      Writes → String → Registry g cron → Option Service → Registry g cron × Response
  update_encrypted w id r none = (r, internal_error)
  update_encrypted w id r (some svc) = on_update (update g cron w id svc r)

  unfoldable pub handle_update_service :
      Dpapi → Writes → String → Option ServiceRequest → Registry g cron → Registry g cron × Response
  handle_update_service k w id none r = (r, bad_request)
  handle_update_service k w id (some req) r =
      if not (validate_service_id id)
      then (r, bad_request)
      else if any is_bad_check req.service.health_checks
      then (r, bad_request)
      else update_encrypted w id r
          (with_password k (record req { service = record req.service { id = id } }))

  abbrev pub on_remove : Registry g cron × Option RegistryError → Registry g cron × Response
  on_remove (r, none) = (r, removed)
  on_remove (r, some e) = (r, conflict)

  unfoldable pub handle_delete_service :
      Writes → String → Registry g cron → Registry g cron × Response
  handle_delete_service w id r =
      if not (validate_service_id id) then (r, bad_request) else on_remove (remove g cron w id r)
