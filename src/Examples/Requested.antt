-- ===== src/Examples/Requested.antt =====
-- A service added through the API.
use elnssm.Common.{true, some, lookup, insert, ◌≡◌, refl}
use elnssm.Manager.State.{ManagedService}
use elnssm.Manager.Registry.Defs.{add}
use elnssm.Api.Services.Validation.{all_chars, validate_service_id}
use elnssm.Api.Services.Defs.{
  ServiceRequest, created, FloatDefaults, default_policy, apply_defaults, with_password,
  handle_add_service,
}
use elnssm.Api.Services.Complete.{IsRegistered, handle_add_service_created}
use elnssm.Examples.Data.{web}
use elnssm.Examples.Go.{texts, cron, dpapi}
use elnssm.Examples.Registry.{writes, empty}

abbrev float_defaults : FloatDefaults
float_defaults = record { two = record { bits = 2 }; is_zero = λ x. true }

abbrev web_request : ServiceRequest
web_request = record { service = web; service_account_password = "pass" }

web_created :
    (handle_add_service texts cron float_defaults dpapi writes (some web_request) empty).1 ≡ created
unfolding handle_add_service validate_service_id all_chars with_password apply_defaults
    default_policy add lookup insert
web_created = refl

handle_add_service_created_example :
    (ms : ManagedService) × IsRegistered texts cron web_request
      (handle_add_service texts cron float_defaults dpapi writes (some web_request) empty).0
      ms
handle_add_service_created_example =
    handle_add_service_created texts cron float_defaults dpapi writes web_request empty web_created
