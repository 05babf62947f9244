-- ===== src/Api/Listing.antt =====
-- Manager.List (internal/manager/manager.go), the handlers that show services
-- (internal/api/handlers_services.go), and the stream of their resources with its limit
-- (handlers_resources.go). time.Since is the difference of two times, in nanoseconds.
pub mod Streams
use elnssm.Common.{
  ℕ, ℤ, pos, sub_ℕ, String, List, [], ◌∷◌, ◌&&◌, Option, none, some, Bool, true, false, Dict,
  lookup, not, if◌then◌else◌,
}
use elnssm.Model.{Float64, Service, ServiceState, is_running, ResourceLimits}
use elnssm.Process.Wrapper.{Wrapper}
use elnssm.Process.HostMonitor.{HostSample}
use elnssm.Manager.State.{System, ManagedService, state_of}
use elnssm.Api.Services.Validation.{validate_service_id}

-- A service as it is shown: a copy of its configuration with the uptime.
pub record Shown : Type 0 where
  pub service : Service
  pub uptime : ℤ

-- Latest() of a resource monitor, which is known by its number.
pub record Latest : Type 0 where
  pub cpu_percent : Float64
  pub memory_bytes : ℤ

abbrev since : ℕ → Option ℕ → ℤ
since now none = pos 0
since now (some started) = sub_ℕ now started

abbrev runs : Option Wrapper → Bool
runs none = false
runs (some w) = w.running

abbrev with_metrics : (ℕ → Latest) → Option ℕ → Service → Service
with_metrics latest none c = c
with_metrics latest (some monitor) c = record c {
  cpu_percent = (latest monitor).cpu_percent;
  memory_bytes = (latest monitor).memory_bytes;
}

-- One round of List's loop.
unfoldable pub live_service : ℕ → (ℕ → Latest) → ManagedService → Shown
live_service now latest ms = record {
  service = with_metrics latest ms.resource_monitor ms.config;
  uptime = if runs ms.wrapper then since now ms.config.started_at else pos 0;
}

-- Manager.List
unfoldable pub list : ℕ → (ℕ → Latest) → Dict System → List Shown
unfolding live_service
list now latest [] = []
list now latest ((id, s) ∷ services) = live_service now latest s.ms ∷ list now latest services

abbrev is_some_time : Option ℕ → Bool
is_some_time none = false
is_some_time (some t) = true

-- The uptime of a service that is running by its state.
abbrev by_state : ℕ → Service → ℤ → ℤ
by_state now c uptime =
    if is_running c.state && is_some_time c.started_at then since now c.started_at else uptime

unfoldable pub with_uptimes : ℕ → List Shown → List Shown
with_uptimes now [] = []
with_uptimes now (s ∷ services) =
    record s { uptime = by_state now s.service s.uptime } ∷ with_uptimes now services

-- handleListServices
unfoldable pub handle_list_services : ℕ → (ℕ → Latest) → Dict System → List Shown
unfolding list with_uptimes
handle_list_services now latest services = with_uptimes now (list now latest services)

pub data ShowReply (A : Type 0) : Type 0 where
  invalid_service_id service_not_found : ShowReply A
  shown : A → ShowReply A

abbrev found_or : {A : Type 0} → String → Option System → (ManagedService → A) → ShowReply A
found_or id none show =
    if not (validate_service_id id) then invalid_service_id else service_not_found
found_or id (some s) show =
    if not (validate_service_id id) then invalid_service_id else shown (show s.ms)

-- handleGetService
unfoldable pub handle_get_service : ℕ → String → Dict System → ShowReply Shown
unfolding validate_service_id
handle_get_service now id services =
    found_or id (lookup id services)
      (λ ms. record { service = ms.config; uptime = by_state now ms.config (pos 0) })

pub record Resources : Type 0 where
  pub latest : Option Latest
  pub limits : ResourceLimits

abbrev latest_of : (ℕ → Latest) → Option ℕ → Option Latest
latest_of latest none = none
latest_of latest (some monitor) = some (latest monitor)

-- handleGetResources; without a monitor both metrics are 0.
unfoldable pub handle_get_resources : (ℕ → Latest) → String → Dict System → ShowReply Resources
unfolding validate_service_id
handle_get_resources latest id services = found_or id (lookup id services) (λ ms. record {
  latest = latest_of latest ms.resource_monitor;
  limits = ms.config.resource_limits;
})

pub record ServiceMetrics : Type 0 where
  pub id : String
  pub cpu_percent : Float64
  pub memory_bytes : ℤ
  pub state : ServiceState

unfoldable pub metrics : List Shown → List ServiceMetrics
metrics [] = []
metrics (s ∷ services) =
    record {
      id = s.service.id;
      cpu_percent = s.service.cpu_percent;
      memory_bytes = s.service.memory_bytes;
      state = s.service.state;
    }
    ∷ metrics services

-- What sendResourceSnapshot writes. The host's sample is none without a host monitor.
pub record ResourceSnapshot : Type 0 where
  pub host : Option HostSample
  pub services : List ServiceMetrics

unfoldable pub resource_snapshot :
    ℕ → (ℕ → Latest) → Option HostSample → Dict System → ResourceSnapshot
unfolding list metrics
resource_snapshot now latest host services = record {
  host = host;
  services = metrics (list now latest services);
}
