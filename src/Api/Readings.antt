-- ===== src/Api/Readings.antt =====
-- internal/api/handlers_health.go, handlers_performance.go and handleListEvents of handlers_system.go:
-- the handlers that read the store. Times are nanoseconds, from a second on that lies before all of
-- them; the parsers are the standard library's. `opened` is whether db.View runs.
pub mod Bounded
use elnssm.Common.{
  ℕ, ◌≤◌, ◌<◌, ltb, leb, ℤ, pos, negsuc, ◌+ℤ◌, neg_part, pos_part, sub_ℕ, String, str_eq, List, [],
  ◌∷◌, length, Option, none, some, Bool, true, false, not, ◌&&◌, ◌||◌, ◌≡◌, refl, arith, is_some,
  ltb_ℤ, leb_ℤ, if◌then◌else◌,
}
use elnssm.Model.{Event, HealthCheckResult, HealthCheckConfig, ServiceState}
use elnssm.Process.ResourceMonitor.Defs.{ResourceSample}
use elnssm.Store.Bolt.{Bolt, Codec}
use elnssm.Store.Events.{EventFilter, list_events}
use elnssm.Store.History.{get_health_history}
use elnssm.Store.Downsample.{Means, get_resource_history, length-get_resource_history}
use elnssm.Manager.State.{ManagedService}
use elnssm.Api.Services.Validation.{validate_service_id}

pub data ReadReply (A : Type 0) : Type 0 where
  invalid_service_id service_not_found store_error : ReadReply A
  read : A → ReadReply A

-- Get's answer, if the identifier is valid, and then what the handler does with it.
abbrev known :
    {A : Type 0} → String → Option ManagedService → (ManagedService → ReadReply A) → ReadReply A
known id none reply = if validate_service_id id then service_not_found else invalid_service_id
known id (some ms) reply = if validate_service_id id then reply ms else invalid_service_id

abbrev opened_or : {A : Type 0} → Bool → A → ReadReply A
opened_or opened a = if opened then read a else store_error

-- The number that a query gives, where it is in the bounds.
abbrev pub in_bounds_or : ℤ → (ℤ → Bool) → Option ℤ → ℤ
in_bounds_or default ok none = default
in_bounds_or default ok (some n) = if ok n then n else default

abbrev pub health_limit : (String → Option ℤ) → String → ℤ
health_limit atoi text =
    if str_eq text "" then pos 50 else in_bounds_or (pos 50) (λ n. ltb_ℤ (pos 0) n) (atoi text)

abbrev pub max_points : (String → Option ℤ) → String → ℤ
max_points atoi text =
    if str_eq text ""
    then pos 200
    else in_bounds_or (pos 200) (λ n. ltb_ℤ (pos 0) n && leb_ℤ n (pos 1000)) (atoi text)

abbrev last : {A : Type 0} → List A → Option A
last [] = none
last (x ∷ []) = some x
last (x ∷ y ∷ rest) = last (y ∷ rest)

pub record Health : Type 0 where
  pub state : ServiceState
  pub health_checks : List HealthCheckConfig
  pub latest : Option HealthCheckResult

-- handleGetHealth
unfoldable pub handle_get_health :
    (bolt : Bolt)
    → (List HealthCheckResult → List HealthCheckResult)
    → Codec HealthCheckResult
    → Bool
    → Option bolt.Bucket
    → String
    → Option ManagedService
    → ReadReply Health
unfolding get_health_history validate_service_id
handle_get_health bolt sorted c opened bucket id found = known id found (λ ms.
    opened_or opened (record {
      state = ms.config.state;
      health_checks = ms.config.health_checks;
      latest = last (get_health_history bolt sorted c (pos 1) bucket);
    }))

-- handleGetHealthHistory, with the query "limit"
unfoldable pub handle_get_health_history :
    (bolt : Bolt)
    → (List HealthCheckResult → List HealthCheckResult)
    → Codec HealthCheckResult
    → (String → Option ℤ)
    → Bool
    → Option bolt.Bucket
    → String
    → String
    → ReadReply (List HealthCheckResult)
unfolding get_health_history validate_service_id
handle_get_health_history bolt sorted c atoi opened bucket id limit =
    if not (validate_service_id id)
    then invalid_service_id
    else opened_or opened (get_health_history bolt sorted c (health_limit atoi limit) bucket)

-- handleListEvents, with the query "service_id" and the entries of the events' cursor
unfoldable pub handle_list_events : Bool → List (Option Event) → String → ReadReply (List Event)
unfolding list_events
handle_list_events opened entries sid = opened_or opened (
    list_events
      (record {
        service_id = if str_eq sid "" then none else some sid;
        type = none;
        since = none;
        limit = pos 100;
      })
      0 entries)

-- time.Parse with RFC 3339, time.ParseDuration, and strconv.Atoi.
pub record Parsers : Type 0 where
  pub time : String → Option ℤ
  pub duration : String → Option ℤ
  pub atoi : String → Option ℤ

-- The queries of handleGetPerformance, empty where they are missing.
pub record Queries : Type 0 where
  pub from : String
  pub to : String
  pub range : String
  pub points : String

abbrev pub minus : ℤ → ℤ → ℤ
minus a b = a +ℤ sub_ℕ (neg_part b) (pos_part b)

abbrev pub parsed_or : {A : Type 0} → (String → Option A) → String → A → A
parsed_or parse text default =
    if str_eq text "" then default else elim (parse text) [ none ↦ default | some t ↦ t ]

-- The span: the last hour, or as "from" and "to" say, or as "range" says.
abbrev pub asked_span : Parsers → ℤ → Queries → ℤ × ℤ
asked_span p now q =
    (parsed_or p.time q.from (minus now (pos 3600000000000)), parsed_or p.time q.to now)

abbrev pub ranged : ℤ → Option ℤ → ℤ × ℤ → ℤ × ℤ
ranged now none span = span
ranged now (some d) span = (minus now d, now)

unfoldable pub time_span : Parsers → ℤ → Queries → ℤ × ℤ
time_span p now q =
    ranged now (if str_eq q.range "" then none else p.duration q.range) (asked_span p now q)

pub record Performance : Type 0 where
  pub from : ℤ
  pub to : ℤ
  pub samples : List ResourceSample

-- handleGetPerformance; `key` is a time's key, and `late` whether a key lies behind that of a time.
unfoldable pub handle_get_performance :
    (bolt : Bolt)
    → Means
    → Codec ResourceSample
    → (ℤ → String)
    → (ℤ → String → Bool)
    → Parsers
    → ℤ
    → Queries
    → Bool
    → Option bolt.Bucket
    → String
    → Option ManagedService
    → ReadReply Performance
unfolding get_resource_history validate_service_id time_span
handle_get_performance bolt m c key late p now q opened bucket id found =
    let (from, to) = time_span p now q in
    let samples =
      get_resource_history bolt m c (key from) (late to) (max_points p.atoi q.points) bucket in
    known id found (λ ms. opened_or opened (record { from = from; to = to; samples = samples }))
