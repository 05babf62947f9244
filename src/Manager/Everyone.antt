-- ===== src/Manager/Everyone.antt =====
-- internal/manager/manager.go: StopAll, DetachAll and AdoptOrphans, over the map of services. In each
-- of them a service is handled for itself, so one order of the map stands for all, and for the
-- goroutines of StopAll.
pub mod Lookups
pub mod Adopted
use elnssm.Common.{
  ℤ, String, List, [], ◌∷◌, Option, none, some, ◌||◌, Dict, lookup, insert, if◌then◌else◌,
}
use elnssm.Model.{is_running, is_starting}
use elnssm.Process.Wrapper.{Adoption}
use elnssm.Manager.State.{System, state_of}
use elnssm.Manager.Stop.{StopWorld, stop_service}
use elnssm.Manager.Handover.{detach_service, adopt_orphan}

-- What the hooks and Wrapper.Stop answer for each service.
unfoldable pub stop_all : (String → StopWorld) → Dict System → Dict System
stop_all answers [] = []
stop_all answers ((id, s) ∷ services) =
    let rest = stop_all answers services in
    if is_running (state_of s) || is_starting (state_of s)
    then (id, stop_service (answers id) s) ∷ rest
    else (id, s) ∷ rest

-- orphans[id] = pid
abbrev pub noted : String → Option ℤ → Dict ℤ → Dict ℤ
noted id none orphans = orphans
noted id (some p) orphans = (id, p) ∷ orphans

-- The services, and the map of orphans.
unfoldable pub detach_all : Dict System → Dict System × Dict ℤ
detach_all [] = ([], [])
detach_all ((id, s) ∷ services) =
    let (others, orphans) = detach_all services in
    let (detached, p) = detach_service s in ((id, detached) ∷ others, noted id p orphans)

abbrev pub adopt_one :
    (String → ℤ → Adoption) → String → ℤ → Option System → Dict System → Dict System
adopt_one answers id p none services = services
adopt_one answers id p (some s) services = insert id (adopt_orphan p (answers id p) s) services

-- What the calls of Adopt answer for each service and PID.
unfoldable pub adopt_orphans : (String → ℤ → Adoption) → Dict ℤ → Dict System → Dict System
adopt_orphans answers [] services = services
adopt_orphans answers ((id, p) ∷ orphans) services =
    adopt_orphans answers orphans (adopt_one answers id p (lookup id services) services)
