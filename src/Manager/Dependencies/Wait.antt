-- ===== src/Manager/Dependencies/Wait.antt =====
-- internal/manager/dependencies.go: WaitForDependencies. What each tick of the second's ticker sees is a
-- list; it ends where the timeout or the context ends the wait.
use elnssm.Common.{
  ℕ, ℤ, pos, leb_ℤ, List, [], ◌∷◌, Option, none, some, Bool, true, false, any, Dict, lookup, ◌≡◌,
  refl, arith, if◌then◌else◌,
}
use elnssm.Model.{ServiceDependency, DependencyType, is_running}
use elnssm.Manager.State.{ManagedService}

-- The services at a tick, and which health runners are healthy then.
pub record Snapshot : Type 0 where
  pub services : Dict ManagedService
  pub healthy : ℕ → Bool

abbrev pub runner_healthy : (ℕ → Bool) → Option ℕ → Bool
runner_healthy healthy none = true
runner_healthy healthy (some runner) = healthy runner

abbrev pub met_by : DependencyType → Snapshot → Option ManagedService → Bool
met_by type s none = false
met_by DependencyType.running s (some ms) = is_running ms.config.state
met_by DependencyType.healthy s (some ms) =
    if is_running ms.config.state then runner_healthy s.healthy ms.health_runner else false
met_by (DependencyType.other t) s (some ms) = is_running ms.config.state

unfoldable pub is_dependency_met : Snapshot → ServiceDependency → Bool
is_dependency_met s dep = met_by dep.type s (lookup dep.service_id s.services)

-- In nanoseconds; 5 minutes where none is configured.
unfoldable pub wait_timeout : ServiceDependency → ℤ
wait_timeout dep = if leb_ℤ dep.timeout (pos 0) then pos 300000000000 else dep.timeout

-- Whether the dependency is met before the wait ends.
unfoldable pub wait_for_single_dependency : ServiceDependency → List Snapshot → Bool
wait_for_single_dependency dep [] = false
wait_for_single_dependency dep (s ∷ later) =
    let rest = wait_for_single_dependency dep later in
    if is_dependency_met s dep then true else rest

-- One after the other, each with the ticks that its wait sees within its timeout; none is success, else
-- the dependency that was not met.
unfoldable pub wait_for_dependencies :
    (ServiceDependency → ℤ → List Snapshot) → List ServiceDependency → Option ServiceDependency
wait_for_dependencies ticks [] = none
wait_for_dependencies ticks (dep ∷ deps) =
    let rest = wait_for_dependencies ticks deps in
    if wait_for_single_dependency dep (ticks dep (wait_timeout dep)) then rest else some dep

-- Each dependency is met at one of the ticks of its wait.
abbrev pub AreMet : (ServiceDependency → ℤ → List Snapshot) → List ServiceDependency → Type 0
AreMet ticks [] = Unit
AreMet ticks (dep ∷ deps) =
    (any (λ s. is_dependency_met s dep) (ticks dep (wait_timeout dep)) ≡ true) × AreMet ticks deps

wait_for_single_dependency-any :
    (dep : ServiceDependency) (ticks : List Snapshot)
    → wait_for_single_dependency dep ticks ≡ any (λ s. is_dependency_met s dep) ticks
unfolding wait_for_single_dependency
wait_for_single_dependency-any dep [] = refl
wait_for_single_dependency-any dep (s ∷ later) =
    ground (arith, wait_for_single_dependency-any dep later)

-- The wait succeeds only when each dependency has been met at some tick within its timeout.
pub wait_for_dependencies-AreMet :
    (ticks : ServiceDependency → ℤ → List Snapshot) (deps : List ServiceDependency)
    → wait_for_dependencies ticks deps ≡ none
    → AreMet ticks deps
unfolding wait_for_dependencies
wait_for_dependencies-AreMet ticks [] h = tt
wait_for_dependencies-AreMet ticks (dep ∷ deps) h =
    let single = wait_for_single_dependency-any dep (ticks dep (wait_timeout dep)) in
    (ground (arith, h, single), wait_for_dependencies-AreMet ticks deps (ground (arith, h, single)))
