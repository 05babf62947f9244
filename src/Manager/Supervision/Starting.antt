-- ===== src/Manager/Supervision/Starting.antt =====
-- startService (internal/manager/manager.go) as moves of the abstract machine.
use elnssm.Common.{
  ℕ, ℤ, ◌∷◌, ◌≤◌, ◌<◌, String, true, false, ◌≡◌, ◌⊎◌, inl, inr, refl, arith, Bool-cases,
}
use elnssm.Model.{ServiceState, is_running}
use elnssm.Process.Wrapper as Wrapper
use elnssm.Process.Wrapper.{Wrapper, Adoption, Shutdown, ExitResult}
use elnssm.Manager.State.{
  System, state_of, set_state, set_failed, hook_event, emit_event, save_runtime_state, open_capture,
  start_resource_monitor, start_health_runner, start_monitor_service,
}
use elnssm.Manager.Handover.{now_adopted, ensure_resource_monitor, adopt_orphan}
use elnssm.Manager.Start.{
  StartWorld, spawn_service, launch_service, start_service, attach, default_working_dir, after_wait,
}
use elnssm.Manager.Supervision.Machine.{View, Move, launch, stay}
use elnssm.Manager.Supervision.Steps.{view, calm_start}
use elnssm.Manager.Supervision.Quiet.{view-hook_event, view-default_working_dir}

-- What `launch` says of the views before and after.
abbrev Launched : View → View → Type 0
Launched v u =
    (v.fresh ≤ u.stop_ch)
    × (u.stop_ch < u.fresh)
    × (u.watchers ≡ u.stop_ch ∷ v.watchers)
    × (u.closed ≡ v.closed)
    × (u.running ≡ true)
    × (u.attached ≡ true)

abbrev Started : View → View → Type 0
Started v u = Launched v u ⊎ (u ≡ v)

Started→Move : (v u : View) → v.running ≡ false → Started v u → Move v u
Started→Move v u r (inl (a, b, w, c, d, e)) = launch u.stop_ch u.fresh a b r (λ i. record {
  fresh = u.fresh;
  watchers = w i;
  closed = c i;
  stop_ch = u.stop_ch;
  running = d i;
  attached = e i;
})
Started→Move v u r (inr e) = stay e

attach-Launched : (w : Wrapper) (now : ℕ) (s : System) → Launched (view s) (view (attach w now s))
unfolding attach save_runtime_state emit_event open_capture start_resource_monitor
    start_health_runner start_monitor_service
attach-Launched w now s = ground arith

-- Starting, in a state that does not count as running.
module _ (w : StartWorld) where
  set_failed-Move :
      (e : String) (s : System) → is_running (state_of s) ≡ false → view (set_failed e s) ≡ view s
  set_failed-Move e s r = ground arith

  spawn_service-Started :
      (s : System) → is_running (state_of s) ≡ false → Started (view s) (view (spawn_service w s).0)
  unfolding spawn_service
  spawn_service-Started s r =
      let (wrapper, error) = Wrapper.start (Wrapper.new_wrapper s.ms.config) w.launch in
      ground (arith, attach-Launched wrapper w.now s)

  launch_service-Started :
      (s : System)
      → is_running (state_of s) ≡ false
      → Started (view s) (view (launch_service w s).0)
  unfolding launch_service
  launch_service-Started s r =
      let hooked = hook_event s.ms.config.hooks.pre_start w.pre_start s in
      let same = view-hook_event s.ms.config.hooks.pre_start w.pre_start s in
      let calm : is_running (state_of hooked) ≡ false = ground arith in
      ground (arith, same, spawn_service-Started hooked calm)

  after_wait-Started :
      (s : System) → is_running (state_of s) ≡ false → Started (view s) (view (after_wait w s).0)
  unfolding after_wait save_runtime_state
  after_wait-Started s r = ground (arith, launch_service-Started s r)

adopted-Launched :
    (w : Wrapper) (p : ℤ) (s : System)
    → Launched (view s) (
        view (
          ensure_resource_monitor
            (start_health_runner (start_monitor_service (save_runtime_state (now_adopted w p s))))))
unfolding ensure_resource_monitor save_runtime_state start_resource_monitor start_health_runner
    start_monitor_service
adopted-Launched w p s = ground arith

-- An adoption launches a process with its monitor, or leaves a service that does not run.
pub adopt_orphan-Move :
    (p : ℤ) (a : Adoption) (s : System)
    → is_running (state_of s) ≡ false
    → Move (view s) (view (adopt_orphan p a s))
unfolding adopt_orphan save_runtime_state
adopt_orphan-Move p a s r =
    let (wrapper, error) = Wrapper.adopt (Wrapper.new_wrapper s.ms.config) p a in
    Started→Move (view s) (view (adopt_orphan p a s)) r
      (ground (arith, r, adopted-Launched wrapper p s))

pub start_service-Move :
    (w : StartWorld) (s : System) → Move (view s) (view (start_service (calm_start w) s).0)
unfolding start_service
start_service-Move w s =
    let calm = calm_start w in
    let starting = set_state ServiceState.starting (default_working_dir w.dir s) in
    elim (Bool-cases (is_running (state_of s))) [
      | inl r ↦ stay (ground arith)
      | inr r ↦ Started→Move (view s) (view (start_service calm s).0) r (
          ground (
            arith,
            view-default_working_dir w.dir s,
            launch_service-Started calm starting refl,
            after_wait-Started calm starting refl,
          ))
    ]
