-- ===== src/Manager/Supervision/Restarting.antt =====
-- The restarts of monitorService (internal/manager/manager.go), as the abstract machine sees them.
use elnssm.Common.{ℕ, ◌≤◌, Bool, true, false, elem, ◌≡◌, ◌≢◌, ◌⊎◌, inl, inr, refl, arith}
use elnssm.Model.{EventType}
use elnssm.Process.Wrapper.{ExitResult}
use elnssm.Manager.State.{
  System, with_config, emit_event, save_runtime_state, stop_resource_monitor, close_capture,
  open_capture, start_resource_monitor,
}
use elnssm.Manager.Restart.{
  RestartWorld, do_restart, restart_after_breach, sleep_then_restart, stop_in_place, count_restart,
}
use elnssm.Manager.Monitor.{
  MonitorEvent, exited, breach, health_failed, perf_tick, stop_signalled, ctx_done, record_exit,
  on_event, handle_exit, handle_breach, handle_health, crash_exit, clean_exit,
}
use elnssm.Manager.Supervision.Machine.{View}
use elnssm.Manager.Supervision.Steps.{view, calm_restart}
use elnssm.Manager.Supervision.Quiet.{view-stop_in_place}

-- What a restart leaves: a process under the same watcher, or a service that has failed.
abbrev Relaunched : View → View → Type 0
Relaunched v u =
    (v.fresh ≤ u.fresh)
    × (u.watchers ≡ v.watchers)
    × (u.closed ≡ v.closed)
    × (u.stop_ch ≡ v.stop_ch)
    × (u.running ≡ true)
    × (u.attached ≡ true)

abbrev pub Restarted : View → System × Bool → Type 0
Restarted v r =
    (r.1 ≡ true) × Relaunched v (view r.0)
    ⊎ (r.1 ≡ false) × (view r.0 ≡ record v { running = false })

do_restart-Restarted : (o : RestartWorld) (s : System) → Restarted (view s) (do_restart o s)
unfolding do_restart save_runtime_state open_capture start_resource_monitor stop_resource_monitor
    close_capture
do_restart-Restarted o s = ground arith

-- The events of a watcher whose channel is open: its delays run to their end.
module _ (o : RestartWorld) (slept : o.slept ≡ true) where
  sleep-Restarted : (s : System) → Restarted (view s) (sleep_then_restart (calm_restart o) s)
  unfolding sleep_then_restart
  sleep-Restarted s = ground (arith, do_restart-Restarted (calm_restart o) s)

  breach-Restarted : (s : System) → Restarted (view s) (restart_after_breach (calm_restart o) s)
  unfolding restart_after_breach
  breach-Restarted s =
      let counted = stop_in_place o.shutdown (count_restart s) in
      ground (arith, view-stop_in_place o.shutdown (count_restart s), sleep-Restarted counted)

  handle_breach-Restarted : (s : System) → Restarted (view s) (handle_breach (calm_restart o) s)
  unfolding handle_breach emit_event
  handle_breach-Restarted s = ground (
    arith,
    breach-Restarted (unfold emit_event in emit_event EventType.resource_threshold_breached s),
  )

  crash_exit-Restarted :
      (r : ExitResult) (s : System) → Restarted (view s) (crash_exit (calm_restart o) r s)
  unfolding crash_exit emit_event save_runtime_state
  crash_exit-Restarted r s =
      let crashed = emit_event EventType.service_crashed (with_config (record_exit r) s) in
      ground (arith, sleep-Restarted (count_restart crashed))

  clean_exit-Restarted : (s : System) → Restarted (view s) (clean_exit (calm_restart o) s)
  unfolding clean_exit save_runtime_state
  clean_exit-Restarted s = ground (arith, sleep-Restarted (count_restart s))

  pub on_event_open :
      (mine : ℕ) (e : MonitorEvent) (s : System)
      → elem mine s.rt.closed ≡ false
      → e ≢ stop_signalled
      → e ≢ ctx_done
      → Restarted (view s) (on_event (calm_restart o) mine e s)
        ⊎ (on_event (calm_restart o) mine e s ≡ (s, true))
  unfolding on_event handle_exit handle_health emit_event
  on_event_open mine (exited r) s c a b =
      ground (arith, crash_exit-Restarted r s, clean_exit-Restarted s)
  on_event_open mine breach s c a b = inl (handle_breach-Restarted s)
  on_event_open mine health_failed s c a b =
      ground (arith, breach-Restarted (emit_event EventType.health_check_failed s))
  on_event_open mine perf_tick s c a b = inr refl
  on_event_open mine stop_signalled s c a b = absurd (a refl)
  on_event_open mine ctx_done s c a b = absurd (b refl)

-- A watcher whose channel is closed changes nothing that the machine sees.
module _ (o : RestartWorld) (cut : o.slept ≡ false) where
  breach_closed : (s : System) → view (restart_after_breach (calm_restart o) s).0 ≡ view s
  unfolding restart_after_breach sleep_then_restart
  breach_closed s = ground (arith, view-stop_in_place o.shutdown (count_restart s))

  breach_closed_ends : (s : System) → (restart_after_breach (calm_restart o) s).1 ≡ false
  unfolding restart_after_breach sleep_then_restart
  breach_closed_ends s = ground arith

  pub on_event_closed :
      (mine : ℕ) (e : MonitorEvent) (s : System)
      → elem mine s.rt.closed ≡ true
      → view (on_event (calm_restart o) mine e s).0 ≡ view s
  unfolding on_event handle_exit handle_health handle_breach emit_event
  on_event_closed mine (exited r) s c = ground arith
  on_event_closed mine breach s c =
      let seen = emit_event EventType.resource_threshold_breached s in
      ground (arith, breach_closed seen, breach_closed_ends seen)
  on_event_closed mine health_failed s c =
      let seen = emit_event EventType.health_check_failed s in
      ground (arith, breach_closed seen, breach_closed_ends seen)
  on_event_closed mine perf_tick s c = refl
  on_event_closed mine stop_signalled s c = refl
  on_event_closed mine ctx_done s c = refl
