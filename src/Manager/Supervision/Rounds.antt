-- ===== src/Manager/Supervision/Rounds.antt =====
-- A round of monitorService (internal/manager/manager.go) as a move of the abstract machine.
use elnssm.Common.{
  ℕ, Bool, true, false, not, elem, delete, is_some, ◌≡◌, ◌≢◌, ◌⊎◌, inl, inr, refl, Bool-cases, ◌∙◌,
  ap, sym, subst,
}
use mathlib.Core.Bool.{false≢true}
use elnssm.Model.{is_running}
use elnssm.Manager.State.{System, state_of}
use elnssm.Manager.Restart.{RestartWorld}
use elnssm.Manager.Monitor.{
  MonitorEvent, stop_signalled, ctx_done, leave_unless, monitor_round, on_event,
}
use elnssm.Manager.Supervision.Machine.{View, Move, relaunch, finish, leave, stay, IsSupervised}
use elnssm.Manager.Supervision.Steps.{view, calm_restart}
use elnssm.Manager.Supervision.Restarting.{Restarted, on_event_open, on_event_closed}

-- What leaves the watchers when a round ends.
abbrev without_watcher : ℕ → View → View
without_watcher mine v = record v { watchers = delete mine v.watchers }

leave-Move :
    (mine : ℕ) (s : System) (r : System × Bool)
    → elem mine s.rt.closed ≡ true
    → view r.0 ≡ view s
    → Move (view s) (view (leave_unless mine r))
leave-Move mine s (t, true) c e = stay e
leave-Move mine s (t, false) c e = leave mine c (ap (without_watcher mine) e)

finish-Move :
    (s : System) (r : System × Bool)
    → is_running (state_of s) ≡ true
    → Restarted (view s) r ⊎ (r ≡ (s, true))
    → Move (view s) (view (leave_unless s.ms.stop_ch r))
finish-Move s (t, true) live (inl (inl (_, (a, b, c, d, e, f)))) = relaunch t.rt.fresh a live (λ i.
    record {
      fresh = t.rt.fresh;
      watchers = b i;
      closed = c i;
      stop_ch = d i;
      running = (e ∙ sym live) i;
      attached = f i;
    })
finish-Move s (t, false) live (inl (inl (x, _))) = absurd (false≢true x)
finish-Move s (t, true) live (inl (inr (x, _))) = absurd (false≢true (sym x))
finish-Move s (t, false) live (inl (inr (_, e))) = finish (ap (without_watcher s.ms.stop_ch) e)
finish-Move s (t, true) live (inr e) = stay (ap (λ r. view r.0) e)
finish-Move s (t, false) live (inr e) = absurd (false≢true (ap (λ r. r.1) e))

monitor_round_attached :
    (o : RestartWorld) (mine : ℕ) (e : MonitorEvent) (s : System)
    → is_some s.ms.wrapper ≡ true
    → monitor_round o mine e s ≡ leave_unless mine (on_event o mine e s)
unfolding monitor_round
monitor_round_attached o mine e s p = rw p

monitor_round_detached :
    (o : RestartWorld) (mine : ℕ) (e : MonitorEvent) (s : System)
    → is_some s.ms.wrapper ≡ false
    → monitor_round o mine e s ≡ leave_unless mine (s, false)
unfolding monitor_round
monitor_round_detached o mine e s p = rw p

pub monitor_round-Move :
    (o : RestartWorld) (mine : ℕ) (e : MonitorEvent) (s : System)
    → IsSupervised (view s)
    → elem mine s.rt.watchers ≡ true
    → o.slept ≡ not (elem mine s.rt.closed)
    → (e ≡ stop_signalled → elem mine s.rt.closed ≡ true)
    → e ≢ ctx_done
    → Move (view s) (view (monitor_round (calm_restart o) mine e s))
monitor_round-Move o mine e s ok w sl st cx = elim (Bool-cases (elem mine s.rt.closed)) [
  | inl c ↦
      let cut : o.slept ≡ false = rw sl (rw c) in
      elim (Bool-cases (is_some s.ms.wrapper)) [
        | inl p ↦ rw (monitor_round_attached (calm_restart o) mine e s p) (
            leave-Move mine s (on_event (calm_restart o) mine e s) c
              (on_event_closed o cut mine e s c))
        | inr p ↦
            rw (monitor_round_detached (calm_restart o) mine e s p)
              (leave-Move mine s (s, false) c refl)
      ]
  | inr c ↦ elim (ok.single mine w) [
    | inl k ↦ absurd (false≢true (sym c ∙ k))
    | inr (q, live) ↦
        let full : o.slept ≡ true = rw sl (rw c) in
        let awake : e ≢ stop_signalled = λ h. false≢true (sym c ∙ st h) in
        rw (monitor_round_attached (calm_restart o) mine e s (ok.has_process live)) (
          subst (λ m. Move (view s) (view (leave_unless m (on_event (calm_restart o) mine e s))))
            (sym q)
            (finish-Move s (on_event (calm_restart o) mine e s) live
              (on_event_open o full mine e s c awake cx)))
  ]
]
