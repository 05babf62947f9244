-- ===== src/Api/Control/Others.antt =====
-- What a request to start, stop or restart a service leaves alone.
use elnssm.Common.{
  String, str_eq, Option, none, some, Dict, lookup, insert, lookup-insert, ◌≡◌, refl, ◌∙◌, false,
  arith,
}
use elnssm.Manager.State.{System}
use elnssm.Manager.Start.{StartWorld, start_service}
use elnssm.Manager.Stop.{StopWorld, stop_service}
use elnssm.Api.Control.{
  ControlError, start_found, stop_found, start, stop, restart, then_start, handle_restart_service,
}

module _ (id other : String) (differs : str_eq id other ≡ false) where
  lookup-put :
      (s : System) (services : Dict System)
      → lookup other (insert id s services) ≡ lookup other services
  lookup-put s services = lookup-insert id other s services ∙ rw differs refl

  lookup-start_found :
      (w : StartWorld) (services : Dict System) (o : Option System)
      → lookup other (start_found w id services o).0 ≡ lookup other services
  unfolding start_found
  lookup-start_found w services none = refl
  lookup-start_found w services (some s) = lookup-put (start_service w s).0 services

  lookup-stop_found :
      (w : StopWorld) (services : Dict System) (o : Option System)
      → lookup other (stop_found w id services o).0 ≡ lookup other services
  unfolding stop_found
  lookup-stop_found w services none = refl
  lookup-stop_found w services (some s) = lookup-put (stop_service w s) services

  lookup-then_start :
      (w : StartWorld) (meanwhile : Dict System → Dict System)
      (result : Dict System × Option ControlError)
      → ((d : Dict System) → lookup other (meanwhile d) ≡ lookup other d)
      → lookup other (then_start w meanwhile id result).0 ≡ lookup other result.0
  unfolding start
  lookup-then_start w meanwhile (d, some e) h = refl
  lookup-then_start w meanwhile (d, none) h =
      lookup-start_found w (meanwhile d) (lookup id (meanwhile d)) ∙ h d

  -- A request to restart a service leaves every other service as it is, whether it is refused, fails
  -- or succeeds, if what others do in its delay does.
  pub lookup-handle_restart_service :
      (v : StopWorld) (w : StartWorld) (meanwhile : Dict System → Dict System)
      (services : Dict System)
      → ((d : Dict System) → lookup other (meanwhile d) ≡ lookup other d)
      → lookup other (handle_restart_service v w meanwhile id services).0 ≡ lookup other services
  unfolding handle_restart_service restart stop
  lookup-handle_restart_service v w meanwhile services h =
      let result = then_start w meanwhile id (stop v id services) in
      let same =
        lookup-then_start w meanwhile (stop v id services) h
        ∙ lookup-stop_found v services (lookup id services) in
      ground (arith, same)
