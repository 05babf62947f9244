-- ===== src/Guardian/Stopped.antt =====
-- What the end of a Guardian leaves of the services (internal/guardian/guardian.go).
use elnssm.Common.{Bool, ◌||◌}
use elnssm.Model.{is_running, is_starting}
use elnssm.Manager.State.{System, state_of}
use elnssm.Guardian.Defs.{Guardian}

abbrev pub is_up : System → Bool
is_up s = is_running (state_of s) || is_starting (state_of s)
