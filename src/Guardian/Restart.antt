-- ===== src/Guardian/Restart.antt =====
-- The hand-over of the processes from one Guardian to the next (internal/guardian and
-- internal/manager/manager.go).
use elnssm.Common.{if◌then◌else◌, ℤ, String, Option, none, some, true, Dict, lookup, ◌≡◌}
use elnssm.Model.{is_running}
use elnssm.Manager.State.{System, state_of}
use elnssm.Manager.Everyone.Lookups.{is_map}
use elnssm.Guardian.Defs.{Json, Guardian}

-- What encoding/json reads back of a map of PIDs is the same map, in some order.
pub record IsJson (j : Json) : Type 0 where
  pub reread : Dict ℤ → Dict ℤ
  pub unmarshal_lem : (d : Dict ℤ) → is_map d ≡ true → j.unmarshal (j.marshal d) ≡ some (reread d)
  pub reread-is_map : (d : Dict ℤ) → is_map d ≡ true → is_map (reread d) ≡ true
  pub lookup-reread :
      (d : Dict ℤ) (id : String) → is_map d ≡ true → lookup id (reread d) ≡ lookup id d

-- The process that a service runs as: it has one if it is running and has a wrapper, with the PID
-- that the wrapper holds.
abbrev pub process_of : System → Option ℤ
process_of s =
    if is_running (state_of s)
    then elim s.ms.wrapper [ none ↦ none | some w ↦ some w.pid ]
    else none
