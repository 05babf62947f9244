-- ===== src/Manager/Supervision/Refinement.antt =====
-- Start, Stop, AdoptOrphans and monitorService of internal/manager/manager.go on one service refine the
-- abstract machine.
use elnssm.Manager.State.{System}
use elnssm.Manager.Supervision.Machine.{Move, IsSupervised}
use elnssm.Manager.Supervision.Steps.{view, Step, start, stop, adopt, round}
use elnssm.Manager.Supervision.Starting.{start_service-Move, adopt_orphan-Move}
use elnssm.Manager.Supervision.Stopping.{stop_service-Move}
use elnssm.Manager.Supervision.Rounds.{monitor_round-Move}

-- Refinement: on a supervised service, each start, each stop, each adoption of a process for a
-- service that does not run, and each round of a monitor is a move of the machine.
pub Step-Move : {s t : System} → Step s t → IsSupervised (view s) → Move (view s) (view t)
Step-Move {s} (start w) ok = start_service-Move w s
Step-Move {s} (stop w) ok = stop_service-Move w s
Step-Move {s} (adopt p a r) ok = adopt_orphan-Move p a s r
Step-Move {s} (round o mine e w sl st cx) ok = monitor_round-Move o mine e s ok w sl st cx
