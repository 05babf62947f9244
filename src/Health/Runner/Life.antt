-- ===== src/Health/Runner/Life.antt =====
-- internal/health/runner.go: NewRunner, Run and Stop, as what becomes of the loops of the checks. Run is
-- started as a goroutine, so a Stop may come before it.
use elnssm.Common.{
  ℕ, suc, ◌+◌, str_eq, List, [], ◌∷◌, Bool, true, false, ◌||◌, ◌≡◌, refl, arith, if◌then◌else◌,
}
use elnssm.Model.{HealthCheckConfig}

-- `can_cancel`: whether Run has set the cancel function. `loops`: the runCheck goroutines that run.
pub record RunnerLife : Type 0 where
  pub checks : List HealthCheckConfig
  pub can_cancel : Bool
  pub loops : ℕ

unfoldable pub new_runner : List HealthCheckConfig → RunnerLife
new_runner checks = record { checks = checks; can_cancel = false; loops = 0 }

-- A check of a type that NewChecker knows gets a loop.
abbrev pub has_checker : HealthCheckConfig → Bool
has_checker cfg = str_eq cfg.type "http" || (str_eq cfg.type "tcp" || str_eq cfg.type "script")

unfoldable pub checkers : List HealthCheckConfig → ℕ
checkers [] = 0
checkers (cfg ∷ cfgs) = if has_checker cfg then suc (checkers cfgs) else checkers cfgs

-- Run, up to its wait
unfoldable pub run : RunnerLife → RunnerLife
run r = record r { can_cancel = true; loops = r.loops + checkers r.checks }

-- Stop: the loops end when they are cancelled, and Stop waits for them.
unfoldable pub stop : RunnerLife → RunnerLife
stop r = if r.can_cancel then record r { loops = 0 } else r

-- A Stop that comes after Run ends every loop; one that comes before it ends none, and Run then starts a
-- loop for each check, which nothing ends.
pub stop_around_run :
    (checks : List HealthCheckConfig)
    → ((stop (run (new_runner checks))).loops ≡ 0)
      × ((run (stop (new_runner checks))).loops ≡ checkers checks)
unfolding new_runner run stop
stop_around_run checks = (refl, omega arith)
