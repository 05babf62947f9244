-- ===== src/Manager/Policy.antt =====
-- internal/manager/manager.go: shouldRestart and calculateRestartDelay.
pub mod Bounds
use elnssm.Common.{
  ℕ, zero, suc, ◌-◌, ◌*◌, ℤ, pos, ltb_ℤ, leb_ℤ, eqb_ℤ, Bool, true, false, ◌&&◌, ◌||◌, ltb,
  if◌then◌else◌,
}
use elnssm.Model.{Float64, RestartMode, RestartPolicyConfig, Service}

-- Go's float64 operations that the delay needs: m > 0, the constant 2.0, and
-- time.Duration(float64(d) * m).
pub record Floats : Type 0 where
  pub positive : Float64 → Bool
  pub two : Float64
  pub mul_duration : ℤ → Float64 → ℤ

abbrev pub seconds : ℕ → ℤ
seconds n = pos (1000000000 * n)

abbrev retries_left : Service → Bool
retries_left svc =
    ltb_ℤ (pos svc.restart_count) svc.restart_policy.max_retries
    || eqb_ℤ svc.restart_policy.max_retries (pos 0)

abbrev by_mode : RestartMode → Service → Bool
by_mode RestartMode.never svc = false
by_mode RestartMode.always svc = retries_left svc
by_mode RestartMode.on_failure svc = retries_left svc
by_mode (RestartMode.other m) svc = ltb svc.restart_count 10

unfoldable pub should_restart : Service → Bool
should_restart svc = by_mode svc.restart_policy.mode svc

-- The policy's delay, or 5 s where it is zero.
unfoldable pub base_delay : Service → ℤ
base_delay svc =
    if eqb_ℤ svc.restart_policy.delay (pos 0) then seconds 5 else svc.restart_policy.delay

-- A delay is capped if the policy has a positive max_backoff.
abbrev pub exceeds : ℤ → ℤ → Bool
exceeds max_backoff delay = ltb_ℤ (pos 0) max_backoff && ltb_ℤ max_backoff delay

module _ (f : Floats) where
  unfoldable pub multiplier : Service → Float64
  multiplier svc =
      if f.positive svc.restart_policy.backoff_multiplier
      then svc.restart_policy.backoff_multiplier
      else f.two

  -- The loop: `rounds` of them are left.
  unfoldable pub backoff : Float64 → ℤ → ℕ → ℤ → ℤ
  backoff m max_backoff zero delay = delay
  backoff m max_backoff (suc rounds) delay =
      let grown = f.mul_duration delay m in
      let rest = backoff m max_backoff rounds grown in
      if exceeds max_backoff grown then max_backoff else rest

  unfoldable pub calculate_restart_delay : Service → ℕ → ℤ
  unfolding multiplier base_delay
  calculate_restart_delay svc attempt =
      backoff (multiplier svc) svc.restart_policy.max_backoff (attempt - 1) (base_delay svc)
