-- ===== src/Manager/Policy/Bounds.antt =====
-- Bounds on the restart delay of internal/manager/manager.go.
use elnssm.Common.{
  ℕ, zero, suc, ◌+◌, ◌-◌, ◌<◌, ◌≤◌, ℤ, pos, ◌≤ℤ◌, ◌<ℤ◌, false, ◌≡◌, refl, arith, ◌⊎◌, inl, inr,
  Bool-cases,
}
use elnssm.Model.{Float64, Service}
use elnssm.Manager.Policy.{
  Floats, base_delay, multiplier, backoff, calculate_restart_delay, exceeds,
}

exceeds_false : (top d : ℤ) → pos 0 <ℤ top → exceeds top d ≡ false → d ≤ℤ top
exceeds_false top d p e = ground arith

≤ℤ_refl : (d : ℤ) → d ≤ℤ d
≤ℤ_refl d = omega arith

≤ℤ_trans : (a b c : ℤ) → a ≤ℤ b → b ≤ℤ c → a ≤ℤ c
≤ℤ_trans a b c h k = omega arith

rounds_now : (n : ℕ) → suc n - 1 ≡ n
rounds_now n = omega arith

rounds_next : (n : ℕ) → suc n + 1 - 1 ≡ suc n
rounds_next n = omega arith

le_or_lt : (n : ℕ) → (n ≤ 1) ⊎ (1 < n)
le_or_lt n = omega arith

module _ (f : Floats) where
  backoff-le-max :
      (m : Float64) (top : ℤ) (rounds : ℕ) (delay : ℤ)
      → pos 0 <ℤ top
      → delay ≤ℤ top ⊎ 0 < rounds
      → backoff f m top rounds delay ≤ℤ top
  unfolding backoff
  backoff-le-max m top zero delay p (inl h) = h
  backoff-le-max m top zero delay p (inr h) = absurd (omega arith)
  backoff-le-max m top (suc n) delay p h =
      elim (Bool-cases (exceeds top (f.mul_duration delay m))) [
        | inl e ↦ rw e (≤ℤ_refl top)
        | inr e ↦ rw e (
            backoff-le-max m top n (f.mul_duration delay m) p
              (inl (exceeds_false top (f.mul_duration delay m) p e)))
      ]

  -- Growth by the multiplier is not a loss, for a delay that is not negative.
  abbrev pub Grows : Float64 → Type 0
  Grows m = (d : ℤ) → pos 0 ≤ℤ d → d ≤ℤ f.mul_duration d m

  backoff_mono :
      (m : Float64) (top : ℤ) (rounds : ℕ) (delay : ℤ)
      → Grows m
      → pos 0 <ℤ top
      → pos 0 ≤ℤ delay
      → delay ≤ℤ top
      → backoff f m top rounds delay ≤ℤ backoff f m top (suc rounds) delay
  unfolding backoff
  backoff_mono m top zero delay g p q h = elim (Bool-cases (exceeds top (f.mul_duration delay m))) [
    | inl e ↦ rw e h
    | inr e ↦ rw e (g delay q)
  ]
  backoff_mono m top (suc k) delay g p q h =
      let grown = f.mul_duration delay m in
      elim (Bool-cases (exceeds top grown)) [
        | inl e ↦ rw e (≤ℤ_refl top)
        | inr e ↦ rw e (
            backoff_mono m top k grown g p (≤ℤ_trans (pos 0) delay grown q (g delay q))
              (exceeds_false top grown p e))
      ]

  calculate_restart_delay_once :
      (svc : Service) (attempt : ℕ)
      → attempt ≤ 1
      → calculate_restart_delay f svc attempt ≡ base_delay svc
  unfolding calculate_restart_delay backoff
  calculate_restart_delay_once svc zero h = refl
  calculate_restart_delay_once svc (suc zero) h = refl
  calculate_restart_delay_once svc (suc (suc n)) h = absurd (omega (arith, h))

  calculate_restart_delay-le-max :
      (svc : Service) (attempt : ℕ)
      → pos 0 <ℤ svc.restart_policy.max_backoff
      → 1 < attempt
      → calculate_restart_delay f svc attempt ≤ℤ svc.restart_policy.max_backoff
  unfolding calculate_restart_delay
  calculate_restart_delay-le-max svc attempt p h =
      backoff-le-max (multiplier f svc) svc.restart_policy.max_backoff (attempt - 1)
        (base_delay svc) p (inr (omega arith))

  -- With a positive max_backoff, the delay of every attempt after the first is at most that. The
  -- first attempt is not capped: it waits for the policy's delay, or for 5 s where that is zero,
  -- whatever max_backoff is.
  pub calculate_restart_delay_cap :
      (svc : Service) (attempt : ℕ)
      → pos 0 <ℤ svc.restart_policy.max_backoff
      → (1 < attempt) × (calculate_restart_delay f svc attempt ≤ℤ svc.restart_policy.max_backoff)
        ⊎ (attempt ≤ 1) × (calculate_restart_delay f svc attempt ≡ base_delay svc)
  calculate_restart_delay_cap svc attempt p = elim (le_or_lt attempt) [
    | inl h ↦ inr (h, calculate_restart_delay_once svc attempt h)
    | inr h ↦ inl (h, calculate_restart_delay-le-max svc attempt p h)
  ]

  -- If multiplying does not shrink a delay, and the first delay is neither negative nor above a
  -- positive max_backoff, then no later attempt waits for less than the one before it.
  pub calculate_restart_delay_mono :
      (svc : Service) (attempt : ℕ)
      → Grows (multiplier f svc)
      → pos 0 <ℤ svc.restart_policy.max_backoff
      → pos 0 ≤ℤ base_delay svc
      → base_delay svc ≤ℤ svc.restart_policy.max_backoff
      → calculate_restart_delay f svc attempt ≤ℤ calculate_restart_delay f svc (attempt + 1)
  unfolding calculate_restart_delay
  calculate_restart_delay_mono svc zero g p q h = ≤ℤ_refl (calculate_restart_delay f svc 0)
  calculate_restart_delay_mono svc (suc n) g p q h =
      rw (rounds_now n, rounds_next n)
        (backoff_mono (multiplier f svc) svc.restart_policy.max_backoff n (base_delay svc) g p q h)
