-- ===== src/Process/ResourceMonitor/Breaches.antt =====
-- Which breaches the resource monitor reports (internal/process/resource_monitor.go).
use elnssm.Common.{
  ℕ, ◌<◌, ◌≤◌, pos, ◌+ℤ◌, ltb_ℤ, List, [], ◌∷◌, ◌++◌, Option, none, some, Bool, true, false, any,
  length, length-append, ◌≡◌, inl, inr, refl, ap, arith, Bool-cases,
}
use elnssm.Model.{ResourceLimits}
use elnssm.Process.ResourceMonitor.Defs.{
  Floats, ResourceSample, ResourceBreach, cpu_sustained, memory_max, memory_spike, CpuWindowSample,
  ResourceMonitor, breach_channel_size, window_sample, send_breach, is_old, prune_old_samples,
  last_timestamp, evaluate_cpu_sustained, collect_baseline, check_cpu, check_memory, check_spike,
  on_tick,
}

-- The window that ends before `now` and begins at or after the cutoff is too short.
too_short :
    (now last : ℕ) (limits : ResourceLimits) (s : CpuWindowSample)
    → last < now
    → is_old now limits.cpu_duration s ≡ false
    → ltb_ℤ (pos last) (pos s.timestamp +ℤ limits.cpu_duration) ≡ true
too_short now last limits s h o = ground arith

evaluate_short :
    (f : Floats) (now : ℕ) (limits : ResourceLimits) (s : CpuWindowSample)
    (samples : List CpuWindowSample)
    → last_timestamp s.timestamp samples < now
    → is_old now limits.cpu_duration s ≡ false
    → evaluate_cpu_sustained f limits (s ∷ samples) ≡ false
unfolding evaluate_cpu_sustained last_timestamp
evaluate_short f now limits s [] h o = refl
evaluate_short f now limits s (t ∷ samples) h o =
    rw (too_short now (last_timestamp t.timestamp samples) limits s h o) refl

evaluate-prune :
    (f : Floats) (now : ℕ) (limits : ResourceLimits) (t : ℕ) (samples : List CpuWindowSample)
    → last_timestamp t samples < now
    → evaluate_cpu_sustained f limits (prune_old_samples now limits.cpu_duration samples) ≡ false
unfolding prune_old_samples last_timestamp
evaluate-prune f now limits t [] h = unfold evaluate_cpu_sustained in refl
evaluate-prune f now limits t (s ∷ samples) h =
    elim (Bool-cases (is_old now limits.cpu_duration s)) [
      | inl o ↦ rw o (evaluate-prune f now limits s.timestamp samples h)
      | inr o ↦ rw o (evaluate_short f now limits s samples h o)
    ]

last_timestamp-append :
    (t : ℕ) (samples : List CpuWindowSample) (s : CpuWindowSample)
    → last_timestamp t (samples ++ s ∷ []) ≡ s.timestamp
unfolding last_timestamp
last_timestamp-append t [] s = refl
last_timestamp-append t (x ∷ samples) s = last_timestamp-append x.timestamp samples s

abbrev pub is_cpu_sustained : ResourceBreach → Bool
is_cpu_sustained cpu_sustained = true
is_cpu_sustained _ = false

-- The clock has moved on between taking the sample and pruning: no breach of the CPU is sent.
check_cpu_silent :
    (f : Floats) (later : ℕ) (sample : ResourceSample) (rm : ResourceMonitor)
    → sample.timestamp < later
    → (check_cpu f later sample rm).breach_ch ≡ rm.breach_ch
unfolding check_cpu
check_cpu_silent f later sample rm h =
    let added = rm.cpu_samples ++ window_sample sample ∷ [] in
    let last : last_timestamp 0 added ≡ sample.timestamp =
      last_timestamp-append 0 rm.cpu_samples (window_sample sample) in
    ground (arith, evaluate-prune f later rm.limits 0 added (rw last h))

any-append_quiet :
    (breaches : List ResourceBreach) (b : ResourceBreach)
    → is_cpu_sustained b ≡ false
    → any is_cpu_sustained (breaches ++ b ∷ []) ≡ any is_cpu_sustained breaches
any-append_quiet [] b h = ground (arith, h)
any-append_quiet (x ∷ breaches) b h = ground (arith, any-append_quiet breaches b h)

-- The breaches of the CPU in the channel.
abbrev reports_cpu : ResourceMonitor → Bool
reports_cpu rm = any is_cpu_sustained rm.breach_ch

collect_baseline-cpu :
    (memory : ℕ) (rm : ResourceMonitor) → reports_cpu (collect_baseline memory rm) ≡ reports_cpu rm
unfolding collect_baseline
collect_baseline-cpu memory rm = ground arith

check_memory-cpu :
    (sample : ResourceSample) (rm : ResourceMonitor)
    → reports_cpu (check_memory sample rm) ≡ reports_cpu rm
unfolding check_memory send_breach
check_memory-cpu sample rm = ground (arith, any-append_quiet rm.breach_ch memory_max refl)

check_spike-cpu :
    (f : Floats) (sample : ResourceSample) (rm : ResourceMonitor)
    → reports_cpu (check_spike f sample rm) ≡ reports_cpu rm
unfolding check_spike send_breach
check_spike-cpu f sample rm = ground (arith, any-append_quiet rm.breach_ch memory_spike refl)

-- A tick whose sample is older than the clock that the pruning reads sends no breach of the CPU,
-- whatever the samples, the threshold and the duration are.
pub on_tick_cpu_silent :
    (f : Floats) (now later : ℕ) (sample : ResourceSample) (rm : ResourceMonitor)
    → sample.timestamp < later
    → any is_cpu_sustained (on_tick f now later (some sample) rm).breach_ch
      ≡ any is_cpu_sustained rm.breach_ch
unfolding on_tick
on_tick_cpu_silent f now later sample rm h =
    let based = collect_baseline sample.memory_bytes (record rm { latest = some sample }) in
    let checked = check_cpu f later sample based in
    ground (
      arith,
      collect_baseline-cpu sample.memory_bytes (record rm { latest = some sample }),
      ap (any is_cpu_sustained) (check_cpu_silent f later sample based h),
      check_memory-cpu sample checked,
      check_spike-cpu f sample (check_memory sample checked),
    )

-- The channel is not over its size.
abbrev pub IsBounded : ResourceMonitor → Type 0
IsBounded rm = length rm.breach_ch ≤ breach_channel_size

-- The baseline is ready, and it is this one.
abbrev pub HasBaseline : ℕ → ResourceMonitor → Type 0
HasBaseline memory rm = (rm.baseline_ready ≡ true) × (rm.baseline_memory ≡ memory)

collect_baseline-IsBounded :
    (m memory : ℕ) (rm : ResourceMonitor)
    → IsBounded rm × HasBaseline m rm
    → IsBounded (collect_baseline memory rm) × HasBaseline m (collect_baseline memory rm)
unfolding collect_baseline
collect_baseline-IsBounded m memory rm h = ground (arith, h)

check_cpu-IsBounded :
    (f : Floats) (later m : ℕ) (sample : ResourceSample) (rm : ResourceMonitor)
    → IsBounded rm × HasBaseline m rm
    → IsBounded (check_cpu f later sample rm) × HasBaseline m (check_cpu f later sample rm)
unfolding check_cpu send_breach
check_cpu-IsBounded f later m sample rm h =
    ground (arith, h, length-append rm.breach_ch (cpu_sustained ∷ []))

check_memory-IsBounded :
    (m : ℕ) (sample : ResourceSample) (rm : ResourceMonitor)
    → IsBounded rm × HasBaseline m rm
    → IsBounded (check_memory sample rm) × HasBaseline m (check_memory sample rm)
unfolding check_memory send_breach
check_memory-IsBounded m sample rm h =
    ground (arith, h, length-append rm.breach_ch (memory_max ∷ []))

check_spike-IsBounded :
    (f : Floats) (m : ℕ) (sample : ResourceSample) (rm : ResourceMonitor)
    → IsBounded rm × HasBaseline m rm
    → IsBounded (check_spike f sample rm) × HasBaseline m (check_spike f sample rm)
unfolding check_spike send_breach
check_spike-IsBounded f m sample rm h =
    ground (arith, h, length-append rm.breach_ch (memory_spike ∷ []))

-- A tick of a monitor whose baseline is ready keeps the channel within its size and leaves the
-- baseline as it is.
pub on_tick-IsBounded :
    (f : Floats) (now later m : ℕ) (sample : Option ResourceSample) (rm : ResourceMonitor)
    → IsBounded rm
    → HasBaseline m rm
    → IsBounded (on_tick f now later sample rm) × HasBaseline m (on_tick f now later sample rm)
unfolding on_tick
on_tick-IsBounded f now later m none rm b h = (b, h)
on_tick-IsBounded f now later m (some sample) rm b h =
    let seen : ResourceMonitor = record rm { latest = some sample } in
    let based = collect_baseline sample.memory_bytes seen in
    let i = collect_baseline-IsBounded m sample.memory_bytes seen (b, h) in
    let j = check_cpu-IsBounded f later m sample based i in
    let k = check_memory-IsBounded m sample (check_cpu f later sample based) j in
    let l =
      check_spike-IsBounded f m sample (check_memory sample (check_cpu f later sample based)) k in
    ground (arith, i, l)
