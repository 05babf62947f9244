-- ===== src/Process/ResourceMonitor/Defs.antt =====
-- internal/process/resource_monitor.go: a round of Run with the sample that takeSample returns, and
-- what it calls. A time is a number of nanoseconds. The working set of a process is not negative,
-- so its bytes are a natural number.
use elnssm.Common.{
  ℕ, ◌+◌, ◌-◌, ◌/◌, ◌%◌, ℤ, pos, ◌+ℤ◌, ltb_ℤ, ltb, leb, List, [], ◌∷◌, ◌++◌, Option, none, some,
  Bool, true, false, not, ◌&&◌, ◌==◌, length, get_elem?, if◌then◌else◌,
}
use elnssm.Model.{Float64, ResourceLimits}

-- The float64 comparisons x > 0 and x < y, and float64(a) / float64(b) >= r.
pub record Floats : Type 0 where
  pub positive : Float64 → Bool
  pub less : Float64 → Float64 → Bool
  pub ratio_reaches : ℕ → ℕ → Float64 → Bool

pub record ResourceSample : Type 0 where
  pub timestamp : ℕ
  pub cpu_percent : Float64
  pub memory_bytes : ℕ

pub data ResourceBreach : Type 0 where
  cpu_sustained memory_max memory_spike : ResourceBreach

pub record CpuWindowSample : Type 0 where
  pub timestamp : ℕ
  pub cpu : Float64

-- `cpu_samples` and `start_time` are the local variables of Run; `breach_ch` is the channel's queue.
pub record ResourceMonitor : Type 0 where
  pub limits : ResourceLimits
  pub grace_period : ℤ
  pub breach_ch : List ResourceBreach
  pub latest : Option ResourceSample
  pub baseline_samples : List ℕ
  pub baseline_memory : ℕ
  pub baseline_ready : Bool
  pub start_time : ℕ
  pub cpu_samples : List CpuWindowSample

-- make(chan ResourceBreach, 8)
abbrev pub breach_channel_size : ℕ
breach_channel_size = 8

unfoldable pub send_breach : ResourceBreach → ResourceMonitor → ResourceMonitor
send_breach b rm =
    if ltb (length rm.breach_ch) breach_channel_size
    then record rm { breach_ch = rm.breach_ch ++ b ∷ [] }
    else rm

-- A sample that lies before the cutoff, the time `now` less the window.
abbrev pub is_old : ℕ → ℤ → CpuWindowSample → Bool
is_old now window s = ltb_ℤ (pos s.timestamp +ℤ window) (pos now)

unfoldable pub prune_old_samples : ℕ → ℤ → List CpuWindowSample → List CpuWindowSample
prune_old_samples now window [] = []
prune_old_samples now window (s ∷ samples) =
    let rest = prune_old_samples now window samples in
    if is_old now window s then rest else s ∷ samples

unfoldable pub last_timestamp : ℕ → List CpuWindowSample → ℕ
last_timestamp t [] = t
last_timestamp t (s ∷ samples) = last_timestamp s.timestamp samples

unfoldable pub all_reach : Floats → Float64 → List CpuWindowSample → Bool
all_reach f threshold [] = true
all_reach f threshold (s ∷ samples) = not (f.less s.cpu threshold) && all_reach f threshold samples

unfoldable pub evaluate_cpu_sustained : Floats → ResourceLimits → List CpuWindowSample → Bool
unfolding last_timestamp all_reach
evaluate_cpu_sustained f limits [] = false
evaluate_cpu_sustained f limits (s ∷ []) = false
evaluate_cpu_sustained f limits (s ∷ t ∷ samples) =
    if ltb_ℤ (pos (last_timestamp t.timestamp samples)) (pos s.timestamp +ℤ limits.cpu_duration)
    then false
    else all_reach f limits.cpu_threshold (s ∷ t ∷ samples)

-- sort.Slice by `<`.
unfoldable pub insert_sorted : ℕ → List ℕ → List ℕ
insert_sorted v [] = v ∷ []
insert_sorted v (x ∷ xs) = let rest = insert_sorted v xs in if ltb x v then x ∷ rest else v ∷ x ∷ xs

unfoldable pub sort : List ℕ → List ℕ
unfolding insert_sorted
sort [] = []
sort (x ∷ xs) = insert_sorted x (sort xs)

abbrev at : List ℕ → ℕ → ℕ
at xs i = elim (get_elem? xs i) [ none ↦ 0 | some v ↦ v ]

unfoldable pub median : List ℕ → ℕ
unfolding sort
median values =
    let n = length values in
    let sorted = sort values in
    if n % 2 == 0 then (at sorted (n / 2 - 1) + at sorted (n / 2)) / 2 else at sorted (n / 2)

unfoldable pub collect_baseline : ℕ → ResourceMonitor → ResourceMonitor
unfolding median
collect_baseline memory rm =
    if rm.baseline_ready
    then rm
    else let samples = rm.baseline_samples ++ memory ∷ [] in
      if leb 6 (length samples)
      then record rm {
        baseline_samples = samples;
        baseline_memory = median samples;
        baseline_ready = true;
      }
      else record rm { baseline_samples = samples }

abbrev pub window_sample : ResourceSample → CpuWindowSample
window_sample sample = record { timestamp = sample.timestamp; cpu = sample.cpu_percent }

-- The rule for CPU, memory and memory spikes; `now` is the clock that pruneOldSamples reads.
unfoldable pub check_cpu : Floats → ℕ → ResourceSample → ResourceMonitor → ResourceMonitor
unfolding prune_old_samples evaluate_cpu_sustained send_breach
check_cpu f now sample rm =
    if not (f.positive rm.limits.cpu_threshold && ltb_ℤ (pos 0) rm.limits.cpu_duration)
    then rm
    else let kept =
        prune_old_samples now rm.limits.cpu_duration
          (rm.cpu_samples ++ window_sample sample ∷ []) in
      let rm' = record rm { cpu_samples = kept } in
      if evaluate_cpu_sustained f rm.limits kept then send_breach cpu_sustained rm' else rm'

unfoldable pub check_memory : ResourceSample → ResourceMonitor → ResourceMonitor
unfolding send_breach
check_memory sample rm =
    if ltb_ℤ (pos 0) rm.limits.memory_max && ltb_ℤ rm.limits.memory_max (pos sample.memory_bytes)
    then send_breach memory_max rm
    else rm

unfoldable pub check_spike : Floats → ResourceSample → ResourceMonitor → ResourceMonitor
unfolding send_breach
check_spike f sample rm =
    if f.positive rm.limits.memory_spike_ratio
      && rm.baseline_ready
      && ltb 0 rm.baseline_memory
      && f.ratio_reaches sample.memory_bytes rm.baseline_memory rm.limits.memory_spike_ratio
    then send_breach memory_spike rm
    else rm

-- A tick with its sample: `now` is the clock of the grace period, `later` that of pruneOldSamples.
unfoldable pub on_tick : Floats → ℕ → ℕ → Option ResourceSample → ResourceMonitor → ResourceMonitor
unfolding collect_baseline check_cpu check_memory check_spike
on_tick f now later none rm = rm
on_tick f now later (some sample) rm =
    let rm' = collect_baseline sample.memory_bytes (record rm { latest = some sample }) in
    if ltb_ℤ (pos now) (pos rm.start_time +ℤ rm.grace_period)
    then rm'
    else check_spike f sample (check_memory sample (check_cpu f later sample rm'))
