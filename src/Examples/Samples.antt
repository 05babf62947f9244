-- ===== src/Examples/Samples.antt =====
-- The resource monitor's theorems on a web service with a limit on its CPU load and its memory.
use elnssm.Common.{pos, [], ◌∷◌, none, some, true, false, any, ◌≡◌, arith}
use elnssm.Model.{Float64, ResourceLimits}
use elnssm.Process.ResourceMonitor.Defs.{
  Floats, ResourceSample, ResourceMonitor, memory_max, on_tick,
}
use elnssm.Process.ResourceMonitor.Breaches.{is_cpu_sustained, on_tick_cpu_silent}

abbrev ninety : Float64
ninety = record { bits = 90 }

-- Each load reaches the threshold, and each ratio the configured one.
abbrev floats : Floats
floats = record { positive = λ x. true; less = λ x y. false; ratio_reaches = λ a b r. true }

abbrev limits : ResourceLimits
limits = record {
  cpu_threshold = ninety;
  cpu_duration = pos 100;
  memory_max = pos 5000;
  memory_spike_ratio = ninety;
  check_interval = pos 20;
}

abbrev monitor : ResourceMonitor
monitor = record {
  limits = limits;
  grace_period = pos 30;
  breach_ch = memory_max ∷ [];
  latest = none;
  baseline_samples = 10 ∷ 20 ∷ 30 ∷ 40 ∷ 50 ∷ 60 ∷ [];
  baseline_memory = 35;
  baseline_ready = true;
  start_time = 0;
  cpu_samples =
      record { timestamp = 400; cpu = ninety } ∷ record { timestamp = 450; cpu = ninety } ∷ [];
}

abbrev sample : ResourceSample
sample = record { timestamp = 500; cpu_percent = ninety; memory_bytes = 6000 }

on_tick_cpu_silent_example :
    any is_cpu_sustained (on_tick floats 501 501 (some sample) monitor).breach_ch
    ≡ any is_cpu_sustained monitor.breach_ch
on_tick_cpu_silent_example = on_tick_cpu_silent floats 501 501 sample monitor (omega arith)
