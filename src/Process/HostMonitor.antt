-- ===== src/Process/HostMonitor.antt =====
-- internal/process/host_monitor.go. GetSystemTimes and GlobalMemoryStatusEx are arguments, none where
-- they fail. An int64 and a uint64 are their bit patterns.
pub mod Load
use elnssm.Common.{ℕ, ℤ, pos, ltb_ℤ, leb_ℤ, Option, none, some, if◌then◌else◌}
use elnssm.Common.Words.{add64, sub64, signed}
use elnssm.Model.{Float64}
use elnssm.Process.Filetime.{Bytes8, filetime_to_int64_from_bytes}

-- The float64 zero, float64(a) / float64(b) * 100.0, and float64 of a uint32.
pub record Percents : Type 0 where
  pub zero : Float64
  pub share : ℤ → ℤ → Float64
  pub of_uint32 : ℕ → Float64

pub record SystemTimes : Type 0 where
  pub idle : Bytes8
  pub kernel : Bytes8
  pub user : Bytes8

pub record MemoryStatusEx : Type 0 where
  pub memory_load : ℕ
  pub total_phys : ℕ
  pub avail_phys : ℕ

pub record HostSample : Type 0 where
  pub cpu_percent : Float64
  pub memory_total : ℕ
  pub memory_used : ℕ
  pub memory_percent : Float64

pub record HostMonitor : Type 0 where
  pub interval : ℤ
  pub latest : HostSample
  pub prev_idle : ℕ
  pub prev_total : ℕ

abbrev empty_sample : Percents → HostSample
empty_sample f = record {
  cpu_percent = f.zero;
  memory_total = 0;
  memory_used = 0;
  memory_percent = f.zero;
}

-- NewHostMonitor
unfoldable pub new_host_monitor : Percents → ℤ → HostMonitor
new_host_monitor f interval = record {
  interval = if leb_ℤ interval (pos 0) then pos 2000000000 else interval;
  latest = empty_sample f;
  prev_idle = 0;
  prev_total = 0;
}

-- The load since the last sample, where there was one and the total has grown.
unfoldable pub host_load : Percents → ℕ → ℕ → HostMonitor → Float64
unfolding sub64
host_load f idle total hm =
    let delta_total = sub64 total hm.prev_total in
    let delta_idle = sub64 idle hm.prev_idle in
    if ltb_ℤ (pos 0) (signed hm.prev_total)
    then (if ltb_ℤ (pos 0) (signed delta_total)
        then f.share (signed (sub64 delta_total delta_idle)) (signed delta_total)
        else f.zero)
    else f.zero

-- The CPU's part of takeSample.
unfoldable pub take_cpu : Percents → Option SystemTimes → HostMonitor → HostMonitor
unfolding add64 filetime_to_int64_from_bytes host_load
take_cpu f none hm = record hm { latest = empty_sample f }
take_cpu f (some t) hm =
    let idle = filetime_to_int64_from_bytes t.idle in
    let total =
      add64 (filetime_to_int64_from_bytes t.kernel) (filetime_to_int64_from_bytes t.user) in
    record hm {
      latest = record (empty_sample f) { cpu_percent = host_load f idle total hm };
      prev_idle = idle;
      prev_total = total;
    }

-- The memory's part.
unfoldable pub take_memory : Percents → Option MemoryStatusEx → HostMonitor → HostMonitor
unfolding sub64
take_memory f none hm = hm
take_memory f (some m) hm = record hm {
  latest = record hm.latest {
    memory_total = m.total_phys;
    memory_used = sub64 m.total_phys m.avail_phys;
    memory_percent = f.of_uint32 m.memory_load;
  };
}

unfoldable pub take_sample :
    Percents → Option SystemTimes → Option MemoryStatusEx → HostMonitor → HostMonitor
unfolding take_cpu take_memory
take_sample f times memory hm = take_memory f memory (take_cpu f times hm)
