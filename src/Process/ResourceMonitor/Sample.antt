-- ===== src/Process/ResourceMonitor/Sample.antt =====
-- takeSample of internal/process/resource_monitor.go, and a tick of Run with the sample it takes. What
-- Windows answers for the process is an argument; an int64 is its bit pattern, and the share of the
-- CPU in percent, a float64, that of the ticks spent in the ticks passed.
use elnssm.Common.{
  ◌*◌, false, ℕ, ◌+◌, ◌-◌, ◌/◌, ◌≤◌, ◌<◌, ◌^◌, ℤ, pos, ltb, ltb_ℤ, Option, none, some, Bool, true,
  not, ◌||◌, ◌≡◌, ap, arith, if◌then◌else◌,
}
use elnssm.Common.Words.{add64, sub64, add64_exact, sub64_exact, signed}
use elnssm.Model.{Float64}
use elnssm.Process.Filetime.{filetime_to_int64, filetime_to_int64_lem}
use elnssm.Process.HostMonitor.{Percents}
use elnssm.Process.ResourceMonitor.Defs.{ResourceSample, ResourceMonitor, Floats, on_tick}

-- windows.Filetime
pub record Filetime : Type 0 where
  pub high : ℕ
  pub low : ℕ

-- OpenProcess, GetProcessTimes (kernel and user) and the working set; none where a call fails.
pub record ProcessAnswers : Type 0 where
  pub opened : Bool
  pub times : Option (Filetime × Filetime)
  pub working_set : Option ℕ

-- prevWallTime is none while it is zero.
pub record Tracked : Type 0 where
  pub prev_kernel_time : ℕ
  pub prev_user_time : ℕ
  pub prev_wall_time : Option ℕ

abbrev pub int64_of : Filetime → ℕ
int64_of ft = filetime_to_int64 ft.high ft.low

unfoldable pub cpu_percent : Percents → ℕ → ℕ → ℕ → Tracked → Float64
unfolding add64 sub64
cpu_percent f now kernel user t = elim t.prev_wall_time [
  | none ↦ f.zero
  | some before ↦
      let cpu_delta = add64 (sub64 kernel t.prev_kernel_time) (sub64 user t.prev_user_time) in
      let wall_delta = (now - before) / 100 in
      if ltb 0 wall_delta then f.share (signed cpu_delta) (pos wall_delta) else f.zero
]

abbrev bytes_of : Option ℕ → ℕ
bytes_of none = 0
bytes_of (some n) = n

-- From GetProcessTimes on.
unfoldable pub measure :
    Percents
    → ℕ
    → Option ℕ
    → Option (Filetime × Filetime)
    → Tracked
    → Tracked × Option ResourceSample
unfolding filetime_to_int64 cpu_percent
measure f now memory none t = (t, none)
measure f now memory (some (kernel, user)) t = (
  record {
    prev_kernel_time = int64_of kernel;
    prev_user_time = int64_of user;
    prev_wall_time = some now;
  },
  some (record {
    timestamp = now;
    cpu_percent = cpu_percent f now (int64_of kernel) (int64_of user) t;
    memory_bytes = bytes_of memory;
  }),
)

abbrev pub no_pid : ℤ → Bool
no_pid pid = ltb_ℤ pid (pos 0) || ltb_ℤ (pos 4294967295) pid

unfoldable pub take_sample :
    Percents → ℤ → ℕ → ProcessAnswers → Tracked → Tracked × Option ResourceSample
unfolding measure
take_sample f pid now a t =
    if no_pid pid || not a.opened then (t, none) else measure f now a.working_set a.times t

-- A tick of Run: the sample, and what becomes of it at the clocks `started` and `later`.
unfoldable pub tick :
    Floats
    → Percents
    → ℤ
    → ℕ
    → ℕ
    → ℕ
    → ProcessAnswers
    → Tracked
    → ResourceMonitor
    → Tracked × ResourceMonitor
unfolding take_sample on_tick
tick g f pid now started later a t rm =
    let (t', sample) = take_sample f pid now a t in (t', on_tick g started later sample rm)

abbrev pub time_of : Filetime → ℕ
time_of ft = ft.low + ft.high * 2 ^ 32

-- Both halves are uint32, and the whole fits an int64.
pub record IsTime (ft : Filetime) : Type 0 where
  pub high_half : ft.high < 2 ^ 31
  pub low_half : ft.low < 2 ^ 32

int64_of-time_of : (ft : Filetime) → IsTime ft → int64_of ft ≡ time_of ft
int64_of-time_of ft h = filetime_to_int64_lem ft.high ft.low (omega (arith, h.high_half)) h.low_half

time_fits : {high low : ℕ} → high < 2 ^ 31 → low < 2 ^ 32 → low + high * 2 ^ 32 < 2 ^ 63
time_fits p q = omega arith

spent :
    (k k' u u' : ℕ)
    → k ≤ k'
    → u ≤ u'
    → k' < 2 ^ 63
    → u' < 2 ^ 63
    → add64 (sub64 k' k) (sub64 u' u) ≡ k' - k + (u' - u)
spent k k' u u' p q r s =
    rw (sub64_exact k' k p (omega arith), sub64_exact u' u q (omega arith))
      (add64_exact (k' - k) (u' - u) (omega arith))

signed_spent :
    (k k' u u' : ℕ)
    → k ≤ k'
    → u ≤ u'
    → k' < 2 ^ 63
    → u' < 2 ^ 63
    → k' - k + (u' - u) < 2 ^ 63
    → signed (add64 (sub64 k' k) (sub64 u' u)) ≡ pos (k' - k + (u' - u))
signed_spent k k' u u' p q r s h = rw (spent k k' u u' p q r s) (ground (arith, h))

-- The load of two samples in a row: the CPU time that the process has used between them, in the ticks
-- of 100 ns that have passed, and 0 if none has. Its times have not gone back, their sum fits an
-- int64, and the PID is one that the code opens.
pub take_sample_load :
    (f : Percents) (pid : ℤ) (before now : ℕ) (a b : ProcessAnswers) (t : Tracked)
    (kernel kernel' user user' : Filetime)
    → no_pid pid ≡ false
    → a.opened ≡ true
    → b.opened ≡ true
    → a.times ≡ some (kernel, user)
    → b.times ≡ some (kernel', user')
    → IsTime kernel
    → IsTime kernel'
    → IsTime user
    → IsTime user'
    → time_of kernel ≤ time_of kernel'
    → time_of user ≤ time_of user'
    → time_of kernel' - time_of kernel + (time_of user' - time_of user) < 2 ^ 63
    → (take_sample f pid now b (take_sample f pid before a t).0).1
      ≡ some (record {
        timestamp = now;
        cpu_percent =
            if ltb 0 ((now - before) / 100)
            then f.share
                (pos (time_of kernel' - time_of kernel + (time_of user' - time_of user)))
                (pos ((now - before) / 100))
            else f.zero;
        memory_bytes = bytes_of b.working_set;
      })
unfolding take_sample measure cpu_percent
take_sample_load f pid before now a b t kernel kernel' user user' n o o' e e' k k' u u' p q r =
    rw
      (
        n,
        o,
        o',
        e,
        e',
        int64_of-time_of kernel k,
        int64_of-time_of kernel' k',
        int64_of-time_of user u,
        int64_of-time_of user' u',
      )
      (ap
        (λ z. some (record {
          timestamp = now;
          cpu_percent =
              if ltb 0 ((now - before) / 100)
              then f.share z (pos ((now - before) / 100))
              else f.zero;
          memory_bytes = bytes_of b.working_set;
        }))
        (signed_spent (time_of kernel) (time_of kernel') (time_of user) (time_of user') p q
          (time_fits k'.high_half k'.low_half) (time_fits u'.high_half u'.low_half) r))
