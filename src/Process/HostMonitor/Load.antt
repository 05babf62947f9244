-- ===== src/Process/HostMonitor/Load.antt =====
-- What the load of the host is made of (internal/process/host_monitor.go).
use elnssm.Common.{
  ℕ, ◌+◌, ◌-◌, ◌≤◌, ◌<◌, ◌^◌, pos, ◌≡◌, refl, List, [], ◌∷◌, Option, none, some, arith, ◌∙◌, ltb,
  if◌then◌else◌,
}
use elnssm.Common.Words.{add64, add64_exact, sub64_exact}
use elnssm.Process.Filetime.{
  AreBytes, value, filetime_to_int64_from_bytes, filetime_to_int64_from_bytes-value,
}
use elnssm.Process.HostMonitor.{
  Percents, SystemTimes, MemoryStatusEx, HostMonitor, host_load, take_cpu, take_memory, take_sample,
}

-- The times of the system, whose counters fit an int64 and of which the kernel's holds the idle one.
pub record AreTimes (t : SystemTimes) : Type 0 where
  pub idle_bytes : AreBytes t.idle
  pub kernel_bytes : AreBytes t.kernel
  pub user_bytes : AreBytes t.user
  pub in_range : value t.kernel + value t.user < 2 ^ 63
  pub in_kernel : value t.idle ≤ value t.kernel

abbrev pub busy : SystemTimes → ℕ
busy t = value t.kernel + value t.user - value t.idle

abbrev pub total : SystemTimes → ℕ
total t = value t.kernel + value t.user

load_exact :
    (f : Percents) (hm : HostMonitor) (idle idle' sum sum' : ℕ)
    → hm.prev_idle ≡ idle
    → hm.prev_total ≡ sum
    → 0 < sum
    → sum ≤ sum'
    → sum' < 2 ^ 63
    → idle ≤ idle'
    → idle ≤ sum
    → idle' ≤ sum'
    → idle' - idle ≤ sum' - sum
    → host_load f idle' sum' hm ≡ (
        if ltb sum sum'
        then f.share (pos (sum' - idle' - (sum - idle))) (pos (sum' - sum))
        else f.zero)
unfolding host_load
load_exact f hm idle idle' sum sum' k j p q r s a b u =
    let grown = sub64_exact sum' sum q (omega arith) in
    let rested = sub64_exact idle' idle s (omega arith) in
    let worked = sub64_exact (sum' - sum) (idle' - idle) u (omega arith) in
    let same : sum' - sum - (idle' - idle) ≡ sum' - idle' - (sum - idle) = omega arith in
    rw (k, j, grown, rested, worked, same) (ground arith)

sum_exact :
    (t : SystemTimes)
    → AreTimes t
    → add64 (filetime_to_int64_from_bytes t.kernel) (filetime_to_int64_from_bytes t.user) ≡ total t
sum_exact t h =
    rw
      (
        filetime_to_int64_from_bytes-value t.kernel h.kernel_bytes,
        filetime_to_int64_from_bytes-value t.user h.user_bytes,
      )
      (add64_exact (value t.kernel) (value t.user) (omega (arith, h.in_range)))

-- Samples whose GetSystemTimes fails, with what GlobalMemoryStatusEx answers.
unfoldable pub missed : Percents → List (Option MemoryStatusEx) → HostMonitor → HostMonitor
unfolding take_sample
missed f [] hm = hm
missed f (m ∷ ms) hm = missed f ms (take_sample f none m hm)

-- What a sample keeps for the next one, and what a failed one leaves of it.
Keeps : SystemTimes → HostMonitor → Type 0
Keeps t hm = (hm.prev_idle ≡ value t.idle) × (hm.prev_total ≡ total t)

take_memory-Keeps :
    (f : Percents) (t : SystemTimes) (m : Option MemoryStatusEx) (hm : HostMonitor)
    → Keeps t hm
    → Keeps t (take_memory f m hm)
unfolding take_memory Keeps
take_memory-Keeps f t none hm k = k
take_memory-Keeps f t (some m) hm k = k

take_sample-Keeps :
    (f : Percents) (t : SystemTimes) (m : Option MemoryStatusEx) (hm : HostMonitor)
    → AreTimes t
    → Keeps t (take_sample f (some t) m hm)
unfolding take_sample
take_sample-Keeps f t m hm h = take_memory-Keeps f t m (take_cpu f (some t) hm) (
    unfold take_cpu Keeps in
    (filetime_to_int64_from_bytes-value t.idle h.idle_bytes, sum_exact t h))

cpu-take_memory :
    (f : Percents) (m : Option MemoryStatusEx) (hm : HostMonitor)
    → (take_memory f m hm).latest.cpu_percent ≡ hm.latest.cpu_percent
unfolding take_memory
cpu-take_memory f none hm = refl
cpu-take_memory f (some m) hm = refl

missed-Keeps :
    (f : Percents) (t : SystemTimes) (ms : List (Option MemoryStatusEx)) (hm : HostMonitor)
    → Keeps t hm
    → Keeps t (missed f ms hm)
unfolding missed take_sample
missed-Keeps f t [] hm k = k
missed-Keeps f t (m ∷ ms) hm k =
    missed-Keeps f t ms (take_memory f m (take_cpu f none hm))
      (take_memory-Keeps f t m (take_cpu f none hm) (unfold take_cpu Keeps in k))

-- The counters at a later time: none has gone back, and as the kernel's time holds the idle time,
-- it has grown by no less.
pub record IsLater (t u : SystemTimes) : Type 0 where
  pub idle_grows : value t.idle ≤ value u.idle
  pub kernel_grows : value u.idle - value t.idle ≤ value u.kernel - value t.kernel
  pub user_grows : value t.user ≤ value u.user
  pub kernel_order : value t.kernel ≤ value u.kernel

add_le : {a b c d : ℕ} → a ≤ b → c ≤ d → a + c ≤ b + d
add_le p q = omega arith

le_add : {a b : ℕ} (c : ℕ) → a ≤ b → a ≤ b + c
le_add c p = omega arith

grow_le : {i k k' u u' : ℕ} → i ≤ k' - k → k ≤ k' → u ≤ u' → i ≤ k' + u' - (k + u)
grow_le p q r = omega arith

load-Keeps :
    (f : Percents) (t u : SystemTimes) (hm : HostMonitor)
    → AreTimes t
    → AreTimes u
    → IsLater t u
    → 0 < total t
    → Keeps t hm
    → host_load f
        (filetime_to_int64_from_bytes u.idle)
        (add64 (filetime_to_int64_from_bytes u.kernel) (filetime_to_int64_from_bytes u.user))
        hm
      ≡ (if ltb (total t) (total u)
          then f.share (pos (busy u - busy t)) (pos (total u - total t))
          else f.zero)
unfolding Keeps
load-Keeps f t u hm h i l p (k, j) =
    rw (filetime_to_int64_from_bytes-value u.idle i.idle_bytes, sum_exact u i)
      (load_exact f hm (value t.idle) (value u.idle) (total t) (total u) k j p
        (add_le l.kernel_order l.user_grows) i.in_range l.idle_grows (le_add _ h.in_kernel)
        (le_add _ i.in_kernel) (grow_le l.kernel_grows l.kernel_order l.user_grows))

-- Two samples for which GetSystemTimes succeeds, with any number of failed ones between them: the
-- load that the second reports is the busy share of the time between them, the time that was not
-- idle over all, and 0 if no time has passed. The counters fit an int64, have not gone
-- back, and had begun by the first sample; the kernel's time holds the idle time, as the code relies on.
pub take_sample-busy :
    (f : Percents) (t u : SystemTimes) (m n : Option MemoryStatusEx)
    (between : List (Option MemoryStatusEx)) (hm : HostMonitor)
    → AreTimes t
    → AreTimes u
    → IsLater t u
    → 0 < total t
    → (take_sample f (some u) n (missed f between (take_sample f (some t) m hm))).latest.cpu_percent
      ≡ (if ltb (total t) (total u)
          then f.share (pos (busy u - busy t)) (pos (total u - total t))
          else f.zero)
unfolding take_sample take_cpu
take_sample-busy f t u m n between hm h i l p =
    let before = missed f between (take_sample f (some t) m hm) in
    let kept =
      missed-Keeps f t between (take_sample f (some t) m hm) (take_sample-Keeps f t m hm h) in
    cpu-take_memory f n (take_cpu f (some u) before) ∙ load-Keeps f t u before h i l p kept
