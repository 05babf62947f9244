-- ===== src/Examples/Hosts.antt =====
-- The monitor of a host, the environment of a process, and a stream of resources.
use elnssm.Common.{
  ℕ, ◌-◌, pos, [], ◌∷◌, none, some, lookup, insert, ltb, ◌≡◌, refl, arith, if◌then◌else◌,
}
use elnssm.Process.Filetime.{Bytes8}
use elnssm.Process.HostMonitor.{Percents, SystemTimes, HostMonitor, new_host_monitor, take_sample}
use elnssm.Process.HostMonitor.Load.{AreTimes, IsLater, missed, busy, total, take_sample-busy}
use elnssm.Process.Environment.{build_env_block}
use elnssm.Process.Environment.Block.{
  are_names, are_distinct, or_else, last_of, build_env_block_exact,
}
use elnssm.Api.Listing.Streams.{
  admitted, no_streams, Reach, begin, next, arrives, upgraded, IsCounted, Reach-IsCounted, move,
  streaming,
}
use elnssm.Examples.Data.{zero_float}

abbrev percents : Percents
percents = record { zero = zero_float; share = λ a b. zero_float; of_uint32 = λ n. zero_float }

abbrev low_bytes : ℕ → ℕ → Bytes8
low_bytes a b = record { b0 = a; b1 = b; b2 = 0; b3 = 0; b4 = 0; b5 = 0; b6 = 0; b7 = 0 }

abbrev earlier : SystemTimes
earlier = record { idle = low_bytes 10 0; kernel = low_bytes 30 0; user = low_bytes 20 0 }

abbrev later : SystemTimes
later = record { idle = low_bytes 20 1; kernel = low_bytes 60 1; user = low_bytes 50 0 }

earlier-AreTimes : AreTimes earlier
earlier-AreTimes = ground arith

later-AreTimes : AreTimes later
later-AreTimes = ground arith

later-IsLater : IsLater earlier later
later-IsLater = ground arith

abbrev host : HostMonitor
host = new_host_monitor percents (pos 0)

take_sample-busy_example :
    (take_sample percents (some later) none (
      missed percents
        (none ∷ [])
        (take_sample percents (some earlier) none host))).latest.cpu_percent
    ≡ (if ltb (total earlier) (total later)
        then percents.share (pos (busy later - busy earlier)) (pos (total later - total earlier))
        else percents.zero)
take_sample-busy_example =
    take_sample-busy percents earlier later none none (none ∷ []) host earlier-AreTimes
      later-AreTimes later-IsLater (omega arith)

-- The service's own path, and the rest of what the Guardian has.
build_env_block_exact_example :
    last_of "HOME" (build_env_block ("PATH=a" ∷ "HOME=h" ∷ "HOME=g" ∷ []) (("PATH", "b") ∷ []))
    ≡ or_else
        (lookup "HOME" (("PATH", "b") ∷ []))
        (last_of "HOME" ("PATH=a" ∷ "HOME=h" ∷ "HOME=g" ∷ []))
unfolding are_names are_distinct
build_env_block_exact_example =
    build_env_block_exact ("PATH=a" ∷ "HOME=h" ∷ "HOME=g" ∷ []) (("PATH", "b") ∷ []) "HOME" refl
      refl

env_block :
    build_env_block ("PATH=a" ∷ "x" ∷ "HOME=h" ∷ []) (("PATH", "b") ∷ []) ≡ "PATH=b" ∷ "HOME=h" ∷ []
unfolding build_env_block insert
env_block = refl

-- One stream, which was admitted and upgraded.
one_stream : Reach 1 (move 0 streaming (pos 1) (record no_streams { stages = admitted ∷ [] }))
one_stream = next (next begin arrives (omega arith)) (upgraded 0 refl) (omega arith)

Reach-IsCounted_example :
    IsCounted 1 (move 0 streaming (pos 1) (record no_streams { stages = admitted ∷ [] }))
Reach-IsCounted_example = Reach-IsCounted 1 one_stream
