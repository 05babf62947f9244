-- ===== src/Store/Downsample.antt =====
-- internal/store/bolt.go: downsample and GetResourceHistory. What the float64 arithmetic gives, the ends
-- of the groups and the mean of some loads, is a parameter.
use elnssm.Common.{
  get_elem?, ◌/◌, ℕ, zero, suc, ◌+◌, ◌-◌, ◌≤◌, ◌<◌, ltb, leb, ℤ, pos, ltb_ℤ, pos_part, String, List,
  [], ◌∷◌, length, take, drop, Option, none, some, Bool, arith, if◌then◌else◌,
}
use elnssm.Model.{Float64}
use elnssm.Process.ResourceMonitor.Defs.{ResourceSample}
use elnssm.Store.Bolt.{Bolt, Codec}
use elnssm.Store.History.{in_range}

-- `index`: int(float64(i) * step), for len(samples), maxPoints and i. `mean_cpu`: the sum of the loads of
-- a group over their number.
pub record Means : Type 0 where
  pub index : ℕ → ℕ → ℕ → ℕ
  pub mean_cpu : List Float64 → Float64

abbrev pub sum_memory : List ResourceSample → ℕ
sum_memory [] = 0
sum_memory (s ∷ group) = s.memory_bytes + sum_memory group

abbrev pub loads : List ResourceSample → List Float64
loads [] = []
loads (s ∷ group) = s.cpu_percent ∷ loads group

-- The timestamp of the sample in the middle of a group: samples[(start+end-1)/2]
abbrev pub middle : ℕ → List ResourceSample → ℕ
middle default group = elim (get_elem? group ((length group - 1) / 2)) [
  | none ↦ default
  | some s ↦ s.timestamp
]

-- if count > 0
abbrev pub group_sample : Means → List ResourceSample → List ResourceSample
group_sample m [] = []
group_sample m (s ∷ group) =
    record {
      timestamp = middle s.timestamp (s ∷ group);
      cpu_percent = m.mean_cpu (loads (s ∷ group));
      memory_bytes = sum_memory (s ∷ group) / length (s ∷ group);
    }
    ∷ []

abbrev pub at_most : ℕ → ℕ → ℕ
at_most n end = if ltb n end then n else end

-- samples[start:end] of round i
unfoldable pub group : Means → List ResourceSample → ℕ → ℕ → List ResourceSample
group m samples max_points i =
    let n = length samples in
    let start = m.index n max_points i in
    let end = at_most n (m.index n max_points (suc i)) in take (end - start) (drop start samples)

abbrev pub prepend : List ResourceSample → List ResourceSample → List ResourceSample
prepend [] rest = rest
prepend (s ∷ ss) rest = s ∷ prepend ss rest

-- The loop, with the rounds that are left and the number of the next.
unfoldable pub groups : Means → List ResourceSample → ℕ → ℕ → ℕ → List ResourceSample
unfolding group
groups m samples max_points zero i = []
groups m samples max_points (suc left) i =
    prepend (group_sample m (group m samples max_points i))
      (groups m samples max_points left (suc i))

unfoldable pub downsample : Means → List ResourceSample → ℕ → List ResourceSample
unfolding groups
downsample m samples max_points =
    if leb (length samples) max_points then samples else groups m samples max_points max_points 0

unfoldable pub thinned : Means → ℤ → List ResourceSample → List ResourceSample
unfolding downsample
thinned m max_points samples =
    if ltb_ℤ (pos 0) max_points
    then (if ltb (pos_part max_points) (length samples)
        then downsample m samples (pos_part max_points)
        else samples)
    else samples

-- A service without a bucket has no samples.
unfoldable pub get_resource_history :
    (bolt : Bolt)
    → Means
    → Codec ResourceSample
    → String
    → (String → Bool)
    → ℤ
    → Option bolt.Bucket
    → List ResourceSample
unfolding thinned in_range
get_resource_history bolt m c from late max_points none = thinned m max_points []
get_resource_history bolt m c from late max_points (some b) =
    thinned m max_points (in_range late c (bolt.seek from b))

length-groups :
    (m : Means) (samples : List ResourceSample) (max_points left i : ℕ)
    → length (groups m samples max_points left i) ≤ left
unfolding groups
length-groups m samples max_points zero i = omega arith
length-groups m samples max_points (suc left) i =
    ground (arith, length-groups m samples max_points left (suc i))

-- A positive limit bounds the points of a resource history, whatever the samples and the rounding.
pub length-get_resource_history :
    (bolt : Bolt) (m : Means) (c : Codec ResourceSample) (from : String) (late : String → Bool)
    (max_points : ℕ) (o : Option bolt.Bucket)
    → 0 < max_points
    → length (get_resource_history bolt m c from late (pos max_points) o) ≤ max_points
unfolding get_resource_history thinned downsample
length-get_resource_history bolt m c from late max_points none h = ground arith
length-get_resource_history bolt m c from late max_points (some b) h =
    ground (arith, h, length-groups m (in_range late c (bolt.seek from b)) max_points max_points 0)
