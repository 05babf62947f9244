-- ===== src/Api/Readings/Bounded.antt =====
-- How much the handlers of internal/api/handlers_performance.go and handlers_system.go reply with.
use elnssm.Common.{
  ℕ, ◌≤◌, ◌<◌, ℤ, pos, negsuc, String, str_eq, List, [], length, Option, none, some, Bool, ◌&&◌,
  ◌≡◌, refl, arith, ltb_ℤ, leb_ℤ,
}
use elnssm.Process.ResourceMonitor.Defs.{ResourceSample}
use elnssm.Store.Bolt.{Bolt, Codec}
use elnssm.Store.Downsample.{Means, length-get_resource_history}
use elnssm.Manager.State.{ManagedService}
use elnssm.Api.Auth.Credentials.{if_then_else}
use elnssm.Api.Readings.{
  ReadReply, read, in_bounds_or, max_points, Parsers, Queries, time_span, Performance,
  handle_get_performance,
}

abbrev IsPoints : ℤ → Type 0
IsPoints z = (n : ℕ) × (z ≡ pos n) × (0 < n) × (n ≤ 1000)

abbrev usual : ℤ
usual = pos 200

usual-IsPoints : IsPoints usual
usual-IsPoints = (200, refl, omega arith, omega arith)

in_bounds_or-IsPoints :
    (o : Option ℤ)
    → IsPoints (in_bounds_or (pos 200) (λ k. ltb_ℤ (pos 0) k && leb_ℤ k (pos 1000)) o)
in_bounds_or-IsPoints none = usual-IsPoints
in_bounds_or-IsPoints (some (negsuc k)) =
    if_then_else IsPoints (ltb_ℤ (pos 0) (negsuc k) && leb_ℤ (negsuc k) (pos 1000))
      (λ e. absurd (ground (arith, e))) (λ _. usual-IsPoints)
in_bounds_or-IsPoints (some (pos k)) =
    if_then_else IsPoints (ltb_ℤ (pos 0) (pos k) && leb_ℤ (pos k) (pos 1000))
      (λ e. (k, refl, ground (arith, e), ground (arith, e))) (λ _. usual-IsPoints)

max_points-IsPoints : (atoi : String → Option ℤ) (text : String) → IsPoints (max_points atoi text)
max_points-IsPoints atoi text =
    if_then_else IsPoints (str_eq text "") (λ _. usual-IsPoints)
      (λ _. in_bounds_or-IsPoints (atoi text))

-- The samples of a reply, none where it is an error.
abbrev pub samples_of : ReadReply Performance → List ResourceSample
samples_of (read p) = p.samples
samples_of _ = []

module _ (bolt : Bolt) (m : Means) (c : Codec ResourceSample) where
  -- Whatever the queries, the stored samples and the rounding, a reply has at most 1000 samples.
  pub handle_get_performance_bounded :
      (key : ℤ → String) (late : ℤ → String → Bool) (p : Parsers) (now : ℤ) (q : Queries)
      (opened : Bool) (bucket : Option bolt.Bucket) (id : String) (found : Option ManagedService)
      → length
          (samples_of (handle_get_performance bolt m c key late p now q opened bucket id found))
        ≤ 1000
  unfolding handle_get_performance
  handle_get_performance_bounded key late p now q opened bucket id found =
      let span = time_span p now q in
      let (n, e, positive, small) = max_points-IsPoints p.atoi q.points in
      let short =
        length-get_resource_history bolt m c (key span.0) (late span.1) n bucket positive in
      rw e (ground (arith, short, small))
