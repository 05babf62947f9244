-- ===== src/Manager/Dependencies/Order.antt =====
-- The outer loop of TopologicalSort (internal/manager/dependencies.go): what holds in each round, and
-- that the fuel suffices.
use elnssm.Common.{
  ℕ, zero, suc, ◌+◌, ◌-◌, ◌≤◌, pos, String, str_eq_iff, str_eq_refl, List, [], ◌∷◌, ◌++◌, some,
  ◌==◌, times, times-append, length, length-append, length-le_of_times, ◌≡◌, refl, sym, subst,
  arith, if◌then◌else◌,
}
use mathlib.Core.List.{append_assoc, append-nil}
use elnssm.Manager.Dependencies.Defs.{Edge, Degrees, release, kahn}
use elnssm.Manager.Dependencies.Release.{waiting, dependents, freed, release_counts, waiting-snoc}

-- Each of the services stands behind all its dependencies, if those in `done` stand before.
abbrev pub IsOrderedAfter : List Edge → List String → List String → Type 0
IsOrderedAfter es done [] = Unit
IsOrderedAfter es done (x ∷ xs) = (waiting es done x ≡ 0) × IsOrderedAfter es (done ++ x ∷ []) xs

IsOrderedAfter-snoc :
    (es : List Edge) (done xs : List String) (node : String)
    → IsOrderedAfter es done xs
    → waiting es (done ++ xs) node ≡ 0
    → IsOrderedAfter es done (xs ++ node ∷ [])
IsOrderedAfter-snoc es done [] node o w =
    (subst (λ d. waiting es d node ≡ 0) (append-nil done) w, tt)
IsOrderedAfter-snoc es done (x ∷ xs) node o w = (
  o.0,
  IsOrderedAfter-snoc es (done ++ x ∷ []) xs node o.1
      (subst (λ d. waiting es d node ≡ 0) (sym (append_assoc done (x ∷ []) xs)) w),
)

-- A service is placed once it waits for nothing.
abbrev pub due : ℕ → ℕ → ℕ
due left there = if left == 0 then there else 0

module _ (es : List Edge) (ids : List String) (unique : (x : String) → times x ids ≤ 1)
    (known : (x : String) (done : List String) → times x ids ≡ 0 → waiting es done x ≡ 0)
    (reverse : String → List String) (reversed : (x : String) → reverse x ≡ dependents es x) where
  pub record IsRound (degrees : Degrees) (queue sorted : List String) : Type 0 where
    pub degree : (x : String) → degrees x ≡ pos (waiting es sorted x)
    pub placed :
        (x : String) → times x queue + times x sorted ≡ due (waiting es sorted x) (times x ids)
    pub ordered : IsOrderedAfter es [] sorted

  module _ (degrees : Degrees) (node : String) (queue sorted : List String)
      (inv : IsRound degrees (node ∷ queue) sorted) where
    abbrev next : Degrees × List String
    next = release (reverse node) degrees queue

    not_done : times node sorted ≡ 0
    not_done = ground (arith, inv.placed node, unique node, str_eq_refl node)

    ready : waiting es sorted node ≡ 0
    ready = ground (arith, inv.placed node, unique node, str_eq_refl node)

    left :
        (x : String)
        → waiting es sorted x ≡ waiting es (sorted ++ node ∷ []) x + times x (reverse node)
    left x = rw (reversed node) (waiting-snoc es sorted node x not_done)

    next_counts :
        (x : String)
        → (next.0 x ≡ pos (waiting es sorted x - times x (reverse node)))
          × (times x next.1 ≡ times x queue + freed (times x (reverse node)) (waiting es sorted x))
    next_counts x =
        release_counts (reverse node) degrees queue (waiting es sorted) inv.degree
          (λ y. omega (arith, left y)) x

    next-IsRound : IsRound next.0 next.1 (sorted ++ node ∷ [])
    next-IsRound = record {
      degree = λ x. ground (arith, left x, next_counts x);
      placed = λ x. ground (
        arith,
        left x,
        next_counts x,
        inv.placed x,
        unique x,
        known x sorted,
        times-append x sorted (node ∷ []),
        str_eq_iff node x,
        ready,
      );
      ordered = IsOrderedAfter-snoc es [] sorted node inv.ordered ready;
    }

  -- All the nodes of the queue and of the result are services, each there once.
  fits :
      (degrees : Degrees) (queue sorted : List String)
      → IsRound degrees queue sorted
      → length queue + length sorted ≤ length ids
  fits degrees queue sorted inv =
      let within : (x : String) → times x (queue ++ sorted) ≤ times x ids =
        λ x. ground (arith, inv.placed x, times-append x queue sorted) in
      omega (arith, length-le_of_times (queue ++ sorted) ids within, length-append queue sorted)

  -- With enough fuel the loop ends, and then each service that waits for nothing is in the result.
  pub kahn_ends :
      (fuel : ℕ) (degrees : Degrees) (queue sorted : List String)
      → length ids ≤ fuel + length sorted
      → IsRound degrees queue sorted
      → (order : List String) × (kahn fuel reverse degrees queue sorted ≡ some order)
        × ((x : String) → times x order ≡ due (waiting es order x) (times x ids))
        × IsOrderedAfter es [] order
  unfolding kahn
  kahn_ends fuel degrees [] sorted e inv =
      (sorted, refl, λ x. omega (arith, inv.placed x), inv.ordered)
  kahn_ends zero degrees (node ∷ queue) sorted e inv =
      absurd (omega (arith, fits degrees (node ∷ queue) sorted inv))
  kahn_ends (suc fuel) degrees (node ∷ queue) sorted e inv =
      let round = next-IsRound degrees node queue sorted inv in
      kahn_ends fuel (next degrees node queue sorted inv).0 (next degrees node queue sorted inv).1
        (sorted ++ node ∷ []) (omega (arith, length-append sorted (node ∷ []))) round
