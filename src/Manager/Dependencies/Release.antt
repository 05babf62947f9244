-- ===== src/Manager/Dependencies/Release.antt =====
-- The inner loops of TopologicalSort (internal/manager/dependencies.go), as equations on counts.
use elnssm.Common.{
  ℕ, suc, ◌+◌, ◌-◌, ◌≤◌, pos, negsuc, eqb_ℤ, String, str_eq, str_eq_iff, str_eq_refl, List, [], ◌∷◌,
  ◌++◌, not, ◌&&◌, ltb, ◌==◌, times, has, times-append, ◌≡◌, sym, arith, if◌then◌else◌,
}
use mathlib.Core.List.{append_assoc, append-nil}
use elnssm.Manager.Dependencies.Defs.{Edge, Degrees, Tables, bump, push, add_edges, roots, release}

-- How many dependencies of a service are not done.
abbrev pub waiting : List Edge → List String → String → ℕ
waiting [] done x = 0
waiting ((id, dep) ∷ es) done x =
    if str_eq id x && not (has dep done) then suc (waiting es done x) else waiting es done x

-- The services that depend on one.
abbrev pub dependents : List Edge → String → List String
dependents [] node = []
dependents ((id, dep) ∷ es) node =
    if str_eq dep node then id ∷ dependents es node else dependents es node

pub degree-add_edges :
    (es : List Edge) (t : Tables) (x : String) (n : ℕ)
    → t.in_degree x ≡ pos n
    → (add_edges es t).in_degree x ≡ pos (n + waiting es [] x)
unfolding add_edges
degree-add_edges [] t x n h = ground (arith, h)
degree-add_edges ((id, dep) ∷ es) t x n h =
    let t' : Tables = record {
      in_degree = bump id (pos 1) t.in_degree;
      reverse = push dep id t.reverse;
    } in
    ground (arith, h, degree-add_edges es t' x n, degree-add_edges es t' x (suc n))

pub reverse-add_edges :
    (es : List Edge) (t : Tables) (x : String)
    → (add_edges es t).reverse x ≡ t.reverse x ++ dependents es x
unfolding add_edges
reverse-add_edges [] t x = sym (append-nil (t.reverse x))
reverse-add_edges ((id, dep) ∷ es) t x =
    let t' : Tables = record {
      in_degree = bump id (pos 1) t.in_degree;
      reverse = push dep id t.reverse;
    } in
    ground
      (arith, reverse-add_edges es t' x, append_assoc (t.reverse x) (id ∷ []) (dependents es x))

pub times-roots :
    (degrees : Degrees) (ids : List String) (x : String) (n : ℕ)
    → degrees x ≡ pos n
    → times x (roots degrees ids) ≡ (if n == 0 then times x ids else 0)
unfolding roots
times-roots degrees [] x n h = ground arith
times-roots degrees (id ∷ ids) x n h =
    ground (arith, h, times-roots degrees ids x n h, str_eq_iff id x)

-- What `release` adds to the queue: a service whose last dependencies are among the released ones.
abbrev pub freed : ℕ → ℕ → ℕ
freed released degree = if ltb 0 released && (released == degree) then 1 else 0

pub release_counts :
    (ds : List String) (degrees : Degrees) (queue : List String) (g : String → ℕ)
    → ((x : String) → degrees x ≡ pos (g x))
    → ((x : String) → times x ds ≤ g x)
    → (x : String)
    → ((release ds degrees queue).0 x ≡ pos (g x - times x ds))
      × (times x (release ds degrees queue).1 ≡ times x queue + freed (times x ds) (g x))
unfolding release
release_counts [] degrees queue g h l x = ground (arith, h x)
release_counts (d ∷ ds) degrees queue g h l x =
    let fewer : Degrees = bump d (negsuc 0) degrees in
    let g' : String → ℕ = λ y. if str_eq d y then g y - 1 else g y in
    let h' : (y : String) → fewer y ≡ pos (g' y) = λ y. ground (arith, h y, l y) in
    let l' : (y : String) → times y ds ≤ g' y = λ y. ground (arith, l y) in
    let queue' : List String = if eqb_ℤ (fewer d) (pos 0) then queue ++ d ∷ [] else queue in
    ground (
      arith,
      l x,
      h d,
      str_eq_iff d x,
      str_eq_refl d,
      h' d,
      times-append x queue (d ∷ []),
      release_counts ds fewer queue' g' h' l' x,
    )

-- One more service is done.
pub waiting-snoc :
    (es : List Edge) (done : List String) (node x : String)
    → times node done ≡ 0
    → waiting es done x ≡ waiting es (done ++ node ∷ []) x + times x (dependents es node)
waiting-snoc [] done node x h = omega arith
waiting-snoc ((id, dep) ∷ es) done node x h = ground (
  arith,
  waiting-snoc es done node x h,
  times-append dep done (node ∷ []),
  str_eq_iff dep node,
  str_eq_iff node dep,
  str_eq_iff id x,
  h,
)
