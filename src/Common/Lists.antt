-- ===== src/Common/Lists.antt =====
-- Lists over native numbers under the library's names, and predicates on all or some elements.
use Prim.Native.Nat.{ℕ, zero, suc, ◌+◌, ◌-◌, ◌≤◌, min}
use mathlib.Core.Path.{◌≡◌, refl, ap}
use mathlib.Core.Bool.{Bool, false, ◌||◌}
use mathlib.Core.List.{List, [], ◌∷◌, ◌++◌}
use mathlib.Core.Option.{Option, none, some}
use native.Mathlib.Omega.{arith}
use elnssm.Common.Tests.{◌==◌, if◌then◌else◌}

module _ {ℓ} {A : Type ℓ} where
  abbrev pub length : List A → ℕ
  length [] = 0
  length (x ∷ xs) = suc (length xs)

  abbrev pub get_elem? : List A → ℕ → Option A
  get_elem? [] i = none
  get_elem? (x ∷ xs) zero = some x
  get_elem? (x ∷ xs) (suc i) = get_elem? xs i

  abbrev pub set : List A → ℕ → A → List A
  set [] i v = []
  set (x ∷ xs) zero v = v ∷ xs
  set (x ∷ xs) (suc i) v = x ∷ set xs i v

  abbrev pub take : ℕ → List A → List A
  take zero xs = []
  take (suc n) [] = []
  take (suc n) (x ∷ xs) = x ∷ take n xs

  abbrev pub drop : ℕ → List A → List A
  drop zero xs = xs
  drop (suc n) [] = []
  drop (suc n) (x ∷ xs) = drop n xs

  abbrev pub replicate : ℕ → A → List A
  replicate zero a = []
  replicate (suc n) a = a ∷ replicate n a

  abbrev pub filter : (A → Bool) → List A → List A
  filter p [] = []
  filter p (x ∷ xs) = let rest = filter p xs in if p x then x ∷ rest else rest

  abbrev pub any : (A → Bool) → List A → Bool
  any p [] = false
  any p (x ∷ xs) = p x || any p xs

module _ {ℓ} {A : Type ℓ} where
  pub length-append : (xs ys : List A) → length (xs ++ ys) ≡ length xs + length ys
  length-append [] ys = omega arith
  length-append (x ∷ xs) ys = omega (arith, length-append xs ys)

  pub length-drop : (n : ℕ) (xs : List A) → length (drop n xs) ≡ length xs - n
  length-drop zero xs = omega arith
  length-drop (suc n) [] = omega arith
  length-drop (suc n) (x ∷ xs) = omega (arith, length-drop n xs)

  pub length-take : (n : ℕ) (xs : List A) → length (take n xs) ≡ min n (length xs)
  length-take zero xs = omega arith
  length-take (suc n) [] = omega arith
  length-take (suc n) (x ∷ xs) = omega (arith, length-take n xs)

  pub length-replicate : (n : ℕ) (a : A) → length (replicate n a) ≡ n
  length-replicate zero a = refl
  length-replicate (suc n) a = ap suc (length-replicate n a)

  pub length-set : (xs : List A) (i : ℕ) (v : A) → length (set xs i v) ≡ length xs
  length-set [] i v = refl
  length-set (x ∷ xs) zero v = refl
  length-set (x ∷ xs) (suc i) v = ap suc (length-set xs i v)

-- Sets of identifiers: membership, removal, and how often one stands in a list.
abbrev pub elem : ℕ → List ℕ → Bool
elem n xs = any (λ x. x == n) xs

abbrev pub delete : ℕ → List ℕ → List ℕ
delete n [] = []
delete n (x ∷ xs) = let rest = delete n xs in if x == n then rest else x ∷ rest

pub length-delete-le : (n : ℕ) (xs : List ℕ) → length (delete n xs) ≤ length xs
length-delete-le n [] = omega arith
length-delete-le n (x ∷ xs) = ground (arith, length-delete-le n xs)

module _ {ℓ} {A : Type ℓ} where
  pub get_elem-set :
      (xs : List A) (i n : ℕ) (v u : A)
      → get_elem? xs i ≡ some u
      → get_elem? (set xs i v) n ≡ (if i == n then some v else get_elem? xs n)
  get_elem-set [] i n v u h = absurd (ground (arith, h))
  get_elem-set (x ∷ xs) zero zero v u h = refl
  get_elem-set (x ∷ xs) zero (suc n) v u h = ground arith
  get_elem-set (x ∷ xs) (suc i) zero v u h = ground arith
  get_elem-set (x ∷ xs) (suc i) (suc n) v u h = ground (arith, get_elem-set xs i n v u h)

  pub get_elem-snoc :
      (xs : List A) (v : A) (n : ℕ)
      → get_elem? (xs ++ v ∷ []) n ≡ (if length xs == n then some v else get_elem? xs n)
  get_elem-snoc [] v zero = refl
  get_elem-snoc [] v (suc n) = ground arith
  get_elem-snoc (x ∷ xs) v zero = ground arith
  get_elem-snoc (x ∷ xs) v (suc n) = ground (arith, get_elem-snoc xs v n)

  -- How many elements pass a test.
  abbrev pub count_if : (A → Bool) → List A → ℕ
  count_if p [] = 0
  count_if p (x ∷ xs) = (if p x then 1 else 0) + count_if p xs

  pub count_if-append :
      (p : A → Bool) (xs ys : List A) → count_if p (xs ++ ys) ≡ count_if p xs + count_if p ys
  count_if-append p [] ys = omega arith
  count_if-append p (x ∷ xs) ys = omega (arith, count_if-append p xs ys)

  pub count_if-set :
      (p : A → Bool) (xs : List A) (i : ℕ) (v u : A)
      → get_elem? xs i ≡ some u
      → count_if p (set xs i v) + (if p u then 1 else 0) ≡ count_if p xs + (if p v then 1 else 0)
  count_if-set p [] i v u h = absurd (ground (arith, h))
  count_if-set p (x ∷ xs) zero v u h = ground (arith, h)
  count_if-set p (x ∷ xs) (suc i) v u h = omega (arith, count_if-set p xs i v u h)
