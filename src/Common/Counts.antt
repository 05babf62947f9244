-- ===== src/Common/Counts.antt =====
-- How often a text stands in a list of texts.
use Prim.Native.Nat.{ℕ, suc, ◌+◌, ◌-◌, ◌≤◌, ◌<◌}
use Prim.Native.String.{String}
use mathlib.Core.Path.{◌≡◌}
use mathlib.Core.Logic.{◌⊎◌, inl, inr}
use mathlib.Core.Bool.{Bool}
use mathlib.Core.List.{List, [], ◌∷◌, ◌++◌}
use native.Mathlib.Omega.{arith}
use elnssm.Common.Tests.{ltb, if◌then◌else◌}
use elnssm.Common.Lists.{length}
use elnssm.Common.Maps.{str_eq, str_eq_iff, str_eq_refl}

abbrev pub times : String → List String → ℕ
times a [] = 0
times a (x ∷ xs) = if str_eq x a then suc (times a xs) else times a xs

abbrev pub has : String → List String → Bool
has a xs = ltb 0 (times a xs)

pub times-append : (a : String) (xs ys : List String) → times a (xs ++ ys) ≡ times a xs + times a ys
times-append a [] ys = omega arith
times-append a (x ∷ xs) ys = ground (arith, times-append a xs ys)

-- The list without the first place where the text stands.
remove_one : String → List String → List String
remove_one a [] = []
remove_one a (x ∷ xs) = let rest = remove_one a xs in if str_eq x a then xs else x ∷ rest

times-remove_one :
    (a b : String) (xs : List String)
    → times b (remove_one a xs) ≡ times b xs - (if str_eq a b then 1 else 0)
unfolding remove_one
times-remove_one a b [] = ground arith
times-remove_one a b (x ∷ xs) =
    ground (arith, times-remove_one a b xs, str_eq_iff x a, str_eq_iff x b, str_eq_iff a b)

length-remove_one :
    (a : String) (xs : List String) → 0 < times a xs → suc (length (remove_one a xs)) ≡ length xs
unfolding remove_one
length-remove_one a [] h = absurd (omega arith)
length-remove_one a (x ∷ xs) h = ground (arith, length-remove_one a xs)

le_or_lt : (m n : ℕ) → (m ≤ n) ⊎ (n < m)
le_or_lt m n = omega arith

-- A list that holds each text at most as often as another is not longer.
pub length-le_of_times :
    (xs ys : List String) → ((a : String) → times a xs ≤ times a ys) → length xs ≤ length ys
length-le_of_times [] ys h = omega arith
length-le_of_times (x ∷ xs) ys h =
    let one : 0 < times x ys = ground (arith, h x, str_eq_refl x) in
    let others : (a : String) → times a xs ≤ times a (remove_one x ys) =
      λ a. ground (arith, h a, times-remove_one x a ys) in
    omega (arith, length-le_of_times xs (remove_one x ys) others, length-remove_one x ys one)

-- If it is as long, it holds each text as often.
pub times-eq_of_length :
    (xs ys : List String)
    → ((a : String) → times a xs ≤ times a ys)
    → length ys ≤ length xs
    → (a : String) → times a xs ≡ times a ys
times-eq_of_length xs ys h l a = elim (le_or_lt (times a ys) (times a xs)) [
  | inl e ↦ omega (arith, h a)
  | inr e ↦
      let more : (b : String) → times b (a ∷ xs) ≤ times b ys =
        λ b. ground (arith, h b, str_eq_iff a b, e) in
      absurd (omega (arith, length-le_of_times (a ∷ xs) ys more))
]
