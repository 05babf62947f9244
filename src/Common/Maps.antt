-- ===== src/Common/Maps.antt =====
-- A Go map with string keys, as an association list. Iteration over the list is one of the orders
-- in which Go may range over the map.
use Prim.Native.String.{String}
use mathlib.Core.Path.{◌≡◌, refl}
use mathlib.Core.Bool.{Bool, true}
use mathlib.Core.Option.{Option, none, some}
use mathlib.Core.List.{List, [], ◌∷◌}
use text.Mathlib.Text.{◌==◌}
use text.Mathlib.TextEquality.{eq_iff}
use native.Mathlib.Omega.{arith}
use elnssm.Common.Tests.{if◌then◌else◌}

abbrev pub str_eq : String → String → Bool
str_eq s t = s == t

pub str_eq_iff : (s t : String) → (str_eq s t ≡ true → s ≡ t) × (s ≡ t → str_eq s t ≡ true)
str_eq_iff s t = (λ h. (eq_iff s t).0 h, λ h. (eq_iff s t).1 h)

pub str_eq_refl : (s : String) → str_eq s s ≡ true
str_eq_refl s = (eq_iff s s).1 refl

abbrev pub Dict {ℓ} : Type ℓ → Type ℓ
Dict V = List (String × V)

module _ {ℓ} {V : Type ℓ} where
  unfoldable pub lookup : String → Dict V → Option V
  lookup key [] = none
  lookup key ((name, entry) ∷ others) =
      let rest = lookup key others in if str_eq name key then some entry else rest

  unfoldable pub insert : String → V → Dict V → Dict V
  insert key new [] = (key, new) ∷ []
  insert key new ((name, entry) ∷ others) =
      let rest = insert key new others in
      if str_eq name key then (name, new) ∷ others else (name, entry) ∷ rest

  unfoldable pub erase : String → Dict V → Dict V
  erase key [] = []
  erase key ((name, entry) ∷ others) =
      let rest = erase key others in if str_eq name key then rest else (name, entry) ∷ rest

  pub lookup-insert :
      (key other : String) (new : V) (d : Dict V)
      → lookup other (insert key new d) ≡ (if str_eq key other then some new else lookup other d)
  unfolding lookup insert
  lookup-insert key other new [] = refl
  lookup-insert key other new ((name, entry) ∷ others) =
      let rest = lookup-insert key other new others in
      ground (arith, str_eq_iff key other, str_eq_iff name key, str_eq_iff name other, rest)

  pub lookup-erase :
      (key other : String) (d : Dict V)
      → lookup other (erase key d) ≡ (if str_eq key other then none else lookup other d)
  unfolding lookup erase
  lookup-erase key other [] = ground arith
  lookup-erase key other ((name, entry) ∷ others) =
      let rest = lookup-erase key other others in
      ground (arith, str_eq_iff key other, str_eq_iff name key, str_eq_iff name other, rest)

  pub lookup-insert_self :
      (key : String) (new : V) (d : Dict V) → lookup key (insert key new d) ≡ some new
  lookup-insert_self key new d = ground (arith, lookup-insert key key new d, str_eq_refl key)

  pub lookup-erase_self : (key : String) (d : Dict V) → lookup key (erase key d) ≡ none
  lookup-erase_self key d = ground (arith, lookup-erase key key d, str_eq_refl key)
