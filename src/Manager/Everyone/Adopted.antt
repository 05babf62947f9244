-- ===== src/Manager/Everyone/Adopted.antt =====
-- What AdoptOrphans makes of each service (internal/manager/manager.go).
use elnssm.Common.{
  ℤ, String, str_eq, str_eq_iff, [], ◌∷◌, Option, none, some, is_some, not, Dict, lookup,
  lookup-insert, lookup-insert_self, ◌≡◌, refl, sym, ap, subst, ◌∙◌, arith, inl, inr, Bool-cases,
  true, false,
}
use elnssm.Process.Wrapper.{Adoption}
use elnssm.Manager.State.{System}
use elnssm.Manager.Handover.{adopt_orphan}
use elnssm.Manager.Everyone.{adopt_one, adopt_orphans}
use elnssm.Manager.Everyone.Lookups.{on_found, is_map}

-- What becomes of a service when the map of orphans holds this for it.
abbrev pub adopted : (String → ℤ → Adoption) → String → Option ℤ → System → System
adopted answers id none s = s
adopted answers id (some p) s = adopt_orphan p (answers id p) s

pub found_again : (o : Option System) → on_found (λ s. some s) o ≡ o
found_again none = refl
found_again (some s) = refl

lookup-adopt_own :
    (answers : String → ℤ → Adoption) (id : String) (p : ℤ) (services : Dict System)
    → lookup id (adopt_one answers id p (lookup id services) services)
      ≡ on_found (λ s. some (adopted answers id (some p) s)) (lookup id services)
lookup-adopt_own answers id p services = go (lookup id services) refl
  where
    go :
        (o : Option System)
        → lookup id services ≡ o
        → lookup id (adopt_one answers id p o services)
          ≡ on_found (λ s. some (adopted answers id (some p) s)) o
    go none e = e
    go (some s) e = lookup-insert_self id (adopt_orphan p (answers id p) s) services

lookup-adopt_other :
    (answers : String → ℤ → Adoption) (name id : String) (p : ℤ) (services : Dict System)
    (o : Option System)
    → str_eq name id ≡ false
    → lookup id (adopt_one answers name p o services) ≡ lookup id services
lookup-adopt_other answers name id p services none other = refl
lookup-adopt_other answers name id p services (some s) other =
    lookup-insert name id (adopt_orphan p (answers name p) s) services ∙ rw other refl

two_steps :
    (f g : System → System) (o : Option System)
    → on_found (λ s. some (g s)) (on_found (λ s. some (f s)) o) ≡ on_found (λ s. some (g (f s))) o
two_steps f g none = refl
two_steps f g (some s) = refl

pub absent_key : {V : Type 0} (o : Option V) → not (is_some o) ≡ true → o ≡ none
absent_key none h = refl
absent_key (some s) h = absurd (ground (arith, h))

own_step :
    (answers : String → ℤ → Adoption) (name id : String) (p : ℤ) (orphans : Dict ℤ)
    (services : Dict System)
    → name ≡ id
    → lookup name orphans ≡ none
    → on_found
        (λ s. some (adopted answers id (lookup id orphans) s))
        (lookup id (adopt_one answers name p (lookup name services) services))
      ≡ on_found (λ s. some (adopted answers id (some p) s)) (lookup id services)
own_step answers name id p orphans services is fresh =
    subst
      (λ n.
        on_found (λ s. some (adopted answers id (lookup id orphans) s))
          (lookup id (adopt_one answers n p (lookup n services) services))
        ≡ on_found (λ s. some (adopted answers id (some p) s)) (lookup id services))
      (sym is)
      (rw (subst (λ n. lookup n orphans ≡ none) is fresh) (
        found_again (lookup id (adopt_one answers id p (lookup id services) services))
        ∙ lookup-adopt_own answers id p services))

pub lookup-adopt_orphans :
    (answers : String → ℤ → Adoption) (id : String) (orphans : Dict ℤ) (services : Dict System)
    → is_map orphans ≡ true
    → lookup id (adopt_orphans answers orphans services)
      ≡ on_found (λ s. some (adopted answers id (lookup id orphans) s)) (lookup id services)
unfolding adopt_orphans lookup
lookup-adopt_orphans answers id [] services h = sym (found_again (lookup id services))
lookup-adopt_orphans answers id ((name, p) ∷ orphans) services h =
    let next = adopt_one answers name p (lookup name services) services in
    let ih = lookup-adopt_orphans answers id orphans next (ground (arith, h)) in
    elim (Bool-cases (str_eq name id)) [
      | inl same ↦ rw same (
          ih
          ∙ own_step answers name id p orphans services ((str_eq_iff name id).0 same)
              (absent_key (lookup name orphans) (ground (arith, h))))
      | inr other ↦ rw other (
          ih
          ∙ ap (on_found (λ s. some (adopted answers id (lookup id orphans) s)))
              (lookup-adopt_other answers name id p services (lookup name services) other))
    ]
