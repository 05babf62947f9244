-- ===== src/Manager/Everyone/Lookups.antt =====
-- What StopAll, DetachAll and AdoptOrphans make of each service.
use elnssm.Common.{
  sym, ap, ◌∙◌, ◌⊎◌, ◌&&◌, not, Bool, ℤ, String, str_eq, str_eq_iff, List, [], ◌∷◌, Option, none,
  some, is_some, ◌||◌, Dict, lookup, ◌≡◌, refl, arith, inl, inr, Bool-cases, if◌then◌else◌, true,
  false,
}
use elnssm.Model.{is_running, is_starting}
use elnssm.Manager.State.{System, state_of}
use elnssm.Manager.Stop.{StopWorld, stop_service}
use elnssm.Manager.Handover.{detach_service}
use elnssm.Manager.Everyone.{stop_all, noted, detach_all}

abbrev pub keys {ℓ} : {V : Type ℓ} → Dict V → List String
keys [] = []
keys ((id, v) ∷ d) = id ∷ keys d

abbrev pub on_found {ℓ κ} : {A : Type ℓ} {B : Type κ} → (A → Option B) → Option A → Option B
on_found f none = none
on_found f (some a) = f a

-- A running service with a wrapper is detached, and its PID noted.
abbrev pub orphan_of : System → Option ℤ
orphan_of s = (detach_service s).1

-- In a Go map each key stands once.
abbrev pub is_map {ℓ} : {V : Type ℓ} → Dict V → Bool
is_map [] = true
is_map ((id, v) ∷ d) = not (is_some (lookup id d)) && is_map d

-- A lookup in the notes of the orphans, where the name is not noted before.
lookup-noted :
    (name id : String) (p : Option ℤ) (orphans : Dict ℤ)
    → (str_eq name id ≡ false) ⊎ (lookup id orphans ≡ none)
    → lookup id (noted name p orphans) ≡ (if str_eq name id then p else lookup id orphans)
unfolding lookup
lookup-noted name id none orphans h = ground (arith, h)
lookup-noted name id (some p) orphans h = ground (arith, h)

fresh_key :
    (name id : String) (services : Dict System) (orphans : Dict ℤ)
    → lookup name services ≡ none
    → lookup id orphans ≡ on_found orphan_of (lookup id services)
    → (str_eq name id ≡ false) ⊎ (lookup id orphans ≡ none)
fresh_key name id services orphans h e = elim (Bool-cases (str_eq name id)) [
  | inl same ↦ inr (
      e
      ∙ ap (λ x. on_found orphan_of (lookup x services)) (sym ((str_eq_iff name id).0 same))
      ∙ ap (on_found orphan_of) h)
  | inr other ↦ inl other
]

not_found : (o : Option System) → not (is_some o) ≡ true → o ≡ none
not_found none h = refl
not_found (some s) h = absurd (ground (arith, h))

pub lookup-detach_all :
    (id : String) (services : Dict System)
    → is_map services ≡ true
    → (lookup id (detach_all services).0
        ≡ on_found (λ s. some (detach_service s).0) (lookup id services))
      × (lookup id (detach_all services).1 ≡ on_found orphan_of (lookup id services))
unfolding detach_all lookup
lookup-detach_all id [] h = (refl, refl)
lookup-detach_all id ((name, s) ∷ services) h =
    let ih = lookup-detach_all id services (ground (arith, h)) in
    let fresh : lookup name services ≡ none =
      not_found (lookup name services) (ground (arith, h)) in
    let noted_lem =
      lookup-noted name id (detach_service s).1 (detach_all services).1
        (fresh_key name id services (detach_all services).1 fresh ih.1) in
    elim (Bool-cases (str_eq name id)) [
      | inl same ↦ (rw same refl, noted_lem ∙ rw same refl)
      | inr other ↦ (rw other ih.0, noted_lem ∙ rw other ih.1)
    ]

idle_stop :
    (w : StopWorld) (s : System)
    → is_running (state_of s) || is_starting (state_of s) ≡ false
    → stop_service w s ≡ s
unfolding stop_service
idle_stop w s h = rw h refl

pub lookup-stop_all :
    (answers : String → StopWorld) (id : String) (services : Dict System)
    → lookup id (stop_all answers services)
      ≡ on_found (λ s. some (stop_service (answers id) s)) (lookup id services)
unfolding stop_all lookup
lookup-stop_all answers id [] = refl
lookup-stop_all answers id ((name, s) ∷ services) =
    ground
      (arith, lookup-stop_all answers id services, str_eq_iff name id, idle_stop (answers id) s)
