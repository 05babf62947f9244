-- ===== src/Api/Services/Complete.antt =====
-- internal/api/handlers_services.go: what a service is like that the API has added.
use elnssm.Common.{
  ℕ, suc, ℤ, pos, String, str_eq, str_eq_iff, any, Option, none, some, false, ◌||◌, lookup, is_some,
  lookup-insert_self, ◌≡◌, ◌≢◌, refl, sym, subst, ◌∙◌, arith, Bool-cases, inl, inr,
}
use elnssm.Model.{Service, ServiceState}
use elnssm.Config.Texts.{Texts}
use elnssm.Config.Secrets.{Dpapi}
use elnssm.Scheduler.Defs.{Cron}
use elnssm.Manager.State.{ManagedService}
use elnssm.Manager.Registry.Defs.{Writes, Registry, new_managed_service, add}
use elnssm.Api.Services.Validation.{
  validate_service_id, any_char, is_separator, validate_service_id_name,
}
use elnssm.Api.Services.Defs.{
  ServiceRequest, Response, created, or_number, FloatDefaults, default_policy, apply_defaults,
  is_bad_check, with_password, on_add, add_encrypted, handle_add_service,
}

-- A stopped service with a program and with the times that stopping and restarting need.
pub record IsComplete (c : Service) : Type 0 where
  pub program : c.executable ≢ ""
  pub stop_timeout : c.stop_timeout ≢ pos 0
  pub delay : c.restart_policy.delay ≢ pos 0
  pub max_retries : c.restart_policy.max_retries ≢ pos 0
  pub max_backoff : c.restart_policy.max_backoff ≢ pos 0
  pub state : c.state ≡ ServiceState.stopped

or_number-ne : (given : ℤ) (n : ℕ) → or_number given (pos (suc n)) ≢ pos 0
or_number-ne given n e = ground (arith, e)

abbrev as_stopped : Service → Service
as_stopped svc = record svc { state = ServiceState.stopped }

abbrev as_added : FloatDefaults → Service → Service
as_added fl svc = as_stopped (apply_defaults fl svc)

as_added-IsComplete :
    (fl : FloatDefaults) (svc : Service) → svc.executable ≢ "" → IsComplete (as_added fl svc)
unfolding apply_defaults default_policy
as_added-IsComplete fl svc n = record {
  program = n;
  stop_timeout = or_number-ne svc.stop_timeout 29999999999;
  delay = or_number-ne svc.restart_policy.delay 4999999999;
  max_retries = or_number-ne svc.restart_policy.max_retries 9;
  max_backoff = or_number-ne svc.restart_policy.max_backoff 299999999999;
  state = refl;
}

with_password_kept :
    (k : Dpapi) (req : ServiceRequest) (svc : Service)
    → with_password k req ≡ some svc
    → (svc.id ≡ req.service.id) × (svc.executable ≡ req.service.executable)
unfolding with_password
with_password_kept k req svc e = (ground (arith, e), ground (arith, e))

conflict-created : Response.conflict ≡ Response.created → ⊥
conflict-created e = cc

error-created : Response.internal_error ≡ Response.created → ⊥
error-created e = cc

bad-created : Response.bad_request ≡ Response.created → ⊥
bad-created e = cc

module _ (g : Texts) (cron : Cron) where
  add_created :
      (w : Writes) (svc : Service) (r : Registry g cron)
      → (on_add g cron (add g cron w svc r)).1 ≡ created
      → lookup svc.id (on_add g cron (add g cron w svc r)).0.services
        ≡ some (new_managed_service r.fresh (as_stopped svc))
  unfolding add
  add_created w svc r h = elim (Bool-cases (is_some (lookup svc.id r.services))) [
    | inl e ↦ absurd (conflict-created (sym (rw e refl) ∙ h))
    | inr e ↦ elim (Bool-cases w.file) [
      | inr f ↦ absurd (conflict-created (sym (rw (e, f) refl) ∙ h))
      | inl f ↦ elim (Bool-cases w.save) [
        | inr b ↦ absurd (conflict-created (sym (rw (e, f, b) refl) ∙ h))
        | inl b ↦
            rw (e, f, b)
              (lookup-insert_self svc.id (new_managed_service r.fresh (as_stopped svc)) r.services)
      ]
    ]
  ]

  -- What has been checked and filled in for a service of the map.
  abbrev pub IsRegistered : ServiceRequest → Registry g cron → ManagedService → Type 0
  IsRegistered req r ms =
      (lookup req.service.id r.services ≡ some ms)
      × IsComplete ms.config
      × (any_char is_separator req.service.id ≡ false)
      × (any is_bad_check req.service.health_checks ≡ false)

  add_encrypted_created :
      (fl : FloatDefaults) (k : Dpapi) (w : Writes) (req : ServiceRequest) (r : Registry g cron)
      (o : Option Service)
      → with_password k req ≡ o
      → req.service.executable ≢ ""
      → any_char is_separator req.service.id ≡ false
      → any is_bad_check req.service.health_checks ≡ false
      → (add_encrypted g cron fl w r o).1 ≡ created
      → (ms : ManagedService) × IsRegistered req (add_encrypted g cron fl w r o).0 ms
  unfolding apply_defaults new_managed_service
  add_encrypted_created fl k w req r none p x i b h = absurd (error-created h)
  add_encrypted_created fl k w req r (some svc) p x i b h =
      let kept = with_password_kept k req svc p in
      let there = add_created w (apply_defaults fl svc) r h in
      (
        new_managed_service r.fresh (as_added fl svc),
        (
          subst
              (λ (id : String).
                lookup id (add_encrypted g cron fl w r (some svc)).0.services
                ≡ some (new_managed_service r.fresh (as_added fl svc)))
              kept.0 there,
          as_added-IsComplete fl svc (λ e. x (sym kept.1 ∙ e)),
          i,
          b,
        ),
      )

  -- When the API answers that a service is created, it is in the map, stopped, with a program and the
  -- times for stopping and restarting; its identifier has no separator of paths, and no script check
  -- has a target with syntax of the shell.
  pub handle_add_service_created :
      (fl : FloatDefaults) (k : Dpapi) (w : Writes) (req : ServiceRequest) (r : Registry g cron)
      → (handle_add_service g cron fl k w (some req) r).1 ≡ created
      → (ms : ManagedService) × IsRegistered req
          (handle_add_service g cron fl k w (some req) r).0
          ms
  unfolding handle_add_service
  handle_add_service_created fl k w req r h =
      elim (Bool-cases (str_eq req.service.id "" || str_eq req.service.executable "")) [
        | inl e ↦ absurd (bad-created (sym (rw e refl) ∙ h))
        | inr e ↦ elim (Bool-cases (validate_service_id req.service.id)) [
          | inr v ↦ absurd (bad-created (sym (rw (e, v) refl) ∙ h))
          | inl v ↦ elim (Bool-cases (any is_bad_check req.service.health_checks)) [
            | inl b ↦ absurd (bad-created (sym (rw (e, v, b) refl) ∙ h))
            | inr b ↦
                let program : req.service.executable ≢ "" =
                  λ z. ground (arith, e, z, str_eq_iff req.service.executable "") in
                let same : handle_add_service g cron fl k w (some req) r
                    ≡ add_encrypted g cron fl w r (with_password k req) =
                  rw (e, v, b) refl in
                subst
                  (λ (p : Registry g cron × Response).
                    (ms : ManagedService) × IsRegistered req p.0 ms)
                  (sym same)
                  (add_encrypted_created fl k w req r (with_password k req) refl program
                    (validate_service_id_name req.service.id v) b
                    (subst (λ (p : Registry g cron × Response). p.1 ≡ created) same h))
          ]
        ]
      ]
