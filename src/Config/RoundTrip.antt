-- ===== src/Config/RoundTrip.antt =====
-- internal/config/service_config.go: ToService after ServiceToYAML.
use elnssm.Common.{
  ℤ, pos, leb_ℤ, ◌≤ℤ◌, str_eq, str_eq_iff, List, [], ◌∷◌, map, Option, none, some, true, false, ◌≡◌,
  ◌⊎◌, inl, inr, refl, arith, Bool-cases, if◌then◌else◌,
}
use elnssm.Model.{
  RestartPolicyConfig, HealthCheckConfig, ResourceLimits, LifecycleHook, LifecycleHooks,
  ServiceDependency, ScheduleEntry, LogConfig, NotificationOverride, Service,
}
use elnssm.Config.Texts.{Texts, traverse, traverse_option, duration, opt_duration, has_any_limit}
use elnssm.Config.ByteSize.{kb, format_byte_size}
use elnssm.Config.Go.{IsGo, rounded, format_byte_size-some, parse_byte_size-format_byte_size}
use elnssm.Config.Load.{
  load_policy, load_check, parse_hook_yaml, load_hooks, load_schedule, load_dependency,
  load_logging, load_notifications, load_size, load_limits, to_service,
}
use elnssm.Config.Save.{
  save_policy, save_check, hook_to_yaml, save_hooks, save_schedule, save_dependency, save_logging,
  save_notifications, save_limits, service_to_yaml,
}
use elnssm.Config.Reload.{
  kept, reloaded_policy, reloaded_check, on_hook, reloaded_hooks, reloaded_schedule,
  reloaded_dependency, reloaded_limits, reloaded,
}

traverse-map :
    {A B C : Type 0} (f : B → Option C) (g : A → B) (h : A → C)
    → ((x : A) → f (g x) ≡ some (h x))
    → (xs : List A) → traverse f (map g xs) ≡ some (map h xs)
unfolding traverse
traverse-map f g h e [] = refl
traverse-map f g h e (x ∷ xs) = rw (e x, traverse-map f g h e xs) refl

map-map :
    {A B C : Type 0} (f : B → C) (g : A → B) (h : A → C)
    → ((x : A) → f (g x) ≡ h x)
    → (xs : List A) → map f (map g xs) ≡ map h xs
map-map f g h e [] = refl
map-map f g h e (x ∷ xs) = rw (e x, map-map f g h e xs) refl

not_above : (b : ℤ) → b ≤ℤ pos 0 → leb_ℤ b (pos 0) ≡ true
not_above b h = ground (arith, h)

above : (b : ℤ) → pos kb ≤ℤ b → leb_ℤ b (pos 0) ≡ false
above b h = ground (arith, h)

schedule_lem : (s : ScheduleEntry) → load_schedule (save_schedule s) ≡ reloaded_schedule s
unfolding load_schedule save_schedule
schedule_lem s = refl

notifications_lem :
    (n : Option NotificationOverride) → load_notifications (save_notifications n) ≡ n
notifications_lem none = refl
notifications_lem (some n) = refl

module _ (g : Texts) (go : IsGo g) where
  duration-string : (d : ℤ) → duration g (g.duration_string d) ≡ some d
  unfolding duration
  duration-string d = elim (Bool-cases (str_eq (g.duration_string d) "")) [
    | inl e ↦ absurd (go.string_some d ((str_eq_iff (g.duration_string d) "").0 e))
    | inr e ↦ rw (e, go.parse_string d) refl
  ]

  duration-opt : (d : ℤ) → duration g (opt_duration g d) ≡ some (kept d)
  unfolding opt_duration
  duration-opt d = elim (Bool-cases (leb_ℤ d (pos 0))) [
    | inl e ↦ rw e (unfold duration in refl)
    | inr e ↦ rw e (duration-string d)
  ]

  policy_lem :
      (p : RestartPolicyConfig) → load_policy g (save_policy g p) ≡ some (reloaded_policy p)
  unfolding load_policy save_policy
  policy_lem p =
      rw (duration-string p.delay, duration-string p.retry_window, duration-string p.max_backoff)
        refl

  check_lem : (hc : HealthCheckConfig) → load_check g (save_check g hc) ≡ some (reloaded_check hc)
  unfolding load_check save_check
  check_lem hc =
      rw (duration-string hc.interval, duration-string hc.timeout, duration-string hc.start_delay)
        refl

  dependency_lem :
      (d : ServiceDependency)
      → load_dependency g (save_dependency g d) ≡ some (reloaded_dependency d)
  unfolding load_dependency save_dependency
  dependency_lem d = rw (duration-opt d.timeout) refl

  logging_lem : (l : LogConfig) → load_logging g (save_logging g l) ≡ some l
  unfolding load_logging save_logging
  logging_lem l = rw (duration-string l.max_age) refl

  hook_lem :
      (h : Option LifecycleHook)
      → traverse_option (parse_hook_yaml g) (hook_to_yaml g h) ≡ some (on_hook h)
  unfolding parse_hook_yaml hook_to_yaml
  hook_lem none = refl
  hook_lem (some h) = rw (duration-opt h.timeout) refl

  hooks_lem : (h : LifecycleHooks) → load_hooks g (save_hooks g h) ≡ some (reloaded_hooks h)
  unfolding load_hooks save_hooks
  hooks_lem h = ground (
    arith,
    hook_lem h.pre_start,
    hook_lem h.post_start,
    hook_lem h.pre_stop,
    hook_lem h.post_stop,
  )

  size_lem :
      (b : ℤ)
      → (b ≤ℤ pos 0) ⊎ (pos kb ≤ℤ b)
      → load_size g (if leb_ℤ b (pos 0) then "" else format_byte_size g b)
        ≡ some (if leb_ℤ b (pos 0) then pos 0 else rounded g go b)
  unfolding load_size
  size_lem b (inl h) = rw (not_above b h) refl
  size_lem b (inr h) =
      rw (above b h, format_byte_size-some g go b h) (parse_byte_size-format_byte_size g go b h)

  limits_lem :
      (rl : ResourceLimits)
      → (rl.memory_max ≤ℤ pos 0) ⊎ (pos kb ≤ℤ rl.memory_max)
      → load_limits g (save_limits g rl) ≡ some (reloaded_limits g go rl)
  unfolding load_limits save_limits
  limits_lem rl h = elim (Bool-cases (has_any_limit g rl)) [
    | inl e ↦
        rw
          (
            e,
            duration-opt rl.cpu_duration,
            duration-opt rl.check_interval,
            size_lem rl.memory_max h,
          )
          refl
    | inr e ↦ rw e (unfold duration load_size in refl)
  ]

  -- A service that is saved and loaded again is the service with the stated losses, and no text of
  -- it is refused. Its memory limit is not between 0 and 1 KB.
  pub to_service-service_to_yaml :
      (svc : Service)
      → (svc.resource_limits.memory_max ≤ℤ pos 0) ⊎ (pos kb ≤ℤ svc.resource_limits.memory_max)
      → to_service g (service_to_yaml g svc) ≡ some (reloaded g go svc)
  unfolding to_service service_to_yaml
  to_service-service_to_yaml svc h =
      rw
        (
          duration-opt svc.start_delay,
          duration-string svc.stop_timeout,
          policy_lem svc.restart_policy,
          traverse-map (load_check g) (save_check g) reloaded_check check_lem svc.health_checks,
          hooks_lem svc.hooks,
          traverse-map (load_dependency g) (save_dependency g) reloaded_dependency dependency_lem
              svc.dependencies,
          logging_lem svc.log_config,
          limits_lem svc.resource_limits h,
          map-map load_schedule save_schedule reloaded_schedule schedule_lem svc.schedules,
          notifications_lem svc.notifications,
        )
        refl
