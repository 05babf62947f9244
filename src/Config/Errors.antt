-- ===== src/Config/Errors.antt =====
-- internal/config/service_config.go: which configurations ToService refuses.
use elnssm.Common.{
  String, str_eq, List, [], ◌∷◌, ◌++◌, Option, none, some, Bool, true, ◌||◌, ◌&&◌, is_some, ◌≡◌,
  refl, ap, ◌∙◌, arith,
}
use elnssm.Config.Yaml.{
  RestartPolicyYaml, HealthCheckYaml, DependencyYaml, LifecycleHookYaml, LifecycleHooksYaml,
  LoggingYaml, ResourceLimitsYaml, ServiceConfigYaml,
}
use elnssm.Config.Texts.{Texts, ◌>>=◌, traverse, traverse_option, duration}
use elnssm.Config.ByteSize.{parse_byte_size}
use elnssm.Config.Load.{
  load_policy, load_check, parse_hook_yaml, load_hooks, load_dependency, load_logging, load_size,
  load_limits, to_service,
}

abbrev pub all_by {ℓ} : {A : Type ℓ} → (A → Bool) → List A → Bool
all_by test [] = true
all_by test (x ∷ xs) = test x && all_by test xs

all-append :
    {A : Type 0} (test : A → Bool) (xs ys : List A)
    → all_by test (xs ++ ys) ≡ (all_by test xs && all_by test ys)
all-append test [] ys = refl
all-append test (x ∷ xs) ys = ground (arith, all-append test xs ys)

abbrev pub flat_map {ℓ κ} : {A : Type ℓ} {B : Type κ} → (A → List B) → List A → List B
flat_map f [] = []
flat_map f (x ∷ xs) = f x ++ flat_map f xs

-- A chain of steps succeeds if each does, where the success of a step does not hang on the values
-- before it.
is_some-bind :
    {A B : Type 0} (m : Option A) (k : A → Option B) {b : Bool}
    → ((a : A) → is_some (k a) ≡ b)
    → is_some (m >>= k) ≡ (is_some m && b)
is_some-bind none k h = refl
is_some-bind (some a) k h = h a

reorder :
    (a b p k h d l x y z : Bool)
    → all_by (λ (t : Bool). t) (a ∷ b ∷ p ∷ k ∷ h ∷ d ∷ l ∷ (x && y && z) ∷ [])
      ≡ (all_by (λ (t : Bool). t) (a ∷ b ∷ p ∷ k ∷ h ∷ d ∷ l ∷ x ∷ z ∷ []) && y)
reorder a b p k h d l x y z = ground arith

abbrev pub check_texts : HealthCheckYaml → List String
check_texts hc = hc.interval ∷ hc.timeout ∷ hc.start_delay ∷ []

abbrev pub hook_texts : Option LifecycleHookYaml → List String
hook_texts none = []
hook_texts (some h) = h.timeout ∷ []

abbrev pub hooks_texts : Option LifecycleHooksYaml → List String
hooks_texts none = []
hooks_texts (some h) =
    hook_texts h.pre_start
    ++ hook_texts h.post_start
    ++ hook_texts h.pre_stop
    ++ hook_texts h.post_stop

abbrev pub dependency_texts : DependencyYaml → List String
dependency_texts d = d.timeout ∷ []

abbrev pub policy_texts : RestartPolicyYaml → List String
policy_texts p = p.delay ∷ p.retry_window ∷ p.max_backoff ∷ []

-- All durations of a configuration.
abbrev pub duration_texts : ServiceConfigYaml → List String
duration_texts c =
    c.start_delay
    ∷ c.stop_timeout
    ∷ (policy_texts c.restart_policy
        ++ (flat_map check_texts c.health_checks
            ++ (hooks_texts c.hooks
                ++ (flat_map dependency_texts c.dependencies
                    ++ c.logging.max_age ∷ c.resource_limits.cpu_duration
                      ∷ c.resource_limits.check_interval ∷ []))))

module _ (g : Texts) where
  abbrev pub is_duration : String → Bool
  is_duration s = str_eq s "" || is_some (g.parse_duration s)

  abbrev pub is_size : String → Bool
  is_size s = str_eq s "" || is_some (parse_byte_size g s)

  is_some-duration : (s : String) → is_some (duration g s) ≡ is_duration s
  unfolding duration
  is_some-duration s = ground arith

  is_some-load_size : (s : String) → is_some (load_size g s) ≡ is_size s
  unfolding load_size
  is_some-load_size s = ground arith

  is_some-traverse :
      {A B : Type 0} (f : A → Option B) (texts : A → List String)
      → ((x : A) → is_some (f x) ≡ all_by is_duration (texts x))
      → (xs : List A) → is_some (traverse f xs) ≡ all_by is_duration (flat_map texts xs)
  unfolding traverse
  is_some-traverse f texts e [] = refl
  is_some-traverse f texts e (x ∷ xs) = ground (
    arith,
    e x,
    is_some-traverse f texts e xs,
    all-append is_duration (texts x) (flat_map texts xs),
  )

  check_lem :
      (hc : HealthCheckYaml) → is_some (load_check g hc) ≡ all_by is_duration (check_texts hc)
  unfolding load_check
  check_lem hc = ground (
    arith,
    is_some-duration hc.interval,
    is_some-duration hc.timeout,
    is_some-duration hc.start_delay,
  )

  policy_lem :
      (p : RestartPolicyYaml) → is_some (load_policy g p) ≡ all_by is_duration (policy_texts p)
  unfolding load_policy
  policy_lem p = ground (
    arith,
    is_some-duration p.delay,
    is_some-duration p.retry_window,
    is_some-duration p.max_backoff,
  )

  dependency_lem :
      (d : DependencyYaml) → is_some (load_dependency g d) ≡ all_by is_duration (dependency_texts d)
  unfolding load_dependency
  dependency_lem d = ground (arith, is_some-duration d.timeout)

  hook_lem :
      (h : Option LifecycleHookYaml)
      → is_some (traverse_option (parse_hook_yaml g) h) ≡ all_by is_duration (hook_texts h)
  unfolding parse_hook_yaml
  hook_lem none = refl
  hook_lem (some h) = ground (arith, is_some-duration h.timeout)

  hooks_lem :
      (h : Option LifecycleHooksYaml)
      → is_some (load_hooks g h) ≡ all_by is_duration (hooks_texts h)
  unfolding load_hooks
  hooks_lem none = refl
  hooks_lem (some h) = ground (
    arith,
    hook_lem h.pre_start,
    hook_lem h.post_start,
    hook_lem h.pre_stop,
    hook_lem h.post_stop,
    all-append is_duration (hook_texts h.pre_start)
        (hook_texts h.post_start ++ hook_texts h.pre_stop ++ hook_texts h.post_stop),
    all-append is_duration (hook_texts h.post_start)
        (hook_texts h.pre_stop ++ hook_texts h.post_stop),
    all-append is_duration (hook_texts h.pre_stop) (hook_texts h.post_stop),
  )

  logging_lem : (l : LoggingYaml) → is_some (load_logging g l) ≡ is_duration l.max_age
  unfolding load_logging
  logging_lem l = ground (arith, is_some-duration l.max_age)

  limits_lem :
      (rl : ResourceLimitsYaml)
      → is_some (load_limits g rl)
        ≡ (is_duration rl.cpu_duration && is_size rl.memory_max && is_duration rl.check_interval)
  unfolding load_limits
  limits_lem rl = ground (
    arith,
    is_some-duration rl.cpu_duration,
    is_some-load_size rl.memory_max,
    is_some-duration rl.check_interval,
  )

  is_some-to_service :
      (c : ServiceConfigYaml)
      → is_some (to_service g c)
        ≡ all_by
            (λ (b : Bool). b)
            (is_some (duration g c.start_delay)
              ∷ is_some (duration g c.stop_timeout)
              ∷ is_some (load_policy g c.restart_policy)
              ∷ is_some (traverse (load_check g) c.health_checks)
              ∷ is_some (load_hooks g c.hooks)
              ∷ is_some (traverse (load_dependency g) c.dependencies)
              ∷ is_some (load_logging g c.logging)
              ∷ is_some (load_limits g c.resource_limits)
              ∷ [])
  unfolding to_service
  is_some-to_service c = is_some-bind (duration g c.start_delay) _ (λ v1.
      is_some-bind (duration g c.stop_timeout) _ (λ v2.
        is_some-bind (load_policy g c.restart_policy) _ (λ v3.
          is_some-bind (traverse (load_check g) c.health_checks) _ (λ v4.
            is_some-bind (load_hooks g c.hooks) _ (λ v5.
              is_some-bind (traverse (load_dependency g) c.dependencies) _ (λ v6.
                is_some-bind (load_logging g c.logging) _
                  (λ v7. is_some-bind (load_limits g c.resource_limits) _ (λ v8. refl))))))))

  duration_texts_lem :
      (c : ServiceConfigYaml)
      → all_by is_duration (duration_texts c)
        ≡ all_by
            (λ (b : Bool). b)
            (is_duration c.start_delay
              ∷ is_duration c.stop_timeout
              ∷ all_by is_duration (policy_texts c.restart_policy)
              ∷ all_by is_duration (flat_map check_texts c.health_checks)
              ∷ all_by is_duration (hooks_texts c.hooks)
              ∷ all_by is_duration (flat_map dependency_texts c.dependencies)
              ∷ is_duration c.logging.max_age
              ∷ is_duration c.resource_limits.cpu_duration
              ∷ is_duration c.resource_limits.check_interval
              ∷ [])
  duration_texts_lem c =
      let rest₁ =
        c.logging.max_age ∷ c.resource_limits.cpu_duration ∷ c.resource_limits.check_interval
        ∷ [] in
      let rest₂ = flat_map dependency_texts c.dependencies ++ rest₁ in
      let rest₃ = hooks_texts c.hooks ++ rest₂ in
      let rest₄ = flat_map check_texts c.health_checks ++ rest₃ in
      ap (λ (t : Bool). is_duration c.start_delay && (is_duration c.stop_timeout && t))
        (all-append is_duration (policy_texts c.restart_policy) rest₄)
      ∙ rw
          (
            all-append is_duration (flat_map check_texts c.health_checks) rest₃,
            all-append is_duration (hooks_texts c.hooks) rest₂,
            all-append is_duration (flat_map dependency_texts c.dependencies) rest₁,
          )
          refl

  -- A configuration is loaded exactly when each of its durations is empty or one that
  -- time.ParseDuration reads, and its memory limit is empty or a size that parseByteSize reads.
  pub to_service_accepts :
      (c : ServiceConfigYaml)
      → is_some (to_service g c)
        ≡ (all_by is_duration (duration_texts c) && is_size c.resource_limits.memory_max)
  to_service_accepts c =
      is_some-to_service c
      ∙ rw
          (
            is_some-duration c.start_delay,
            is_some-duration c.stop_timeout,
            policy_lem c.restart_policy,
            is_some-traverse (load_check g) check_texts check_lem c.health_checks,
            hooks_lem c.hooks,
            is_some-traverse (load_dependency g) dependency_texts dependency_lem c.dependencies,
            logging_lem c.logging,
            limits_lem c.resource_limits,
            duration_texts_lem c,
          )
          (reorder (is_duration c.start_delay) (is_duration c.stop_timeout)
            (all_by is_duration (policy_texts c.restart_policy))
            (all_by is_duration (flat_map check_texts c.health_checks))
            (all_by is_duration (hooks_texts c.hooks))
            (all_by is_duration (flat_map dependency_texts c.dependencies))
            (is_duration c.logging.max_age) (is_duration c.resource_limits.cpu_duration)
            (is_size c.resource_limits.memory_max) (is_duration c.resource_limits.check_interval))
