-- ===== src/Config/Texts.antt =====
-- internal/config/service_config.go: durations, sizes and constants as texts. What Go's time, strconv,
-- fmt and strings make of them is a parameter.
use elnssm.Common.{
  ℕ, ℤ, pos, ltb_ℤ, leb_ℤ, String, str_eq, List, [], ◌∷◌, Option, none, some, Bool, if◌then◌else◌,
  ◌||◌,
}
use elnssm.Model.{
  Float64, StartupType, StopSignal, RestartMode, DependencyType, ScheduleAction, ResourceLimits,
}

pub record Texts : Type 0 where
  pub parse_duration : String → Option ℤ  -- time.ParseDuration
  pub duration_string : ℤ → String  -- Duration.String
  pub parse_float : String → Option Float64  -- strconv.ParseFloat(s, 64)
  pub to_bytes : Float64 → ℤ → ℤ  -- int64(val * float64(multiplier))
  pub ratio : ℤ → ℤ → Float64  -- float64(b) / float64(unit)
  pub fixed : ℕ → Float64 → String  -- fmt.Sprintf("%.nf", x)
  pub decimal : ℤ → String  -- fmt.Sprintf("%d", b)
  pub trim_space : String → String
  pub to_upper : String → String
  pub positive : Float64 → Bool  -- x > 0

infixl 5 ◌>>=◌
abbrev pub ◌>>=◌ {ℓ κ} : {A : Type ℓ} {B : Type κ} → Option A → (A → Option B) → Option B
none >>= f = none
some a >>= f = f a

abbrev pub pure {ℓ} : {A : Type ℓ} → A → Option A
pure a = some a

unfoldable pub traverse {ℓ κ} :
    {A : Type ℓ} {B : Type κ} → (A → Option B) → List A → Option (List B)
traverse f [] = some []
traverse f (x ∷ xs) = f x >>= λ y. traverse f xs >>= λ ys. some (y ∷ ys)

abbrev pub traverse_option {ℓ κ} :
    {A : Type ℓ} {B : Type κ} → (A → Option B) → Option A → Option (Option B)
traverse_option f none = some none
traverse_option f (some x) = f x >>= λ y. some (some y)

-- The conversions between a string type's constants and their texts.
abbrev pub startup_type_of : String → StartupType
startup_type_of s =
    if str_eq s "auto"
    then StartupType.auto
    else if str_eq s "manual"
    then StartupType.manual
    else if str_eq s "disabled"
    then StartupType.disabled
    else if str_eq s "delayed-auto"
    then StartupType.delayed_auto
    else StartupType.other s

abbrev pub startup_type_text : StartupType → String
startup_type_text StartupType.auto = "auto"
startup_type_text StartupType.manual = "manual"
startup_type_text StartupType.disabled = "disabled"
startup_type_text StartupType.delayed_auto = "delayed-auto"
startup_type_text (StartupType.other s) = s

abbrev pub stop_signal_of : String → StopSignal
stop_signal_of s =
    if str_eq s "ctrl_c"
    then StopSignal.ctrl_c
    else if str_eq s "ctrl_break"
    then StopSignal.ctrl_break
    else if str_eq s "terminate"
    then StopSignal.terminate
    else if str_eq s "wm_close"
    then StopSignal.wm_close
    else if str_eq s ""
    then StopSignal.unset
    else StopSignal.other s

abbrev pub stop_signal_text : StopSignal → String
stop_signal_text StopSignal.ctrl_c = "ctrl_c"
stop_signal_text StopSignal.ctrl_break = "ctrl_break"
stop_signal_text StopSignal.terminate = "terminate"
stop_signal_text StopSignal.wm_close = "wm_close"
stop_signal_text StopSignal.unset = ""
stop_signal_text (StopSignal.other s) = s

abbrev pub restart_mode_of : String → RestartMode
restart_mode_of s =
    if str_eq s "always"
    then RestartMode.always
    else if str_eq s "on_failure"
    then RestartMode.on_failure
    else if str_eq s "never"
    then RestartMode.never
    else RestartMode.other s

abbrev pub restart_mode_text : RestartMode → String
restart_mode_text RestartMode.always = "always"
restart_mode_text RestartMode.on_failure = "on_failure"
restart_mode_text RestartMode.never = "never"
restart_mode_text (RestartMode.other s) = s

abbrev pub dependency_type_of : String → DependencyType
dependency_type_of s =
    if str_eq s "running"
    then DependencyType.running
    else if str_eq s "healthy"
    then DependencyType.healthy
    else DependencyType.other s

abbrev pub dependency_type_text : DependencyType → String
dependency_type_text DependencyType.running = "running"
dependency_type_text DependencyType.healthy = "healthy"
dependency_type_text (DependencyType.other s) = s

abbrev pub schedule_action_of : String → ScheduleAction
schedule_action_of s =
    if str_eq s "start"
    then ScheduleAction.start
    else if str_eq s "stop"
    then ScheduleAction.stop
    else if str_eq s "restart"
    then ScheduleAction.restart
    else ScheduleAction.other s

abbrev pub schedule_action_text : ScheduleAction → String
schedule_action_text ScheduleAction.start = "start"
schedule_action_text ScheduleAction.stop = "stop"
schedule_action_text ScheduleAction.restart = "restart"
schedule_action_text (ScheduleAction.other s) = s

-- if s != "" { d, err := time.ParseDuration(s) … }
unfoldable pub duration : Texts → String → Option ℤ
duration g s = if str_eq s "" then some (pos 0) else g.parse_duration s

unfoldable pub opt_duration : Texts → ℤ → String
opt_duration g d = if leb_ℤ d (pos 0) then "" else g.duration_string d

unfoldable pub has_any_limit : Texts → ResourceLimits → Bool
has_any_limit g rl =
    g.positive rl.cpu_threshold || ltb_ℤ (pos 0) rl.memory_max || g.positive rl.memory_spike_ratio
