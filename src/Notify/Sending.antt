-- ===== src/Notify/Sending.antt =====
-- internal/notify/dispatcher.go: NewDispatcher, and the loop of Dispatch over the notifiers.
use elnssm.Common.{
  ℕ, ℤ, pos, String, str_eq, List, [], ◌∷◌, ◌++◌, none, some, Bool, not, ◌&&◌, if◌then◌else◌,
}
use Prim.Native.String as Text
use elnssm.Model.{Event, event_type_text}
use elnssm.Config.Texts.{Texts}
use elnssm.Config.Global.{Config, SmtpConfig, WebhookConfig, TelegramConfig, NtfyConfig}
use elnssm.Notify.Channels.{NotifyWorld, Outgoing, send_webhook, send_telegram, send_ntfy}
use elnssm.Notify.Mail.{SmtpWorld, SmtpCall, send_email}
use elnssm.Notify.Dispatcher.{Dispatcher, dispatch}

pub data Notifier : Type 0 where
  email : SmtpConfig → Notifier
  webhook : WebhookConfig → Notifier
  telegram : TelegramConfig → Notifier
  ntfy : NtfyConfig → Notifier

unfoldable pub cooldown : Texts → String → ℤ
cooldown g text =
    if str_eq text ""
    then pos 300000000000
    else elim (g.parse_duration text) [ none ↦ pos 300000000000 | some d ↦ d ]

unfoldable pub webhook_notifiers : List WebhookConfig → List Notifier
webhook_notifiers [] = []
webhook_notifiers (wh ∷ whs) =
    let rest = webhook_notifiers whs in if wh.enabled then webhook wh ∷ rest else rest

abbrev pub only_if : Bool → Notifier → List Notifier
only_if enabled n = if enabled then n ∷ [] else []

-- NewDispatcher: the notifiers, and the cooldowns
unfoldable pub new_dispatcher : Texts → Config → List Notifier × Dispatcher
unfolding cooldown webhook_notifiers
new_dispatcher g cfg = (
  only_if cfg.smtp.enabled (email cfg.smtp)
      ++ (webhook_notifiers cfg.webhooks
          ++ (only_if (cfg.telegram.enabled && not (str_eq cfg.telegram.bot_token ""))
                (telegram cfg.telegram)
              ++ only_if (cfg.ntfy.enabled && not (str_eq cfg.ntfy.topic "")) (ntfy cfg.ntfy))),
  record { cooldowns = []; cooldown_duration = cooldown g cfg.notify_cooldown },
)

-- What goes out: requests, and calls of the mail dialogue.
pub data Message : Type 0 where
  request : Outgoing → Message
  mail_call : SmtpCall → Message

unfoldable pub requests : List Outgoing → List Message
requests [] = []
requests (r ∷ rs) = request r ∷ requests rs

unfoldable pub mail_calls : List SmtpCall → List Message
mail_calls [] = []
mail_calls (c ∷ cs) = mail_call c ∷ mail_calls cs

abbrev pub DispatchWorld : Type 0
DispatchWorld = NotifyWorld × SmtpWorld

-- Notifier.Send; its error is only logged.
unfoldable pub send : DispatchWorld → Event → Notifier → List Message
unfolding requests mail_calls
send (w, m) event (email cfg) = mail_calls (send_email m w.decimal w.date_time cfg event).0
send (w, m) event (webhook cfg) = requests (send_webhook w cfg event).0
send (w, m) event (telegram cfg) = requests (send_telegram w cfg event cfg.chat_ids).0
send (w, m) event (ntfy cfg) = requests (send_ntfy w cfg event).0

unfoldable pub send_all : DispatchWorld → Event → List Notifier → List Message
send_all w event [] = []
send_all w event (n ∷ ns) = send w event n ++ send_all w event ns

-- fmt.Sprintf("%s:%s", event.ServiceID, event.Type)
abbrev pub event_key : Event → String
event_key event = Text.◌++◌ event.service_id (Text.◌++◌ ":" (event_type_text event.type))

-- Dispatch at a time, done at another
unfoldable pub dispatch_event :
    DispatchWorld
    → ℕ
    → ℕ
    → List Notifier × Dispatcher
    → Event
    → (List Notifier × Dispatcher) × List Message
dispatch_event w now finished (notifiers, d) event =
    let (d', goes) = dispatch now finished (event_key event) d in
    ((notifiers, d'), if goes then send_all w event notifiers else [])
