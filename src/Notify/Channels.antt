-- ===== src/Notify/Channels.antt =====
-- internal/notify: what the webhook, Telegram, ntfy and mail notifiers send for an event. The network's
-- answers, the rendering of a body and the texts of times are parameters.
use elnssm.Common.{
  inl, inr, ◌⊎◌, ℕ, ℤ, pos, leb_ℤ, String, str_eq, List, [], ◌∷◌, any, Option, none, some, Bool,
  true, false, Dict, insert, ◌||◌, if◌then◌else◌,
}
use Prim.Native.String as Text
use elnssm.Model.{Event, event_type_text}
use elnssm.Config.Global.{WebhookConfig, TelegramConfig, NtfyConfig}
use elnssm.Notify.Markdown.{escape_markdown}

pub data HttpReply : Type 0 where
  no_reply : String → HttpReply
  status : ℤ → HttpReply

-- A request's method, URL, headers and body; the form of a Telegram message is its chat and text.
pub data Outgoing : Type 0 where
  http_request : String → String → Dict String → String → Outgoing
  form_post : String → String → String → Outgoing

-- `marshal`: json.Marshal of a map of texts. `execute`: a template, parsed and executed with a map, or
-- the error and whether it is the parser's. `bad_request`: the error of http.NewRequest for a method
-- and a URL. `rfc3339` and `date_time`: Timestamp.Format. `trim_slash`: TrimRight of "/".
pub record NotifyWorld : Type 0 where
  pub marshal : Dict String → String ⊎ String
  pub execute : String → Dict String → String ⊎ (String × Bool)
  pub rfc3339 : ℕ → String
  pub bad_request : String → String → Option String
  pub reply : Outgoing → HttpReply
  pub date_time : ℕ → String
  pub decimal : ℤ → String
  pub trim_slash : String → String

-- What was sent, and the error of Send.
abbrev pub Sent : Type 0
Sent = List Outgoing × Option String

infixr 60 ◌<>◌
abbrev ◌<>◌ : String → String → String
s <> t = Text.◌++◌ s t

-- The error of a reply: none is a status below 400.
abbrev pub reply_error : NotifyWorld → String → String → HttpReply → Option String
reply_error w prefix refusal (no_reply e) = some (prefix <> e)
reply_error w prefix refusal (status code) =
    if leb_ℤ (pos 400) code then some (refusal <> w.decimal code) else none

-- Whether the webhook is for this type of event.
unfoldable pub subscribes : WebhookConfig → Event → Bool
subscribes cfg event =
    is_nil cfg.events || any (λ e. str_eq e (event_type_text event.type)) cfg.events
  where
    is_nil : List String → Bool
    is_nil [] = true
    is_nil (x ∷ xs) = false

abbrev pub or_text : String → String → String
or_text given default = if str_eq given "" then default else given

abbrev pub marshaled : String ⊎ String → String ⊎ String
marshaled (inl body) = inl body
marshaled (inr e) = inr ("marshaling default webhook body: " <> e)

abbrev pub executed : String ⊎ (String × Bool) → String ⊎ String
executed (inl body) = inl body
executed (inr (e, true)) = inr ("parsing template: " <> e)
executed (inr (e, false)) = inr ("executing template: " <> e)

-- renderBody
unfoldable pub render_body : NotifyWorld → WebhookConfig → Event → String ⊎ String
render_body w cfg event =
    let type = event_type_text event.type in
    let time = w.rfc3339 event.timestamp in
    if str_eq cfg.body_template ""
    then marshaled (
        w.marshal (
          ("event", type)
          ∷ ("service", event.service_id)
          ∷ ("message", event.message)
          ∷ ("timestamp", time)
          ∷ []))
    else executed (
        w.execute cfg.body_template (
          ("Event", type)
          ∷ ("ServiceName", event.service_id)
          ∷ ("Message", event.message)
          ∷ ("Timestamp", time)
          ∷ []))

abbrev pub post_webhook : NotifyWorld → WebhookConfig → String ⊎ String → Sent
post_webhook w cfg (inr e) = ([], some ("rendering webhook body: " <> e))
post_webhook w cfg (inl body) =
    let method = or_text cfg.method "POST" in
    let request = http_request method cfg.url cfg.headers body in
    elim (w.bad_request method cfg.url) [
      | some e ↦ ([], some ("creating webhook request: " <> e))
      | none ↦ (
        request ∷ [],
        reply_error w "sending webhook: " "webhook returned status " (w.reply request),
      )
    ]

-- WebhookNotifier.Send
unfoldable pub send_webhook : NotifyWorld → WebhookConfig → Event → Sent
unfolding subscribes render_body
send_webhook w cfg event =
    if subscribes cfg event then post_webhook w cfg (render_body w cfg event) else ([], none)

abbrev pub telegram_text : NotifyWorld → Event → String
telegram_text w event =
    "*[ELNSSM]* `"
    <> event_type_text event.type
    <> "`\n*Service:* `"
    <> event.service_id
    <> "`\n*Message:* "
    <> escape_markdown event.message
    <> "\n*Time:* "
    <> w.date_time event.timestamp

abbrev pub telegram_post : NotifyWorld → TelegramConfig → Event → String → Outgoing
telegram_post w cfg event chat =
    form_post ("https://api.telegram.org/bot" <> cfg.bot_token <> "/sendMessage") chat
      (telegram_text w event)

abbrev pub refused_chat : NotifyWorld → String → HttpReply → Option String
refused_chat w chat (no_reply e) = some ("telegram send to " <> chat <> ": " <> e)
refused_chat w chat (status code) =
    if leb_ℤ (pos 400) code
    then some ("telegram API returned status " <> w.decimal code <> " for chat " <> chat)
    else none

abbrev pub telegram_error : NotifyWorld → TelegramConfig → Event → String → Option String
telegram_error w cfg event chat = refused_chat w chat (w.reply (telegram_post w cfg event chat))

abbrev pub sent_before : Outgoing → Sent → Sent
sent_before post (posts, e) = (post ∷ posts, e)

-- TelegramNotifier.Send: the loop over the chats
unfoldable pub send_telegram : NotifyWorld → TelegramConfig → Event → List String → Sent
send_telegram w cfg event [] = ([], none)
send_telegram w cfg event (chat ∷ chats) =
    let rest = send_telegram w cfg event chats in
    let post = telegram_post w cfg event chat in
    elim (telegram_error w cfg event chat) [
      | some e ↦ (post ∷ [], some e)
      | none ↦ sent_before post rest
    ]

abbrev pub header : String → String → Dict String → Dict String
header name given headers = if str_eq given "" then headers else insert name given headers

abbrev pub ntfy_headers : NtfyConfig → Event → Dict String
ntfy_headers cfg event =
    let title = ("Title", "ELNSSM - " <> event.service_id) ∷ [] in
    let labelled =
      header "Email" cfg.email (header "Tags" cfg.tags (header "Priority" cfg.priority title)) in
    if str_eq cfg.token ""
    then labelled
    else insert "Authorization" ("Bearer " <> cfg.token) labelled

-- NtfyNotifier.Send
unfoldable pub send_ntfy : NotifyWorld → NtfyConfig → Event → Sent
send_ntfy w cfg event =
    let url = w.trim_slash (or_text cfg.server "https://ntfy.sh") <> "/" <> cfg.topic in
    let body =
      "[" <> event_type_text event.type <> "] " <> event.service_id <> ": " <> event.message in
    let request = http_request "POST" url (ntfy_headers cfg event) body in
    elim (w.bad_request "POST" url) [
      | some e ↦ ([], some ("ntfy: creating request: " <> e))
      | none ↦ (
        request ∷ [],
        reply_error w "ntfy: sending notification: " "ntfy: server returned status "
            (w.reply request),
      )
    ]
