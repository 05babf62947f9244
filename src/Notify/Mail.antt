-- ===== src/Notify/Mail.antt =====
-- internal/notify/email.go: the message of an event and the dialogue of sendMailTLS. The answers of
-- crypto/tls and net/smtp are parameters.
use elnssm.Common.{ℕ, ℤ, String, str_eq, List, [], ◌∷◌, Option, none, some, if◌then◌else◌}
use Prim.Native.String as Text
use elnssm.Model.{Event, event_type_text}
use elnssm.Config.Global.{SmtpConfig}

infixr 60 ◌<>◌
abbrev ◌<>◌ : String → String → String
s <> t = Text.◌++◌ s t

-- strings.Join(l, ", ")
unfoldable pub join_commas : List String → String
join_commas [] = ""
join_commas (r ∷ []) = r
join_commas (r ∷ s ∷ rest) = r <> ", " <> join_commas (s ∷ rest)

abbrev pub subject : Event → String
subject event = "[ELNSSM] " <> event_type_text event.type <> ": " <> event.service_id

-- The time's text is a parameter.
abbrev pub mail_body : String → Event → String
mail_body time event =
    "Event: "
    <> event_type_text event.type
    <> "\nService: "
    <> event.service_id
    <> "\nTime: "
    <> time
    <> "\n\n"
    <> event.message

unfoldable pub mail_text : SmtpConfig → String → Event → String
unfolding join_commas
mail_text cfg time event =
    "From: "
    <> cfg.from
    <> "\r\nTo: "
    <> join_commas cfg.recipients
    <> "\r\nSubject: "
    <> subject event
    <> "\r\nContent-Type: text/plain; charset=UTF-8\r\n\r\n"
    <> mail_body time event

-- The calls of the dialogue, and smtp.SendMail for a connection that is not TLS from the start: its
-- address, user name, sender, recipients and message.
pub data SmtpCall : Type 0 where
  dial new_client : String → SmtpCall
  auth mail rcpt write : String → SmtpCall
  begin_data close_data quit : SmtpCall
  send_mail : String → Option String → String → List String → String → SmtpCall

-- The error of each call, or none.
abbrev pub SmtpWorld : Type 0
SmtpWorld = SmtpCall → Option String

abbrev pub Mailed : Type 0
Mailed = List SmtpCall × Option String

abbrev called : SmtpCall → Mailed → Mailed
called call (calls, e) = (call ∷ calls, e)

abbrev failed_at : SmtpCall → String → Option String → Mailed → Mailed
failed_at call prefix (some e) rest = (call ∷ [], some (prefix <> e))
failed_at call prefix none rest = called call rest

-- if err := call; err != nil { return fmt.Errorf(prefix, err) }
abbrev pub try : SmtpWorld → SmtpCall → String → Mailed → Mailed
try w call prefix rest = failed_at call prefix (w call) rest

abbrev pub finish : SmtpWorld → Mailed
finish w = (quit ∷ [], w quit)

abbrev pub send_data : SmtpWorld → String → Mailed
send_data w msg =
    try w begin_data "SMTP DATA: "
      (try w (write msg) "writing message: " (try w close_data "closing data writer: " (finish w)))

-- The loop over the recipients.
unfoldable pub send_rcpts : SmtpWorld → String → List String → Mailed
send_rcpts w msg [] = send_data w msg
send_rcpts w msg (r ∷ recipients) = try w (rcpt r) "SMTP RCPT: " (send_rcpts w msg recipients)

abbrev pub with_auth : SmtpWorld → Option String → Mailed → Mailed
with_auth w none rest = rest
with_auth w (some user) rest = try w (auth user) "SMTP auth: " rest

-- The deferred client.Close, whose error is dropped, is left out.
unfoldable pub send_mail_tls :
    SmtpWorld → String → Option String → String → List String → String → String → Mailed
unfolding send_rcpts
send_mail_tls w addr user from to msg host = try w (dial addr) "TLS dial: " (
    try w (new_client host) "SMTP client: "
      (with_auth w user (try w (mail from) "SMTP MAIL: " (send_rcpts w msg to))))

-- The port's text is a parameter.
abbrev pub address : (ℤ → String) → SmtpConfig → String
address decimal cfg = cfg.host <> ":" <> decimal cfg.port

abbrev pub auth_user : SmtpConfig → Option String
auth_user cfg = if str_eq cfg.username "" then none else some cfg.username

abbrev pub send_to : SmtpWorld → (ℤ → String) → SmtpConfig → String → List String → Mailed
send_to w decimal cfg msg [] = ([], none)
send_to w decimal cfg msg (r ∷ rs) =
    let addr = address decimal cfg in
    let plain = send_mail addr (auth_user cfg) cfg.from (r ∷ rs) msg in
    if cfg.tls
    then send_mail_tls w addr (auth_user cfg) cfg.from (r ∷ rs) msg cfg.host
    else (plain ∷ [], w plain)

-- EmailNotifier.Send
unfoldable pub send_email : SmtpWorld → (ℤ → String) → (ℕ → String) → SmtpConfig → Event → Mailed
unfolding send_mail_tls mail_text
send_email w decimal date_time cfg event =
    send_to w decimal cfg (mail_text cfg (date_time event.timestamp) event) cfg.recipients
