-- ===== src/Notify/Delivered.antt =====
-- What the notifiers send where an answer is an error, and how long an event stays unsent.
use elnssm.Common.{
  lookup, ℕ, pos, ◌+ℤ◌, ◌<ℤ◌, String, List, [], ◌∷◌, ◌++◌, map, any, Option, none, some, is_some,
  false, lookup-insert_self, ◌≡◌, refl, arith, if◌then◌else◌,
}
use elnssm.Model.{Event}
use elnssm.Config.Global.{TelegramConfig}
use elnssm.Notify.Channels.{NotifyWorld, telegram_post, telegram_error, send_telegram}
use elnssm.Notify.Mail.{
  with_auth, finish, SmtpWorld, SmtpCall, dial, new_client, auth, mail, rcpt, write, begin_data,
  close_data, quit, Mailed, try, send_rcpts, send_mail_tls,
}
use elnssm.Notify.Dispatcher.{Dispatcher, is_cooling, dispatch}
use elnssm.Notify.Sending.{Notifier, DispatchWorld, dispatch_event, event_key}

-- The list up to the first element that fails, with that one.
abbrev pub until_failed {ℓ} : {A : Type ℓ} → (A → Option String) → List A → List A
until_failed answer [] = []
until_failed answer (x ∷ xs) =
    let rest = until_failed answer xs in if is_some (answer x) then x ∷ [] else x ∷ rest

-- The error of the first element that fails.
abbrev pub first_error {ℓ} : {A : Type ℓ} → (A → Option String) → List A → Option String
first_error answer [] = none
first_error answer (x ∷ xs) =
    let rest = first_error answer xs in elim (answer x) [ some e ↦ some e | none ↦ rest ]

-- A Telegram message goes to the chats in their order, up to and with the first one for which the
-- network or the server refuses it, whose error is the result: the chats behind that one get nothing.
pub send_telegram_exact :
    (w : NotifyWorld) (cfg : TelegramConfig) (event : Event) (chats : List String)
    → ((send_telegram w cfg event chats).0
        ≡ map (telegram_post w cfg event) (until_failed (telegram_error w cfg event) chats))
      × ((send_telegram w cfg event chats).1 ≡ first_error (telegram_error w cfg event) chats)
unfolding send_telegram
send_telegram_exact w cfg event [] = (refl, refl)
send_telegram_exact w cfg event (chat ∷ chats) =
    ground (arith, send_telegram_exact w cfg event chats)

-- The whole dialogue for a mail over TLS.
abbrev pub rcpts : List String → List SmtpCall
rcpts [] = []
rcpts (r ∷ rs) = rcpt r ∷ rcpts rs

abbrev pub auth_call : Option String → List SmtpCall
auth_call none = []
auth_call (some user) = auth user ∷ []

abbrev pub closing_calls : String → List SmtpCall
closing_calls msg = begin_data ∷ write msg ∷ close_data ∷ quit ∷ []

abbrev pub dialogue :
    String → Option String → String → List String → String → String → List SmtpCall
dialogue addr user from to msg host =
    dial addr ∷ new_client host ∷ (auth_call user ++ mail from ∷ (rcpts to ++ closing_calls msg))

-- A call, and what follows it where it succeeds.
Follows : SmtpWorld → Mailed → List SmtpCall → Type 0
Follows w m calls = (m.0 ≡ until_failed w calls) × (is_some m.1 ≡ any (λ c. is_some (w c)) calls)

try-Follows :
    (w : SmtpWorld) (c : SmtpCall) (prefix : String) (rest : Mailed) (calls : List SmtpCall)
    → Follows w rest calls
    → Follows w (try w c prefix rest) (c ∷ calls)
unfolding Follows
try-Follows w c prefix (sent, e) calls h = ground (arith, h)

finish-Follows : (w : SmtpWorld) → Follows w (finish w) (quit ∷ [])
unfolding Follows
finish-Follows w = ground arith

send_rcpts-Follows :
    (w : SmtpWorld) (msg : String) (to : List String)
    → Follows w (send_rcpts w msg to) (rcpts to ++ closing_calls msg)
unfolding send_rcpts
send_rcpts-Follows w msg [] = try-Follows w begin_data "SMTP DATA: " _ _ (
    try-Follows w (write msg) "writing message: " _ _
      (try-Follows w close_data "closing data writer: " _ _ (finish-Follows w)))
send_rcpts-Follows w msg (r ∷ to) =
    try-Follows w (rcpt r) "SMTP RCPT: " _ _ (send_rcpts-Follows w msg to)

with_auth-Follows :
    (w : SmtpWorld) (user : Option String) (rest : Mailed) (calls : List SmtpCall)
    → Follows w rest calls
    → Follows w (with_auth w user rest) (auth_call user ++ calls)
with_auth-Follows w none rest calls h = h
with_auth-Follows w (some user) rest calls h = try-Follows w (auth user) "SMTP auth: " rest calls h

-- A mail over TLS makes the calls of the dialogue in their order, up to and with the first that fails,
-- and returns an error just if one of the dialogue's calls fails.
pub send_mail_tls_exact :
    (w : SmtpWorld) (addr : String) (user : Option String) (from : String) (to : List String)
    (msg host : String)
    → ((send_mail_tls w addr user from to msg host).0
        ≡ until_failed w (dialogue addr user from to msg host))
      × (is_some (send_mail_tls w addr user from to msg host).1
          ≡ any (λ c. is_some (w c)) (dialogue addr user from to msg host))
unfolding send_mail_tls Follows
send_mail_tls_exact w addr user from to msg host =
    let mailed : List SmtpCall = mail from ∷ (rcpts to ++ closing_calls msg) in
    try-Follows w (dial addr) "TLS dial: " _ (new_client host ∷ (auth_call user ++ mailed)) (
      try-Follows w (new_client host) "SMTP client: " _ (auth_call user ++ mailed) (
        with_auth-Follows w user _ mailed (
          try-Follows w (mail from) "SMTP MAIL: " _ (rcpts to ++ closing_calls msg)
            (send_rcpts-Follows w msg to))))

-- After an event that was not held back, an event of the same service and type that comes within the
-- cooldown sends nothing, also where every notifier has failed to send the first one.
pub dispatch_event_silent :
    (w v : DispatchWorld) (now finished later end : ℕ) (notifiers : List Notifier) (d : Dispatcher)
    (event again : Event)
    → is_cooling now d.cooldown_duration (lookup (event_key event) d.cooldowns) ≡ false
    → event_key again ≡ event_key event
    → pos later <ℤ pos finished +ℤ d.cooldown_duration
    → (dispatch_event v later end (dispatch_event w now finished (notifiers, d) event).0 again).1
      ≡ []
unfolding dispatch_event dispatch
dispatch_event_silent w v now finished later end notifiers d event again goes same soon =
    rw (goes, same, lookup-insert_self (event_key event) finished d.cooldowns)
      (ground (arith, soon))
