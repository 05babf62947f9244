-- ===== src/Examples/Scripts.antt =====
-- Hooks and mails on concrete answers.
use elnssm.Common.{pos, str_eq, [], ◌∷◌, any, none, some, is_some, true, false, ◌≡◌, if◌then◌else◌}
use elnssm.Model.{LifecycleHook}
use elnssm.Process.TempScript.{made, TempWorld}
use elnssm.Process.Hooks.{HookTexts, HookWorld, execute_hook}
use elnssm.Process.Removed.{IsCleaned, execute_hook-IsCleaned}
use elnssm.Notify.Mail.{SmtpWorld, SmtpCall, send_mail_tls}
use elnssm.Notify.Delivered.{until_failed, dialogue, send_mail_tls_exact}

abbrev temp : TempWorld
temp = record { create = λ pattern. made "hook-1.ps1"; write_string = none; close = none }

abbrev hook_texts : HookTexts
hook_texts = record {
  is_cmdlet = λ body. true;
  contains = λ body marker. false;
  has_suffix = λ file ext. true;
}

abbrev hook_world : HookWorld
hook_world = record {
  temp = temp;
  environ = [];
  combined_output = λ program args env timeout. ("", some "exit status 1");
}

abbrev hook : LifecycleHook
hook = record {
  command = "";
  args = [];
  script = "Stop-Service Spooler";
  timeout = pos 0;
  on_failure = "";
}

execute_hook-IsCleaned_example :
    IsCleaned (λ f. true) (execute_hook hook_texts hook_world (some hook) []).effects
execute_hook-IsCleaned_example =
    execute_hook-IsCleaned (λ f. true) hook_texts hook_world (some hook) []

abbrev smtp : SmtpWorld
smtp (SmtpCall.rcpt r) = if str_eq r "b@example.com" then some "unknown user" else none
smtp _ = none

send_mail_tls_exact_example :
    ((send_mail_tls smtp "mail:465"
        (some "me")
        "me@example.com"
        ("a@example.com" ∷ "b@example.com" ∷ [])
        "hello"
        "mail").0
      ≡ until_failed smtp (
          dialogue "mail:465"
            (some "me")
            "me@example.com"
            ("a@example.com" ∷ "b@example.com" ∷ [])
            "hello"
            "mail"))
    × (is_some
          (send_mail_tls smtp "mail:465"
            (some "me")
            "me@example.com"
            ("a@example.com" ∷ "b@example.com" ∷ [])
            "hello"
            "mail").1
        ≡ any
            (λ c. is_some (smtp c))
            (dialogue "mail:465"
              (some "me")
              "me@example.com"
              ("a@example.com" ∷ "b@example.com" ∷ [])
              "hello"
              "mail"))
send_mail_tls_exact_example =
    send_mail_tls_exact smtp "mail:465" (some "me") "me@example.com"
      ("a@example.com" ∷ "b@example.com" ∷ []) "hello" "mail"
