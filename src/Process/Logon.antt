-- ===== src/Process/Logon.antt =====
-- logonServiceUser and setPriority of internal/process/wrapper.go. LogonUserW, OpenProcess and
-- SetPriorityClass are arguments.
use elnssm.Common.{
  ℕ, ◌==◌, ◌||◌, String, Option, none, some, Bool, true, false, ◌≡◌, refl, ap, arith, if◌then◌else◌,
}
use Prim.Native.Char.{Char, code}
use Prim.Native.String.{◌++◌}
use Prim.Native.String as Text
use text.Mathlib.TextLemmas.{cons-append, nil-append}
use elnssm.Process.Environment.{with_char}
use elnssm.Process.Credential.{Crypt, decrypt_password}

-- A backslash or a slash.
abbrev pub is_separator : Char → Bool
is_separator c = (code c == 92) || (code c == 47)

-- strings.IndexAny(account, `\/`) with the parts before and behind it
unfoldable pub split_account : String → Option (String × String)
split_account Text.[] = none
split_account (Text.◌∷◌ c s) =
    let rest = with_char c (split_account s) in if is_separator c then some (Text.[], s) else rest

abbrev or_local : String → Option (String × String) → String × String
or_local account none = (".", account)
or_local account (some parts) = parts

-- The domain and the user.
unfoldable pub account_parts : String → String × String
unfolding split_account
account_parts account = or_local account (split_account account)

-- The token of LogonUserW for a domain, a user and a password, or none on an error.
unfoldable pub logon_service_user :
    Crypt → (String → String → String → Option ℕ) → String → String → Option ℕ
unfolding account_parts decrypt_password
logon_service_user c logon_user account encrypted_password =
    let (domain, user) = account_parts account in
    elim (decrypt_password c encrypted_password) [
      | none ↦ none
      | some password ↦ logon_user domain user password
    ]

unfoldable pub is_plain : String → Bool
is_plain Text.[] = true
is_plain (Text.◌∷◌ c s) = let rest = is_plain s in if is_separator c then false else rest

split_account_plain : (account : String) → is_plain account ≡ true → split_account account ≡ none
unfolding split_account is_plain
split_account_plain Text.[] h = refl
split_account_plain (Text.◌∷◌ c s) h = ground (arith, h, split_account_plain s)

split_account_exact :
    (domain user : String)
    → is_plain domain ≡ true
    → split_account (domain ++ "\\" ++ user) ≡ some (domain, user)
unfolding split_account is_plain
split_account_exact Text.[] user h =
    rw (nil-append ("\\" ++ user), cons-append _ Text.[] user, nil-append user) refl
split_account_exact (Text.◌∷◌ c s) user h =
    rw (cons-append c s ("\\" ++ user)) (ground (arith, h, split_account_exact s user))

-- An account with a domain before its first separator logs on there, and one without a separator on
-- this machine.
pub account_parts_exact :
    (domain user : String)
    → is_plain domain ≡ true
    → (account_parts (domain ++ "\\" ++ user) ≡ (domain, user))
      × (account_parts domain ≡ (".", domain))
unfolding account_parts
account_parts_exact domain user h = (
  ap (or_local (domain ++ "\\" ++ user)) (split_account_exact domain user h),
  ap (or_local domain) (split_account_plain domain h),
)
