-- ===== src/Api/Services/Validation.antt =====
-- internal/api/validation.go. The regular expression of service IDs is a test on the characters, which
-- are compared by their numbers.
use elnssm.Common.{ℕ, leb, ◌==◌, Bool, true, false, ◌&&◌, ◌||◌, str_eq, ◌≡◌, refl, arith}
use Prim.Native.String.{String, [], ◌∷◌, count}
use Prim.Native.Char.{code}

abbrev pub in_range : ℕ → ℕ → ℕ → Bool
in_range low high n = leb low n && leb n high

-- [a-zA-Z0-9]
abbrev pub is_alnum : ℕ → Bool
is_alnum n = in_range 97 122 n || in_range 65 90 n || in_range 48 57 n

-- [a-zA-Z0-9._-]
abbrev pub is_id_char : ℕ → Bool
is_id_char n = is_alnum n || (n == 46) || (n == 95) || (n == 45)

unfoldable pub all_chars : (ℕ → Bool) → String → Bool
all_chars test [] = true
all_chars test (c ∷ s) = test (code c) && all_chars test s

unfoldable pub any_char : (ℕ → Bool) → String → Bool
any_char test [] = false
any_char test (c ∷ s) = test (code c) || any_char test s

-- ^[a-zA-Z0-9][a-zA-Z0-9._-]{0,63}$
unfoldable pub validate_service_id : String → Bool
validate_service_id [] = false
validate_service_id (c ∷ s) = is_alnum (code c) && all_chars is_id_char s && leb (count s) 63

-- & | ; > < \ $ ( ) ^ ` % " ' and the ends of lines
abbrev pub is_shell_meta : ℕ → Bool
is_shell_meta n =
    (n == 38)
    || (n == 124)
    || (n == 59)
    || (n == 62)
    || (n == 60)
    || (n == 92)
    || (n == 36)
    || (n == 40)
    || (n == 41)
    || (n == 94)
    || (n == 96)
    || (n == 37)
    || (n == 34)
    || (n == 39)
    || (n == 10)
    || (n == 13)

unfoldable pub contains_shell_meta : String → Bool
contains_shell_meta = any_char is_shell_meta

unfoldable pub validate_log_stream : String → Bool
validate_log_stream s = str_eq s "stdout" || str_eq s "stderr" || str_eq s "combined"

-- A slash, a backslash or a colon.
abbrev pub is_separator : ℕ → Bool
is_separator n = (n == 47) || (n == 92) || (n == 58)

no_separator_char : (n : ℕ) → is_id_char n ≡ true → is_separator n ≡ false
no_separator_char n h = ground (arith, h)

no_separator_chars : (s : String) → all_chars is_id_char s ≡ true → any_char is_separator s ≡ false
unfolding all_chars any_char
no_separator_chars [] h = refl
no_separator_chars (c ∷ s) h = ground (arith, h, no_separator_char (code c), no_separator_chars s)

-- A valid identifier names a file in the directory itself.
pub validate_service_id_name :
    (s : String) → validate_service_id s ≡ true → any_char is_separator s ≡ false
unfolding validate_service_id any_char
validate_service_id_name [] h = refl
validate_service_id_name (c ∷ s) h =
    ground (arith, h, no_separator_char (code c), no_separator_chars s)
