-- ===== src/Process/Environment.antt =====
-- buildEnvBlock of internal/process/wrapper.go: the environment of a service. syscall.Environ is an
-- argument, and a Go map an association list in one of the orders of iteration.
pub mod Block
use elnssm.Common.{ℕ, Option, none, some, List, [], ◌∷◌, Dict, insert, ◌==◌, Bool, if◌then◌else◌}
use Prim.Native.String.{String, ◌++◌}
use Prim.Native.String as Text
use Prim.Native.Char.{Char, code}

abbrev pub with_char : Char → Option (String × String) → Option (String × String)
with_char c none = none
with_char c (some (name, text)) = some (Text.◌∷◌ c name, text)

abbrev pub is_equals : Char → Bool
is_equals c = code c == 61

-- The loop over an entry: what stands before its first '=', and what behind it.
unfoldable pub split_entry : String → Option (String × String)
split_entry Text.[] = none
split_entry (Text.◌∷◌ c s) =
    let rest = with_char c (split_entry s) in if is_equals c then some (Text.[], s) else rest

abbrev pub put_entry : Option (String × String) → Dict String → Dict String
put_entry none env = env
put_entry (some (name, text)) env = insert name text env

-- An entry without '=' is left out, and a later one of the same name takes an earlier one's place.
unfoldable pub read_entries : List String → Dict String → Dict String
unfolding split_entry
read_entries [] env = env
read_entries (e ∷ entries) env = read_entries entries (put_entry (split_entry e) env)

unfoldable pub overlay : Dict String → Dict String → Dict String
overlay [] env = env
overlay ((name, text) ∷ vars) env = overlay vars (insert name text env)

unfoldable pub entries_of : Dict String → List String
entries_of [] = []
entries_of ((name, text) ∷ env) = (name ++ "=" ++ text) ∷ entries_of env

unfoldable pub build_env_block : List String → Dict String → List String
unfolding read_entries overlay entries_of
build_env_block environ vars = entries_of (overlay vars (read_entries environ []))
