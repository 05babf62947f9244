-- ===== src/Process/Environment/Block.antt =====
-- Which variables the environment block of a service has.
use elnssm.Common.{
  str_eq, sym, String, str_eq_iff, Option, none, some, List, [], ◌∷◌, Dict, lookup, insert,
  lookup-insert, is_some, Bool, true, false, ◌≡◌, refl, ◌∙◌, ap, arith, if◌then◌else◌,
}
use Prim.Native.String.{◌++◌}
use text.Mathlib.TextLemmas.{cons-append, nil-append}
use Prim.Native.Char.{Char}
use Prim.Native.String as Text
use elnssm.Process.Environment.{
  is_equals, with_char, split_entry, put_entry, read_entries, overlay, entries_of, build_env_block,
}

-- No '=' stands in the name of a variable.
unfoldable pub is_name : String → Bool
is_name Text.[] = true
is_name (Text.◌∷◌ c s) = let rest = is_name s in if is_equals c then false else rest

unfoldable pub are_names : Dict String → Bool
unfolding is_name
are_names [] = true
are_names ((name, text) ∷ env) = let rest = are_names env in if is_name name then rest else false

-- Each name stands once, as in every Go map.
unfoldable pub are_distinct : Dict String → Bool
unfolding lookup
are_distinct [] = true
are_distinct ((name, text) ∷ env) =
    let rest = are_distinct env in if is_some (lookup name env) then false else rest

split_equals : (text : String) → split_entry ("=" ++ text) ≡ some (Text.[], text)
unfolding split_entry
split_equals text = rw (cons-append _ Text.[] text, nil-append text) refl

split_entry_exact :
    (name text : String)
    → is_name name ≡ true
    → split_entry (name ++ "=" ++ text) ≡ some (name, text)
unfolding split_entry is_name
split_entry_exact Text.[] text h = rw (nil-append ("=" ++ text)) (split_equals text)
split_entry_exact (Text.◌∷◌ c s) text h =
    rw (cons-append c s ("=" ++ text)) (ground (arith, h, split_entry_exact s text))

-- The first answer, or else the second.
abbrev pub or_else : Option String → Option String → Option String
or_else none other = other
or_else (some text) other = some text

or_else-lookup : (key : String) (o : Option String) → or_else o (lookup key []) ≡ o
unfolding lookup
or_else-lookup key none = refl
or_else-lookup key (some text) = refl

-- What the entry says of the variable.
abbrev pub says : String → Option (String × String) → Option String
says key none = none
says key (some (name, text)) = if str_eq name key then some text else none

-- The text of the last entry of the variable's name, if any.
abbrev pub last_of : String → List String → Option String
last_of key [] = none
last_of key (e ∷ entries) = or_else (last_of key entries) (says key (split_entry e))

or_else-or_else : (a b c : Option String) → or_else a (or_else b c) ≡ or_else (or_else a b) c
or_else-or_else none b c = refl
or_else-or_else (some text) b c = refl

lookup-put_entry :
    (key : String) (o : Option (String × String)) (env : Dict String)
    → lookup key (put_entry o env) ≡ or_else (says key o) (lookup key env)
lookup-put_entry key none env = refl
lookup-put_entry key (some (name, text)) env = ground (arith, lookup-insert name key text env)

lookup-read_entries :
    (key : String) (entries : List String) (env : Dict String)
    → lookup key (read_entries entries env) ≡ or_else (last_of key entries) (lookup key env)
unfolding read_entries
lookup-read_entries key [] env = refl
lookup-read_entries key (e ∷ entries) env =
    lookup-read_entries key entries (put_entry (split_entry e) env)
    ∙ ap (or_else (last_of key entries)) (lookup-put_entry key (split_entry e) env)
    ∙ or_else-or_else (last_of key entries) (says key (split_entry e)) (lookup key env)

-- Of entries read from none, the last of a name is what is found.
lookup-last_of :
    (key : String) (entries : List String)
    → last_of key entries ≡ lookup key (read_entries entries [])
lookup-last_of key entries =
    sym (lookup-read_entries key entries [] ∙ or_else-lookup key (last_of key entries))

lookup-overlay :
    (key : String) (vars env : Dict String)
    → are_distinct vars ≡ true
    → lookup key (overlay vars env) ≡ or_else (lookup key vars) (lookup key env)
unfolding overlay are_distinct lookup
lookup-overlay key [] env h = refl
lookup-overlay key ((name, text) ∷ vars) env h = ground (
  arith,
  h,
  lookup-overlay key vars (insert name text env),
  lookup-insert name key text env,
  str_eq_iff name key,
)

read_entries-entries_of :
    (env acc : Dict String)
    → are_names env ≡ true
    → read_entries (entries_of env) acc ≡ overlay env acc
unfolding read_entries entries_of overlay are_names
read_entries-entries_of [] acc h = refl
read_entries-entries_of ((name, text) ∷ env) acc h =
    ap (λ o. read_entries (entries_of env) (put_entry o acc))
      (split_entry_exact name text (ground (arith, h)))
    ∙ read_entries-entries_of env (insert name text acc) (ground (arith, h))

-- What the loops keep of a map of variables.
abbrev IsEnv : Dict String → Type 0
IsEnv env = (are_names env ≡ true) × (are_distinct env ≡ true)

names-insert :
    (name text : String) (env : Dict String)
    → is_name name ≡ true
    → are_names env ≡ true
    → are_names (insert name text env) ≡ true
unfolding are_names insert
names-insert name text [] h k = ground (arith, h)
names-insert name text ((other, v) ∷ env) h k = ground (arith, h, k, names-insert name text env)

distinct-insert :
    (name text : String) (env : Dict String)
    → are_distinct env ≡ true
    → are_distinct (insert name text env) ≡ true
unfolding are_distinct insert lookup
distinct-insert name text [] h = refl
distinct-insert name text ((other, v) ∷ env) h = ground (
  arith,
  h,
  distinct-insert name text env,
  lookup-insert name other text env,
  str_eq_iff other name,
  str_eq_iff name other,
)

abbrev is_named : Option (String × String) → Bool
is_named none = true
is_named (some (name, text)) = is_name name

named-with_char :
    (c : Char) (o : Option (String × String))
    → is_equals c ≡ false
    → is_named o ≡ true
    → is_named (with_char c o) ≡ true
unfolding is_name
named-with_char c none e h = refl
named-with_char c (some (name, text)) e h = ground (arith, e, h)

named-split_entry : (entry : String) → is_named (split_entry entry) ≡ true
unfolding split_entry is_name
named-split_entry Text.[] = refl
named-split_entry (Text.◌∷◌ c s) =
    ground (arith, named-with_char c (split_entry s), named-split_entry s)

put_entry-IsEnv :
    (o : Option (String × String)) (env : Dict String)
    → is_named o ≡ true
    → IsEnv env
    → IsEnv (put_entry o env)
put_entry-IsEnv none env h i = i
put_entry-IsEnv (some (name, text)) env h (n, d) =
    (names-insert name text env h n, distinct-insert name text env d)

read_entries-IsEnv :
    (entries : List String) (env : Dict String) → IsEnv env → IsEnv (read_entries entries env)
unfolding read_entries
read_entries-IsEnv [] env i = i
read_entries-IsEnv (e ∷ entries) env i =
    read_entries-IsEnv entries (put_entry (split_entry e) env)
      (put_entry-IsEnv (split_entry e) env (named-split_entry e) i)

overlay-IsEnv :
    (vars env : Dict String) → are_names vars ≡ true → IsEnv env → IsEnv (overlay vars env)
unfolding overlay are_names
overlay-IsEnv [] env h i = i
overlay-IsEnv ((name, text) ∷ vars) env h i =
    overlay-IsEnv vars (insert name text env) (ground (arith, h))
      (put_entry-IsEnv (some (name, text)) env (ground (arith, h)) i)

-- The last entry of the block for a variable gives it the service's own value, where the service has
-- one, and else the text of the last entry for it in the Guardian's environment. An entry's name is
-- what stands before its first '='. A service's variables are a map, and no '=' stands in their names.
pub build_env_block_exact :
    (environ : List String) (vars : Dict String) (key : String)
    → are_names vars ≡ true
    → are_distinct vars ≡ true
    → last_of key (build_env_block environ vars) ≡ or_else (lookup key vars) (last_of key environ)
unfolding build_env_block
build_env_block_exact environ vars key n d =
    let inherited = read_entries environ [] in
    let env = overlay vars inherited in
    let (names, distinct) : IsEnv env =
      overlay-IsEnv vars inherited n
        (read_entries-IsEnv environ [] (unfold are_names are_distinct in (refl, refl))) in
    lookup-last_of key (build_env_block environ vars)
    ∙ ap (lookup key) (read_entries-entries_of env [] names)
    ∙ lookup-overlay key env [] distinct
    ∙ or_else-lookup key (lookup key env)
    ∙ lookup-overlay key vars inherited d
    ∙ ap (or_else (lookup key vars)) (sym (lookup-last_of key environ))
