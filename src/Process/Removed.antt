-- ===== src/Process/Removed.antt =====
-- Which temporary scripts exist while effects are carried out in their order.
use elnssm.Common.{
  sym, subst, ap, ◌≤◌, length, Bool, String, str_eq, List, [], ◌∷◌, Option, none, some, Dict, any,
  filter, not, ◌≡◌, refl, inl, inr, Bool-cases, str_eq_refl, arith, if◌then◌else◌,
}
use elnssm.Model.{LifecycleHook}
use elnssm.Process.TempScript.{
  Effect, creates, removes, runs, CreateTemp, failed, made, TempWorld, Written, written, refused,
  write_temp, filled,
}
use elnssm.Process.Hooks.{HookTexts, HookWorld, execute_hook, run_script, script_command, pattern}

-- The files after the effects; none where a program is to read a file that is not there. `ok` tells
-- which files os.Remove can remove: the code drops its error.
abbrev pub carry_out : (String → Bool) → List String → List Effect → Option (List String)
carry_out ok files [] = some files
carry_out ok files (creates f ∷ es) = carry_out ok (f ∷ files) es
carry_out ok files (removes f ∷ es) =
    carry_out ok (if ok f then filter (λ g. not (str_eq g f)) files else files) es
carry_out ok files (runs program args none ∷ es) = carry_out ok files es
carry_out ok files (runs program args (some f) ∷ es) =
    let rest = carry_out ok files es in if any (λ g. str_eq g f) files then rest else none

abbrev pub created_files : List Effect → List String
created_files [] = []
created_files (creates f ∷ es) = f ∷ created_files es
created_files (removes f ∷ es) = created_files es
created_files (runs program args input ∷ es) = created_files es

-- At most one file is created, each program finds the file that it is to read, and what is left is
-- just what os.Remove cannot remove of what was created.
abbrev pub IsCleaned : (String → Bool) → List Effect → Type 0
IsCleaned ok es =
    (length (created_files es) ≤ 1)
    × (carry_out ok [] es ≡ some (filter (λ f. not (ok f)) (created_files es)))

-- The three outcomes of writing a script.
pub write_temp-cases {ℓ} :
    (P : Written × List Effect → Type ℓ) (w : TempWorld) (name_pattern : String)
    → ((e : String) → P (refused e, []))
    → ((e f : String) → P (refused e, creates f ∷ removes f ∷ []))
    → ((f : String) → P (written f, creates f ∷ []))
    → P (write_temp w name_pattern)
unfolding write_temp
write_temp-cases P w name_pattern none_made half whole = by_create (w.create name_pattern)
  where
    by_close :
        (f : String) (o : Option String)
        → P (elim o [
          | some e ↦ (refused e, creates f ∷ removes f ∷ [])
          | none ↦ (written f, creates f ∷ [])
        ])
    by_close f none = whole f
    by_close f (some e) = half e f

    by_write :
        (f : String) (o : Option String)
        → P (elim o [
          | some e ↦ (refused e, creates f ∷ removes f ∷ [])
          | none ↦ elim w.close [
            | some e ↦ (refused e, creates f ∷ removes f ∷ [])
            | none ↦ (written f, creates f ∷ [])
          ]
        ])
    by_write f none = by_close f w.close
    by_write f (some e) = half e f

    by_create : (c : CreateTemp) → P (elim c [ failed e ↦ (refused e, []) | made f ↦ filled w f ])
    by_create (failed e) = none_made e
    by_create (made f) = by_write f w.write_string

one_left :
    (ok : String → Bool) (f : String)
    → (if ok f then filter (λ g. not (str_eq g f)) (f ∷ []) else f ∷ [])
      ≡ filter (λ g. not (ok g)) (f ∷ [])
one_left ok f = ground (arith, str_eq_refl f)

pub created_then_removed :
    (ok : String → Bool) (f : String) → IsCleaned ok (creates f ∷ removes f ∷ [])
created_then_removed ok f = (omega arith, ap some (one_left ok f))

pub run_then_removed :
    (ok : String → Bool) (f program : String) (args : List String)
    → IsCleaned ok (creates f ∷ runs program args (some f) ∷ removes f ∷ [])
run_then_removed ok f program args = (omega arith, ground (arith, str_eq_refl f))

pub nothing_done : (ok : String → Bool) → IsCleaned ok []
nothing_done ok = (omega arith, refl)

script-IsCleaned :
    (ok : String → Bool) (t : HookTexts) (w : HookWorld) (hook : LifecycleHook) (env : Dict String)
    (o : Written × List Effect)
    → o ≡ write_temp w.temp (pattern t hook.script)
    → IsCleaned ok (run_script t w hook env o).effects
script-IsCleaned ok t w hook env o e =
    subst (λ x. IsCleaned ok (run_script t w hook env x).effects) (sym e)
      (write_temp-cases (λ x. IsCleaned ok (run_script t w hook env x).effects) w.temp
        (pattern t hook.script) (λ e. nothing_done ok) (λ e f. created_then_removed ok f)
        (λ f. run_then_removed ok f (script_command t f).0 (script_command t f).1))

-- Whatever fails, a hook creates at most one temporary file, its script is run while the file exists,
-- and in the end the file is gone, unless os.Remove fails on it.
pub execute_hook-IsCleaned :
    (ok : String → Bool) (t : HookTexts) (w : HookWorld) (hook : Option LifecycleHook)
    (env : Dict String)
    → IsCleaned ok (execute_hook t w hook env).effects
unfolding execute_hook
execute_hook-IsCleaned ok t w none env = nothing_done ok
execute_hook-IsCleaned ok t w (some hook) env = elim (Bool-cases (str_eq hook.script "")) [
  | inr is ↦
      rw is (script-IsCleaned ok t w hook env (write_temp w.temp (pattern t hook.script)) refl)
  | inl no_script ↦ elim (Bool-cases (str_eq hook.command "")) [
    | inl no_command ↦ rw (no_script, no_command) (nothing_done ok)
    | inr is ↦ rw (no_script, is) (omega arith, refl)
  ]
]
