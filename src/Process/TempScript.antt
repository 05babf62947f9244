-- ===== src/Process/TempScript.antt =====
-- The temporary file that internal/process/hooks.go and internal/health/script_check.go write a script
-- to, and the effects of running it. os.CreateTemp gives a name or an error.
use elnssm.Common.{String, List, [], ◌∷◌, Option, none, some}

-- `runs`: a program, its arguments, and the temporary file that it is to read, if any.
pub data Effect : Type 0 where
  creates removes : String → Effect
  runs : String → List String → Option String → Effect

pub data CreateTemp : Type 0 where
  failed : String → CreateTemp
  made : String → CreateTemp

-- The answers of os.CreateTemp, WriteString and Close: an error's text or none.
pub record TempWorld : Type 0 where
  pub create : String → CreateTemp
  pub write_string : Option String
  pub close : Option String

-- The name of the file, or the error.
pub data Written : Type 0 where
  written : String → Written
  refused : String → Written

abbrev pub filled : TempWorld → String → Written × List Effect
filled w name = elim w.write_string [
  | some e ↦ (refused e, creates name ∷ removes name ∷ [])
  | none ↦ elim w.close [
    | some e ↦ (refused e, creates name ∷ removes name ∷ [])
    | none ↦ (written name, creates name ∷ [])
  ]
]

-- From the pattern of the name.
unfoldable pub write_temp : TempWorld → String → Written × List Effect
write_temp w pattern = elim (w.create pattern) [
  | failed e ↦ (refused e, [])
  | made name ↦ filled w name
]

-- The markers of a script for PowerShell, after a Verb-Noun cmdlet.
abbrev pub markers : List String
markers = "$" ∷ "param(" ∷ "-eq " ∷ "-ne " ∷ "-match " ∷ "-gt " ∷ "-lt " ∷ "Import-Module" ∷ []
