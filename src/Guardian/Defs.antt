-- ===== src/Guardian/Defs.antt =====
-- internal/guardian/guardian.go and restart.go. The managed services are the manager's map; what the
-- other subsystems do is a `Call` in the order of the code. The bytes of the restart state are made and
-- read by encoding/json, a parameter.
use elnssm.Common.{
  inl, inr, ◌⊎◌, ℤ, String, str_eq, List, [], ◌∷◌, ◌++◌, Option, none, some, is_some, Bool, true,
  false, not, Dict, if◌then◌else◌,
}
use elnssm.Process.Wrapper.{Adoption}
use elnssm.Manager.State.{System}
use elnssm.Manager.Stop.{StopWorld}
use elnssm.Manager.Everyone.{stop_all, detach_all, adopt_orphans}

-- encoding/json on the PIDs of restartState
pub record Json : Type 1 where
  pub Bytes : Type 0
  pub marshal : Dict ℤ → Bytes
  pub unmarshal : Bytes → Option (Dict ℤ)

-- restart_state.json: no file, one that os.ReadFile cannot read, or its bytes.
pub data StateFile (B : Type 0) : Type 0 where
  absent unreadable : StateFile B
  content : B → StateFile B

pub data RestartError : Type 0 where
  reading parsing creating_dir writing : RestartError

abbrev pub parsed : Option (Dict ℤ) → Dict ℤ × Option RestartError
parsed none = ([], some parsing)
parsed (some orphans) = (orphans, none)

-- readRestartState; no file is no orphan.
unfoldable pub read_restart_state : (j : Json) → StateFile j.Bytes → Dict ℤ × Option RestartError
read_restart_state j absent = ([], none)
read_restart_state j unreadable = ([], some reading)
read_restart_state j (content bytes) = parsed (j.unmarshal bytes)

-- Whether os.MkdirAll and os.WriteFile succeed. A write that fails leaves some file.
pub record Disk (B : Type 0) : Type 0 where
  pub made : Bool
  pub written : Bool
  pub left : StateFile B

-- writeRestartState
unfoldable pub write_restart_state :
    (j : Json) → Disk j.Bytes → Dict ℤ → StateFile j.Bytes → StateFile j.Bytes × Option RestartError
write_restart_state j d orphans file =
    if not d.made
    then (file, some creating_dir)
    else if not d.written
    then (d.left, some writing)
    else (content (j.marshal orphans), none)

-- clearRestartState, whose error is dropped
unfoldable pub clear_restart_state : {B : Type 0} → Bool → StateFile B → StateFile B
clear_restart_state removed file = if removed then absent else file

pub data Call : Type 0 where
  load_all auto_start cluster_start api_start manager_shutdown cluster_stop api_stop store_close :
      Call

-- cluster_role is Role() of the cluster manager, which New always sets; `api` is cfg.API.Enabled.
pub record Guardian (B : Type 0) : Type 0 where
  pub services : Dict System
  pub restart_mode : Bool
  pub cluster_role : String
  pub api : Bool
  pub state_file : StateFile B

pub data NewError : Type 0 where
  opening_store running_migrations : NewError

-- New: whether the store opens, and whether its migrations run.
unfoldable pub new :
    {B : Type 0} → Bool → Bool → String → Bool → StateFile B → Guardian B ⊎ NewError
new opened migrated role api file =
    if not opened
    then inr opening_store
    else if not migrated
    then inr running_migrations
    else inl (record {
      services = [];
      restart_mode = false;
      cluster_role = role;
      api = api;
      state_file = file;
    })

-- What the world answers while the Guardian starts: the services that LoadAll makes, also where it
-- returns an error, the calls of Adopt, and whether the state file can be removed.
pub record StartWorld : Type 0 where
  pub loaded : Dict System
  pub adoptions : String → ℤ → Adoption
  pub removed : Bool

abbrev pub is_standalone : {B : Type 0} → Guardian B → Bool
is_standalone g = str_eq g.cluster_role "standalone"

-- Run up to its wait for the context: with orphans they are adopted, and with none the services start.
abbrev pub with_orphans : {B : Type 0} → StartWorld → Dict ℤ → Guardian B → Guardian B × List Call
with_orphans w [] g = (g, auto_start ∷ [])
with_orphans w (o ∷ orphans) g = (
  record g {
    services = adopt_orphans w.adoptions (o ∷ orphans) g.services;
    state_file = clear_restart_state w.removed g.state_file;
  },
  [],
)

abbrev pub api_call : {B : Type 0} → Guardian B → Call → List Call
api_call g c = if g.api then c ∷ [] else []

unfoldable pub run_start : (j : Json) → StartWorld → Guardian j.Bytes → Guardian j.Bytes × List Call
run_start j w g =
    let (orphans, error) = read_restart_state j g.state_file in
    let (up, started) = with_orphans w orphans (record g { services = w.loaded }) in
    (
      up,
      load_all
          ∷ (started
              ++ ((if is_standalone g then [] else cluster_start ∷ []) ++ api_call g api_start)),
    )

-- RequestRestart
unfoldable pub request_restart : {B : Type 0} → Guardian B → Guardian B
request_restart g = record g { restart_mode = true }

-- The services and the state file after the wait, in restart mode.
abbrev pub hand_over :
    (j : Json) → Disk j.Bytes → (String → StopWorld) → Guardian j.Bytes → Guardian j.Bytes
hand_over j d answers g =
    let (services, orphans) = detach_all g.services in
    let (file, error) = write_restart_state j d orphans g.state_file in
    record g {
      services = if is_some error then stop_all answers services else services;
      state_file = file;
    }

-- Run after its wait for the context.
unfoldable pub run_stop :
    (j : Json)
    → Disk j.Bytes
    → (String → StopWorld)
    → Guardian j.Bytes
    → Guardian j.Bytes × List Call
run_stop j d answers g = (
  if g.restart_mode
      then hand_over j d answers g
      else record g { services = stop_all answers g.services },
  manager_shutdown ∷ (cluster_stop ∷ (api_call g api_stop ++ store_close ∷ [])),
)
