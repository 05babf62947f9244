-- ===== src/Examples/Guardians.antt =====
-- A restart of the Guardian, with one running service.
use elnssm.Common.{ℤ, [], ◌∷◌, some, true, false, Dict}
use elnssm.Guardian.Defs.{Json, Disk, absent, StartWorld, Guardian, run_stop}
use elnssm.Examples.Data.{running_system, stopped_system, stop_world, adoption}

-- A file that keeps the map itself.
abbrev json : Json
json = record { Bytes = Dict ℤ; marshal = λ d. d; unmarshal = λ d. some d }

abbrev good_disk : Disk (Dict ℤ)
good_disk = record { made = true; written = true; left = absent }

abbrev full_disk : Disk (Dict ℤ)
full_disk = record { made = true; written = false; left = absent }

abbrev leaving_guardian : Guardian (Dict ℤ)
leaving_guardian = record {
  services = ("web", running_system) ∷ [];
  restart_mode = true;
  cluster_role = "standalone";
  api = true;
  state_file = absent;
}

abbrev next_guardian : Guardian (Dict ℤ)
next_guardian = record {
  services = [];
  restart_mode = false;
  cluster_role = "standalone";
  api = true;
  state_file = (run_stop json good_disk (λ id. stop_world) leaving_guardian).0.state_file;
}

abbrev start_up : StartWorld
start_up = record {
  loaded = ("web", stopped_system) ∷ [];
  adoptions = λ id p. adoption;
  removed = true;
}

abbrev ending_guardian : Guardian (Dict ℤ)
ending_guardian = record leaving_guardian { restart_mode = false }
