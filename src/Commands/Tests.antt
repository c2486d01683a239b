-- ===== src/Commands/Tests.antt =====
-- The command manager on two commands.
use ludus.Prelude.{ℕ, ◌≡◌, ◌≢◌, refl, true, none, some, List, [], ◌∷◌, get_elem?, contains_nat, eqb}
use ludus.Commands.{
  running, completed, error, killed, CommandInfo, CommandManager, exit_failure, process_not_found,
  Request, started, Opening, Exit, Killing, lookup, start_command_and_wait, process_starts,
  get_command_status, kill_command, finish, Step, start_step, finish_step, kill_step, remove_step,
  steps, get_instance, start_process, start_command_async, log_fails,
}
use ludus.Commands.Tracked.{IsTracked, steps-get_instance-IsTracked}
use ludus.Commands.Ended.{steps-not_again}
use ludus.Commands.Outcomes.{kill_command-overwritten, start_command_and_wait-lost}

abbrev build : Request
build = record {
  id = "build";
  command = "packer";
  args = "build" ∷ [];
  logfile = "packer.log";
  working_dir = "/opt";
}

abbrev deploy : Request
deploy = record {
  id = "deploy";
  command = "ansible-playbook";
  args = [];
  logfile = "";
  working_dir = "";
}

abbrev opening : ℕ → Opening
opening pid = record { log_error = none; start = started pid; now = 10 }

abbrev signalled : Exit
signalled = record {
  exit_error = some "signal: killed";
  out = "";
  err = "";
  now = 30;
  process_pid = 4001;
}

abbrev killing : Killing
killing = record { kill_process = none; kill_pid = λ pid. none; now = 20 }

abbrev build_info : CommandInfo
build_info = record {
  id = "build";
  command = "packer";
  args = "build" ∷ [];
  pid = 4001;
  status = running;
  start_time = 10;
  end_time = 0;
  failure = none;
  metadata = [];
  stdout = "";
  stderr = "";
  process = true;
  dir = "/opt";
}

abbrev building : CommandManager
building = record { infos = build_info ∷ []; commands = ("build", 0) ∷ []; waiting = 0 ∷ [] }

start_command_async_test : (start_command_async build (opening 4001) get_instance).1 ≡ building
unfolding start_command_async start_process
start_command_async_test = refl

abbrev done_info : CommandInfo
done_info = record build_info { status = completed; end_time = 15 }

abbrev done : CommandManager
done = record { infos = done_info ∷ []; commands = ("build", 0) ∷ []; waiting = [] }

abbrev later : List Step
later =
    start_step build (opening 4002)
    ∷ kill_step "build" killing
    ∷ finish_step 0 signalled
    ∷ remove_step "build"
    ∷ []

steps-get_instance-IsTracked_example :
    IsTracked (steps (start_step build (opening 4001) ∷ later) get_instance)
steps-get_instance-IsTracked_example =
    steps-get_instance-IsTracked (start_step build (opening 4001) ∷ later)

steps-not_again_example :
    (j : CommandInfo) × (get_elem? (steps later done).infos 0 ≡ some j)
    × (j.id ≡ "build")
    × (j.status ≢ running)
steps-not_again_example = steps-not_again later done 0 done_info refl (λ h. cc)

kill_command-overwritten_example :
    let now = (kill_command "build" killing building).1 in
    ((kill_command "build" killing building).0 ≡ none)
    × ((j : CommandInfo) × (get_elem? now.infos 0 ≡ some j) × (j.status ≡ killed))
    × ((j : CommandInfo) × (get_elem? (finish 0 signalled now).infos 0 ≡ some j)
        × (j.status ≡ error)
        × (j.failure ≡ some (exit_failure "signal: killed")))
unfolding lookup contains_nat
kill_command-overwritten_example =
    kill_command-overwritten "build" killing signalled "signal: killed" building 0 build_info refl
      refl refl refl refl refl refl

start_command_and_wait-lost_example :
    let running_state =
      process_starts 1 (start_command_and_wait deploy [] (opening 4002) building).1 in
    let asked = (get_command_status "deploy" (λ pid. eqb pid 4002) 40 running_state).1 in
    ((i : CommandInfo) × (get_elem? running_state.infos 1 ≡ some i)
      × (i.status ≡ running)
      × (i.process ≡ true))
    × ((i : CommandInfo) × (get_elem? asked.infos 1 ≡ some i)
        × (i.status ≡ error)
        × (i.failure ≡ some (process_not_found 0)))
    × ((kill_command "deploy" killing asked).0 ≡ none)
    × (get_elem? (kill_command "deploy" killing asked).1.infos 1 ≡ get_elem? asked.infos 1)
unfolding log_fails
start_command_and_wait-lost_example =
    start_command_and_wait-lost deploy [] (opening 4002) (λ pid. eqb pid 4002) 40 killing building
      refl refl
