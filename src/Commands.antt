-- ===== src/Commands.antt =====
-- ludus-api/commandmanager/commandmanager.go: the commands that the server runs. Each exported function
-- is one step under the manager's lock, or two for the functions that wait: before and after the wait.
-- A pointer to a `CommandInfo` is its index in `infos`, so the map and the goroutines share the records.
-- What the system answers (whether a log file opens, a process starts, is alive, is killed, how it
-- exits, and the time) comes with the step.
use ludus.Prelude.{
  ℕ, zero, suc, String, Bool, true, false, not, ◌&&◌, Option, none, some, List, [], ◌∷◌, ◌++◌,
  length, get_elem?, leb, eqb, contains_nat, ◌==◌, if◌then◌else◌,
}
pub mod Store
pub mod Changes
pub mod Tracked
pub mod Ended
pub mod Outcomes
mod Tests

pub data Status : Type 0 where
  running completed error killed kill_error : Status

pub data Failure : Type 0 where
  exit_failure : String → Failure
  process_not_found : ℕ → Failure
  failed_to_kill : String → Failure
  forcibly_killed : Failure

-- `process` and `dir` are fields of `cmd`: whether `cmd.Process` is set, and the working directory.
pub record CommandInfo : Type 0 where
  pub id : String
  pub command : String
  pub args : List String
  pub pid : ℕ
  pub status : Status
  pub start_time : ℕ
  pub end_time : ℕ
  pub failure : Option Failure
  pub metadata : List (String × String)
  pub stdout : String
  pub stderr : String
  pub process : Bool
  pub dir : String

-- `waiting` has the pointers whose process is waited for, by a goroutine or by a caller.
pub record CommandManager : Type 0 where
  pub infos : List CommandInfo
  pub commands : List (String × ℕ)
  pub waiting : List ℕ

unfoldable pub lookup {ℓ} : {A : Type ℓ} → String → List (String × A) → Option A
lookup k [] = none
lookup k (e ∷ es) = let rest = lookup k es in if e.0 == k then some e.1 else rest

unfoldable pub delete {ℓ} : {A : Type ℓ} → String → List (String × A) → List (String × A)
delete k [] = []
delete k (e ∷ es) = let rest = delete k es in if e.0 == k then rest else e ∷ rest

unfoldable pub insert {ℓ} : {A : Type ℓ} → String → A → List (String × A) → List (String × A)
unfolding delete
insert k a es = (k, a) ∷ delete k es

unfoldable pub update_at {ℓ} : {A : Type ℓ} → ℕ → (A → A) → List A → List A
update_at i f [] = []
update_at zero f (x ∷ xs) = f x ∷ xs
update_at (suc i) f (x ∷ xs) = x ∷ update_at i f xs

unfoldable pub remove_nat : ℕ → List ℕ → List ℕ
remove_nat n [] = []
remove_nat n (x ∷ xs) = let rest = remove_nat n xs in if eqb x n then rest else x ∷ rest

pub record Request : Type 0 where
  pub id : String
  pub command : String
  pub args : List String
  pub logfile : String
  pub working_dir : String

-- The command of the functions `InShell`.
unfoldable pub in_shell : Request → Request
in_shell r = record r { command = "/bin/bash"; args = "-c" ∷ r.command ∷ [] }

pub data Started : Type 0 where
  start_error : String → Started
  started : ℕ → Started

-- `log_error` is the answer of `os.OpenFile`, asked for only if there is a log file.
pub record Opening : Type 0 where
  pub log_error : Option String
  pub start : Started
  pub now : ℕ

unfoldable pub new_info : Request → List (String × String) → ℕ → CommandInfo
new_info r metadata now = record {
  id = r.id;
  command = r.command;
  args = r.args;
  pid = 0;
  status = running;
  start_time = now;
  end_time = 0;
  failure = none;
  metadata = metadata;
  stdout = "";
  stderr = "";
  process = false;
  dir = r.working_dir;
}

-- `cm.commands[id] = info`, and the wait for the process that follows.
unfoldable pub track : CommandInfo → CommandManager → CommandManager
unfolding insert
track info m = record {
  infos = m.infos ++ info ∷ [];
  commands = insert info.id (length m.infos) m.commands;
  waiting = length m.infos ∷ m.waiting;
}

unfoldable pub log_fails : Request → Opening → Option String
log_fails r o = if r.logfile == "" then none else o.log_error

pub data StartResult : Type 0 where
  refused : String → StartResult
  tracked : ℕ → StartResult

unfoldable pub start_process :
    Request → List (String × String) → Opening → CommandManager → StartResult × CommandManager
unfolding log_fails track new_info
start_process r metadata o m = elim (log_fails r o) [
  | some e ↦ (refused e, m)
  | none ↦ elim o.start [
    | start_error e ↦ (refused e, m)
    | started pid ↦ (
      tracked (length m.infos),
      track (record (new_info r metadata o.now) { pid = pid; process = true }) m,
    )
  ]
]

unfoldable pub start_command_async :
    Request → Opening → CommandManager → StartResult × CommandManager
unfolding start_process
start_command_async r o m = start_process r [] o m

unfoldable pub start_command_in_shell_async :
    Request → Opening → CommandManager → StartResult × CommandManager
unfolding start_process in_shell
start_command_in_shell_async r o m = start_process (in_shell r) [] o m

-- `StartCommandAndWait` up to `cmd.Run()`: the command is tracked before it has a process.
unfoldable pub start_command_and_wait :
    Request → List (String × String) → Opening → CommandManager → StartResult × CommandManager
unfolding log_fails track new_info
start_command_and_wait r metadata o m = elim (log_fails r o) [
  | some e ↦ (refused e, m)
  | none ↦ (tracked (length m.infos), track (new_info r metadata o.now) m)
]

-- `StartCommandInShellAndWait` up to `cmd.Wait()`
unfoldable pub start_command_in_shell_and_wait :
    Request → List (String × String) → Opening → CommandManager → StartResult × CommandManager
unfolding start_process in_shell
start_command_in_shell_and_wait r metadata o m = start_process (in_shell r) metadata o m

-- `cmd.Run()` has started the process, without the lock.
unfoldable pub process_starts : ℕ → CommandManager → CommandManager
unfolding update_at
process_starts p m = record m {
  infos = update_at p (λ (i : CommandInfo). record i { process = true }) m.infos;
}

pub record Exit : Type 0 where
  pub exit_error : Option String
  pub out : String
  pub err : String
  pub now : ℕ
  pub process_pid : ℕ

-- What follows `cmd.Wait()`.
unfoldable pub finished : Exit → CommandInfo → CommandInfo
finished x i = record i {
  end_time = x.now;
  status = elim x.exit_error [ some e ↦ error | none ↦ completed ];
  failure = elim x.exit_error [ some e ↦ some (exit_failure e) | none ↦ i.failure ];
  stdout = x.out;
  stderr = x.err;
}

-- What follows `cmd.Run()`: the same, and the PID that was not known before.
unfoldable pub run_finished : Exit → CommandInfo → CommandInfo
unfolding finished
run_finished x i = record (finished x i) {
  pid = (if eqb i.pid 0 && i.process then x.process_pid else i.pid);
}

-- Each wait ends once.
unfoldable pub end_wait : ℕ → (CommandInfo → CommandInfo) → CommandManager → CommandManager
unfolding update_at remove_nat
end_wait p f m =
    if contains_nat m.waiting p
    then record m { infos = update_at p f m.infos; waiting = remove_nat p m.waiting }
    else m

unfoldable pub finish : ℕ → Exit → CommandManager → CommandManager
unfolding end_wait finished
finish p x m = end_wait p (finished x) m

unfoldable pub finish_run : ℕ → Exit → CommandManager → CommandManager
unfolding end_wait run_finished
finish_run p x m = end_wait p (run_finished x) m

-- Each of the functions by id, on the pointer that the map has for the id.
unfoldable pub set_metadata : String → String → String → CommandManager → Bool × CommandManager
unfolding lookup insert update_at
set_metadata id k v m = elim (lookup id m.commands) [
  | none ↦ (false, m)
  | some p ↦ (
    true,
    record m {
      infos =
          update_at p (λ (i : CommandInfo). record i { metadata = insert k v i.metadata }) m.infos;
    },
  )
]

-- The order of a loop over a Go map is not fixed: this is the loop in one order.
unfoldable pub find_pid : ℕ → List CommandInfo → List (String × ℕ) → Option CommandInfo
find_pid pid infos [] = none
find_pid pid infos (e ∷ es) =
    let rest = find_pid pid infos es in
    elim (get_elem? infos e.1) [ none ↦ rest | some i ↦ if eqb i.pid pid then some i else rest ]

unfoldable pub get_command_info_by_pid : ℕ → CommandManager → Option CommandInfo
unfolding find_pid
get_command_info_by_pid pid m = find_pid pid m.infos m.commands

unfoldable pub values_of : List String → List (String × String) → List (String × String)
unfolding lookup insert
values_of [] metadata = []
values_of (k ∷ ks) metadata =
    let rest = values_of ks metadata in
    elim (lookup k metadata) [ none ↦ rest | some v ↦ insert k v rest ]

unfoldable pub get_values_for_pid :
    ℕ → List String → CommandManager → Option (List (String × String))
unfolding find_pid values_of
get_values_for_pid pid keys m = elim (find_pid pid m.infos m.commands) [
  | none ↦ none
  | some i ↦ some (values_of keys i.metadata)
]

-- `alive` answers for a PID: `os.FindProcess` finds it and it takes signal 0.
unfoldable pub probed : (ℕ → Bool) → ℕ → CommandInfo → CommandInfo
probed alive now i = elim i.status [
  | running ↦
      if alive i.pid
      then i
      else record i { status = error; failure = some (process_not_found i.pid); end_time = now }
  | _ ↦ i
]

unfoldable pub get_command_status :
    String → (ℕ → Bool) → ℕ → CommandManager → Option ℕ × CommandManager
unfolding lookup update_at probed
get_command_status id alive now m = elim (lookup id m.commands) [
  | none ↦ (none, m)
  | some p ↦ (some p, record m { infos = update_at p (probed alive now) m.infos })
]

-- The answers of `Process.Kill` and of `syscall.Kill`. `KillProcessAndChildren` changes nothing here.
pub record Killing : Type 0 where
  pub kill_process : Option String
  pub kill_pid : ℕ → Option String
  pub now : ℕ

unfoldable pub kill_error_of : Killing → CommandInfo → Option String
kill_error_of k i =
    if i.process
    then k.kill_process
    else if leb 1 i.pid
    then k.kill_pid i.pid
    else some "no process available to kill"

unfoldable pub killed_with : ℕ → Option String → CommandInfo → CommandInfo
killed_with now none i = record i {
  end_time = now;
  status = killed;
  failure = some forcibly_killed;
}
killed_with now (some e) i = record i {
  end_time = now;
  status = kill_error;
  failure = some (failed_to_kill e);
}

unfoldable pub kill_info : Killing → CommandInfo → CommandInfo
unfolding kill_error_of killed_with
kill_info k i = elim i.status [ running ↦ killed_with k.now (kill_error_of k i) i | _ ↦ i ]

unfoldable pub kill_result : Killing → Option CommandInfo → Option String
unfolding kill_error_of
kill_result k none = none
kill_result k (some i) = elim i.status [ running ↦ kill_error_of k i | _ ↦ none ]

-- The first component is the error that is returned.
unfoldable pub kill_command : String → Killing → CommandManager → Option String × CommandManager
unfolding lookup update_at kill_info kill_result
kill_command id k m = elim (lookup id m.commands) [
  | none ↦ (some "command not found", m)
  | some p ↦
      (kill_result k (get_elem? m.infos p), record m { infos = update_at p (kill_info k) m.infos })
]

unfoldable pub remove_command : String → CommandManager → Option String × CommandManager
unfolding lookup delete
remove_command id m = elim (lookup id m.commands) [
  | none ↦ (some "command not found", m)
  | some p ↦ (none, record m { commands = delete id m.commands })
]

-- The steps of all the threads, in the order in which they get the lock.
pub data Step : Type 0 where
  start_step shell_step : Request → Opening → Step
  wait_step shell_wait_step : Request → List (String × String) → Opening → Step
  process_step : ℕ → Step
  finish_step run_step : ℕ → Exit → Step
  metadata_step : String → String → String → Step
  status_step : String → (ℕ → Bool) → ℕ → Step
  kill_step : String → Killing → Step
  remove_step : String → Step

unfoldable pub step : Step → CommandManager → CommandManager
unfolding start_command_async start_command_in_shell_async start_command_and_wait
    start_command_in_shell_and_wait process_starts finish finish_run set_metadata get_command_status
    kill_command remove_command
step (start_step r o) m = (start_command_async r o m).1
step (shell_step r o) m = (start_command_in_shell_async r o m).1
step (wait_step r md o) m = (start_command_and_wait r md o m).1
step (shell_wait_step r md o) m = (start_command_in_shell_and_wait r md o m).1
step (process_step p) m = process_starts p m
step (finish_step p x) m = finish p x m
step (run_step p x) m = finish_run p x m
step (metadata_step id k v) m = (set_metadata id k v m).1
step (status_step id alive now) m = (get_command_status id alive now m).1
step (kill_step id k) m = (kill_command id k m).1
step (remove_step id) m = (remove_command id m).1

unfoldable pub steps : List Step → CommandManager → CommandManager
unfolding step
steps [] m = m
steps (e ∷ es) m = steps es (step e m)

-- `GetInstance`, when it makes the instance.
abbrev pub get_instance : CommandManager
get_instance = record { infos = []; commands = []; waiting = [] }
