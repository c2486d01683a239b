-- ===== src/Commands/Outcomes.antt =====
-- commandmanager.go: `KillCommand` and `GetCommandStatus` on a command that runs.
use ludus.Prelude.{
  ℕ, ◌≡◌, refl, ap, sym, ◌∙◌, String, Bool, true, false, Option, none, some, List, length,
  get_elem?, contains_nat, eq_iff,
}
use ludus.Commands.{
  running, error, killed, CommandInfo, CommandManager, lookup, insert, update_at, exit_failure,
  process_not_found, Request, Opening, new_info, track, log_fails, start_command_and_wait,
  process_starts, Exit, finished, end_wait, finish, probed, get_command_status, Killing,
  kill_error_of, killed_with, kill_info, kill_result, kill_command,
}
use ludus.Commands.Store.{get_elem?-last, update_at-here}

kill_info-kills :
    (k : Killing) (i : CommandInfo)
    → i.status ≡ running
    → i.process ≡ true
    → k.kill_process ≡ none
    → kill_info k i ≡ killed_with k.now none i
unfolding kill_info kill_error_of
kill_info-kills k i runs has_process dies = rw (runs, has_process, dies) refl

kill_command-result :
    (id : String) (k : Killing) (m : CommandManager) (p : ℕ) (i : CommandInfo)
    → lookup id m.commands ≡ some p
    → get_elem? m.infos p ≡ some i
    → kill_command id k m
      ≡ (kill_result k (some i), record m { infos = update_at p (kill_info k) m.infos })
unfolding kill_command
kill_command-result id k m p i found here =
    rw (kill_command, found) refl
    ∙ ap
        (λ (o : Option CommandInfo).
          (kill_result k o, record m { infos = update_at p (kill_info k) m.infos }))
        here

finish-result :
    (p : ℕ) (x : Exit) (m : CommandManager)
    → contains_nat m.waiting p ≡ true
    → (finish p x m).infos ≡ update_at p (finished x) m.infos
unfolding finish end_wait
finish-result p x m waits = rw waits refl

finished-fails :
    (x : Exit) (i : CommandInfo) (why : String)
    → x.exit_error ≡ some why
    → ((finished x i).status ≡ error) × ((finished x i).failure ≡ some (exit_failure why))
unfolding finished
finished-fails x i why exits = (rw exits refl, rw exits refl)

-- A tracked command runs as a started process with a wait to end, and its kill succeeds: it has
-- the status "killed" only until the wait ends, and if the process then exits with an error, the
-- status is "error" and the failure is that of the exit.
pub kill_command-overwritten :
    (id : String) (k : Killing) (x : Exit) (why : String) (m : CommandManager) (p : ℕ)
    (i : CommandInfo)
    → lookup id m.commands ≡ some p
    → get_elem? m.infos p ≡ some i
    → i.status ≡ running
    → i.process ≡ true
    → k.kill_process ≡ none
    → contains_nat m.waiting p ≡ true
    → x.exit_error ≡ some why
    → (let now = (kill_command id k m).1 in
        ((kill_command id k m).0 ≡ none)
        × ((j : CommandInfo) × (get_elem? now.infos p ≡ some j) × (j.status ≡ killed))
        × ((j : CommandInfo) × (get_elem? (finish p x now).infos p ≡ some j)
            × (j.status ≡ error)
            × (j.failure ≡ some (exit_failure why))))
unfolding kill_result kill_error_of killed_with
kill_command-overwritten id k x why m p i found here runs has_process dies waits exits =
    let i' = killed_with k.now none i in
    let after = record m { infos = update_at p (kill_info k) m.infos } in
    let there : get_elem? after.infos p ≡ some i' =
      update_at-here p (kill_info k) m.infos here
      ∙ ap some (kill_info-kills k i runs has_process dies) in
    let last : get_elem? (finish p x after).infos p ≡ some (finished x i') =
      rw (finish-result p x after waits) (update_at-here p (finished x) after.infos there) in
    rw (kill_command-result id k m p i found here) (
      rw (runs, has_process) dies,
      (i', there, refl),
      (finished x i', last, (finished-fails x i' why exits).0, (finished-fails x i' why exits).1),
    )

lookup-inserted {ℓ} :
    {A : Type ℓ} (k : String) (a : A) (es : List (String × A)) → lookup k (insert k a es) ≡ some a
unfolding lookup insert
lookup-inserted k a es = rw ((eq_iff k k).1 refl) refl

start_command_and_wait-tracks :
    (r : Request) (md : List (String × String)) (o : Opening) (m : CommandManager)
    → log_fails r o ≡ none
    → (start_command_and_wait r md o m).1 ≡ track (new_info r md o.now) m
unfolding start_command_and_wait
start_command_and_wait-tracks r md o m opens = rw (start_command_and_wait, opens) refl

get_command_status-result :
    (id : String) (alive : ℕ → Bool) (now : ℕ) (m : CommandManager) (p : ℕ)
    → lookup id m.commands ≡ some p
    → (get_command_status id alive now m).1
      ≡ record m { infos = update_at p (probed alive now) m.infos }
unfolding get_command_status
get_command_status-result id alive now m p found = rw (get_command_status, found) refl

probed-dead :
    (alive : ℕ → Bool) (now : ℕ) (i : CommandInfo)
    → i.status ≡ running
    → alive i.pid ≡ false
    → probed alive now i
      ≡ record i { status = error; failure = some (process_not_found i.pid); end_time = now }
unfolding probed
probed-dead alive now i runs dead = rw (runs, dead) refl

-- The request's log file, if it has one, opens, and PID 0 answers to no signal. Then a command of
-- `StartCommandAndWait`, whose PID is not known until it ends, gets the status "error" when it is
-- asked for while it runs, and killing it after that does nothing and returns no error.
pub start_command_and_wait-lost :
    (r : Request) (md : List (String × String)) (o : Opening) (alive : ℕ → Bool) (now : ℕ)
    (k : Killing) (m : CommandManager)
    → log_fails r o ≡ none
    → alive 0 ≡ false
    → (let p : ℕ = length m.infos in
        let running_state = process_starts p (start_command_and_wait r md o m).1 in
        let asked = (get_command_status r.id alive now running_state).1 in
        ((i : CommandInfo) × (get_elem? running_state.infos p ≡ some i)
          × (i.status ≡ running)
          × (i.process ≡ true))
        × ((i : CommandInfo) × (get_elem? asked.infos p ≡ some i)
            × (i.status ≡ error)
            × (i.failure ≡ some (process_not_found 0)))
        × ((kill_command r.id k asked).0 ≡ none)
        × (get_elem? (kill_command r.id k asked).1.infos p ≡ get_elem? asked.infos p))
unfolding process_starts track new_info kill_result kill_info
start_command_and_wait-lost r md o alive now k m opens dead =
    let p = length m.infos in
    let new = new_info r md o.now in
    let i : CommandInfo = record new { process = true } in
    let i' : CommandInfo = record i {
      status = error;
      failure = some (process_not_found 0);
      end_time = now;
    } in
    let tracked_state = track new m in
    let running_state = process_starts p tracked_state in
    let asked = record running_state {
      infos = update_at p (probed alive now) running_state.infos;
    } in
    let runs : get_elem? running_state.infos p ≡ some i =
      update_at-here p _ tracked_state.infos (get_elem?-last m.infos new) in
    let found = lookup-inserted r.id p m.commands in
    let there : get_elem? asked.infos p ≡ some i' =
      update_at-here p (probed alive now) running_state.infos runs
      ∙ ap some (probed-dead alive now i refl dead) in
    rw
      (
        start_command_and_wait-tracks r md o m opens,
        get_command_status-result r.id alive now running_state p found,
        kill_command-result r.id k asked p i' found there,
      )
      (
        (i, runs, refl, refl),
        (i', there, refl, refl),
        refl,
        update_at-here p (kill_info k) asked.infos there ∙ sym there,
      )
