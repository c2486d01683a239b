-- ===== src/Commands/Ended.antt =====
-- commandmanager.go: the statuses of a command in the course of a run.
use ludus.Prelude.{
  ℕ, ◌≡◌, ◌≢◌, refl, ap, sym, ◌∙◌, inl, inr, String, Bool, true, false, Option, none, some, List,
  [], ◌∷◌, length, get_elem?, contains_nat, if◌then◌else◌,
}
use ludus.Commands.{
  running, CommandInfo, CommandManager, lookup, delete, update_at, remove_nat, Request, in_shell,
  StartResult, refused, tracked, Started, start_error, started, Opening, new_info, track, log_fails,
  start_process, start_command_async, start_command_in_shell_async, start_command_and_wait,
  start_command_in_shell_and_wait, process_starts, end_wait, finish, finish_run, set_metadata,
  get_command_status, kill_command, remove_command, Step, start_step, shell_step, wait_step,
  shell_wait_step, process_step, finish_step, run_step, metadata_step, status_step, kill_step,
  remove_step, step, steps,
}
use ludus.Commands.Store.{get_elem?-kept, update_at-get_elem?}
use ludus.Commands.Changes.{
  IsGentle, finished-IsGentle, run_finished-IsGentle, probed-IsGentle, kill_info-IsGentle,
}

-- Every record of the first manager is in the second one at the same place, with the same id, and is
-- running there only if it was before.
Follows : CommandManager → CommandManager → Type 0
Follows m m' =
    (p : ℕ) (i : CommandInfo)
    → get_elem? m.infos p ≡ some i
    → (j : CommandInfo) × (get_elem? m'.infos p ≡ some j)
      × (j.id ≡ i.id)
      × (j.status ≡ running → i.status ≡ running)

same-Follows : (m : CommandManager) → Follows m m
unfolding Follows
same-Follows m p i here = (i, here, refl, λ h. h)

track-Follows : (info : CommandInfo) (m : CommandManager) → Follows m (track info m)
unfolding Follows track
track-Follows info m p i here = (i, get_elem?-kept m.infos info p here, refl, λ h. h)

start_process-Follows :
    (r : Request) (md : List (String × String)) (o : Opening) (m : CommandManager)
    → Follows m (start_process r md o m).1
unfolding start_process
start_process-Follows r md o m = by_log (log_fails r o)
  where
    by_start :
        (s : Started)
        → (let r : StartResult × CommandManager = elim s [
          | start_error e ↦ (refused e, m)
          | started pid ↦ (
            tracked (length m.infos),
            track (record (new_info r md o.now) { pid = pid; process = true }) m,
          )
        ] in
            Follows m r.1)
    by_start (start_error e) = same-Follows m
    by_start (started pid) = track-Follows _ m

    by_log :
        (l : Option String)
        → (let r : StartResult × CommandManager = elim l [
          | some e ↦ (refused e, m)
          | none ↦ elim o.start [
            | start_error e ↦ (refused e, m)
            | started pid ↦ (
              tracked (length m.infos),
              track (record (new_info r md o.now) { pid = pid; process = true }) m,
            )
          ]
        ] in
            Follows m r.1)
    by_log (some e) = same-Follows m
    by_log none = by_start o.start

start_command_and_wait-Follows :
    (r : Request) (md : List (String × String)) (o : Opening) (m : CommandManager)
    → Follows m (start_command_and_wait r md o m).1
unfolding start_command_and_wait
start_command_and_wait-Follows r md o m = by_log (log_fails r o)
  where
    by_log :
        (l : Option String)
        → (let r : StartResult × CommandManager = elim l [
          | some e ↦ (refused e, m)
          | none ↦ (tracked (length m.infos), track (new_info r md o.now) m)
        ] in
            Follows m r.1)
    by_log (some e) = same-Follows m
    by_log none = track-Follows _ m

change-Follows :
    (p : ℕ) (f : CommandInfo → CommandInfo) (m : CommandManager)
    → IsGentle f
    → Follows m (record m { infos = update_at p f m.infos })
unfolding Follows
change-Follows p f m g q i here =
    let (j, there, how) = update_at-get_elem? p f m.infos q here in
    (
      j,
      there,
      elim how [
        | inl e ↦ ap (λ (k : CommandInfo). k.id) e ∙ g.same_id i
        | inr e ↦ ap (λ (k : CommandInfo). k.id) e
      ],
      λ runs. elim how [
        | inl e ↦ g.not_again i (sym (ap (λ (k : CommandInfo). k.status) e) ∙ runs)
        | inr e ↦ sym (ap (λ (k : CommandInfo). k.status) e) ∙ runs
      ],
    )

end_wait-Follows :
    (p : ℕ) (f : CommandInfo → CommandInfo) (m : CommandManager)
    → IsGentle f
    → Follows m (end_wait p f m)
unfolding end_wait Follows
end_wait-Follows p f m g = by_wait (contains_nat m.waiting p)
  where
    by_wait :
        (b : Bool)
        → Follows m (
            if b
            then record m { infos = update_at p f m.infos; waiting = remove_nat p m.waiting }
            else m)
    by_wait true = change-Follows p f m g
    by_wait false = same-Follows m

by_id-Follows :
    {R : Type 0} (o : Option ℕ) (missing : R) (found : ℕ → R) (f : CommandInfo → CommandInfo)
    (m : CommandManager)
    → IsGentle f
    → (let r : R × CommandManager = elim o [
      | none ↦ (missing, m)
      | some p ↦ (found p, record m { infos = update_at p f m.infos })
    ] in
        Follows m r.1)
by_id-Follows none missing found f m g = same-Follows m
by_id-Follows (some p) missing found f m g = change-Follows p f m g

remove_command-Follows : (id : String) (m : CommandManager) → Follows m (remove_command id m).1
unfolding remove_command Follows
remove_command-Follows id m = by_entry (lookup id m.commands)
  where
    by_entry :
        (o : Option ℕ)
        → (let r : Option String × CommandManager = elim o [
          | none ↦ (some "command not found", m)
          | some p ↦ (none, record m { commands = delete id m.commands })
        ] in
            Follows m r.1)
    by_entry none = same-Follows m
    by_entry (some p) = same-Follows m

step-Follows : (e : Step) (m : CommandManager) → Follows m (step e m)
unfolding step start_command_async start_command_in_shell_async start_command_in_shell_and_wait
    process_starts finish finish_run set_metadata get_command_status kill_command
step-Follows (start_step r o) m = start_process-Follows r [] o m
step-Follows (shell_step r o) m = start_process-Follows (in_shell r) [] o m
step-Follows (wait_step r md o) m = start_command_and_wait-Follows r md o m
step-Follows (shell_wait_step r md o) m = start_process-Follows (in_shell r) md o m
step-Follows (process_step p) m =
    change-Follows p _ m (record { same_id = λ i. refl; not_again = λ i h. h })
step-Follows (finish_step p x) m = end_wait-Follows p _ m (finished-IsGentle x)
step-Follows (run_step p x) m = end_wait-Follows p _ m (run_finished-IsGentle x)
step-Follows (metadata_step id k v) m =
    by_id-Follows (lookup id m.commands) _ (λ p. true) _ m
      (record { same_id = λ i. refl; not_again = λ i h. h })
step-Follows (status_step id alive now) m =
    by_id-Follows (lookup id m.commands) _ some _ m (probed-IsGentle alive now)
step-Follows (kill_step id k) m =
    by_id-Follows (lookup id m.commands) _ _ _ m (kill_info-IsGentle k)
step-Follows (remove_step id) m = remove_command-Follows id m

steps-Follows : (es : List Step) (m : CommandManager) → Follows m (steps es m)
unfolding Follows steps
steps-Follows [] m p i here = (i, here, refl, λ h. h)
steps-Follows (e ∷ es) m p i here =
    let (j, there, same, back) = step-Follows e m p i here in
    let (k, later, same', back') = steps-Follows es (step e m) p j there in
    (k, later, same' ∙ same, λ runs. back (back' runs))

-- A command that is no longer running never runs again, whatever the threads do: its record stays where
-- it is, keeps its id, and has a status other than "running".
pub steps-not_again :
    (es : List Step) (m : CommandManager) (p : ℕ) (i : CommandInfo)
    → get_elem? m.infos p ≡ some i
    → i.status ≢ running
    → (j : CommandInfo) × (get_elem? (steps es m).infos p ≡ some j)
      × (j.id ≡ i.id)
      × (j.status ≢ running)
unfolding Follows
steps-not_again es m p i here ended =
    let (j, there, same, back) = steps-Follows es m p i here in
    (j, there, same, λ runs. ended (back runs))
