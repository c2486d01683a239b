-- ===== src/Commands/Tracked.antt =====
-- commandmanager.go: the invariant of the map of commands and of the waits.
use ludus.Prelude.{
  ℕ, ◌≡◌, refl, ◌≢◌, ap, sym, ◌∙◌, inl, inr, String, Bool, true, false, Option, none, some, List,
  [], ◌∷◌, length, get_elem?, contains_nat, if◌then◌else◌, arith,
}
use ludus.Commands.{
  running, CommandInfo, CommandManager, lookup, delete, update_at, remove_nat, Request, in_shell,
  StartResult, refused, tracked, Started, start_error, started, Opening, new_info, track, log_fails,
  start_process, start_command_async, start_command_in_shell_async, start_command_and_wait,
  start_command_in_shell_and_wait, process_starts, run_finished, end_wait, finish, finish_run,
  set_metadata, get_command_status, kill_command, remove_command, Step, start_step, shell_step,
  wait_step, shell_wait_step, process_step, finish_step, run_step, metadata_step, status_step,
  kill_step, remove_step, step, steps, get_instance,
}
use ludus.Commands.Store.{
  get_elem?-added, get_elem?-kept, get_elem?-last, get_elem?-update_at, update_at-get_elem?,
  lookup-insert, lookup-deleted, contains_nat-remove_nat,
}
use ludus.Commands.Changes.{
  IsGentle, finished-stops, finished-IsGentle, run_finished-IsGentle, probed-IsGentle,
  kill_info-IsGentle,
}

-- Each entry of the map points to a record with the entry's id, and each record with the status
-- "running" has a wait that is still to end.
pub record IsTracked (m : CommandManager) : Type 0 where
  pub entries :
      (id : String) (p : ℕ)
      → lookup id m.commands ≡ some p
      → (i : CommandInfo) × (get_elem? m.infos p ≡ some i) × (i.id ≡ id)
  pub awaited :
      (p : ℕ) (i : CommandInfo)
      → get_elem? m.infos p ≡ some i
      → i.status ≡ running
      → contains_nat m.waiting p ≡ true

track-IsTracked : (info : CommandInfo) (m : CommandManager) → IsTracked m → IsTracked (track info m)
unfolding track contains_nat
track-IsTracked info m t = record {
  entries = λ id p found. elim (lookup-insert info.id (length m.infos) m.commands id found) [
    | inl e ↦ (info, rw e.1 (get_elem?-last m.infos info), e.0)
    | inr old ↦
        (let (i, here, same) = t.entries id p old in (i, get_elem?-kept m.infos info p here, same))
  ];
  awaited = λ p i here runs. elim (get_elem?-added m.infos info p here) [
    | inl old ↦ (let waits = t.awaited p i old runs in ground arith)
    | inr e ↦ (let at = e.0 in ground arith)
  ];
}

start_process-IsTracked :
    (r : Request) (md : List (String × String)) (o : Opening) (m : CommandManager)
    → IsTracked m
    → IsTracked (start_process r md o m).1
unfolding start_process
start_process-IsTracked r md o m t = by_log (log_fails r o)
  where
    by_log :
        (l : Option String)
        → (let r : StartResult × CommandManager = elim l [
          | some e ↦ (refused e, m)
          | none ↦ elim o.start [
            | start_error e ↦ (refused e, m)
            | started pid ↦ (
              tracked (length m.infos),
              track (record (new_info r md o.now) { pid = pid; process = true }) m,
            )
          ]
        ] in
            IsTracked r.1)
    by_log (some e) = t
    by_log none = by_start o.start
      where
        by_start :
            (s : Started)
            → (let r : StartResult × CommandManager = elim s [
              | start_error e ↦ (refused e, m)
              | started pid ↦ (
                tracked (length m.infos),
                track (record (new_info r md o.now) { pid = pid; process = true }) m,
              )
            ] in
                IsTracked r.1)
        by_start (start_error e) = t
        by_start (started pid) = track-IsTracked _ m t

start_command_and_wait-IsTracked :
    (r : Request) (md : List (String × String)) (o : Opening) (m : CommandManager)
    → IsTracked m
    → IsTracked (start_command_and_wait r md o m).1
unfolding start_command_and_wait
start_command_and_wait-IsTracked r md o m t = by_log (log_fails r o)
  where
    by_log :
        (l : Option String)
        → (let r : StartResult × CommandManager = elim l [
          | some e ↦ (refused e, m)
          | none ↦ (tracked (length m.infos), track (new_info r md o.now) m)
        ] in
            IsTracked r.1)
    by_log (some e) = t
    by_log none = track-IsTracked _ m t

change-IsTracked :
    (p : ℕ) (f : CommandInfo → CommandInfo) (m : CommandManager)
    → IsGentle f
    → IsTracked m
    → IsTracked (record m { infos = update_at p f m.infos })
change-IsTracked p f m g t = record {
  entries = λ id q found.
      let (i, here, same) = t.entries id q found in
      let (j, there, how) = update_at-get_elem? p f m.infos q here in
      (
        j,
        there,
        elim how [
          | inl e ↦ ap (λ (k : CommandInfo). k.id) e ∙ g.same_id i ∙ same
          | inr e ↦ ap (λ (k : CommandInfo). k.id) e ∙ same
        ],
      );
  awaited = λ q j there runs.
      let (i, here, how) = get_elem?-update_at p f m.infos q there in
      t.awaited q i here (elim how [
        | inl e ↦ g.not_again i (sym (ap (λ (k : CommandInfo). k.status) e.0) ∙ runs)
        | inr e ↦ sym (ap (λ (k : CommandInfo). k.status) e.0) ∙ runs
      ]);
}

-- A change that stops the record may end its wait.
end_wait-IsTracked :
    (p : ℕ) (f : CommandInfo → CommandInfo) (m : CommandManager)
    → IsGentle f
    → ((i : CommandInfo) → (f i).status ≢ running)
    → IsTracked m
    → IsTracked (end_wait p f m)
unfolding end_wait
end_wait-IsTracked p f m g stops t = by_wait (contains_nat m.waiting p)
  where
    ended : IsTracked (record m { infos = update_at p f m.infos; waiting = remove_nat p m.waiting })
    ended = record {
      entries = (change-IsTracked p f m g t).entries;
      awaited = λ q j there runs.
          let (i, here, how) = get_elem?-update_at p f m.infos q there in
          elim how [
            | inl e ↦ absurd (stops i (sym (ap (λ (k : CommandInfo). k.status) e.0) ∙ runs))
            | inr e ↦
                contains_nat-remove_nat p q m.waiting
                  (t.awaited q i here (sym (ap (λ (k : CommandInfo). k.status) e.0) ∙ runs)) e.1
          ];
    }

    by_wait :
        (b : Bool)
        → IsTracked (
            if b
            then record m { infos = update_at p f m.infos; waiting = remove_nat p m.waiting }
            else m)
    by_wait true = ended
    by_wait false = t

remove_command-IsTracked :
    (id : String) (m : CommandManager) → IsTracked m → IsTracked (remove_command id m).1
unfolding remove_command
remove_command-IsTracked id m t = by_entry (lookup id m.commands)
  where
    by_entry :
        (o : Option ℕ)
        → (let r : Option String × CommandManager = elim o [
          | none ↦ (some "command not found", m)
          | some p ↦ (none, record m { commands = delete id m.commands })
        ] in
            IsTracked r.1)
    by_entry none = t
    by_entry (some p) = record {
      entries = λ id' q found. t.entries id' q (lookup-deleted id m.commands id' found);
      awaited = t.awaited;
    }

-- The functions by id, each a change of one record.
by_id-IsTracked :
    {R : Type 0} (o : Option ℕ) (missing : R) (found : ℕ → R) (f : CommandInfo → CommandInfo)
    (m : CommandManager)
    → IsGentle f
    → IsTracked m
    → (let r : R × CommandManager = elim o [
      | none ↦ (missing, m)
      | some p ↦ (found p, record m { infos = update_at p f m.infos })
    ] in
        IsTracked r.1)
by_id-IsTracked none missing found f m g t = t
by_id-IsTracked (some p) missing found f m g t = change-IsTracked p f m g t

step-IsTracked : (e : Step) (m : CommandManager) → IsTracked m → IsTracked (step e m)
unfolding step start_command_async start_command_in_shell_async start_command_in_shell_and_wait
    process_starts finish finish_run set_metadata get_command_status kill_command run_finished
step-IsTracked (start_step r o) m t = start_process-IsTracked r [] o m t
step-IsTracked (shell_step r o) m t = start_process-IsTracked (in_shell r) [] o m t
step-IsTracked (wait_step r md o) m t = start_command_and_wait-IsTracked r md o m t
step-IsTracked (shell_wait_step r md o) m t = start_process-IsTracked (in_shell r) md o m t
step-IsTracked (process_step p) m t =
    change-IsTracked p _ m (record { same_id = λ i. refl; not_again = λ i h. h }) t
step-IsTracked (finish_step p x) m t =
    end_wait-IsTracked p _ m (finished-IsGentle x) (finished-stops x) t
step-IsTracked (run_step p x) m t =
    end_wait-IsTracked p _ m (run_finished-IsGentle x) (finished-stops x) t
step-IsTracked (metadata_step id k v) m t =
    by_id-IsTracked (lookup id m.commands) _ (λ p. true) _ m
      (record { same_id = λ i. refl; not_again = λ i h. h }) t
step-IsTracked (status_step id alive now) m t =
    by_id-IsTracked (lookup id m.commands) _ some _ m (probed-IsGentle alive now) t
step-IsTracked (kill_step id k) m t =
    by_id-IsTracked (lookup id m.commands) _ _ _ m (kill_info-IsGentle k) t
step-IsTracked (remove_step id) m t = remove_command-IsTracked id m t

-- In every state that the threads reach from the first one, each entry of the map points to a record
-- with the entry's id, and each record with the status "running" has a wait that is still to end.
pub steps-get_instance-IsTracked : (es : List Step) → IsTracked (steps es get_instance)
unfolding steps lookup
steps-get_instance-IsTracked es =
    from es get_instance (record { entries = λ id p found. cc; awaited = λ p i here runs. cc })
  where
    from : (es : List Step) (m : CommandManager) → IsTracked m → IsTracked (steps es m)
    from [] m t = t
    from (e ∷ es) m t = from es (step e m) (step-IsTracked e m t)
