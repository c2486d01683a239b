-- ===== src/Commands/Changes.antt =====
-- commandmanager.go: what the functions change in one record.
use ludus.Prelude.{ℕ, ◌≡◌, refl, ◌≢◌, String, Bool, true, false, Option, none, some, if◌then◌else◌}
use ludus.Commands.{
  Status, running, completed, error, killed, kill_error, CommandInfo, Exit, finished, run_finished,
  probed, Killing, process_not_found, kill_error_of, killed_with, kill_info,
}

-- A change of one record that keeps its id and does not make it run again.
pub record IsGentle (f : CommandInfo → CommandInfo) : Type 0 where
  pub same_id : (i : CommandInfo) → (f i).id ≡ i.id
  pub not_again : (i : CommandInfo) → (f i).status ≡ running → i.status ≡ running

pub finished-stops : (x : Exit) (i : CommandInfo) → (finished x i).status ≢ running
unfolding finished
finished-stops x i = by_error x.exit_error
  where
    by_error : (e : Option String) → elim e [ some e ↦ error | none ↦ completed ] ≢ running
    by_error (some e) = λ h. cc
    by_error none = λ h. cc

pub finished-IsGentle : (x : Exit) → IsGentle (finished x)
unfolding finished
finished-IsGentle x = record {
  same_id = λ i. refl;
  not_again = λ i h. absurd (finished-stops x i h);
}

pub run_finished-IsGentle : (x : Exit) → IsGentle (run_finished x)
unfolding run_finished finished
run_finished-IsGentle x = record {
  same_id = λ i. refl;
  not_again = λ i h. absurd (finished-stops x i h);
}

pub probed-IsGentle : (alive : ℕ → Bool) (now : ℕ) → IsGentle (probed alive now)
unfolding probed
probed-IsGentle alive now = record {
  same_id = λ i. by_id i i.status;
  not_again = λ i h. by_status i i.status refl h;
}
  where
    dead : CommandInfo → CommandInfo
    dead i = record i { status = error; failure = some (process_not_found i.pid); end_time = now }

    by_id :
        (i : CommandInfo) (s : Status)
        → (let j : CommandInfo = elim s [ running ↦ if alive i.pid then i else dead i | _ ↦ i ] in
            j.id ≡ i.id)
    by_id i running = alive_id (alive i.pid)
      where
        alive_id : (b : Bool) → (if b then i else dead i).id ≡ i.id
        alive_id true = refl
        alive_id false = refl
    by_id i completed = refl
    by_id i error = refl
    by_id i killed = refl
    by_id i kill_error = refl

    by_status :
        (i : CommandInfo) (s : Status)
        → i.status ≡ s
        → (let j : CommandInfo = elim s [ running ↦ if alive i.pid then i else dead i | _ ↦ i ] in
            j.status ≡ running)
        → i.status ≡ running
    by_status i running e h = e
    by_status i completed e h = h
    by_status i error e h = h
    by_status i killed e h = h
    by_status i kill_error e h = h

pub kill_info-IsGentle : (k : Killing) → IsGentle (kill_info k)
unfolding kill_info killed_with
kill_info-IsGentle k = record {
  same_id = λ i. by_id i i.status;
  not_again = λ i h. by_status i i.status refl h;
}
  where
    killed_id : (i : CommandInfo) (e : Option String) → (killed_with k.now e i).id ≡ i.id
    killed_id i none = refl
    killed_id i (some e) = refl

    by_id :
        (i : CommandInfo) (s : Status)
        → (let j : CommandInfo = elim s [
          | running ↦ killed_with k.now (kill_error_of k i) i
          | _ ↦ i
        ] in
            j.id ≡ i.id)
    by_id i running = killed_id i (kill_error_of k i)
    by_id i completed = refl
    by_id i error = refl
    by_id i killed = refl
    by_id i kill_error = refl

    by_status :
        (i : CommandInfo) (s : Status)
        → i.status ≡ s
        → (let j : CommandInfo = elim s [
          | running ↦ killed_with k.now (kill_error_of k i) i
          | _ ↦ i
        ] in
            j.status ≡ running)
        → i.status ≡ running
    by_status i running e h = e
    by_status i completed e h = h
    by_status i error e h = h
    by_status i killed e h = h
    by_status i kill_error e h = h
