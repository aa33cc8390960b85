-- ===== src/Tests/Boot.antt =====
-- Starts that fail and starts that run, with a lock that is free and one that is held.
use ovm.Base.{bytes, Bool, true, false, Option, none, some, List, [], ◌∷◌, ◌≡◌, refl}
use ovm.Base.Int.{pos}
use ovm.Os.Outcome.{Error, ok}
use ovm.Text.Decimal.{itoa}
use ovm.PidLock.{new, try_lock, open_file, flock, write_string}
use ovm.PidLock.Exclusion.{took_lock}
use ovm.PidLock.Text.{text_at}
use ovm.Main.Boot.{
  Stage, start_agent, tried_lock, notified_exit, closed_signals, closed_channels, closed_loggers,
  Results, exited, run,
}
use ovm.Main.Boot.Laws.{IsErrgroup, run-exited, next_takes_lock, loser_leaves_lock}
use ovm.Main.SingleInstance.{Answers}
use ovm.Main.BindPid.{Round, wait_bind_pid, wait_bind_pid_lem, process_gone}
use ovm.Tests.Locks.{path, fresh, held, answers, mine}

-- The agent does not start.
abbrev fails : Stage → Bool
fails start_agent = true
fails _ = false

abbrev wait : List (Option Error) → Option Error
wait [] = none
wait (some e ∷ rs) = some e
wait (none ∷ rs) = wait rs

wait-IsErrgroup : IsErrgroup wait
wait-IsErrgroup [] after e q = refl
wait-IsErrgroup (none ∷ quiet) after e (h, q) = wait-IsErrgroup quiet after e q
wait-IsErrgroup (some x ∷ quiet) after e (h, q) = cc

abbrev results : Results
results = record { before = none ∷ []; after = none ∷ [] }

run-exited_example :
    (run (λ s. false) wait results answers 5 path (bytes "/opt/ovm") fresh).ended ≡ some (exited 1)
run-exited_example =
    run-exited (λ s. false) wait results answers 5 path (bytes "/opt/ovm") fresh wait-IsErrgroup
      refl

taken_lem : try_lock 5 (new path) fresh ≡ (ok mine, (try_lock 5 (new path) fresh).1)
unfolding try_lock open_file flock write_string new
taken_lem = refl

next_takes_lock_example :
    let (r, u) =
      try_lock 6
        (new path)
        (run fails wait results answers 5 path (bytes "/opt/ovm") fresh).locks in
    (took_lock r u ≡ true) × (text_at path u ≡ itoa 6)
next_takes_lock_example =
    next_takes_lock fails wait results answers 5 path (bytes "/opt/ovm") fresh true mine
      (try_lock 5 (new path) fresh).1 6 refl refl refl refl (λ c. refl) taken_lem

-- The owner ends, but a third process takes the lock before this one tries.
abbrev outrun : Answers
outrun = record answers {
  meanwhile = λ s. record s { holder_of = λ i. some 11; text_of = λ i. bytes "4400" };
}

loser_leaves_lock_example :
    let b = run fails wait results outrun 5 path (bytes "/opt/ovm") held in
    (b.ended ≡ some (exited 1))
    × (b.deeds
        ≡ tried_lock ∷ notified_exit ∷ closed_signals ∷ closed_channels ∷ closed_loggers ∷ [])
    × (b.locks.holder_of ≡ (outrun.meanwhile held).holder_of)
    × (b.locks.text_of ≡ (outrun.meanwhile held).text_of)
    × (b.locks.inode_at ≡ held.inode_at)
loser_leaves_lock_example =
    loser_leaves_lock fails wait results outrun 5 path (bytes "/opt/ovm") held true 7 11 refl refl
      refl refl refl refl

abbrev alive : Round
alive = record { context_done = false; process_exists = true }

abbrev gone : Round
gone = record { context_done = false; process_exists = false }

wait_bind_pid_lem_example :
    (wait_bind_pid (pos 17) (alive ∷ alive ∷ []) ≡ none)
    × (wait_bind_pid (pos 17) (alive ∷ alive ∷ gone ∷ []) ≡ some process_gone)
wait_bind_pid_lem_example =
    wait_bind_pid_lem (pos 17) (alive ∷ alive ∷ []) [] gone
      ((refl, λ n. refl), ((refl, λ n. refl), tt)) (λ n. (λ e. cc, refl))
