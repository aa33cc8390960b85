-- ===== src/Main/Boot.antt =====
-- cmd/ovm/main.go: the steps of `init` and `main`, each of which may end the program through `exit`.
-- The stages of other packages are known by whether they fail; `wait` is that of errgroup, over the
-- tasks' results in the order of their ends.
pub mod Laws
use ovm.Base.{ℕ, Bytes, Bool, true, false, if◌then◌else◌, Option, none, some, List, [], ◌∷◌, ◌++◌}
use ovm.Os.Outcome.{Error, message, Result, ok, err}
use ovm.PidLock.{Context, Locks, unlock}
use ovm.Main.SingleInstance.{Answers, Outcome, Ending, panicked, returned, make_single_instance}

pub data Stage : Type 0 where
  validate pre_setup make_logger setup event_setup start_agent listen_ready : Stage

-- What the rest of the program and the app see of `main`.
pub data Deed : Type 0 where
  tried_lock initializing ran_tasks notified_error notified_exit closed_signals closed_channels
        closed_loggers :
      Deed

pub data End : Type 0 where
  exited : ℕ → End
  crashed : End

-- The lock files, the package's `cleans`, which are calls of `Unlock`, what was done, and the end.
pub record Boot : Type 0 where
  pub locks : Locks
  pub cleans : List Context
  pub deeds : List Deed
  pub ended : Option End

unfoldable pub start : Locks → Boot
start s = record { locks = s; cleans = []; deeds = []; ended = none }

abbrev pub add : Deed → Boot → Boot
add d b = record b { deeds = b.deeds ++ (d ∷ []) }

clean_all : List Context → Locks → Locks
clean_all [] s = s
clean_all (l ∷ ls) s = clean_all ls (unlock l s)

-- `exit`
unfoldable pub exit : ℕ → Boot → Boot
unfolding clean_all
exit code b = record b {
  locks = clean_all b.cleans b.locks;
  deeds = b.deeds ++ (notified_exit ∷ closed_signals ∷ closed_channels ∷ closed_loggers ∷ []);
  ended = some (exited code);
}

-- The task that waits for the process which the program is bound to.
abbrev pub bind_error : Error
bind_error = message "bind pid is not alive"

-- The results of the tasks that end before that task, and of those that end behind it.
pub record Results : Type 0 where
  pub before : List (Option Error)
  pub after : List (Option Error)

unfoldable pub all_results : Results → List (Option Error)
all_results r = r.before ++ (some bind_error ∷ r.after)

-- The end of `main`, from what `g.Wait` returns.
finish : Option Error → Boot → Boot
unfolding exit
finish (some e) b = exit 1 (add notified_error b)
finish none b = exit 0 b

module _ (fails : Stage → Bool) (wait : List (Option Error) → Option Error)
    (results : Results) where
  -- A stage that fails exits; the next is given as a function.
  attempt : Stage → (Boot → Boot) → Boot → Boot
  unfolding exit
  attempt stage next b = if fails stage then exit 1 b else next b

  run_tasks : Boot → Boot
  unfolding finish all_results
  run_tasks b = finish (wait (all_results results)) (add ran_tasks b)

  -- From the listener of the ready socket on.
  serve : Boot → Boot
  unfolding attempt run_tasks
  serve b = attempt listen_ready run_tasks (add initializing b)

  -- `main` behind the lock.
  with_lock : Boot → Boot
  unfolding attempt serve
  with_lock = attempt make_logger (attempt setup (attempt event_setup (attempt start_agent serve)))

  after_try : Ending → Boot → Boot
  unfolding exit with_lock
  after_try panicked b = record b { ended = some crashed }
  after_try (returned (err e)) b = exit 1 b
  after_try (returned (ok l)) b = with_lock (record b { cleans = b.cleans ++ (l ∷ []) })

  module _ (a : Answers) (pid : ℕ) (lock_file executable : Bytes) where
    try_instance : Boot → Boot
    unfolding after_try make_single_instance
    try_instance b =
        let out = make_single_instance a pid lock_file executable b.locks in
        after_try out.ending (record (add tried_lock b) { locks = out.locks })

    -- `init` and `main`
    unfoldable pub run : Locks → Boot
    unfolding start attempt try_instance
    run s = attempt validate (attempt pre_setup try_instance) (start s)
