-- ===== src/Main/Boot/Laws.antt =====
-- How the program ends, and what it leaves of the lock.
use ovm.Base.{
  ℕ, Bytes, Bool, true, false, Option, none, some, List, [], ◌∷◌, ◌++◌, ◌≡◌, ◌≢◌, refl, sym, ap,
  ◌∙◌, arith, All, Option-cases, inl, inr,
}
use ovm.Os.Outcome.{Error, Result, ok, err, is_ok}
use ovm.PidLock.{Context, Locks, LockCall, new, try_lock, unlock}
use ovm.PidLock.Exclusion.{try_lock_held, try_lock-unlock, took_lock}
use ovm.PidLock.Text.{text_at}
use ovm.Text.Decimal.{itoa}
use ovm.Main.SingleInstance.{Answers, Ending, make_single_instance, returned, panicked}
use ovm.Main.SingleInstance.Laws.{ending_lem}
use ovm.Main.Boot.{
  tried_lock, add, Stage, validate, pre_setup, notified_exit, closed_signals, closed_channels,
  closed_loggers, Boot, Results, bind_error, exited, exit, start, all_results, finish, with_lock,
  after_try, attempt, run_tasks, serve, try_instance, run, clean_all,
}

abbrev pub IsQuiet : List (Option Error) → Type 0
IsQuiet = All (λ r. r ≡ none)

-- What errgroup documents: `Wait` returns the first error, if there is one.
abbrev pub IsErrgroup : (List (Option Error) → Option Error) → Type 0
IsErrgroup wait =
    (quiet after : List (Option Error)) (e : Error)
    → IsQuiet quiet
    → wait (quiet ++ (some e ∷ after)) ≡ some e

-- An error in the list, and those before it.
split_first :
    (rs : List (Option Error)) (e : Error) (after : List (Option Error))
    → (quiet rest : List (Option Error)) × (e' : Error) × IsQuiet quiet
      × (rs ++ (some e ∷ after) ≡ quiet ++ (some e' ∷ rest))
split_first [] e after = ([], after, e, tt, refl)
split_first (some x ∷ rs) e after = ([], rs ++ (some e ∷ after), x, tt, refl)
split_first (none ∷ rs) e after =
    let (quiet, rest, x, q, p) = split_first rs e after in
    (none ∷ quiet, rest, x, (refl, q), ap (λ l. none ∷ l) p)

-- The task for the bound process always ends with an error.
wait-all_results :
    (wait : List (Option Error) → Option Error) (r : Results)
    → IsErrgroup wait
    → (e : Error) × (wait (all_results r) ≡ some e)
unfolding all_results
wait-all_results wait r h =
    let (quiet, rest, x, q, p) = split_first r.before bind_error r.after in
    (x, ap wait p ∙ h quiet rest x q)

-- What is left of the locks at the exit.
pub released : Result Context × Locks → Locks
released (ok l, t) = unlock l t
released (err e, t) = t

-- A try that succeeds has a descriptor, keeps the path, and breaks no call.
took-parts :
    (pid : ℕ) (l l' : Context) (s t : Locks)
    → try_lock pid l s ≡ (ok l', t)
    → (fd : ℕ) × (l'.fh ≡ some fd) × (l'.file_path ≡ l.file_path) × (t.fault ≡ s.fault)
unfolding try_lock
took-parts pid l l' s t h = elim (Option-cases l'.fh) [
  | inl e ↦ absurd (ground arith)
  | inr (fd, e) ↦ (fd, e, ground arith, ground arith)
]

-- A try that finds the lock held leaves the files at their paths.
held-inode_at :
    (pid : ℕ) (l : Context) (s : Locks) (i fd : ℕ)
    → s.inode_at l.file_path ≡ some i
    → s.holder_of i ≡ some fd
    → (try_lock pid l s).1.inode_at ≡ s.inode_at
unfolding try_lock
held-inode_at pid l s i fd hi hf = ground arith

module _ (fails : Stage → Bool) (wait : List (Option Error) → Option Error)
    (results : Results) where
  with_lock-ended :
      (e : Error) (b : Boot)
      → wait (all_results results) ≡ some e
      → (with_lock fails wait results b).ended ≡ some (exited 1)
  unfolding with_lock serve attempt run_tasks finish exit
  with_lock-ended e b h = ground arith

  after_try-ended :
      (e : Error) (n : Ending) (b : Boot)
      → wait (all_results results) ≡ some e
      → n ≢ panicked
      → (after_try fails wait results n b).ended ≡ some (exited 1)
  unfolding after_try exit
  after_try-ended e panicked b h p = absurd (p refl)
  after_try-ended e (returned (err x)) b h p = refl
  after_try-ended e (returned (ok l)) b h p =
      with_lock-ended e (record b { cleans = b.cleans ++ (l ∷ []) }) h

  with_lock-locks : (b : Boot) → (with_lock fails wait results b).locks ≡ clean_all b.cleans b.locks
  unfolding with_lock serve attempt run_tasks finish exit
  with_lock-locks b = ground arith

  after_try-locks :
      (r : Result Context) (b : Boot)
      → b.cleans ≡ []
      → (after_try fails wait results (returned r) b).locks ≡ released (r, b.locks)
  unfolding after_try exit clean_all released
  after_try-locks (err x) b h = rw h refl
  after_try-locks (ok l) b h =
      with_lock-locks (record b { cleans = b.cleans ++ (l ∷ []) }) ∙ rw h refl

  after_try-err :
      (r : Result Context) (b : Boot)
      → is_ok r ≡ false
      → after_try fails wait results (returned r) b ≡ exit 1 b
  unfolding after_try
  after_try-err (err x) b h = refl
  after_try-err (ok l) b h = cc

  module _ (a : Answers) (pid : ℕ) (path executable : Bytes) (s : Locks) where
    not_panicked :
        (t : Locks)
        → a.log_opens ≡ true
        → (make_single_instance a pid path executable t).ending ≢ panicked
    unfolding make_single_instance
    not_panicked t h p = ground arith

    try_instance-ended :
        (e : Error) (b : Boot)
        → wait (all_results results) ≡ some e
        → a.log_opens ≡ true
        → (try_instance fails wait results a pid path executable b).ended ≡ some (exited 1)
    unfolding try_instance
    try_instance-ended e b hw o =
        let out = make_single_instance a pid path executable b.locks in
        after_try-ended e out.ending (record (add tried_lock b) { locks = out.locks }) hw
          (not_panicked b.locks o)

    -- Whichever stages fail, and whatever the tasks return, in whichever order they all do, the
    -- program exits with the code 1 once the log of the single instance can be opened: the exit with
    -- the code 0 is not reached, since the task for the bound process always returns an error.
    pub run-exited :
        IsErrgroup wait
        → a.log_opens ≡ true
        → (run fails wait results a pid path executable s).ended ≡ some (exited 1)
    unfolding run try_instance attempt exit start
    run-exited h o =
        let (e, hw) = wait-all_results wait results h in
        ground (arith, try_instance-ended e (start s) hw o)

    module _ (found : Bool) (hv : fails validate ≡ false) (hp : fails pre_setup ≡ false)
        (o : a.log_opens ≡ true) (hx : a.exists ≡ some found) where
      -- What `run` comes to behind the two stages and the try.
      run-after_try :
          run fails wait results a pid path executable s
          ≡ after_try fails wait results
              (returned (try_lock pid (new path) (a.meanwhile s)).0)
              (record (add tried_lock (start s)) {
                locks = (try_lock pid (new path) (a.meanwhile s)).1;
              })
      unfolding run try_instance attempt
      run-after_try =
          let (e, l) = ending_lem a pid path executable s found o hx in rw (hv, hp, e, l) refl

      run-locks :
          (run fails wait results a pid path executable s).locks
          ≡ released (try_lock pid (new path) (a.meanwhile s))
      unfolding start
      run-locks = ap (λ b. b.locks) run-after_try ∙ after_try-locks _ _ refl

    -- A program that has passed its first two stages, opened its log, examined the lock file and taken
    -- the lock, with no failing call on lock files, leaves it, whichever stage it exits at, so that
    -- the next process takes it at its first try, and then the file names that process alone.
    pub next_takes_lock :
        (found : Bool) (mine : Context) (t : Locks) (next : ℕ)
        → fails validate ≡ false
        → fails pre_setup ≡ false
        → a.log_opens ≡ true
        → a.exists ≡ some found
        → ((c : LockCall) → (a.meanwhile s).fault c ≡ false)
        → try_lock pid (new path) (a.meanwhile s) ≡ (ok mine, t)
        → let (r, u) =
            try_lock next (new path) (run fails wait results a pid path executable s).locks in
          (took_lock r u ≡ true) × (text_at path u ≡ itoa next)
    unfolding released new
    next_takes_lock found mine t next hv hp o hx hf h =
        let (fd, hfd, same_path, same_fault) = took-parts pid (new path) mine (a.meanwhile s) t h in
        let left = run-locks found hv hp o hx ∙ ap released h in
        rw left (
          try_lock-unlock next fd mine (new path) t (sym same_path) hfd
            (λ c. ap (λ f. f c) same_fault ∙ hf c))

    -- A program that passes its first two stages, opens its log and examines the lock file, and for
    -- which a descriptor holds the lock when it is tried, behind the signals and whatever the end of
    -- the owner has changed by then, exits at once with the code 1: it does no more than the exit
    -- does, and leaves the holder, the number in the file and the file itself as it found them at
    -- the try.
    pub loser_leaves_lock :
        (found : Bool) (i fd : ℕ)
        → fails validate ≡ false
        → fails pre_setup ≡ false
        → a.log_opens ≡ true
        → a.exists ≡ some found
        → (a.meanwhile s).inode_at path ≡ some i
        → (a.meanwhile s).holder_of i ≡ some fd
        → let b = run fails wait results a pid path executable s in
          (b.ended ≡ some (exited 1))
          × (b.deeds
              ≡ tried_lock ∷ notified_exit ∷ closed_signals ∷ closed_channels ∷ closed_loggers ∷ [])
          × (b.locks.holder_of ≡ (a.meanwhile s).holder_of)
          × (b.locks.text_of ≡ (a.meanwhile s).text_of)
          × (b.locks.inode_at ≡ (a.meanwhile s).inode_at)
    unfolding exit clean_all start new
    loser_leaves_lock found i fd hv hp o hx hi hd =
        let (refused, holder, text) = try_lock_held pid (new path) (a.meanwhile s) i fd hi hd in
        let at = held-inode_at pid (new path) (a.meanwhile s) i fd hi hd in
        rw (run-after_try found hv hp o hx, after_try-err _ _ refused)
          (refl, refl, holder, text, at)
