-- ===== src/Main/SingleInstance/Laws.antt =====
-- Which processes are signalled, and when the lock is tried.
use ovm.Base.{
  ℕ, zero, suc, ◌+◌, ◌<◌, Bytes, Bool, true, false, some, List, [], ◌∷◌, ◌≡◌, ◌≢◌, arith,
  Option-cases, inl, inr, ap, ◌∙◌,
}
use ovm.Base.Int.{ℤ}
use native.Mathlib.Nat.{add-zero}
use ovm.PidLock.{Locks, new, owner, try_lock}
use ovm.Main.SingleInstance.{
  Signal, term, kill, Answers, returned, int32, exits, make_single_instance, real_exe,
}

abbrev pub target_of : Signal → ℤ
target_of (term o) = o
target_of (kill o) = o

-- One check that finds the process gone is enough.
exits_of_dead :
    (a : Answers) (left i k : ℕ) → k < left → a.alive (i + k) ≡ false → exits a left i ≡ true
unfolding exits
exits_of_dead a zero i k h e = elim h [ ]
exits_of_dead a (suc left) i zero h e =
    let now : a.alive i ≡ false = rw add-zero at e in ground arith
exits_of_dead a (suc left) i (suc k) h e =
    let later : a.alive (i + 1 + k) ≡ false = ap a.alive (omega arith) ∙ e in
    ground (arith, exits_of_dead a left (i + 1) k (omega arith) later)

abbrev pub kills : List Signal → ℕ
kills [] = 0
kills (term o ∷ xs) = kills xs
kills (kill o ∷ xs) = suc (kills xs)

module _ (a : Answers) (pid : ℕ) (path executable : Bytes) (s : Locks) where
  -- Every way to an end with a signal has found the owner of the lock file, and an executable of
  -- that process that is this program's own.
  pub signals_of_own :
      (make_single_instance a pid path executable s).signals ≢ []
      → (o : ℤ) × (e : Bytes) × (owner (new path) s ≡ some o)
        × (a.exe (int32 o) ≡ some e)
        × (a.lower (real_exe a pid path executable e) ≡ executable)
  unfolding make_single_instance
  signals_of_own h = elim (Option-cases (owner (new path) s)) [
    | inl e ↦ absurd (h (ground arith))
    | inr (o, e) ↦ elim (Option-cases (a.exe (int32 o))) [
      | inl e' ↦ absurd (h (ground arith))
      | inr (x, e') ↦ (o, x, e, e', ground arith)
    ]
  ]

  -- If SIGTERM is sent and the owner is gone at one of the ten checks, SIGKILL is not tried.
  kills-zero :
      (k : ℕ)
      → a.term_sent ≡ true
      → k < 10
      → a.alive k ≡ false
      → kills (make_single_instance a pid path executable s).signals ≡ 0
  unfolding make_single_instance
  kills-zero k ht hk he =
      let dead : a.alive (0 + k) ≡ false = ap a.alive (omega arith) ∙ he in
      ground (arith, exits_of_dead a 10 0 k hk dead)

  -- If SIGTERM is sent and the owner lives through the ten checks, SIGKILL is tried once, behind it.
  pub signals_of_stubborn :
      (o : ℤ) (e : Bytes)
      → a.log_opens ≡ true
      → a.exists ≡ some true
      → owner (new path) s ≡ some o
      → a.process_found (int32 o) ≡ true
      → a.exe (int32 o) ≡ some e
      → a.lower (real_exe a pid path executable e) ≡ executable
      → a.term_sent ≡ true
      → exits a 10 0 ≡ false
      → (make_single_instance a pid path executable s).signals ≡ term o ∷ kill o ∷ []
  unfolding make_single_instance
  signals_of_stubborn o e h1 h2 h3 h4 h5 h6 h7 h8 = ground arith

  -- Whatever the system answers, a call that opens its log and can examine the lock file ends with
  -- what one try of the lock returns, in the state that the try leaves, for the lock files as they
  -- have become by then.
  pub ending_lem :
      (b : Bool)
      → a.log_opens ≡ true
      → a.exists ≡ some b
      → let out = make_single_instance a pid path executable s in
        (out.ending ≡ returned (try_lock pid (new path) (a.meanwhile s)).0)
        × (out.locks ≡ (try_lock pid (new path) (a.meanwhile s)).1)
  unfolding make_single_instance
  ending_lem b h1 h2 = (ground arith, ground arith)
