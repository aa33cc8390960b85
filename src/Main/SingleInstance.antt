-- ===== src/Main/SingleInstance.antt =====
-- cmd/ovm/single_instance.go. What the system answers on the way is a record; the lines that are
-- logged have no effect on it and are left out.
pub mod Laws
use Prim.Native.Nat.{◌^◌}
use ovm.Base.{
  ℕ, zero, suc, ◌+◌, ◌-◌, ◌%◌, Bytes, same, Bool, true, false, not, ltb, if◌then◌else◌, Option,
  none, some, List, [], ◌∷◌, ◌++◌,
}
use ovm.Base.Int.{ℤ, pos, negsuc}
use ovm.Os.Outcome.{Error, Result, ok, err, message}
use ovm.PidLock.{Context, Locks, new, owner, try_lock}

pub data Signal : Type 0 where
  term : ℤ → Signal
  kill : ℤ → Signal

-- The answers of the logger, of `os.Stat`, of gopsutil, and of `syscall.Kill`. `alive` is asked once
-- a second, and numbered from 0.
pub record Answers : Type 0 where
  pub log_opens : Bool
  pub exists : Option Bool
  pub process_found : ℤ → Bool
  pub exe : ℤ → Option Bytes
  pub real_path : Bytes → Option Bytes
  pub term_sent : Bool
  pub kill_sent : Bool
  pub alive : ℕ → Bool
  pub lower : Bytes → Bytes
  -- What becomes of the lock files until the lock is tried: a process that ends loses its
  -- descriptors and with them its lock, and other processes take and leave theirs.
  pub meanwhile : Locks → Locks

-- How the call ends. `panicked` is the closing of a logger that was never made.
pub data Ending : Type 0 where
  panicked : Ending
  returned : Result Context → Ending

pub record Outcome : Type 0 where
  pub signals : List Signal
  pub ending : Ending
  pub locks : Locks

-- `int32(owner)`
unfoldable pub int32 : ℤ → ℤ
int32 (pos n) = let m = n % 2 ^ 32 in if ltb m (2 ^ 31) then pos m else negsuc (2 ^ 32 - m - 1)
int32 (negsuc n) = let m = n % 2 ^ 32 in if ltb m (2 ^ 31) then negsuc m else pos (2 ^ 32 - m - 1)

-- The loop that waits: whether the process was gone at one of the times that are left.
unfoldable pub exits : Answers → ℕ → ℕ → Bool
exits a zero i = false
exits a (suc left) i = let rest = exits a left (i + 1) in if not (a.alive i) then true else rest

module _ (a : Answers) (pid : ℕ) (path : Bytes) (executable : Bytes) where
  -- `return lock, lock.TryLock()`
  lock_after : List Signal → Locks → Outcome
  unfolding try_lock new
  lock_after sent s =
      let (r, s') = try_lock pid (new path) (a.meanwhile s) in
      record { signals = sent; ending = returned r; locks = s' }

  force : ℤ → List Signal → Locks → Outcome
  unfolding lock_after
  force o sent s = lock_after (sent ++ (kill o ∷ [])) s

  await_exit : ℤ → List Signal → Locks → Outcome
  unfolding force exits
  await_exit o sent s = if exits a 10 0 then lock_after sent s else force o sent s

  -- Both ways on from a second signal that was sent and from one that failed try the lock.
  stop_owner : ℤ → Locks → Outcome
  unfolding await_exit
  stop_owner o s =
      if a.term_sent
      then await_exit o (term o ∷ []) s
      else if a.kill_sent
      then await_exit o (term o ∷ kill o ∷ []) s
      else lock_after (term o ∷ kill o ∷ []) s

  pub real_exe : Bytes → Bytes
  real_exe e = elim (a.real_path e) [ none ↦ [] | some r ↦ r ]

  examine : ℤ → Locks → Outcome
  unfolding stop_owner real_exe
  examine o s =
      if a.process_found (int32 o)
      then elim (a.exe (int32 o)) [
        | none ↦ lock_after [] s
        | some e ↦
            if same (a.lower (real_exe e)) executable then stop_owner o s else lock_after [] s
      ]
      else lock_after [] s

  -- `makeSingleInstance`
  unfoldable pub make_single_instance : Locks → Outcome
  unfolding examine owner new lock_after
  make_single_instance s =
      if not a.log_opens
      then record { signals = []; ending = panicked; locks = s }
      else elim a.exists [
        | none ↦ record {
          signals = [];
          ending = returned (err (message "check pid file failed"));
          locks = s;
        }
        | some false ↦ lock_after [] s
        | some true ↦ elim (owner (new path) s) [ none ↦ lock_after [] s | some o ↦ examine o s ]
      ]
