-- ===== src/Tests/Locks.antt =====
-- Lock files that are free, held, or left behind.
use Prim.Native.Nat.{ℕ}
use ovm.Base.{
  Bytes, bytes, bytes_dec, Bool, true, false, Option, none, some, ◌≡◌, ◌≢◌, refl, arith, [], ◌∷◌,
  ◌++◌, drop, length,
}
use ovm.Base.Int.{ℤ, pos}
use ovm.Os.Outcome.{ok, Result}
use ovm.Text.Decimal.{itoa, atoi}
use ovm.PidLock.{Locks, Context, new, open_file, flock, write_string, try_lock, remove_file, owner}
use ovm.PidLock.Text.{owner-try_lock}
use ovm.PidLock.Exclusion.{two_holders, took_lock, holds_lock}
use ovm.Main.SingleInstance.{Answers, make_single_instance, returned, real_exe, term, kill}
use ovm.Main.SingleInstance.Laws.{signals_of_own}

abbrev pub path : Bytes
path = bytes "/tmp/ovm.pid"

abbrev pub fresh : Locks
fresh = record {
  inode_at = λ p. none;
  text_of = λ i. [];
  holder_of = λ i. none;
  inode_of = λ fd. none;
  next_inode = 0;
  next_fd = 3;
  fault = λ c. false;
}

-- A process has the lock by the descriptor 9.
abbrev pub held : Locks
held = record fresh {
  inode_at = λ p. some 7;
  text_of = λ i. bytes "4321";
  holder_of = λ i. some 9;
  next_inode = 8;
}

-- The process that wrote the number is gone.
abbrev left_behind : Locks
left_behind = record held { holder_of = λ i. none }

locked : ℕ → Locks → Result Context × Locks
unfolding try_lock new
locked pid s = try_lock pid (new path) s

abbrev pub mine : Context
mine = record { fh = some 3; file_path = path }

LocksFrom : (pid : ℕ) (s : Locks) → Type 0
LocksFrom pid s = try_lock pid (new path) s ≡ (ok mine, (locked pid s).1)

fresh_locks : LocksFrom 5 fresh
unfolding LocksFrom locked try_lock open_file flock write_string new
fresh_locks = refl

left_behind_locks : LocksFrom 5 left_behind
unfolding LocksFrom locked try_lock open_file flock write_string new
left_behind_locks = refl

owner-try_lock_example : owner (new path) (locked 5 fresh).1 ≡ some (pos 5)
unfolding LocksFrom new
owner-try_lock_example =
    owner-try_lock 5 (new path) mine fresh (locked 5 fresh).1 (omega arith) fresh_locks refl
      (unfold itoa in omega arith)

two_holders_example :
    let (r, u) = try_lock 6 (new path) (remove_file path (locked 5 left_behind).1) in
    (took_lock r u ≡ true) × (holds_lock mine u ≡ true)
unfolding LocksFrom new
two_holders_example =
    two_holders 5 6 (new path) mine (new path) left_behind (locked 5 left_behind).1 refl (λ c. refl)
      (omega arith) left_behind_locks

-- An owner that has this program's executable, and leaves before the third check.
abbrev pub answers : Answers
answers = record {
  log_opens = true;
  exists = some true;
  process_found = λ o. true;
  exe = λ o. some (bytes "/opt/ovm");
  real_path = λ e. some e;
  term_sent = true;
  kill_sent = true;
  alive = λ i. ovm.Base.ltb i 2;
  lower = λ e. e;
  -- The owner ends, and the descriptor that had the lock is closed with it.
  meanwhile = λ s. record s { holder_of = λ i. none };
}

signals_lem :
    (make_single_instance answers 5 path (bytes "/opt/ovm") held).signals ≡ term (pos 4321) ∷ []
unfolding make_single_instance owner new atoi bytes_dec
signals_lem = refl

signals_of_own_example :
    (o : ℤ) × (e : Bytes) × (owner (new path) held ≡ some o)
    × (answers.exe (ovm.Main.SingleInstance.int32 o) ≡ some e)
    × (answers.lower (real_exe answers 5 path (bytes "/opt/ovm") e) ≡ bytes "/opt/ovm")
signals_of_own_example =
    signals_of_own answers 5 path (bytes "/opt/ovm") held (rw signals_lem (λ h. cc))
