-- ===== src/PidLock.antt =====
-- pkg/pidlock/pidlock.go: a lock file that holds the number of the process. A lock belongs to an
-- open descriptor and is on an inode, not on a path, so a file that was removed stays locked.
pub mod Text
pub mod Exclusion
use ovm.Base.{
  ℕ, ◌+◌, Bytes, bytes, same, Bool, true, false, ◌==◌, ◌||◌, if◌then◌else◌, Option, none, some,
  List, [], ◌∷◌, ◌++◌, length, drop,
}
use ovm.Base.Int.{ℤ}
use ovm.Os.Outcome.{
  Error, errno, wrap, Result, ok, err, Action, pure, raise, wrapping, rewrap, resume, ◌>>=◌, ◌>>◌,
}
use ovm.Text.Decimal.{itoa, atoi}

pub data LockCall : Type 0 where
  open_lock write_pid read_lock remove_lock : LockCall

-- The lock files, the descriptors that are open on them, and the calls that fail.
pub record Locks : Type 0 where
  pub inode_at : Bytes → Option ℕ
  pub text_of : ℕ → Bytes
  pub holder_of : ℕ → Option ℕ
  pub inode_of : ℕ → Option ℕ
  pub next_inode : ℕ
  pub next_fd : ℕ
  pub fault : LockCall → Bool

pub record Context : Type 0 where
  pub fh : Option ℕ
  pub file_path : Bytes

unfoldable pub new : Bytes → Context
new p = record { fh = none; file_path = p }

abbrev pub update {ℓ} : {A : Type ℓ} → (ℕ → A) → ℕ → A → ℕ → A
update f n a m = if m == n then a else f m

open_inode : ℕ → Locks → Result ℕ × Locks
open_inode i s = (
  ok s.next_fd,
  record s { inode_of = update s.inode_of s.next_fd (some i); next_fd = s.next_fd + 1 },
)

create_inode : Bytes → Locks → Locks
create_inode p s = record s {
  inode_at = (λ q. if same q p then some s.next_inode else s.inode_at q);
  text_of = update s.text_of s.next_inode [];
  holder_of = update s.holder_of s.next_inode none;
  next_inode = s.next_inode + 1;
}

-- os.OpenFile with O_CREATE and O_WRONLY: a file that is there keeps its text.
unfoldable pub open_file : Bytes → Action Locks ℕ
unfolding open_inode create_inode
open_file p s = if s.fault open_lock then (err errno, s) else elim (s.inode_at p) [
  | some i ↦ open_inode i s
  | none ↦ open_inode s.next_inode (create_inode p s)
]

take_lock : Option ℕ → ℕ → ℕ → Locks → Result (Unit {0}) × Locks
take_lock (some other) i fd s = (err errno, s)
take_lock none i fd s = (ok tt, record s { holder_of = update s.holder_of i (some fd) })

-- syscall.Flock with LOCK_EX and LOCK_NB, on a descriptor that holds no lock.
unfoldable pub flock : ℕ → Action Locks (Unit {0})
unfolding take_lock
flock fd s = elim (s.inode_of fd) [
  | none ↦ (err errno, s)
  | some i ↦ take_lock (s.holder_of i) i fd s
]

-- A write at the start of the file: what is longer than the text stays behind it.
abbrev pub overwrite : Bytes → Bytes → Bytes
overwrite text old = text ++ drop (length text) old

unfoldable pub write_string : ℕ → Bytes → Action Locks (Unit {0})
write_string fd text s = if s.fault write_pid then (err errno, s) else elim (s.inode_of fd) [
  | none ↦ (err errno, s)
  | some i ↦ (ok tt, record s { text_of = update s.text_of i (overwrite text (s.text_of i)) })
]

-- `TryLock`, in the process `pid`. The descriptor of a try that failed stays open.
unfoldable pub try_lock : ℕ → Context → Action Locks Context
unfolding open_file flock write_string
try_lock pid l = do
  fd ← wrapping "create pid file failed" (open_file l.file_path)
  wrapping "lock pid file failed" (flock fd)
  wrapping "write pid file failed" (write_string fd (itoa pid))
  pure (record l { fh = some fd })

holds : Option ℕ → ℕ → Bool
holds none fd = false
holds (some h) fd = h == fd

-- The three calls of `Unlock`, whose errors are dropped.
unfoldable pub release : ℕ → Locks → Locks
unfolding holds
release fd s = elim (s.inode_of fd) [
  | none ↦ s
  | some i ↦
      if holds (s.holder_of i) fd then record s { holder_of = update s.holder_of i none } else s
]

-- Closing a descriptor drops its lock.
unfoldable pub close_fd : ℕ → Locks → Locks
unfolding release
close_fd fd s = let t = release fd s in record t { inode_of = update t.inode_of fd none }

unfoldable pub remove_file : Bytes → Locks → Locks
remove_file p s =
    if s.fault remove_lock
    then s
    else record s { inode_at = λ q. if same q p then none else s.inode_at q }

unfoldable pub unlock : Context → Locks → Locks
unfolding release close_fd remove_file
unlock l s = elim l.fh [ none ↦ s | some fd ↦ remove_file l.file_path (close_fd fd (release fd s)) ]

-- The text of the file at a path, if it can be read.
unfoldable pub read_text : Bytes → Locks → Option Bytes
read_text p s = elim (s.inode_at p) [
  | none ↦ none
  | some i ↦ if s.fault read_lock then none else some (s.text_of i)
]

parse_owner : Option Bytes → Option ℤ
parse_owner none = none
parse_owner (some text) = atoi text

-- `Owner`; `none` is its error.
unfoldable pub owner : Context → Locks → Option ℤ
unfolding read_text parse_owner
owner l s = parse_owner (read_text l.file_path s)
