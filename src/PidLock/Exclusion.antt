-- ===== src/PidLock/Exclusion.antt =====
-- Who holds the lock.
use ovm.Base.{
  ◌∙◌, ◌++◌, ap, append-nil, drop_all, ℕ, ◌<◌, Bytes, Bool, true, false, none, some, [], ◌≡◌, arith,
  length,
}
use ovm.Os.Outcome.{ok, err, Result, is_ok}
use ovm.Text.Decimal.{itoa}
use ovm.PidLock.Text.{text_at}
use ovm.PidLock.{
  overwrite, Locks, Context, LockCall, open_lock, write_pid, remove_lock, try_lock, unlock,
  remove_file, holds,
}

-- While a descriptor holds the lock on the file at the path, every other try fails, and changes
-- neither the holder nor the number in the file.
pub try_lock_held :
    (pid : ℕ) (l : Context) (s : Locks) (i fd : ℕ)
    → s.inode_at l.file_path ≡ some i
    → s.holder_of i ≡ some fd
    → (is_ok (try_lock pid l s).0 ≡ false)
      × ((try_lock pid l s).1.holder_of ≡ s.holder_of)
      × ((try_lock pid l s).1.text_of ≡ s.text_of)
unfolding try_lock
try_lock_held pid l s i fd hi hf = (ground arith, ground arith, ground arith)

-- The context's descriptor is open and holds the lock on its file.
pub holds_lock : Context → Locks → Bool
unfolding holds
holds_lock l s = elim l.fh [
  | none ↦ false
  | some fd ↦ elim (s.inode_of fd) [ none ↦ false | some i ↦ holds (s.holder_of i) fd ]
]

pub took_lock : Result Context → Locks → Bool
unfolding holds_lock
took_lock (err e) s = false
took_lock (ok l) s = holds_lock l s

-- A try that succeeds holds the lock afterwards, on the path that it was given.
try_lock-holds_lock :
    (pid : ℕ) (l l' : Context) (s s' : Locks)
    → try_lock pid l s ≡ (ok l', s')
    → (holds_lock l' s' ≡ true) × (l'.file_path ≡ l.file_path)
unfolding try_lock holds_lock
try_lock-holds_lock pid l l' s s' h = (ground arith, ground arith)

-- Inodes are numbered from below.
abbrev pub IsNumbered : Bytes → Locks → Type 0
IsNumbered p s = elim (s.inode_at p) [ none ↦ Unit {0} | some i ↦ i < s.next_inode ]

-- A process that gave the lock up still removes the file by its path. If another took the lock on
-- that file in between, a third makes a new file at the path, and both hold a lock at once.
pub two_holders :
    (new next : ℕ) (yours yours' theirs : Context) (s t : Locks)
    → theirs.file_path ≡ yours.file_path
    → ((c : LockCall) → s.fault c ≡ false)
    → IsNumbered yours.file_path s
    → try_lock new yours s ≡ (ok yours', t)
    → let (r, u) = try_lock next theirs (remove_file yours.file_path t) in
      (took_lock r u ≡ true) × (holds_lock yours' u ≡ true)
unfolding try_lock remove_file holds_lock took_lock
two_holders new next yours yours' theirs s t ht hf hn h = (
  ground (arith, hf open_lock, hf write_pid, hf remove_lock),
  ground (arith, hf open_lock, hf write_pid, hf remove_lock),
)

overwrite-nil : (text : Bytes) → overwrite text [] ≡ text
overwrite-nil text =
    ap (λ rest. text ++ rest) (drop_all (length text) [] (omega arith)) ∙ append-nil text

-- When the holder has unlocked and nothing came in between, the next process takes the lock, and
-- the file names it alone.
pub try_lock-unlock :
    (pid fd : ℕ) (mine theirs : Context) (s : Locks)
    → theirs.file_path ≡ mine.file_path
    → mine.fh ≡ some fd
    → ((c : LockCall) → s.fault c ≡ false)
    → let (r, u) = try_lock pid theirs (unlock mine s) in
      (took_lock r u ≡ true) × (text_at theirs.file_path u ≡ itoa pid)
unfolding try_lock unlock holds_lock took_lock
try_lock-unlock pid fd mine theirs s ht hm hf = (
  ground (arith, hf open_lock, hf write_pid, hf remove_lock),
  ground (arith, hf open_lock, hf write_pid, hf remove_lock, overwrite-nil (itoa pid)),
)
