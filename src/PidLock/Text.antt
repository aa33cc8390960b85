-- ===== src/PidLock/Text.antt =====
-- What a lock that was taken leaves in the file.
use ovm.Base.{
  ℕ, ◌≤◌, ◌<◌, Bytes, false, none, some, [], ◌++◌, ◌≡◌, ◌≢◌, ap, ◌∙◌, sym, length-drop, arith,
  length, drop_all, append-nil,
}
use ovm.Base.Int.{pos}
use ovm.Os.Outcome.{ok}
use ovm.Text.Decimal.{itoa, atoi, atoi-itoa, max_int}
use ovm.Text.Decimal.Longer.{atoi_longer}
use ovm.PidLock.{Locks, Context, read_lock, overwrite, try_lock, owner, read_text, parse_owner}

abbrev pub text_at : Bytes → Locks → Bytes
text_at p s = elim (s.inode_at p) [ none ↦ [] | some i ↦ s.text_of i ]

try_lock-text :
    (pid : ℕ) (l l' : Context) (s s' : Locks)
    → try_lock pid l s ≡ (ok l', s')
    → text_at l.file_path s' ≡ overwrite (itoa pid) (text_at l.file_path s)
unfolding try_lock
try_lock-text pid l l' s s' h = ground arith

read_text-try_lock :
    (pid : ℕ) (l l' : Context) (s s' : Locks)
    → try_lock pid l s ≡ (ok l', s')
    → s.fault read_lock ≡ false
    → read_text l.file_path s' ≡ some (overwrite (itoa pid) (text_at l.file_path s))
unfolding try_lock read_text
read_text-try_lock pid l l' s s' h f = ground arith

owner_lem :
    (l : Context) (s : Locks) (b : Bytes) → read_text l.file_path s ≡ some b → owner l s ≡ atoi b
unfolding owner
owner_lem l s b h = ap parse_owner h

-- A process that took the lock is its owner, if the text in front of it in the file was no longer
-- than its number; a file that the lock created is one case.
pub owner-try_lock :
    (pid : ℕ) (l l' : Context) (s s' : Locks)
    → pid ≤ max_int
    → try_lock pid l s ≡ (ok l', s')
    → s.fault read_lock ≡ false
    → length (text_at l.file_path s) ≤ length (itoa pid)
    → owner l s' ≡ some (pos pid)
owner-try_lock pid l l' s s' fits h f short =
    owner_lem l s' _ (read_text-try_lock pid l l' s s' h f)
    ∙ ap (λ b. atoi (itoa pid ++ b)) (drop_all (length (itoa pid)) (text_at l.file_path s) short)
    ∙ ap atoi (append-nil (itoa pid))
    ∙ atoi-itoa pid fits

-- If the number that an earlier process left in the file is longer, its last digits stay behind the
-- new one, and no reader of the file finds the process that holds the lock.
owner_stale :
    (pid : ℕ) (l l' : Context) (s s' : Locks)
    → 0 < pid
    → try_lock pid l s ≡ (ok l', s')
    → s.fault read_lock ≡ false
    → length (itoa pid) < length (text_at l.file_path s)
    → owner l s' ≢ some (pos pid)
owner_stale pid l l' s s' positive h f long e =
    atoi_longer pid _ positive
      (omega (arith, length-drop (length (itoa pid)) (text_at l.file_path s)))
      (sym (owner_lem l s' _ (read_text-try_lock pid l l' s s' h f)) ∙ e)
