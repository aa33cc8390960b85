-- ===== src/Os/Disk.antt =====
-- The file system as the calls of Go's os package see it: what stands at each path, which calls
-- fail for a reason that the entries do not show, and the open descriptors.
use ovm.Base.{
  ℕ, ◌+◌, Bytes, same, Bool, true, false, ◌==◌, ◌||◌, if◌then◌else◌, Option, none, some, [], ◌++◌,
}
use ovm.Os.Outcome.{errno, ok, err, Action}

pub data Node : Type 0 where
  file : Bytes → Node
  sparse : ℕ → Node  -- a file of that many zero bytes
  folder : Node

pub data Call : Type 0 where
  stat_call : Bytes → Call
  rename_call : Bytes → Bytes → Call
  open_call : Bytes → Call
  truncate_call : Bytes → Call
  sync_call : Bytes → Call
  read_call : Bytes → Call
  write_call : Bytes → Call
  remove_call : Bytes → Call
  mkdir_call : Bytes → Call

pub record Disk : Type 0 where
  pub entry : Bytes → Option Node
  pub fault : Call → Bool
  pub open_at : ℕ → Option Bytes
  pub next_fd : ℕ
  -- How many bytes a write that fails leaves in the file.
  pub partial : Bytes → ℕ

abbrev pub put : (Bytes → Option Node) → Bytes → Option Node → Bytes → Option Node
put e p n q = if same q p then n else e q

-- os.Stat: `none` is any error but "not exist", `some none` is that one.
unfoldable pub stat : Bytes → Disk → Option (Option Node)
stat p d = if d.fault (stat_call p) then none else some (d.entry p)

abbrev pub is_folder : Option Node → Bool
is_folder (some folder) = true
is_folder _ = false

abbrev moved_entry : Option Node → (Bytes → Option Node) → Bytes → Bytes → Bytes → Option Node
moved_entry none e a b = e
moved_entry (some n) e a b = put (put e a none) b (some n)

-- os.Rename of a file.
unfoldable pub rename : Bytes → Bytes → Action Disk (Unit {0})
rename a b d =
    if d.fault (rename_call a b) || is_folder (d.entry b)
    then (err errno, d)
    else elim (d.entry a) [
      | none ↦ (err errno, d)
      | some n ↦ (ok tt, record d { entry = put (put d.entry a none) b (some n) })
    ]

-- os.OpenFile with O_CREATE and O_TRUNC, and os.Create.
unfoldable pub open_truncated : Bytes → Action Disk ℕ
open_truncated p d = if d.fault (open_call p) || is_folder (d.entry p) then (err errno, d) else (
  ok d.next_fd,
  record d {
    entry = put d.entry p (some (file []));
    open_at = (λ n. if n == d.next_fd then some p else d.open_at n);
    next_fd = d.next_fd + 1;
  },
)

unfoldable pub close : ℕ → Disk → Disk
close fd d = record d { open_at = λ n. if n == fd then none else d.open_at n }

unfoldable pub append_to : Bytes → Option Node → Option Node
append_to b (some (file a)) = some (file (a ++ b))
append_to b n = n

-- The error of a write to a log is dropped by the callers; nothing is written then.
unfoldable pub write_fd : ℕ → Bytes → Disk → Disk
unfolding append_to
write_fd fd b d = elim (d.open_at fd) [
  | none ↦ d
  | some p ↦
      if d.fault (write_call p)
      then d
      else record d { entry = put d.entry p (append_to b (d.entry p)) }
]
