-- ===== src/Utils/Files.antt =====
-- pkg/utils/file.go. The command that marks an image for the backup program runs beside the rest
-- and changes no content, so it is left out.
pub mod Frame
use ovm.Base.{ℕ, Bytes, Bool, true, false, Option, none, some}
use ovm.Os.Outcome.{
  Error, errno, wrap, about, Result, ok, err, Action, raise, pure, wrapping, rewrap, resume, ◌>>=◌,
  ◌>>◌,
}
use ovm.Os.Disk.{Disk, Node, file, sparse, folder, stat}
use ovm.Os.Calls.{create, open_source, copy_content, truncate, sync}
use ovm.Text.FilePath.{abs}

-- The result of `os.Stat`, whose error is passed on.
unfoldable pub stat_node : Bytes → Action Disk Node
unfolding stat
stat_node p d = elim (stat p d) [ some (some n) ↦ (ok n, d) | _ ↦ (err errno, d) ]

-- `PathExists`: `none` is its error.
unfoldable pub path_exists : Bytes → Disk → Option Bool
unfolding stat
path_exists p d = elim (stat p d) [
  | some (some n) ↦ some true
  | some none ↦ some false
  | none ↦ none
]

unfoldable pub regular : Bytes → Node → Action Disk (Unit {0})
regular p folder = raise (about "is not a regular file" p)
regular p _ = pure tt

unfoldable pub absolute : Option Bytes → Bytes → Action Disk Bytes
unfolding abs
absolute cwd p d = elim (abs cwd p) [ none ↦ (err errno, d) | some q ↦ (ok q, d) ]

-- `Copy`; `cwd` is the working directory, if the system tells it.
unfoldable pub copy : Option Bytes → Bytes → Bytes → Action Disk (Unit {0})
unfolding absolute regular stat_node open_source create copy_content sync
copy cwd src dst = do
  p ← absolute cwd src
  n ← stat_node p
  regular p n
  open_source p
  create dst
  copy_content p dst
  sync dst

-- `CreateSparseFile`
unfoldable pub create_sparse_file : Bytes → ℕ → Action Disk (Unit {0})
unfolding create truncate sync
create_sparse_file p size = do
  wrapping "create sparse file failed" (create p)
  wrapping "truncate sparse file failed" (truncate p size)
  wrapping "sync sparse file failed" (sync p)
