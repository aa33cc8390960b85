-- ===== src/Os/Calls.antt =====
-- The other calls of the os package, on files that are opened, used and closed in one function.
pub mod Laws
pub mod Folders
use ovm.Base.{
  ℕ, zero, suc, ◌-◌, Bytes, bytes, same, Bool, true, false, ◌||◌, ltb, ◌==◌, if◌then◌else◌, Option,
  none, some, List, [], ◌∷◌, ◌++◌, take,
}
use ovm.Os.Outcome.{errno, Result, ok, err, Action, ◌>>=◌, ◌>>◌}
use ovm.Os.Disk.{
  Node, file, sparse, folder, Disk, put, is_folder, open_call, truncate_call, sync_call, read_call,
  write_call, remove_call, mkdir_call,
}
use ovm.Text.Split.{after_prefix}

abbrev is_some_option : {A : Type 0} → Option A → Bool
is_some_option none = false
is_some_option (some a) = true

-- os.Create: an empty file.
unfoldable pub create : Bytes → Action Disk (Unit {0})
create p d =
    if d.fault (open_call p) || is_folder (d.entry p)
    then (err errno, d)
    else (ok tt, record d { entry = put d.entry p (some (file [])) })

-- os.Open for reading.
unfoldable pub open_source : Bytes → Action Disk (Unit {0})
open_source p d = elim (d.entry p) [
  | none ↦ (err errno, d)
  | some n ↦ if d.fault (read_call p) then (err errno, d) else (ok tt, d)
]

abbrev pub cut : ℕ → Node → Node
cut k (file b) = file (take k b)
cut k (sparse n) = if ltb k n then sparse k else sparse n
cut k folder = folder

-- io.Copy of all that stands at `src` into the file `dst`; a failure leaves a part of it there.
unfoldable pub copy_content : Bytes → Bytes → Action Disk (Unit {0})
copy_content src dst d = elim (d.entry src) [
  | none ↦ (err errno, d)
  | some n ↦
      if d.fault (write_call dst)
      then (err errno, record d { entry = put d.entry dst (some (cut (d.partial dst) n)) })
      else (ok tt, record d { entry = put d.entry dst (some n) })
]

-- File.Truncate of an empty file to a size.
unfoldable pub truncate : Bytes → ℕ → Action Disk (Unit {0})
truncate p n d =
    if d.fault (truncate_call p)
    then (err errno, d)
    else (ok tt, record d { entry = put d.entry p (some (sparse n)) })

unfoldable pub sync : Bytes → Action Disk (Unit {0})
sync p d = if d.fault (sync_call p) then (err errno, d) else (ok tt, d)

-- A path is at or below another. Only the root ends with a slash.
abbrev pub within_prefix : Bytes → Bytes
within_prefix p = if same p (bytes "/") then p else p ++ bytes "/"

abbrev pub is_within : Bytes → Bytes → Bool
is_within p q = same q p || is_some_option (after_prefix (within_prefix p) q)

-- os.RemoveAll: nothing there is no error.
unfoldable pub remove_all : Bytes → Action Disk (Unit {0})
remove_all p d =
    if d.fault (remove_call p)
    then (err errno, d)
    else (ok tt, record d { entry = λ q. if is_within p q then none else d.entry q })

abbrev zeros : ℕ → Bytes
zeros zero = []
zeros (suc n) = 0 ∷ zeros n

content : Node → Option Bytes
content (file b) = some b
content (sparse n) = some (zeros n)
content folder = none

-- os.ReadFile
unfoldable pub read_file : Bytes → Action Disk Bytes
unfolding content
read_file p d = elim (d.entry p) [
  | none ↦ (err errno, d)
  | some n ↦
      if d.fault (read_call p)
      then (err errno, d)
      else elim (content n) [ none ↦ (err errno, d) | some b ↦ (ok b, d) ]
]

-- os.WriteFile
unfoldable pub write_file : Bytes → Bytes → Action Disk (Unit {0})
write_file p b d =
    if d.fault (open_call p) || is_folder (d.entry p)
    then (err errno, d)
    else if d.fault (write_call p)
    then (err errno, record d { entry = put d.entry p (some (file (take (d.partial p) b))) })
    else (ok tt, record d { entry = put d.entry p (some (file b)) })

make_folder : Bytes → Action Disk (Unit {0})
make_folder p d = elim (d.entry p) [
  | some folder ↦ (ok tt, d)
  | some _ ↦ (err errno, d)
  | none ↦
      if d.fault (mkdir_call p)
      then (err errno, d)
      else (ok tt, record d { entry = put d.entry p (some folder) })
]

-- The folders on the way to a path: `done` is what stands in front of the rest.
make_on_way : Bytes → Bytes → Action Disk (Unit {0})
unfolding make_folder
make_on_way done [] = make_folder done
make_on_way [] (c ∷ rest) = make_on_way (c ∷ []) rest
make_on_way (b ∷ done) (c ∷ rest) =
    let next = make_on_way ((b ∷ done) ++ (c ∷ [])) rest in
    if c == b'/' then (make_folder (b ∷ done) >> next) else next

-- os.MkdirAll of a clean path.
unfoldable pub mkdir_all : Bytes → Action Disk (Unit {0})
unfolding make_on_way
mkdir_all p = make_on_way [] p
