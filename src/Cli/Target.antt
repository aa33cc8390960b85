-- ===== src/Cli/Target.antt =====
-- pkg/cli/target.go, `targetContext`: the kernel, the images and the data disk are brought to the
-- versions that are asked for. The copies run side by side; here they run in the order of `srcPaths`.
pub mod Laws
pub mod Current
pub mod Tasks
use ovm.Base.{
  ℕ, ◌+◌, ◌*◌, ◌^◌, Bytes, bytes, same, Bool, true, false, not, if◌then◌else◌, Option, none, some,
  List, [], ◌∷◌, ◌++◌,
}
use ovm.Os.Outcome.{
  Error, errno, about, Result, ok, err, Action, pure, raise, attempt, resume, ◌>>=◌, ◌>>◌,
}
use ovm.Os.Disk.{Disk}
use ovm.Os.Calls.{remove_all}
use ovm.Text.FilePath.{path_join, base}
use ovm.Utils.Files.{copy, create_sparse_file, path_exists}
use ovm.Cli.Versions.{
  Key, kernel, initrd, rootfs, image_data, Versions, no_versions, get, parse_versions, Codec,
  VersionsJson, set, read, save_to_disk,
}

pub record SrcPath : Type 0 where
  pub key : Key
  pub p : Bytes

pub record TargetContext : Type 0 where
  pub target_path : Bytes
  pub src_paths : List SrcPath
  pub versions_json : VersionsJson

abbrev pub data_size : ℕ
data_size = 8 * 1024 * 1024 * 1024 * 1024

-- What `newTarget` makes from the paths.
unfoldable pub sources : Bytes → Bytes → Bytes → Bytes → List SrcPath
sources k i r d =
    record { key = kernel; p = k }
    ∷ record { key = initrd; p = i }
    ∷ record { key = rootfs; p = r }
    ∷ record { key = image_data; p = d }
    ∷ []

abbrev pub dist_path : Bytes → SrcPath → Bytes
dist_path target src = path_join target (base src.p)

-- Whether `copyOrCreate` is called: the file is not there, or has another version.
differs : Option Bool → Bytes → Bytes → Bool
differs (some true) have want = not (same have want)
differs _ have want = true

unfoldable pub stale : Versions → Bytes → SrcPath → VersionsJson → Disk → Bool
unfolding path_exists differs
stale want target src v d =
    differs (path_exists (dist_path target src) d) (get src.key v.installed) (get src.key want)

-- The loop of `handle`: the record of the versions afterwards, and the files to bring.
unfoldable pub select :
    Versions → Bytes → List SrcPath → VersionsJson → Disk → VersionsJson × List SrcPath
unfolding stale set
select want target [] v d = (v, [])
select want target (src ∷ srcs) v d =
    let again = stale want target src v d in
    let (v', todo) =
      select want target srcs (if again then set src.key (get src.key want) v else v) d in
    (v', if again then src ∷ todo else todo)

-- The task of `copyOrCreate`.
bring_to : Option Bytes → Key → Bytes → Bytes → Action Disk (Unit {0})
unfolding copy create_sparse_file remove_all
bring_to cwd image_data src dist = do remove_all dist; create_sparse_file dist data_size
bring_to cwd _ src dist = copy cwd src dist

unfoldable pub bring : Option Bytes → Bytes → SrcPath → Action Disk (Unit {0})
unfolding bring_to
bring cwd target src = bring_to cwd src.key src.p (dist_path target src)

first_error : Result (Unit {0}) → Result (Unit {0}) → Action Disk (Unit {0})
first_error (err e) rest = raise e
first_error (ok _) (err e) = raise e
first_error (ok _) (ok _) = pure tt

-- errgroup: every task runs, and the first error is the result.
unfoldable pub bring_all : Option Bytes → Bytes → List SrcPath → Action Disk (Unit {0})
unfolding bring first_error
bring_all cwd target [] = pure tt
bring_all cwd target (src ∷ srcs) = do
  one ← attempt (bring cwd target src)
  rest ← attempt (bring_all cwd target srcs)
  first_error one rest

module _ (j : Codec) (cwd : Option Bytes) where
  -- `handle`
  unfoldable pub handle : Versions → TargetContext → Action Disk (Unit {0})
  unfolding select bring_all save_to_disk
  handle want t d =
      let (v, todo) = select want t.target_path t.src_paths t.versions_json d in
      (do bring_all cwd t.target_path todo; save_to_disk j v) d

  load : Result Versions → Bytes → Action Disk (Versions × VersionsJson)
  unfolding read
  load (err e) path = raise e
  load (ok want) path = do
    v ← read j (record { installed = no_versions; path = path; need_update_json = false })
    pure (want, v)

  -- `newVersionsJSON`, with the versions that were parsed.
  unfoldable pub new_versions_json :
      List Key → Bytes → Bytes → Action Disk (Versions × VersionsJson)
  unfolding parse_versions load
  new_versions_json order flag path = load (parse_versions order flag) path

  -- `newTarget` and `handle`, as `target` of setup.go calls them.
  unfoldable pub install : List Key → Bytes → Bytes → List SrcPath → Bytes → Action Disk (Unit {0})
  unfolding new_versions_json handle
  install order flag target srcs path = do
    both ← new_versions_json order flag path
    handle both.0 (record { target_path = target; src_paths = srcs; versions_json = both.1 })
