-- ===== src/Cli/Versions.antt =====
-- pkg/cli/target.go: the versions that the command line asks for, and the file versions.json that
-- records those that are installed.
pub mod Laws
use ovm.Base.{
  ◌<◌, All, ◌≡◌, ℕ, Bytes, bytes, same, Bool, true, false, not, if◌then◌else◌, Option, none, some,
  List, [], ◌∷◌,
}
use ovm.Os.Outcome.{
  Error, errno, about, Result, ok, err, Action, pure, raise, attempt, resume, ◌>>=◌, ◌>>◌,
}
use ovm.Os.Disk.{Disk}
use ovm.Os.Calls.{read_file, write_file, remove_all}
use ovm.Text.Split.{split}
use ovm.Text.Trim.{trim_space}

-- The four keys of the map `versionsParams`, of `versionsJSON`, and of `srcPaths`.
pub data Key : Type 0 where
  kernel initrd rootfs image_data : Key

abbrev pub key_name : Key → Bytes
key_name kernel = bytes "kernel"
key_name initrd = bytes "initrd"
key_name rootfs = bytes "rootfs"
key_name image_data = bytes "data"

abbrev pub all_keys : List Key
all_keys = kernel ∷ initrd ∷ rootfs ∷ image_data ∷ []

pub record Versions : Type 0 where
  pub of_kernel : Bytes
  pub of_initrd : Bytes
  pub of_rootfs : Bytes
  pub of_data : Bytes

abbrev pub no_versions : Versions
no_versions = record { of_kernel = []; of_initrd = []; of_rootfs = []; of_data = [] }

-- `get`, for the keys that are passed to it.
abbrev pub get : Key → Versions → Bytes
get kernel v = v.of_kernel
get initrd v = v.of_initrd
get rootfs v = v.of_rootfs
get image_data v = v.of_data

abbrev pub write : Key → Bytes → Versions → Versions
write kernel b v = record v { of_kernel = b }
write initrd b v = record v { of_initrd = b }
write rootfs b v = record v { of_rootfs = b }
write image_data b v = record v { of_data = b }

-- The look-up of a text in the map `versionsParams`.
key_of : List Key → Bytes → Option Key
key_of [] t = none
key_of (k ∷ ks) t = let rest = key_of ks t in if same (key_name k) t then some k else rest

assign : Option Key → Bytes → Versions → Versions
assign none b v = v
assign (some k) b v = write k b v

-- One round of `parseVersions`: an item that is no pair, or names no key, is passed over.
unfoldable pub parse_pair : List Bytes → Versions → Versions
unfolding key_of assign trim_space
parse_pair (key ∷ val ∷ []) v = assign (key_of all_keys (trim_space key)) (trim_space val) v
parse_pair _ v = v

unfoldable pub parse_items : List Bytes → Versions → Versions
unfolding parse_pair
parse_items [] v = v
parse_items (item ∷ items) v = parse_items items (parse_pair (split b'=' (trim_space item)) v)

-- The check after the loop. Go visits the map in an order of its own.
unfoldable pub check_order : List Key → Versions → Result Versions
check_order [] v = ok v
check_order (k ∷ order) v =
    let rest = check_order order v in
    if same (get k v) [] then err (about "need a key in versions" (key_name k)) else rest

unfoldable pub parse_versions : List Key → Bytes → Result Versions
unfolding parse_items check_order split
parse_versions order s = check_order order (parse_items (split b',' s) no_versions)

-- encoding/json for a struct of four strings. `decode` is given the struct that it fills, and says
-- too whether it succeeded.
pub record Codec : Type 0 where
  pub encode : Versions → Bytes
  pub decode : Bytes → Versions → Versions × Bool

abbrev pub IsAscii : Versions → Type 0
IsAscii v = (k : Key) → All (λ b. b < 128) (get k v)

-- What is written is read back, into any struct, if the texts are ASCII: bytes that are not valid
-- UTF-8 are replaced by encoding/json.
pub record IsLawful (j : Codec) : Type 0 where
  pub decode-encode : (v w : Versions) → IsAscii v → j.decode (j.encode v) w ≡ (v, true)

pub record VersionsJson : Type 0 where
  pub installed : Versions
  pub path : Bytes
  pub need_update_json : Bool

-- `set`
unfoldable pub set : Key → Bytes → VersionsJson → VersionsJson
set k b v =
    if same (get k v.installed) b
    then v
    else record v { installed = write k b v.installed; need_update_json = true }

module _ (j : Codec) where
  discard : VersionsJson → Action Disk VersionsJson
  unfolding remove_all
  discard v = do remove_all v.path; pure v

  parsed : VersionsJson → Versions × Bool → Action Disk VersionsJson
  unfolding discard
  parsed v (w, good) =
      if good then pure (record v { installed = w }) else discard (record v { installed = w })

  fill : VersionsJson → Result Bytes → Action Disk VersionsJson
  unfolding parsed
  fill v (err e) = discard v
  fill v (ok text) = parsed v (j.decode text v.installed)

  -- `read`: a file that cannot be read or parsed is deleted, and what was parsed of it stays.
  unfoldable pub read : VersionsJson → Action Disk VersionsJson
  unfolding read_file fill
  read v = do text ← attempt (read_file v.path); fill v text

  -- `saveToDisk`. Encoding four strings does not fail.
  unfoldable pub save_to_disk : VersionsJson → Action Disk (Unit {0})
  unfolding write_file
  save_to_disk v =
      if not v.need_update_json then pure tt else write_file v.path (j.encode v.installed)
