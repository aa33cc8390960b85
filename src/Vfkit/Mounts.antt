-- ===== src/Vfkit/Mounts.antt =====
-- pkg/vfkit/mount.go: the folders that are shared with the guest.
pub mod Laws
use ovm.Base.{
  ℕ, Bytes, bytes, same, Bool, true, false, ◌||◌, if◌then◌else◌, List, [], ◌∷◌, ◌++◌, map,
}
use ovm.Text.Split.{replace_byte}

pub record Fs : Type 0 where
  pub tag : Bytes
  pub share_dir : Bytes

-- The list that the program starts with.
unfoldable pub initial_mounts : List Fs
initial_mounts =
    record { tag = bytes "vfkit-share-user"; share_dir = bytes "/Users" }
    ∷ record { tag = bytes "vfkit-share-var-folders"; share_dir = bytes "/var/folders" }
    ∷ record { tag = bytes "vfkit-share-private"; share_dir = bytes "/private" }
    ∷ []

-- The loop of `extend` finds the tag or the folder in the list.
unfoldable pub taken : Bytes → Bytes → List Fs → Bool
taken tag dir [] = false
taken tag dir (f ∷ fs) = (same f.tag tag || same f.share_dir dir) || taken tag dir fs

-- `extend`; the list that it searches and the list that it extends are the one of the package.
unfoldable pub extend : Bytes → Bytes → List Fs → List Fs
unfolding taken
extend tag dir list =
    if taken tag dir list then list else list ++ (record { tag = tag; share_dir = dir } ∷ [])

-- The loop of `Run` over `ExtendShareDir`, in the order that Go visits the map.
unfoldable pub extend_all : List (Bytes × Bytes) → List Fs → List Fs
unfolding extend
extend_all [] list = list
extend_all ((tag, dir) ∷ more) list = extend_all more (extend tag dir list)

-- `\\\\040`, in a raw literal: four backslashes and the number of the space.
abbrev pub escaped_space : Bytes
escaped_space = 92 ∷ 92 ∷ 92 ∷ 92 ∷ bytes "040"

unfoldable pub fstab_line : Fs → Bytes
fstab_line f =
    f.tag ++ (32 ∷ (replace_byte 32 escaped_space f.share_dir ++ bytes " virtiofs defaults 0 0"))

-- `toFSTAB`
unfoldable pub to_fstab : List Fs → List Bytes
unfolding fstab_line
to_fstab = map fstab_line
