-- ===== src/Cli/Versions/Laws.antt =====
-- Reading, writing and parsing the versions.
pub mod Parse
use ovm.Base.{
  ℕ, Bytes, bytes, same, Bool, true, false, not, if◌then◌else◌, ◌≡◌, ◌≢◌, refl, ap, ◌∙◌, arith,
  some,
}
use mathlib.Core.Path.{subst}
use ovm.Os.Outcome.{Result, ok, resume}
use ovm.Os.Disk.{Disk, file, read_call}
use ovm.Os.Calls.Laws.{read_file_lem}
use ovm.Cli.Versions.{
  Key, kernel, initrd, rootfs, image_data, Versions, get, write, VersionsJson, set, Codec, IsAscii,
  IsLawful, fill, parsed, read,
}

get-write_self : (k : Key) (b : Bytes) (v : Versions) → get k (write k b v) ≡ b
get-write_self kernel b v = refl
get-write_self initrd b v = refl
get-write_self rootfs b v = refl
get-write_self image_data b v = refl

pub get-write_ne : (k j : Key) (b : Bytes) (v : Versions) → k ≢ j → get k (write j b v) ≡ get k v
get-write_ne k j b v h = ground arith

pub get-set_self : (k : Key) (b : Bytes) (v : VersionsJson) → get k (set k b v).installed ≡ b
unfolding set
get-set_self k b v = ground (arith, get-write_self k b v.installed)

pub get-set_ne :
    (k j : Key) (b : Bytes) (v : VersionsJson)
    → k ≢ j
    → get k (set j b v).installed ≡ get k v.installed
unfolding set
get-set_ne k j b v h = ground (arith, get-write_ne k j b v.installed h)

pub path-set : (k : Key) (b : Bytes) (v : VersionsJson) → (set k b v).path ≡ v.path
unfolding set
path-set k b v = ground arith

Key-discrete : Discrete Key
Key-discrete = hlevel

-- A version that is recorded as it is asked for stays so.
pub get-set_wanted :
    (k j : Key) (want : Versions) (v : VersionsJson)
    → get k v.installed ≡ get k want
    → get k (set j (get j want) v).installed ≡ get k want
get-set_wanted k j want v h = elim (Key-discrete k j) [
  | yes p ↦
      subst (λ (i : Key). get k (set i (get i want) v).installed ≡ get k want) p
        (get-set_self k (get k want) v)
  | no n ↦ get-set_ne k j (get j want) v n ∙ h
]

module _ (j : Codec) (lawful : IsLawful j) where
  fill_lem :
      (v : VersionsJson) (w : Versions) (d : Disk)
      → IsAscii w
      → fill j v (ok (j.encode w)) d ≡ (ok (record v { installed = w }), d)
  unfolding fill parsed
  fill_lem v w d a = ap (λ r. parsed j v r d) (lawful.decode-encode w v.installed a)

  -- A record that was written is read back, and the disk stays as it is.
  pub read-encode :
      (v : VersionsJson) (w : Versions) (d : Disk)
      → IsAscii w
      → d.entry v.path ≡ some (file (j.encode w))
      → d.fault (read_call v.path) ≡ false
      → read j v d ≡ (ok (record v { installed = w }), d)
  unfolding read
  read-encode v w d a e h =
      ap (λ r. resume (fill j v) (ok r.0, r.1)) (read_file_lem v.path (j.encode w) d e h)
      ∙ fill_lem v w d a
