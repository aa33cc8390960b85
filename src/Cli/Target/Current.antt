-- ===== src/Cli/Target/Current.antt =====
-- What `handle` records, and when `install` does nothing.
use mathlib.Core.List.{Memᴰ}
use ovm.Base.{
  Bytes, true, false, not, Option, some, List, [], ◌∷◌, ◌≡◌, refl, sym, ◌∙◌, ap, arith, All,
  same_self, Bool-cases, inl, inr,
}
use ovm.Os.Outcome.{ok, pure, ◌>>=◌, bind_ok, bind_inv}
use ovm.Os.Disk.{Disk, file, read_call}
use ovm.Os.Calls.{write_file}
use ovm.Utils.Files.{path_exists}
use ovm.Cli.Versions.{
  Key, Versions, no_versions, get, parse_versions, Codec, IsAscii, IsLawful, VersionsJson, set,
  read, save_to_disk,
}
use ovm.Cli.Versions.Laws.{get-set_self, get-set_wanted, read-encode}
use ovm.Cli.Target.Laws.{path-select}
use ovm.Cli.Target.{
  SrcPath, TargetContext, dist_path, differs, stale, select, bring_all, load, handle, install,
  new_versions_json,
}

module _ (want : Versions) (target : Bytes) where
  select-keeps :
      (k : Key) (srcs : List SrcPath) (v : VersionsJson) (d : Disk)
      → get k v.installed ≡ get k want
      → get k (select want target srcs v d).0.installed ≡ get k want
  unfolding select
  select-keeps k [] v d h = h
  select-keeps k (src ∷ srcs) v d h = elim (Bool-cases (stale want target src v d)) [
    | inl e ↦ rw e (
        select-keeps k srcs (set src.key (get src.key want) v) d
          (get-set_wanted k src.key want v h))
    | inr e ↦ rw e (select-keeps k srcs v d h)
  ]

  fresh_of_not_stale :
      (src : SrcPath) (v : VersionsJson) (d : Disk)
      → stale want target src v d ≡ false
      → get src.key v.installed ≡ get src.key want
  unfolding stale differs
  fresh_of_not_stale src v d h = ground arith

  -- After the loop every source's version is recorded as it was asked for.
  select-installed :
      (src : SrcPath) (srcs : List SrcPath) (v : VersionsJson) (d : Disk)
      → Memᴰ src srcs
      → get src.key (select want target srcs v d).0.installed ≡ get src.key want
  unfolding select
  select-installed src [] v d m = elim m [ ]
  select-installed src (s ∷ srcs) v d (Memᴰ.head p) = elim (Bool-cases (stale want target s v d)) [
    | inl e ↦ rw e (
        select-keeps src.key srcs (set s.key (get s.key want) v) d
          (rw p (get-set_self s.key (get s.key want) v)))
    | inr e ↦ rw e (select-keeps src.key srcs v d (rw p (fresh_of_not_stale s v d e)))
  ]
  select-installed src (s ∷ srcs) v d (Memᴰ.tail m) = elim (Bool-cases (stale want target s v d)) [
    | inl e ↦ rw e (select-installed src srcs (set s.key (get s.key want) v) d m)
    | inr e ↦ rw e (select-installed src srcs v d m)
  ]

  select_of_current :
      (srcs : List SrcPath) (v : VersionsJson) (d : Disk)
      → All (λ src. stale want target src v d ≡ false) srcs
      → select want target srcs v d ≡ (v, [])
  unfolding select
  select_of_current [] v d h = refl
  select_of_current (src ∷ srcs) v d (h, hs) = rw h (rw (select_of_current srcs v d hs))

abbrev pub recorded : Versions → Bytes → VersionsJson
recorded want path = record { installed = want; path = path; need_update_json = false }

module _ (j : Codec) (cwd : Option Bytes) where
  current-stale :
      (want : Versions) (target path : Bytes) (d : Disk) (srcs : List SrcPath)
      → All (λ src. path_exists (dist_path target src) d ≡ some true) srcs
      → All (λ src. stale want target src (recorded want path) d ≡ false) srcs
  unfolding stale differs
  current-stale want target path d [] h = tt
  current-stale want target path d (src ∷ srcs) (h, hs) =
      (rw h (ap not (same_self (get src.key want))), current-stale want target path d srcs hs)

  handle_of_current :
      (want : Versions) (target path : Bytes) (srcs : List SrcPath) (d : Disk)
      → All (λ src. path_exists (dist_path target src) d ≡ some true) srcs
      → handle j cwd want
          (record { target_path = target; src_paths = srcs; versions_json = recorded want path })
          d
        ≡ (ok tt, d)
  unfolding handle bring_all save_to_disk
  handle_of_current want target path srcs d hs =
      ap
        (λ (r : VersionsJson × List SrcPath).
          (bring_all cwd target r.1 >>= λ _. save_to_disk j r.0) d)
        (select_of_current want target srcs (recorded want path) d
          (current-stale want target path d srcs hs))

  -- A versions.json that is there is read, and the disk stays as it is.
  pub new_versions_json_lem :
      IsLawful j
      → (order : List Key) (flag path : Bytes) (want installed : Versions) (d : Disk)
      → IsAscii installed
      → parse_versions order flag ≡ ok want
      → d.entry path ≡ some (file (j.encode installed))
      → d.fault (read_call path) ≡ false
      → new_versions_json j cwd order flag path d ≡ (ok (want, recorded installed path), d)
  unfolding new_versions_json load
  new_versions_json_lem lawful order flag path want installed d ha hp he hf =
      ap (λ r. load j cwd r path d) hp
      ∙ bind_ok (read j (recorded no_versions path)) (λ v. pure (want, v)) d
          (read-encode j lawful (recorded no_versions path) installed d ha he hf)

  -- `install` then is `handle` with that record.
  pub install-handle :
      IsLawful j
      → (order : List Key) (flag target path : Bytes) (srcs : List SrcPath)
        (want installed : Versions) (d : Disk)
      → IsAscii installed
      → parse_versions order flag ≡ ok want
      → d.entry path ≡ some (file (j.encode installed))
      → d.fault (read_call path) ≡ false
      → install j cwd order flag target srcs path d
        ≡ handle j cwd want
            (record {
              target_path = target;
              src_paths = srcs;
              versions_json = recorded installed path;
            })
            d
  unfolding install
  install-handle lawful order flag target path srcs want installed d ha hp he hf =
      bind_ok (new_versions_json j cwd order flag path)
        (λ both.
          handle j cwd both.0
            (record { target_path = target; src_paths = srcs; versions_json = both.1 }))
        d (new_versions_json_lem lawful order flag path want installed d ha hp he hf)

  -- If versions.json records what is asked for, in ASCII, and every file is there, a start installs
  -- nothing, with any codec that reads back the ASCII which it writes: it succeeds and the disk is as
  -- it was.
  pub install_of_current :
      IsLawful j
      → (order : List Key) (flag target path : Bytes) (srcs : List SrcPath) (want : Versions)
        (d : Disk)
      → IsAscii want
      → parse_versions order flag ≡ ok want
      → d.entry path ≡ some (file (j.encode want))
      → d.fault (read_call path) ≡ false
      → All (λ src. path_exists (dist_path target src) d ≡ some true) srcs
      → install j cwd order flag target srcs path d ≡ (ok tt, d)
  install_of_current lawful order flag target path srcs want d ha hp he hf hs =
      install-handle lawful order flag target path srcs want want d ha hp he hf
      ∙ handle_of_current want target path srcs d hs

  save_recorded :
      (v : VersionsJson) (d d' : Disk)
      → v.need_update_json ≡ true
      → save_to_disk j v d ≡ (ok tt, d')
      → d'.entry v.path ≡ some (file (j.encode v.installed))
  unfolding save_to_disk write_file
  save_recorded v d d' h e = ground arith

  -- A start that succeeds and had to change a version leaves a record in which every source has the
  -- version that was asked for.
  pub handle-recorded :
      (want : Versions) (t : TargetContext) (d d' : Disk)
      → (select want t.target_path t.src_paths t.versions_json d).0.need_update_json ≡ true
      → handle j cwd want t d ≡ (ok tt, d')
      → (w : Versions) × (d'.entry t.versions_json.path ≡ some (file (j.encode w)))
        × ((src : SrcPath) → Memᴰ src t.src_paths → get src.key w ≡ get src.key want)
  unfolding handle
  handle-recorded want t d d' n e =
      let (v, todo) = select want t.target_path t.src_paths t.versions_json d in
      let (_, s, saved) = bind_inv (bring_all cwd t.target_path todo) (λ _. save_to_disk j v) d e in
      (
        v.installed,
        ap d'.entry (sym (path-select want t.target_path t.src_paths t.versions_json d))
            ∙ save_recorded v s d' n saved,
        λ src m. select-installed want t.target_path src t.src_paths t.versions_json d m,
      )
