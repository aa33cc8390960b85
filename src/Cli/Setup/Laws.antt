-- ===== src/Cli/Setup/Laws.antt =====
-- The size of the memory, the lock file, and the data disk.
use ovm.Base.{
  false, true, cons_tail, cons_head, append_assoc, ◌∷◌, [], Option, some, List, All, ℕ, ◌*◌, ◌^◌,
  ◌<◌, Bytes, bytes, ◌++◌, ◌≡◌, ◌≢◌, ◌↔◌, refl, ap, sym, ◌∙◌, arith, length,
}
use mathlib.Core.List.{append_cancel_left, append_cancel_right}
use mathlib.Core.Path.{ap₂}
use ovm.Os.Outcome.{ok, err, Result, Action, pure, attempt, resume, bind_ok, ◌>>◌}
use ovm.Os.Calls.{mkdir_all}
use ovm.Os.Calls.Folders.{mkdir_all-Leaves, mkdir_all-fault}
use ovm.Os.Disk.{Disk, Node, file, read_call, stat_call}
use ovm.Os.Frame.{resume-entry, Leaves, Leaves-apply, bind-Leaves, attempt-Leaves, pure-Leaves}
use ovm.Utils.Files.{absolute, path_exists, stat_node}
use ovm.Utils.Files.Frame.{create_sparse_file-Leaves}
use ovm.Cli.Flags.{Flags}
use ovm.Cli.Versions.{Key, image_data, Versions, get, parse_versions, Codec, IsAscii, IsLawful}
use ovm.Cli.Target.{sources, install}
use ovm.Cli.Target.Laws.{Separate, entry-handle}
use ovm.Cli.Target.Current.{recorded, install-handle}
use ovm.Cli.Setup.{
  Images, images_of, make_tmp, ensure_tmp, fill_target, setup_target, tmp_size, memory_bytes,
  lock_file_of, lock_prefix_path,
}

-- The machine gets the megabytes that were asked for exactly if there are fewer than 2 ^ 44 of them.
pub memory_bytes_iff : (memory : ℕ) → (memory_bytes memory ≡ memory * 2 ^ 20) ↔ (memory < 2 ^ 44)
unfolding memory_bytes
memory_bytes_iff memory = (λ h. omega arith, λ h. omega arith)

append-split : (a b x y : Bytes) → length a ≡ length b → a ++ x ≡ b ++ y → (a ≡ b) × (x ≡ y)
append-split [] [] x y l h = (refl, h)
append-split [] (d ∷ b) x y l h = absurd (omega arith)
append-split (c ∷ a) [] x y l h = absurd (omega arith)
append-split (c ∷ a) (d ∷ b) x y l h =
    let (tails, rest) = append-split a b x y (omega arith) (cons_tail h) in
    (ap₂ ◌∷◌ (cons_head h) tails, rest)

-- Two machines have one lock file only if their names and the hashes of their programs agree.
lock_file_of_injective :
    (hash hash' name name' : Bytes)
    → length hash ≡ length hash'
    → lock_file_of hash name ≡ lock_file_of hash' name'
    → (hash ≡ hash') × (name ≡ name')
unfolding lock_file_of
lock_file_of_injective hash hash' name name' l h =
    let (same_hash, rest) =
      append-split hash hash' (bytes "-" ++ (name ++ bytes ".pid"))
        (bytes "-" ++ (name' ++ bytes ".pid")) l
        (append_cancel_left (lock_prefix_path ++ bytes "/") _ _ (
          append_assoc lock_prefix_path (bytes "/") _
          ∙ h
          ∙ sym (append_assoc lock_prefix_path (bytes "/") _))) in
    (
      same_hash,
      append_cancel_right name name' (bytes ".pid") (append_cancel_left (bytes "-") _ _ rest),
    )

path_exists_lem :
    (q : Bytes) (x : Node) (d : Disk)
    → d.entry q ≡ some x
    → d.fault (stat_call q) ≡ false
    → path_exists q d ≡ some true
unfolding path_exists
path_exists_lem q x d e k = ground arith

-- The user's data disk, as `target` finds it: versions.json records the version that is asked for.
module _ (j : Codec) (cwd : Option Bytes) (order : List Key) (f : Flags) (p : Bytes) where
  abbrev images : Images
  images = images_of p f

  abbrev data_disk : Bytes
  data_disk = (images_of p f).disk_data_path

  pub record HasData (want installed : Versions) (d : Disk) : Type 0 where
    pub node : Node
    pub data_there : d.entry data_disk ≡ some node
    pub data_known : d.fault (stat_call data_disk) ≡ false
    pub json_there : d.entry (images_of p f).versions_path ≡ some (file (j.encode installed))
    pub json_known : d.fault (read_call (images_of p f).versions_path) ≡ false
    pub ascii : IsAscii installed
    pub up_to_date : get image_data installed ≡ get image_data want

  -- The files of the machine have places of their own, below the folder.
  pub record HasPlaces (want : Versions) : Type 0 where
    pub apart :
        All
          (Separate want p data_disk image_data)
          (sources f.kernel_path f.initrd_path f.rootfs_path data_disk)
    pub not_json : data_disk ≢ (images_of p f).versions_path
    pub not_tmp : data_disk ≢ (images_of p f).disk_tmp_path
    pub data_below : length p < length data_disk
    pub json_below : length p < length (images_of p f).versions_path

  stat_node-Leaves : (q t : Bytes) → Leaves q (stat_node t)
  unfolding Leaves stat_node
  stat_node-Leaves q t d = ground arith

  make_tmp-Leaves : (q t : Bytes) → q ≢ t → (r : Result Node) → Leaves q (make_tmp t r)
  unfolding make_tmp
  make_tmp-Leaves q t h (ok n) = pure-Leaves q tt
  make_tmp-Leaves q t h (err e) = create_sparse_file-Leaves q t tmp_size h

  ensure_tmp-Leaves : (q t : Bytes) → q ≢ t → Leaves q (ensure_tmp t)
  unfolding ensure_tmp
  ensure_tmp-Leaves q t h =
      bind-Leaves q (attempt (stat_node t)) (make_tmp t)
        (attempt-Leaves q (stat_node t) (stat_node-Leaves q t)) (make_tmp-Leaves q t h)

  fill_target-entry :
      IsLawful j
      → (want installed : Versions) (d : Disk) → parse_versions order f.versions ≡ ok want
      → HasPlaces want
      → HasData want installed d
      → (fill_target j cwd order f (images_of p f) d).1.entry data_disk ≡ d.entry data_disk
  unfolding fill_target images_of
  fill_target-entry lawful want installed d parsed places h =
      let srcs = sources f.kernel_path f.initrd_path f.rootfs_path data_disk in
      let json = (images_of p f).versions_path in
      resume-entry data_disk (λ _. ensure_tmp (images_of p f).disk_tmp_path)
        (install j cwd order f.versions p srcs json d)
        (λ _.
          Leaves-apply data_disk (ensure_tmp (images_of p f).disk_tmp_path)
            (ensure_tmp-Leaves data_disk (images_of p f).disk_tmp_path places.not_tmp))
      ∙ ap (λ (r : Result (Unit {0}) × Disk). r.1.entry data_disk)
          (install-handle j cwd lawful order f.versions p json srcs want installed d h.ascii parsed
            h.json_there h.json_known)
      ∙ entry-handle j cwd want
          (record { target_path = p; src_paths = srcs; versions_json = recorded installed json })
          image_data data_disk d places.apart places.not_json h.up_to_date
          (path_exists_lem data_disk h.node d h.data_there h.data_known)

  mkdir_all-HasData :
      (want installed : Versions) (d : Disk)
      → HasPlaces want
      → HasData want installed d
      → HasData want installed (mkdir_all p d).1
  mkdir_all-HasData want installed d places h =
      let json = (images_of p f).versions_path in
      record {
        node = h.node;
        data_there =
            Leaves-apply data_disk (mkdir_all p) (mkdir_all-Leaves data_disk p places.data_below) d
            ∙ h.data_there;
        data_known = (λ i. mkdir_all-fault p d i (stat_call data_disk)) ∙ h.data_known;
        json_there =
            Leaves-apply json (mkdir_all p) (mkdir_all-Leaves json p places.json_below) d
            ∙ h.json_there;
        json_known = (λ i. mkdir_all-fault p d i (read_call json)) ∙ h.json_known;
        ascii = h.ascii;
        up_to_date = h.up_to_date;
      }

  rest_of_target : Action Disk Images
  rest_of_target = fill_target j cwd order f (images_of p f) >> pure (images_of p f)

  rest_of_target-entry :
      IsLawful j
      → (want installed : Versions) (r : Result (Unit {0}) × Disk)
      → parse_versions order f.versions ≡ ok want
      → HasPlaces want
      → HasData want installed r.1
      → (resume (λ _. rest_of_target) r).1.entry data_disk ≡ r.1.entry data_disk
  unfolding rest_of_target
  rest_of_target-entry lawful want installed (err e, d) parsed places h = refl
  rest_of_target-entry lawful want installed (ok _, d) parsed places h =
      resume-entry data_disk (λ _. pure (images_of p f))
        (fill_target j cwd order f (images_of p f) d) (λ _ t. refl)
      ∙ fill_target-entry lawful want installed d parsed places h

  -- A start whose versions.json can be read and records the wanted version of the data disk, which is
  -- there, can be examined, and shares its place with no other file of the machine, leaves the data
  -- disk as it was, whatever becomes of the kernel, the images and the scratch disk, and whichever
  -- other calls fail.
  pub setup_target-entry :
      IsLawful j
      → (want installed : Versions) (d : Disk) → absolute cwd f.target_path d ≡ (ok p, d)
      → parse_versions order f.versions ≡ ok want
      → HasPlaces want
      → HasData want installed d
      → (setup_target j cwd order f d).1.entry data_disk ≡ d.entry data_disk
  unfolding setup_target rest_of_target
  setup_target-entry lawful want installed d place parsed places h =
      ap (λ (r : Result Images × Disk). r.1.entry data_disk)
        (bind_ok (absolute cwd f.target_path)
          (λ q. mkdir_all q >> (fill_target j cwd order f (images_of q f) >> pure (images_of q f)))
          d place)
      ∙ rest_of_target-entry lawful want installed (mkdir_all p d) parsed places
          (mkdir_all-HasData want installed d places h)
      ∙ Leaves-apply data_disk (mkdir_all p) (mkdir_all-Leaves data_disk p places.data_below) d
