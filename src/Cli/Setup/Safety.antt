-- ===== src/Cli/Setup/Safety.antt =====
-- The data disk through the whole of `Setup`.
use ovm.Base.{Bool, ℕ, Bytes, Option, some, List, ◌≡◌, sym, ap, ◌∙◌}
use ovm.Os.Outcome.{ok, Action}
use ovm.Os.Disk.{Disk, file, read_call, stat_call}
use ovm.Os.Spares.{Spared, Spared-trans, Spares-apply}
use ovm.Text.FilePath.{abs}
use ovm.Utils.Files.Frame.{absolute_place}
use ovm.Cli.Flags.{Flags}
use ovm.Cli.Versions.{Key, Codec, IsLawful, Versions, parse_versions}
use ovm.Cli.Sockets.{Sockets, setup_sockets}
use ovm.Cli.Keys.{Keygen, Keys, setup_keys}
use ovm.Cli.Keys.Spares.{WritesOwn, setup_keys-Spares}
use ovm.Cli.Setup.{in_group, images_of, setup, setup_target, setup_ssh_port, Images}
use ovm.Cli.Setup.Laws.{HasData, HasPlaces, setup_target-entry}
use ovm.Cli.Setup.Spares.{Elsewhere, in_group-disk, setup_sockets-Spares, setup_ssh_port-Spares}

module _ {Signer : Type 0} (parse : Bytes → Option Signer) (j : Codec) (gen : Keygen)
    (occupied : ℕ → Bool) (cwd : Option Bytes) (order : List Key) (f : Flags) where
  abbrev sockets_task : Action Disk Sockets
  sockets_task = setup_sockets cwd f.socket_path f.name

  abbrev keys_task : Action Disk (Keys Signer)
  keys_task = setup_keys parse gen cwd f.ssh_key_path f.name

  abbrev port_task : Action Disk ℕ
  port_task = setup_ssh_port occupied

  abbrev target_task : Action Disk Images
  target_task = setup_target j cwd order f

  -- The disk when `target` starts.
  before_target : Disk → Disk
  before_target d = (port_task (keys_task (sockets_task d).1).1).1

  setup-disk :
      (d : Disk) → (setup parse j gen occupied cwd order f d).1 ≡ (target_task (before_target d)).1
  unfolding setup before_target
  setup-disk d =
      in_group-disk sockets_task (in_group keys_task (in_group port_task target_task)) d
      ∙ in_group-disk keys_task (in_group port_task target_task) (sockets_task d).1
      ∙ in_group-disk port_task target_task (keys_task (sockets_task d).1).1

  before_target-Spared :
      (q : Bytes) → WritesOwn gen → Elsewhere cwd f q → (d : Disk) → Spared q d (before_target d)
  unfolding before_target
  before_target-Spared q w h d =
      let d1 = (sockets_task d).1 in
      let d2 = (keys_task d1).1 in
      Spared-trans q d d1 _ (Spares-apply q sockets_task (setup_sockets-Spares q cwd f h) d) (
        Spared-trans q d1 d2 _
          (Spares-apply q keys_task
            (setup_keys-Spares parse gen cwd f.ssh_key_path f.name q w h.no_key) d1)
          (Spares-apply q port_task (setup_ssh_port-Spares q occupied) d2))

-- Where the files of the machine were spared, the data disk is still as `target` wants it.
module _ (j : Codec) (cwd : Option Bytes) (order : List Key) (f : Flags) (p : Bytes)
    (want installed : Versions) where
  abbrev data_disk : Bytes
  data_disk = (images_of p f).disk_data_path

  abbrev json : Bytes
  json = (images_of p f).versions_path

  pub HasData-Spared :
      (d d' : Disk)
      → HasData j cwd order f p want installed d
      → Spared data_disk d d'
      → Spared json d d'
      → HasData j cwd order f p want installed d'
  HasData-Spared d d' h s t = record {
    node = h.node;
    data_there = s.stays h.node h.data_there;
    data_known = (λ i. s.fault_kept i (stat_call data_disk)) ∙ h.data_known;
    json_there = t.stays (file (j.encode installed)) h.json_there;
    json_known = (λ i. t.fault_kept i (read_call json)) ∙ h.json_known;
    ascii = h.ascii;
    up_to_date = h.up_to_date;
  }

  -- `Setup` on a disk that has the data: it is there afterwards, whatever fails.
  pub setup-entry :
      {Signer : Type 0} (parse : Bytes → Option Signer) (gen : Keygen) (occupied : ℕ → Bool)
      (d : Disk)
      → IsLawful j
      → WritesOwn gen
      → abs cwd f.target_path ≡ some p
      → parse_versions order f.versions ≡ ok want
      → HasPlaces j cwd order f p want
      → Elsewhere cwd f data_disk
      → Elsewhere cwd f json
      → HasData j cwd order f p want installed d
      → (setup parse j gen occupied cwd order f d).1.entry data_disk ≡ d.entry data_disk
  setup-entry parse gen occupied d lawful w place parsed places eq ej h =
      let d' = before_target parse j gen occupied cwd order f d in
      let s = before_target-Spared parse j gen occupied cwd order f data_disk w eq d in
      let t = before_target-Spared parse j gen occupied cwd order f json w ej d in
      ap (λ (x : Disk). x.entry data_disk) (setup-disk parse j gen occupied cwd order f d)
      ∙ setup_target-entry j cwd order f p lawful want installed d'
          (absolute_place cwd f.target_path p d' place) parsed places (HasData-Spared d d' h s t)
      ∙ s.stays h.node h.data_there
      ∙ sym h.data_there
