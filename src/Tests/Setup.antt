-- ===== src/Tests/Setup.antt =====
-- A start on a disk with a data disk, with sockets of an earlier run, and with a pair of keys.
use ovm.Base.{
  ◌↔◌, ◌<◌, ◌*◌, ◌^◌, Bytes, bytes, bytes_dec, false, Option, none, some, [], ◌≡◌, refl, arith, inl,
  inr,
}
use ovm.Base.Int.{pos}
use ovm.Os.Outcome.{Result, ok, err}
use ovm.Os.Disk.{Disk, file, put}
use ovm.Text.FilePath.{path_join, base}
use ovm.Text.Split.{split, join, after_prefix}
use ovm.Cli.Flags.{Flags}
use ovm.Cli.Versions.{all_keys}
use ovm.Cli.Versions.Laws.Parse.{flag_of}
use ovm.Cli.Target.{sources}
use ovm.Cli.Sockets.{sockets_of, setup_sockets}
use ovm.Cli.Sockets.Laws.{IsBelow, setup_sockets-empty}
use ovm.Cli.Keys.{Keygen}
use ovm.Cli.Setup.{memory_bytes, images_of}
use ovm.Cli.Setup.Laws.{memory_bytes_iff, HasData, HasPlaces}
use ovm.Tests.Target.{by_length, wanted, wanted-IsAscii, disk_with}

memory_bytes_iff_example : (memory_bytes 4096 ≡ 4096 * 2 ^ 20) ↔ (4096 < 2 ^ 44)
memory_bytes_iff_example = memory_bytes_iff 4096

abbrev pub flags : Flags
flags = record {
  name = bytes "ovm";
  log_path = bytes "/logs";
  socket_path = bytes "/s";
  ssh_key_path = bytes "/k";
  cpus = 2;
  memory = 1024;
  kernel_path = bytes "/app/kernel";
  initrd_path = bytes "/app/initrd";
  rootfs_path = bytes "/app/rootfs";
  target_path = bytes "/vm";
  versions = flag_of wanted;
  event_socket_path = [];
  cli_mode = false;
  bind_pid = pos 0;
  power_save_mode = false;
  kernel_debug = false;
  extend_share_dir = [];
}

abbrev data_disk : Bytes
data_disk = (images_of (bytes "/vm") flags).disk_data_path

pub places : HasPlaces by_length (some (bytes "/")) all_keys flags (bytes "/vm") wanted
unfolding images_of sources path_join base join split bytes_dec after_prefix
places = record {
  apart = (
    inl (λ e. cc, (λ e. cc, refl)),
    (inl (λ e. cc, (λ e. cc, refl)), (inl (λ e. cc, (λ e. cc, refl)), (inr (refl, refl), tt))),
  );
  not_json = λ e. cc;
  not_tmp = λ e. cc;
  data_below = omega arith;
  json_below = omega arith;
}

pub has_data :
    HasData by_length
      (some (bytes "/"))
      all_keys
      flags
      (bytes "/vm")
      wanted
      wanted
      (disk_with (by_length.encode wanted))
unfolding images_of path_join base join split bytes_dec
has_data = record {
  node = file (bytes "precious");
  data_there = refl;
  data_known = refl;
  json_there = refl;
  json_known = refl;
  ascii = wanted-IsAscii;
  up_to_date = refl;
}

-- A socket and two keys are left of an earlier run.
abbrev earlier : Disk
earlier = record {
  entry =
      put
        (put (put (λ q. none) (bytes "/s/ovm-ready.sock") (some (file []))) (bytes "/k/ovm")
          (some (file (bytes "private"))))
        (bytes "/k/ovm.pub") (some (file (bytes "public")));
  fault = λ c. false;
  open_at = λ n. none;
  next_fd = 3;
  partial = λ p. 0;
}

emptied : Disk
emptied = (setup_sockets (some (bytes "/")) (bytes "/s") (bytes "ovm") earlier).1

emptied_lem :
    setup_sockets (some (bytes "/")) (bytes "/s") (bytes "ovm") earlier
    ≡ (ok (sockets_of (bytes "/s") (bytes "ovm")), emptied)
unfolding setup_sockets emptied sockets_of split join bytes_dec
emptied_lem = refl

below : IsBelow (sockets_of (bytes "/s") (bytes "ovm")).socket_path (bytes "/s/ovm-ready.sock")
unfolding sockets_of bytes_dec after_prefix
below = (refl, λ e. cc)

setup_sockets-empty_example : emptied.entry (bytes "/s/ovm-ready.sock") ≡ none
setup_sockets-empty_example =
    setup_sockets-empty (some (bytes "/")) (bytes "/s") (bytes "ovm") (bytes "/s/ovm-ready.sock")
      earlier emptied (sockets_of (bytes "/s") (bytes "ovm")) emptied_lem below

abbrev no_keygen : Keygen
no_keygen = record {
  pipe_opens = false;
  starts = false;
  run = λ p d. (err ovm.Os.Outcome.errno, d);
  stderr = none;
}

abbrev parse : Bytes → Option Bytes
parse b = some b
