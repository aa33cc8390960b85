-- ===== src/Tests/Target.antt =====
-- Starts of a machine whose kernel is out of date, and whose files are all current.
use mathlib.Core.List.{Memᴰ}
use ovm.Base.{
  ap, Bytes, bytes, bytes_dec, Bool, true, false, none, some, List, [], ◌∷◌, ◌++◌, ◌≡◌, refl, arith,
  inl, inr, length, take, drop, All,
}
use ovm.Os.Outcome.{Result, ok}
use ovm.Os.Disk.{stat, Disk, file, put}
use ovm.Utils.Files.{path_exists}
use ovm.Cli.Versions.{
  Key, kernel, initrd, rootfs, image_data, all_keys, Versions, get, parse_versions, Codec, IsAscii,
  IsLawful,
}
use ovm.Cli.Versions.Laws.Parse.{IsVersion, flag_of, parse_versions-flag_of}
use ovm.Cli.Target.{TargetContext, SrcPath, sources, select, handle, install, dist_path}
use ovm.Cli.Target.Laws.{Separate, entry-handle}
use ovm.Cli.Target.Current.{handle-recorded, install_of_current}
use ovm.Text.Split.{split, join, after_prefix}
use ovm.Text.FilePath.{path_join, base}
use ovm.Os.Disk.{stat}

-- Four fields, each behind its length.
pub field : Bytes → Bytes → Bytes
field b rest = length b ∷ (b ++ rest)

pub unfield : Bytes → Bytes × Bytes
unfield [] = ([], [])
unfield (n ∷ rest) = (take n rest, drop n rest)

take-append : (b rest : Bytes) → take (length b) (b ++ rest) ≡ b
take-append [] rest = refl
take-append (c ∷ b) rest = ap (λ q. c ∷ q) (take-append b rest)

drop-append : (b rest : Bytes) → drop (length b) (b ++ rest) ≡ rest
drop-append [] rest = refl
drop-append (c ∷ b) rest = drop-append b rest

unfield-field : (b rest : Bytes) → unfield (field b rest) ≡ (b, rest)
unfolding unfield field
unfield-field b rest = rw (take-append b rest, drop-append b rest) refl

pub four : Versions → Bytes
four v = field v.of_kernel (field v.of_initrd (field v.of_rootfs (field v.of_data [])))

pub unfour : Bytes → Versions × Bool
unfour b =
    let first = unfield b in
    let second = unfield first.1 in
    let third = unfield second.1 in
    (
      record {
        of_kernel = first.0;
        of_initrd = second.0;
        of_rootfs = third.0;
        of_data = (unfield third.1).0;
      },
      true,
    )

unfour-four : (v : Versions) → unfour (four v) ≡ (v, true)
unfolding unfour four
unfour-four v =
    rw
      (
        unfield-field v.of_kernel (field v.of_initrd (field v.of_rootfs (field v.of_data []))),
        unfield-field v.of_initrd (field v.of_rootfs (field v.of_data [])),
        unfield-field v.of_rootfs (field v.of_data []),
        unfield-field v.of_data [],
      )
      refl

abbrev pub by_length : Codec
by_length = record { encode = four; decode = λ b w. unfour b }

pub by_length-IsLawful : IsLawful by_length
by_length-IsLawful = record { decode-encode = λ v w a. unfour-four v }

abbrev pub wanted : Versions
wanted = record {
  of_kernel = bytes "k2";
  of_initrd = bytes "i1";
  of_rootfs = bytes "r1";
  of_data = bytes "d1";
}

abbrev target : Bytes
target = bytes "/vm"

abbrev json_path : Bytes
json_path = bytes "/vm/versions.json"

abbrev images : List SrcPath
images =
    sources (bytes "/app/kernel") (bytes "/app/initrd") (bytes "/app/rootfs")
      (bytes "/app/data.img")

version : (k : Key) → IsVersion (get k wanted)
version kernel = record {
  visible = omega arith;
  no_comma = omega arith;
  no_equals = omega arith;
  filled = λ e. cc;
}
version initrd = record {
  visible = omega arith;
  no_comma = omega arith;
  no_equals = omega arith;
  filled = λ e. cc;
}
version rootfs = record {
  visible = omega arith;
  no_comma = omega arith;
  no_equals = omega arith;
  filled = λ e. cc;
}
version image_data = record {
  visible = omega arith;
  no_comma = omega arith;
  no_equals = omega arith;
  filled = λ e. cc;
}

parse_versions-flag_of_example : parse_versions all_keys (flag_of wanted) ≡ ok wanted
parse_versions-flag_of_example = parse_versions-flag_of all_keys wanted version

pub parsed_lem : parse_versions all_keys (flag_of wanted) ≡ ok wanted
parsed_lem = parse_versions-flag_of all_keys wanted version

-- The files of a machine whose versions.json is the one given.
abbrev pub disk_with : Bytes → Disk
disk_with json = record {
  entry =
      put
        (put
          (put
            (put
              (put (put (λ q. none) (bytes "/app/kernel") (some (file (bytes "new"))))
                (bytes "/vm/kernel") (some (file (bytes "old"))))
              (bytes "/vm/initrd") (some (file (bytes "i"))))
            (bytes "/vm/rootfs") (some (file (bytes "r"))))
          (bytes "/vm/data.img") (some (file (bytes "precious"))))
        json_path (some (file json));
  fault = λ c. false;
  open_at = λ n. none;
  next_fd = 3;
  partial = λ p. 0;
}

there : All (λ src. path_exists (dist_path target src) (disk_with (four wanted)) ≡ some true) images
unfolding sources path_exists stat path_join base bytes_dec join split
there = (refl, (refl, (refl, (refl, tt))))

pub wanted-IsAscii : IsAscii wanted
wanted-IsAscii kernel = omega arith
wanted-IsAscii initrd = omega arith
wanted-IsAscii rootfs = omega arith
wanted-IsAscii image_data = omega arith

install_of_current_example :
    install by_length
      (some (bytes "/"))
      all_keys
      (flag_of wanted)
      target
      images
      json_path
      (disk_with (four wanted))
    ≡ (ok tt, disk_with (four wanted))
install_of_current_example =
    install_of_current by_length (some (bytes "/")) by_length-IsLawful all_keys (flag_of wanted)
      target json_path images wanted (disk_with (four wanted)) wanted-IsAscii parsed_lem
      (ground arith) refl there

abbrev outdated : TargetContext
outdated = record {
  target_path = target;
  src_paths = images;
  versions_json = record {
    installed = record wanted { of_kernel = bytes "k1" };
    path = json_path;
    need_update_json = false;
  };
}

separate : All (Separate wanted target (bytes "/vm/data.img") image_data) images
unfolding sources path_join base join split bytes_dec after_prefix
separate = (
  inl (λ e. cc, (λ e. cc, refl)),
  (inl (λ e. cc, (λ e. cc, refl)), (inl (λ e. cc, (λ e. cc, refl)), (inr (refl, refl), tt))),
)

entry-handle_example :
    (handle by_length (some (bytes "/")) wanted outdated (disk_with [])).1.entry
      (bytes "/vm/data.img")
    ≡ some (file (bytes "precious"))
unfolding bytes_dec path_exists stat
entry-handle_example =
    entry-handle by_length (some (bytes "/")) wanted outdated image_data (bytes "/vm/data.img")
      (disk_with []) separate (λ e. cc) refl refl

after : Result (Unit {0}) × Disk
unfolding handle
after = handle by_length (some (bytes "/")) wanted outdated (disk_with [])

after_lem : handle by_length (some (bytes "/")) wanted outdated (disk_with []) ≡ (ok tt, after.1)
unfolding after sources bytes_dec join split base
after_lem = refl

changed_lem :
    (select wanted target images outdated.versions_json (disk_with [])).0.need_update_json ≡ true
unfolding select sources path_exists stat path_join base bytes_dec join split
changed_lem = refl

handle-recorded_example :
    (w : Versions) × (after.1.entry json_path ≡ some (file (four w)))
    × ((src : SrcPath) → Memᴰ src images → get src.key w ≡ get src.key wanted)
handle-recorded_example =
    handle-recorded by_length (some (bytes "/")) wanted outdated (disk_with []) after.1 changed_lem
      after_lem
