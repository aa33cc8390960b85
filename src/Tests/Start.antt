-- ===== src/Tests/Start.antt =====
-- A start from its arguments, on a disk with a data disk that is current.
use ovm.Logger.Slots.{slot}
use ovm.Base.{ℕ, Bytes, bytes, true, false, none, some, List, [], ◌∷◌, ◌++◌, ◌≡◌, ◌≤◌}
use ovm.Os.Outcome.{ok}
use ovm.Os.Disk.{file, put}
use ovm.Os.Spares.{Spares}
use ovm.Cli.Args.Spelling.{
  Spelling, joined, apart, text_is, number_is, name, log_path, socket_path, ssh_key_path, cpus,
  memory, kernel_path, initrd_path, rootfs_path, target_path, versions,
}
use ovm.Cli.Keys.{Keygen}
use ovm.Cli.Setup.{Program}
use ovm.Cli.Versions.Laws.Parse.{flag_of}
use ovm.Main.Start.{World}
use ovm.Tests.Target.{by_length, wanted, disk_with}
use ovm.Tests.Locks.{fresh}

abbrev texts : List Spelling
texts =
    record { form = joined; double = true; setting = text_is name (bytes "ovm") }
    ∷ record { form = joined; double = true; setting = text_is log_path (bytes "/logs") }
    ∷ record { form = joined; double = true; setting = text_is socket_path (bytes "/s") }
    ∷ record { form = joined; double = true; setting = text_is ssh_key_path (bytes "/k") }
    ∷ record { form = apart; double = false; setting = number_is cpus 2 }
    ∷ record { form = apart; double = false; setting = number_is memory 1024 }
    ∷ record { form = joined; double = true; setting = text_is kernel_path (bytes "/app/kernel") }
    ∷ record { form = joined; double = true; setting = text_is initrd_path (bytes "/app/initrd") }
    ∷ record { form = joined; double = true; setting = text_is rootfs_path (bytes "/app/rootfs") }
    ∷ record { form = joined; double = true; setting = text_is target_path (bytes "/vm") }
    ∷ record { form = joined; double = true; setting = text_is versions (flag_of wanted) }
    ∷ []

-- ssh-keygen that writes both files, whatever is there.
abbrev keygen : Keygen
keygen = record {
  pipe_opens = true;
  starts = true;
  run = λ p d. (
    ok tt,
    record d {
      entry =
          put (put d.entry p (some (file (bytes "private")))) (p ++ bytes ".pub")
            (some (file (bytes "public")));
    },
  );
  stderr = none;
}

abbrev system : Program
system = record {
  executable = some (bytes "/app/ovm");
  eval_symlinks = λ p. some p;
  lower = λ p. p;
  md5_hex = λ p. p;
}

abbrev data_disk : Bytes
data_disk = bytes "/vm/data.img"

abbrev json : Bytes
json = bytes "/vm/versions.json"

abbrev world : World
world = record {
  loggers = record { disk = disk_with (by_length.encode wanted); managed = [] };
  locks = fresh;
  cleans = [];
}

-- The byte behind the first one.
second : Bytes → ℕ
second (c ∷ d ∷ s) = d
second s = 0

-- The logs are below another folder than the images.
BelowLogs : Bytes → Type 0
BelowLogs n = (i : ℕ) → 1 ≤ i → i ≤ 5 → second (slot (bytes "/logs") n i) ≡ b'l'
