-- ===== src/Main/Start/Laws.antt =====
-- cmd/ovm/main.go: a start never harms the user's data disk.
use ovm.Base.{Bytes, bytes, Option, some, List, ◌++◌, ◌≡◌}
use ovm.Os.Outcome.{ok}
use ovm.Os.Disk.{Disk}
use ovm.Os.Spares.{Spares, Spared}
use ovm.Text.FilePath.{abs}
use ovm.Logger.Spares.{IsNoLog}
use ovm.Cli.Flags.{Flags}
use ovm.Cli.Versions.{Key, Codec, IsLawful, Versions, parse_versions}
use ovm.Cli.Sockets.{Sockets}
use ovm.Cli.Keys.{Keygen, Keys}
use ovm.Cli.Keys.Spares.{WritesOwn}
use ovm.Cli.Setup.{images_of}
use ovm.Cli.Setup.Laws.{HasData, HasPlaces}
use ovm.Cli.Setup.Spares.{Elsewhere}
use ovm.Main.Start.{World, Reached, single_log}

-- The path is none of the program's logs.
pub record Unlogged (cwd : Option Bytes) (f : Flags) (q : Bytes) : Type 0 where
  pub no_single : (p : Bytes) → abs cwd f.log_path ≡ some p → IsNoLog p single_log q
  pub no_ovm : (p : Bytes) → abs cwd f.log_path ≡ some p → IsNoLog p (f.name ++ bytes "-ovm") q
  pub no_event : (p : Bytes) → abs cwd f.log_path ≡ some p → IsNoLog p (f.name ++ bytes "-event") q

-- A property of the disk behind a stage: it holds when the call fails, and when the rest has run.
module _ {Signer : Type 0} (Q : Disk → Type 0) where
  abbrev At : Reached Signer × World → Type 0
  At r = Q r.1.loggers.disk

module _ (j : Codec) (gen : Keygen) (cwd : Option Bytes) (order : List Key) (f : Flags) (p : Bytes)
    (want installed : Versions) (first : Disk) where
  abbrev data_disk : Bytes
  data_disk = (images_of p f).disk_data_path

  abbrev json : Bytes
  json = (images_of p f).versions_path

  -- What the start relies on.
  pub record Safe : Type 0 where
    pub lawful : IsLawful j
    pub writes_own : WritesOwn gen
    pub place : abs cwd f.target_path ≡ some p
    pub parsed_versions : parse_versions order f.versions ≡ ok want
    pub places : HasPlaces j cwd order f p want
    pub data_elsewhere : Elsewhere cwd f data_disk
    pub json_elsewhere : Elsewhere cwd f json
    pub data_unlogged : Unlogged cwd f data_disk
    pub json_unlogged : Unlogged cwd f json
    pub has_data : HasData j cwd order f p want installed first

  -- The data disk is what it was at first; so far, its versions.json is too.
  abbrev Same : Disk → Type 0
  Same d = d.entry data_disk ≡ first.entry data_disk

  abbrev BothSpared : Disk → Type 0
  BothSpared d = Spared data_disk first d × Spared json first d
