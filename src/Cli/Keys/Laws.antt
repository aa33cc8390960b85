-- ===== src/Cli/Keys/Laws.antt =====
-- What becomes of a pair of keys that is there.
use ovm.Base.{Bytes, bytes, Option, some, ◌++◌, ◌≡◌, arith, false}
use ovm.Os.Outcome.{ok, err, Action, ◌>>◌, Result}
use ovm.Os.Disk.{Disk, file, stat_call}
use ovm.Os.Calls.{read_file}
use ovm.Text.FilePath.{path_join}
use ovm.Text.Trim.{trim_space}
use ovm.Cli.Keys.{Keygen, Keys, ensure_keys, read_keys, parse_key, with_public, with_private}

-- Both files are there and can be examined.
pub record HasKeys (p name private public : Bytes) (d : Disk) : Type 0 where
  pub private_there : d.entry (path_join p name) ≡ some (file private)
  pub public_there : d.entry (path_join p (name ++ bytes ".pub")) ≡ some (file public)
  pub private_known : d.fault (stat_call (path_join p name)) ≡ false
  pub public_known : d.fault (stat_call (path_join p (name ++ bytes ".pub"))) ≡ false

read_file-same : (p : Bytes) (d : Disk) → (read_file p d).1 ≡ d
unfolding read_file
read_file-same p d = ground arith

module _ {Signer : Type 0} (parse : Bytes → Option Signer) where
  pub read_keys-same : (p name : Bytes) (d : Disk) → (read_keys parse p name d).1 ≡ d
  unfolding read_keys with_public with_private parse_key read_file
  read_keys-same p name d = ground arith

  -- The keys that are handed on are those of the files.
  pub record IsOf (private public : Bytes) (k : Keys Signer) : Type 0 where
    pub public_key : k.ssh_public_key ≡ trim_space public
    pub private_key : k.ssh_private_key ≡ trim_space private
    pub signer : parse private ≡ some k.ssh_signer

  -- A result that is no error has the keys of the files.
  abbrev pub Handed : Bytes → Bytes → Result (Keys Signer) → Type 0
  Handed private public (ok k) = IsOf private public k
  Handed private public (err e) = Unit

  after_folder : Keygen → Bytes → Bytes → Action Disk (Keys Signer)
  after_folder gen p name = ensure_keys gen p name >> read_keys parse p name
