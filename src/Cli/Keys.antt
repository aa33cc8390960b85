-- ===== src/Cli/Keys.antt =====
-- pkg/cli/setup.go, `ssh`, with pkg/utils/ssh.go: the pair of keys for the machine. The program
-- ssh-keygen and the parser of private keys are parameters.
pub mod Laws
pub mod Spares
use ovm.Base.{Bytes, bytes, Bool, true, false, if◌then◌else◌, Option, none, some, ◌++◌}
use ovm.Os.Outcome.{
  Error, errno, about, message, wrap, Result, ok, err, Action, pure, raise, attempt, wrapping,
  rewrap, resume, ◌>>=◌, ◌>>◌,
}
use ovm.Os.Disk.{Disk, Node}
use ovm.Os.Calls.{remove_all, mkdir_all, read_file}
use ovm.Text.FilePath.{path_join}
use ovm.Text.Trim.{trim_space}
use ovm.Utils.Files.{absolute, stat_node}

-- How ssh-keygen goes: whether its error pipe opens and it starts, what it does to the disk when it
-- is given the file of the private key, and what is read from the pipe.
pub record Keygen : Type 0 where
  pub pipe_opens : Bool
  pub starts : Bool
  pub run : Bytes → Action Disk (Unit {0})
  pub stderr : Option Bytes

report : Option Bytes → Error
report none = message "key generation failed, unable to read from stderr"
report (some text) = about "failed to generate keys" text

finished : Option Bytes → Result (Unit {0}) × Disk → Result (Unit {0}) × Disk
unfolding report
finished stderr (ok _, d) = (ok tt, d)
finished stderr (err e, d) = (err (report stderr), d)

-- `GenerateSSHKey`
unfoldable pub generate_ssh_key : Keygen → Bytes → Bytes → Action Disk (Unit {0})
unfolding finished
generate_ssh_key gen p name d =
    if gen.pipe_opens
    then (if gen.starts then finished gen.stderr (gen.run (path_join p name) d) else (err errno, d))
    else (err errno, d)

-- The fields of the context that `ssh` sets. Of the signer, what the parser makes of the key.
pub record Keys {ℓ} (Signer : Type ℓ) : Type ℓ where
  pub ssh_key_path : Bytes
  pub ssh_private_key_path : Bytes
  pub ssh_public_key_path : Bytes
  pub ssh_private_key : Bytes
  pub ssh_public_key : Bytes
  pub ssh_signer : Signer

-- Both files are examined, side by side; whether one of the two calls fails.
some_missing : Result Node → Result Node → Bool
some_missing (ok _) (ok _) = false
some_missing _ _ = true

-- The first block of `ssh`: the errors of removing are dropped.
unfoldable pub renew : Keygen → Bytes → Bytes → Action Disk (Unit {0})
unfolding generate_ssh_key remove_all
renew gen p name = do
  attempt (remove_all (path_join p name))
  attempt (remove_all (path_join p (name ++ bytes ".pub")))
  generate_ssh_key gen p name

unfoldable pub ensure_keys : Keygen → Bytes → Bytes → Action Disk (Unit {0})
unfolding some_missing renew stat_node
ensure_keys gen p name = do
  private ← attempt (stat_node (path_join p name))
  public ← attempt (stat_node (path_join p (name ++ bytes ".pub")))
  if some_missing private public then renew gen p name else pure tt

module _ {Signer : Type 0} (parse : Bytes → Option Signer) where
  parse_key : Bytes → Action Disk Signer
  parse_key text d = elim (parse text) [
    | none ↦ (err (message "parse private key error"), d)
    | some signer ↦ (ok signer, d)
  ]

  keys_of : Bytes → Bytes → Bytes → Bytes → Signer → Keys Signer
  unfolding trim_space
  keys_of p name public private signer = record {
    ssh_key_path = p;
    ssh_private_key_path = path_join p name;
    ssh_public_key_path = path_join p (name ++ bytes ".pub");
    ssh_private_key = trim_space private;
    ssh_public_key = trim_space public;
    ssh_signer = signer;
  }

  with_private : Bytes → Bytes → Bytes → Bytes → Action Disk (Keys Signer)
  unfolding parse_key keys_of
  with_private p name public private = do
    signer ← parse_key private
    pure (keys_of p name public private signer)

  with_public : Bytes → Bytes → Bytes → Action Disk (Keys Signer)
  unfolding with_private read_file
  with_public p name public = do
    private ← read_file (path_join p name)
    with_private p name public private

  -- The blocks behind it.
  unfoldable pub read_keys : Bytes → Bytes → Action Disk (Keys Signer)
  unfolding with_public read_file
  read_keys p name = do
    public ← read_file (path_join p (name ++ bytes ".pub"))
    with_public p name public

  -- `ssh`
  unfoldable pub setup_keys : Keygen → Option Bytes → Bytes → Bytes → Action Disk (Keys Signer)
  unfolding absolute mkdir_all ensure_keys read_keys
  setup_keys gen cwd flag name = do
    p ← absolute cwd flag
    mkdir_all p
    ensure_keys gen p name
    read_keys p name
