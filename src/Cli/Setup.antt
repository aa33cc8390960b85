-- ===== src/Cli/Setup.antt =====
-- pkg/cli/setup.go: `basic`, `logPath`, `sshPort`, `target`, and the two groups that `PreSetup` and
-- `Setup` run. Their tasks run side by side; here they run one after another, all of them.
pub mod Laws
pub mod Spares
pub mod Safety
use ovm.Base.{
  String, ℕ, ◌*◌, ◌%◌, ◌^◌, Bytes, bytes, Bool, true, false, if◌then◌else◌, Option, none, some,
  List, ◌++◌,
}
use ovm.Base.Int.{ℤ}
use ovm.Os.Outcome.{
  Error, errno, message, Result, ok, err, Action, pure, attempt, wrapping, rewrap, resume, ◌>>=◌,
  ◌>>◌,
}
use ovm.Os.Disk.{Disk, Node}
use ovm.Os.Calls.{mkdir_all}
use ovm.Text.FilePath.{path_join, base}
use ovm.Utils.Files.{absolute, stat_node, create_sparse_file}
use ovm.Utils.Port.{find_usable_port}
use ovm.Cli.Flags.{Flags}
use ovm.Cli.Shares.{Shares, shares_of}
use ovm.Cli.Versions.{Key, Codec}
use ovm.Cli.Target.{SrcPath, sources, install}
use ovm.Cli.Sockets.{Sockets, setup_sockets}
use ovm.Cli.Keys.{Keygen, Keys, setup_keys}

-- What the system says of the running program, and the hash of a text in hexadecimal digits.
pub record Program : Type 0 where
  pub executable : Option Bytes
  pub eval_symlinks : Bytes → Option Bytes
  pub lower : Bytes → Bytes
  pub md5_hex : Bytes → Bytes

-- The fields of the context that `basic` sets.
pub record Basics : Type 0 where
  pub name : Bytes
  pub cpus : ℕ
  pub memory_bytes : ℕ
  pub is_cli_mode : Bool
  pub bind_pid : ℤ
  pub event_socket_path : Bytes
  pub power_save_mode : Bool
  pub kernel_debug : Bool
  pub executable_path : Bytes
  pub lock_file : Bytes
  pub extend_share_dir : Shares

-- `memory * 1024 * 1024`, of type uint64.
unfoldable pub memory_bytes : ℕ → ℕ
memory_bytes memory = memory * 1024 % 2 ^ 64 * 1024 % 2 ^ 64

abbrev pub lock_prefix_path : Bytes
lock_prefix_path = bytes "/tmp/oomol-lab.ovm.lock.1118"

unfoldable pub lock_file_of : Bytes → Bytes → Bytes
lock_file_of hash name =
    lock_prefix_path ++ (bytes "/" ++ (hash ++ (bytes "-" ++ (name ++ bytes ".pid"))))

asked : String → Option Bytes → Action Disk Bytes
asked text none d = (err (message text), d)
asked text (some p) d = (ok p, d)

shares : Bytes → Action Disk Shares
unfolding shares_of
shares flag d = (shares_of d flag, d)

-- `basic`
unfoldable pub setup_basic : Program → Flags → Action Disk Basics
unfolding mkdir_all asked memory_bytes lock_file_of shares
setup_basic sys f = do
  mkdir_all lock_prefix_path
  p ← asked "get executable path error" sys.executable
  q ← asked "eval symlink error" (sys.eval_symlinks p)
  extra ← shares f.extend_share_dir
  pure (record {
    name = f.name;
    cpus = f.cpus;
    memory_bytes = memory_bytes f.memory;
    is_cli_mode = f.cli_mode;
    bind_pid = f.bind_pid;
    event_socket_path = f.event_socket_path;
    power_save_mode = f.power_save_mode;
    kernel_debug = f.kernel_debug;
    executable_path = sys.lower q;
    lock_file = lock_file_of (sys.md5_hex (sys.lower q)) f.name;
    extend_share_dir = extra;
  })

-- `logPath`
unfoldable pub setup_log_path : Option Bytes → Flags → Action Disk Bytes
unfolding absolute mkdir_all
setup_log_path cwd f = do p ← absolute cwd f.log_path; mkdir_all p; pure p

port_of : Option ℕ → Action Disk ℕ
port_of none d = (err errno, d)
port_of (some port) d = (ok port, d)

-- `sshPort`, by which ports are occupied.
unfoldable pub setup_ssh_port : (ℕ → Bool) → Action Disk ℕ
unfolding find_usable_port port_of
setup_ssh_port occupied = port_of (find_usable_port occupied 2233)

-- The fields of the context that `target` sets.
pub record Images : Type 0 where
  pub target_path : Bytes
  pub versions_path : Bytes
  pub kernel_path : Bytes
  pub initrd_path : Bytes
  pub rootfs_path : Bytes
  pub disk_data_path : Bytes
  pub disk_tmp_path : Bytes

unfoldable pub images_of : Bytes → Flags → Images
images_of p f = record {
  target_path = p;
  versions_path = path_join p (bytes "versions.json");
  kernel_path = path_join p (base f.kernel_path);
  initrd_path = path_join p (base f.initrd_path);
  rootfs_path = path_join p (base f.rootfs_path);
  disk_data_path = path_join p (bytes "data.img");
  disk_tmp_path = path_join p (bytes "tmp.img");
}

abbrev pub tmp_size : ℕ
tmp_size = 1 * 1024 * 1024 * 1024 * 1024

-- The scratch disk is made where os.Stat gives an error.
make_tmp : Bytes → Result Node → Action Disk (Unit {0})
unfolding create_sparse_file
make_tmp p (ok _) = pure tt
make_tmp p (err _) = create_sparse_file p tmp_size

unfoldable pub ensure_tmp : Bytes → Action Disk (Unit {0})
unfolding stat_node make_tmp
ensure_tmp p = do found ← attempt (stat_node p); make_tmp p found

module _ (j : Codec) (cwd : Option Bytes) where
  -- The part of `target` behind the folder.
  unfoldable pub fill_target : List Key → Flags → Images → Action Disk (Unit {0})
  unfolding install sources ensure_tmp
  fill_target order f images = do
    install j cwd order f.versions images.target_path
        (sources f.kernel_path f.initrd_path f.rootfs_path images.disk_data_path)
        images.versions_path
    ensure_tmp images.disk_tmp_path

  -- `target`; the order is that in which Go visits the map of the versions.
  unfoldable pub setup_target : List Key → Flags → Action Disk Images
  unfolding absolute mkdir_all images_of fill_target
  setup_target order f = do
    p ← absolute cwd f.target_path
    mkdir_all p
    fill_target order f (images_of p f)
    pure (images_of p f)

-- errgroup with two tasks: both run, and an error of one is the result.
both_results : {A B : Type 0} → Result A → Result B → Action Disk (A × B)
both_results (ok a) (ok b) d = (ok (a, b), d)
both_results (err e) _ d = (err e, d)
both_results (ok a) (err e) d = (err e, d)

pub in_group : {A B : Type 0} → Action Disk A → Action Disk B → Action Disk (A × B)
unfolding both_results
in_group m n = do a ← attempt m; b ← attempt n; both_results a b

-- `PreSetup`
unfoldable pub pre_setup : Program → Option Bytes → Flags → Action Disk (Basics × Bytes)
unfolding in_group setup_basic setup_log_path
pre_setup sys cwd f = in_group (setup_basic sys f) (setup_log_path cwd f)

module _ {Signer : Type 0} (parse : Bytes → Option Signer) where
  -- `Setup`
  unfoldable pub setup :
      Codec
      → Keygen
      → (ℕ → Bool)
      → Option Bytes
      → List Key
      → Flags
      → Action Disk (Sockets × (Keys Signer × (ℕ × Images)))
  unfolding in_group setup_sockets setup_keys setup_ssh_port setup_target
  setup j gen occupied cwd order f = in_group (setup_sockets cwd f.socket_path f.name) (
      in_group (setup_keys parse gen cwd f.ssh_key_path f.name)
        (in_group (setup_ssh_port occupied) (setup_target j cwd order f)))
