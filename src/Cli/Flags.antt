-- ===== src/Cli/Flags.antt =====
-- pkg/cli/cli.go: the values of the flags, and the check that the required ones are given. Reading
-- them from the arguments is Go's flag package.
use ovm.Base.{
  ◌↔◌, ℕ, String, Bytes, same, Bool, ◌==◌, if◌then◌else◌, Option, none, some, [], ◌≡◌, ◌≢◌, arith,
}
use ovm.Base.Int.{ℤ}

pub record Flags : Type 0 where
  pub name : Bytes
  pub log_path : Bytes
  pub socket_path : Bytes
  pub ssh_key_path : Bytes
  pub cpus : ℕ
  pub memory : ℕ
  pub kernel_path : Bytes
  pub initrd_path : Bytes
  pub rootfs_path : Bytes
  pub target_path : Bytes
  pub versions : Bytes
  pub event_socket_path : Bytes
  pub cli_mode : Bool
  pub bind_pid : ℤ
  pub power_save_mode : Bool
  pub kernel_debug : Bool
  pub extend_share_dir : Bytes

-- `Validate`: the error's text, or `none`.
unfoldable pub validate : Flags → Option String
validate f =
    if same f.name []
    then some "name is required"
    else if same f.log_path []
    then some "log-path is required"
    else if same f.socket_path []
    then some "socket-path is required"
    else if same f.ssh_key_path []
    then some "ssh-key-path is required"
    else if f.cpus == 0
    then some "vcpu is required"
    else if f.memory == 0
    then some "memory is required"
    else if same f.kernel_path []
    then some "kernel-path is required"
    else if same f.initrd_path []
    then some "initrd-path is required"
    else if same f.rootfs_path []
    then some "rootfs-path is required"
    else if same f.target_path []
    then some "disk-path is required"
    else if same f.versions []
    then some "versions is required"
    else none

pub record IsComplete (f : Flags) : Type 0 where
  pub has_name : f.name ≢ []
  pub has_log_path : f.log_path ≢ []
  pub has_socket_path : f.socket_path ≢ []
  pub has_ssh_key_path : f.ssh_key_path ≢ []
  pub has_cpus : f.cpus ≢ 0
  pub has_memory : f.memory ≢ 0
  pub has_kernel_path : f.kernel_path ≢ []
  pub has_initrd_path : f.initrd_path ≢ []
  pub has_rootfs_path : f.rootfs_path ≢ []
  pub has_target_path : f.target_path ≢ []
  pub has_versions : f.versions ≢ []

-- The flags pass exactly if none of the eleven that are required is empty or zero.
validate_iff : (f : Flags) → (validate f ≡ none) ↔ IsComplete f
unfolding validate
validate_iff f = (
  λ h. record {
    has_name = ground arith;
    has_log_path = ground arith;
    has_socket_path = ground arith;
    has_ssh_key_path = ground arith;
    has_cpus = ground arith;
    has_memory = ground arith;
    has_kernel_path = ground arith;
    has_initrd_path = ground arith;
    has_rootfs_path = ground arith;
    has_target_path = ground arith;
    has_versions = ground arith;
  },
  λ h. ground arith,
)
