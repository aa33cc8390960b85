-- ===== src/Vfkit/Config.antt =====
-- pkg/vfkit/config.go: the devices of the machine, in the order in which they are added. The
-- bootloader and the machine itself are made by a library from the arguments below.
use ovm.Base.{ℕ, Bytes, bytes, Bool, true, false, List, [], ◌∷◌, ◌++◌, map, ◌≡◌, refl, ap}
use mathlib.Core.Path.{subst}
use ovm.Os.Outcome.{Result, ok, err, Action}
use ovm.Os.Disk.{Disk}
use ovm.Logger.{new_without_stream}
use ovm.Vfkit.KernelCmd.{kernel_cmd}
use ovm.Vfkit.Mounts.{Fs}

-- The fields of the context that the configuration reads.
pub record Options : Type 0 where
  pub name : Bytes
  pub log_path : Bytes
  pub is_cli_mode : Bool
  pub kernel_debug : Bool
  pub cpus : ℕ
  pub memory_bytes : ℕ
  pub kernel_path : Bytes
  pub initrd_path : Bytes
  pub rootfs_path : Bytes
  pub disk_tmp_path : Bytes
  pub disk_data_path : Bytes
  pub socket_network_path : Bytes
  pub socket_initrd_vsock_path : Bytes
  pub socket_ready_path : Bytes
  pub time_sync_socket_path : Bytes
  pub ssh_auth_socket_path : Bytes

pub data Device : Type 0 where
  block : Bytes → Device
  vsock : ℕ → Bytes → Device
  serial_stdio : Device
  serial_file : Bytes → Device
  shared : Bytes → Bytes → Device
  rng : Device

pub record Machine : Type 0 where
  pub bootloader : List Bytes
  pub vcpus : ℕ
  pub memory : ℕ
  pub devices : List Device

-- The arguments of the bootloader.
unfoldable pub bootloader_cmd : Bool → Options → List Bytes
unfolding kernel_cmd
bootloader_cmd is_amd64 opt =
    bytes "linux"
    ∷ (bytes "kernel=" ++ opt.kernel_path)
    ∷ (bytes "initrd=" ++ opt.initrd_path)
    ∷ (bytes "cmdline=" ++ kernel_cmd is_amd64 opt.is_cli_mode opt.kernel_debug)
    ∷ []

unfoldable pub to_vfkit : List Fs → List Device
to_vfkit = map (λ f. shared f.share_dir f.tag)

before_serial : Options → List Device
before_serial opt =
    block opt.rootfs_path
    ∷ block opt.disk_tmp_path
    ∷ block opt.disk_data_path
    ∷ vsock 1024 opt.socket_network_path
    ∷ vsock 1025 opt.socket_initrd_vsock_path
    ∷ vsock 1026 opt.socket_ready_path
    ∷ vsock 1027 opt.time_sync_socket_path
    ∷ vsock 1028 opt.ssh_auth_socket_path
    ∷ []

machine_with : Bool → Options → List Fs → Device → Machine
unfolding before_serial bootloader_cmd to_vfkit
machine_with is_amd64 opt list serial = record {
  bootloader = bootloader_cmd is_amd64 opt;
  vcpus = opt.cpus;
  memory = opt.memory_bytes;
  devices = before_serial opt ++ ((serial ∷ to_vfkit list) ++ (rng ∷ []));
}

with_log : Bool → Options → List Fs → Result Bytes × Disk → Result Machine × Disk
unfolding machine_with
with_log is_amd64 opt list (err e, d) = (err e, d)
with_log is_amd64 opt list (ok path, d) =
    (ok (machine_with is_amd64 opt list (serial_file path)), d)

-- By `IsCliMode`: the console is the terminal, or a log file.
with_console : Bool → Bool → Options → List Fs → Action Disk Machine
unfolding with_log machine_with new_without_stream
with_console true is_amd64 opt list d = (ok (machine_with is_amd64 opt list serial_stdio), d)
with_console false is_amd64 opt list d =
    with_log is_amd64 opt list (new_without_stream opt.log_path (opt.name ++ bytes "-vm") d)

-- `vmConfig`, where the library accepts the bootloader's arguments.
unfoldable pub vm_config : Bool → Options → List Fs → Action Disk Machine
unfolding with_console
vm_config is_amd64 opt list = with_console opt.is_cli_mode is_amd64 opt list

-- The block devices in their order: the guest names them vda, vdb, vdc.
pub blocks : List Device → List Bytes
blocks [] = []
blocks (block p ∷ ds) = p ∷ blocks ds
blocks (_ ∷ ds) = blocks ds

pub vsock_ports : List Device → List (ℕ × Bytes)
vsock_ports [] = []
vsock_ports (vsock n p ∷ ds) = (n, p) ∷ vsock_ports ds
vsock_ports (_ ∷ ds) = vsock_ports ds

blocks_end : (list : List Fs) → blocks (to_vfkit list ++ (rng ∷ [])) ≡ []
unfolding blocks to_vfkit
blocks_end [] = refl
blocks_end (f ∷ list) = blocks_end list

ports_end : (list : List Fs) → vsock_ports (to_vfkit list ++ (rng ∷ [])) ≡ []
unfolding vsock_ports to_vfkit
ports_end [] = refl
ports_end (f ∷ list) = ports_end list

made_eq : {a b : Machine} → ok a ≡ ok b → a ≡ b
made_eq h = cc

-- The machine has the disks and the ports of the options, in their order.
pub record HasDevices (opt : Options) (ds : List Device) : Type 0 where
  pub disks : blocks ds ≡ opt.rootfs_path ∷ opt.disk_tmp_path ∷ opt.disk_data_path ∷ []
  pub ports :
      vsock_ports ds
      ≡ (1024, opt.socket_network_path)
        ∷ (1025, opt.socket_initrd_vsock_path)
        ∷ (1026, opt.socket_ready_path)
        ∷ (1027, opt.time_sync_socket_path)
        ∷ (1028, opt.ssh_auth_socket_path)
        ∷ []

devices-HasDevices :
    (opt : Options) (ds : List Device)
    → blocks ds ≡ []
    → vsock_ports ds ≡ []
    → HasDevices opt (before_serial opt ++ ds)
unfolding before_serial blocks vsock_ports
devices-HasDevices opt ds hb hp = record {
  disks = ap (λ l. opt.rootfs_path ∷ opt.disk_tmp_path ∷ opt.disk_data_path ∷ l) hb;
  ports =
      ap
        (λ l.
          (1024, opt.socket_network_path)
          ∷ (1025, opt.socket_initrd_vsock_path)
          ∷ (1026, opt.socket_ready_path)
          ∷ (1027, opt.time_sync_socket_path)
          ∷ (1028, opt.ssh_auth_socket_path)
          ∷ l)
        hp;
}

with_log-HasDevices :
    (is_amd64 : Bool) (opt : Options) (list : List Fs) (r : Result Bytes × Disk) (m : Machine)
    (d : Disk)
    → with_log is_amd64 opt list r ≡ (ok m, d)
    → HasDevices opt m.devices
unfolding with_log machine_with blocks vsock_ports
with_log-HasDevices is_amd64 opt list (err e, d') m d h = let no_machine = ap (λ r. r.0) h in cc
with_log-HasDevices is_amd64 opt list (ok path, d') m d h =
    let made : ok (machine_with is_amd64 opt list (serial_file path)) ≡ ok m = ap (λ r. r.0) h in
    subst (HasDevices opt) (ap (λ (x : Machine). x.devices) (made_eq made))
      (devices-HasDevices opt _ (blocks_end list) (ports_end list))

with_console-HasDevices :
    (cli is_amd64 : Bool) (opt : Options) (list : List Fs) (d d' : Disk) (m : Machine)
    → with_console cli is_amd64 opt list d ≡ (ok m, d')
    → HasDevices opt m.devices
unfolding with_console machine_with blocks vsock_ports
with_console-HasDevices true is_amd64 opt list d d' m h =
    let made : ok (machine_with is_amd64 opt list serial_stdio) ≡ ok m = ap (λ r. r.0) h in
    subst (HasDevices opt) (ap (λ (x : Machine). x.devices) (made_eq made))
      (devices-HasDevices opt _ (blocks_end list) (ports_end list))
with_console-HasDevices false is_amd64 opt list d d' m h =
    with_log-HasDevices is_amd64 opt list _ m d' h

-- Every configuration that is made attaches the root image, the scratch disk and the data disk as
-- the first, second and third block device, and each socket at its own port, whatever is shared and
-- wherever the console goes.
pub vm_config-HasDevices :
    (is_amd64 : Bool) (opt : Options) (list : List Fs) (d d' : Disk) (m : Machine)
    → vm_config is_amd64 opt list d ≡ (ok m, d')
    → HasDevices opt m.devices
unfolding vm_config
vm_config-HasDevices is_amd64 opt list d d' m h =
    with_console-HasDevices opt.is_cli_mode is_amd64 opt list d d' m h
