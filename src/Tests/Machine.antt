-- ===== src/Tests/Machine.antt =====
-- A machine with a folder shared twice.
use ovm.Base.{Bytes, bytes, true, false, none, List, [], ◌∷◌, ◌≡◌, refl}
use ovm.Os.Outcome.{ok}
use ovm.Os.Disk.{Disk}
use ovm.Vfkit.Config.{
  Options, Machine, vm_config, HasDevices, vm_config-HasDevices, bootloader_cmd, to_vfkit, block,
  vsock, serial_stdio, shared, rng,
}
use ovm.Vfkit.Mounts.{initial_mounts, extend_all}
use ovm.Vfkit.Mounts.Laws.{AllDiffer, initial_mounts-AllDiffer, extend_all-AllDiffer}

abbrev disk : Disk
disk = record {
  entry = λ q. none;
  fault = λ c. false;
  open_at = λ n. none;
  next_fd = 3;
  partial = λ p. 0;
}

abbrev options : Options
options = record {
  name = bytes "ovm";
  log_path = bytes "/logs";
  is_cli_mode = true;
  kernel_debug = false;
  cpus = 2;
  memory_bytes = 1073741824;
  kernel_path = bytes "/vm/kernel";
  initrd_path = bytes "/vm/initrd";
  rootfs_path = bytes "/vm/rootfs";
  disk_tmp_path = bytes "/vm/tmp.img";
  disk_data_path = bytes "/vm/data.img";
  socket_network_path = bytes "/s/net";
  socket_initrd_vsock_path = bytes "/s/initrd";
  socket_ready_path = bytes "/s/ready";
  time_sync_socket_path = bytes "/s/time";
  ssh_auth_socket_path = bytes "/s/ssh";
}

abbrev machine : Machine
machine = record {
  bootloader = bootloader_cmd true options;
  vcpus = 2;
  memory = 1073741824;
  devices =
      block (bytes "/vm/rootfs")
      ∷ block (bytes "/vm/tmp.img")
      ∷ block (bytes "/vm/data.img")
      ∷ vsock 1024 (bytes "/s/net")
      ∷ vsock 1025 (bytes "/s/initrd")
      ∷ vsock 1026 (bytes "/s/ready")
      ∷ vsock 1027 (bytes "/s/time")
      ∷ vsock 1028 (bytes "/s/ssh")
      ∷ serial_stdio
      ∷ shared (bytes "/Users") (bytes "vfkit-share-user")
      ∷ shared (bytes "/var/folders") (bytes "vfkit-share-var-folders")
      ∷ shared (bytes "/private") (bytes "vfkit-share-private")
      ∷ rng
      ∷ [];
}

machine_lem : vm_config true options initial_mounts disk ≡ (ok machine, disk)
unfolding vm_config bootloader_cmd to_vfkit initial_mounts
machine_lem = refl

vm_config-HasDevices_example : HasDevices options machine.devices
vm_config-HasDevices_example =
    vm_config-HasDevices true options initial_mounts disk disk machine machine_lem

abbrev more : List (Bytes × Bytes)
more =
    (bytes "mine", bytes "/opt")
    ∷ (bytes "again", bytes "/opt")
    ∷ (bytes "home", bytes "/Users")
    ∷ []

extend_all-AllDiffer_example : AllDiffer (extend_all more initial_mounts)
extend_all-AllDiffer_example = extend_all-AllDiffer more initial_mounts initial_mounts-AllDiffer
