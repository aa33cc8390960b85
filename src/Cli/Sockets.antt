-- ===== src/Cli/Sockets.antt =====
-- pkg/cli/setup.go, `socketPath`: the folder of the sockets and the eight addresses in it.
pub mod Laws
use ovm.Base.{Bytes, bytes, Option, List, [], ◌∷◌, ◌++◌}
use ovm.Os.Outcome.{Action, pure, ◌>>=◌, ◌>>◌}
use ovm.Os.Disk.{Disk}
use ovm.Os.Calls.{remove_all, mkdir_all}
use ovm.Text.FilePath.{path_join}
use ovm.Utils.Files.{absolute}

-- The fields of the context that `socketPath` sets.
pub record Sockets : Type 0 where
  pub socket_path : Bytes
  pub forward_socket_path : Bytes
  pub socket_network_path : Bytes
  pub socket_initrd_vsock_path : Bytes
  pub socket_ready_path : Bytes
  pub restful_socket_path : Bytes
  pub time_sync_socket_path : Bytes
  pub ssh_auth_socket_path : Bytes
  pub endpoint : Bytes

unfoldable pub sockets_of : Bytes → Bytes → Sockets
sockets_of p name = record {
  socket_path = p;
  forward_socket_path = path_join p (name ++ bytes "-podman.sock");
  socket_network_path = path_join p (name ++ bytes "-vfkit-network.sock");
  socket_initrd_vsock_path = path_join p (name ++ bytes "-initrd-vsock.sock");
  socket_ready_path = path_join p (name ++ bytes "-ready.sock");
  restful_socket_path = path_join p (name ++ bytes "-restful.sock");
  time_sync_socket_path = path_join p (name ++ bytes "-sync-time.sock");
  ssh_auth_socket_path = path_join p (name ++ bytes "-ssh-auth.sock");
  endpoint = bytes "unix://" ++ path_join p (name ++ bytes "-vfkit-network.sock");
}

-- `socketPath`, by the working directory, the flag, and the name of the machine.
unfoldable pub setup_sockets : Option Bytes → Bytes → Bytes → Action Disk Sockets
unfolding sockets_of absolute remove_all mkdir_all
setup_sockets cwd flag name = do
  p ← absolute cwd flag
  remove_all p
  mkdir_all p
  pure (sockets_of p name)

-- The files of the seven sockets.
abbrev pub files : Sockets → List Bytes
files s =
    s.forward_socket_path ∷ s.socket_network_path ∷ s.socket_initrd_vsock_path ∷ s.socket_ready_path
    ∷ s.restful_socket_path ∷ s.time_sync_socket_path ∷ s.ssh_auth_socket_path ∷ []
