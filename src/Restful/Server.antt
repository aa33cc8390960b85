-- ===== src/Restful/Server.antt =====
-- pkg/ipc/restful/restful.go: `New` and `info`, from what the set up of the context has found.
use ovm.Base.{ℕ, Bytes, bytes, Bool, Option, [], ◌≡◌}
use ovm.Text.Trim.{trim_space}
use ovm.Cli.Sockets.{Sockets}
use ovm.Cli.Keys.{Keys}
use ovm.Cli.Keys.Laws.{IsOf}
use ovm.Restful.Routes.{Info, Server}

module _ {Signer : Type 0} where
  -- `info`
  unfoldable pub info_of : Sockets → Keys Signer → ℕ → Info
  info_of s k port = record {
    podman_socket_path = s.forward_socket_path;
    ssh_port = port;
    ssh_user = bytes "root";
    ssh_public_key_path = k.ssh_public_key_path;
    ssh_private_key_path = k.ssh_private_key_path;
    ssh_public_key = k.ssh_public_key;
    ssh_private_key = k.ssh_private_key;
  }

  -- `New`, with the context that it keeps.
  unfoldable pub new : Sockets → Keys Signer → ℕ → Bool → Server
  unfolding info_of
  new s k port power_save_mode = record {
    info = info_of s k port;
    power_save_mode = power_save_mode;
    calls = [];
  }

  -- A new server shows the keys whose files were read in the set up.
  info_shows_keys :
      (parse : Bytes → Option Signer) (s : Sockets) (k : Keys Signer) (port : ℕ) (mode : Bool)
      (private public : Bytes)
      → IsOf parse private public k
      → ((new s k port mode).info.ssh_public_key ≡ trim_space public)
        × ((new s k port mode).info.ssh_private_key ≡ trim_space private)
  unfolding new info_of
  info_shows_keys parse s k port mode private public h = (h.public_key, h.private_key)
