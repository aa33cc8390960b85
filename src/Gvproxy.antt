-- ===== src/Gvproxy.antt =====
-- pkg/gvproxy/gvproxy.go: the search domains, the configuration of the network, the order of `Run`,
-- and the task that forwards podman's socket. The network, its listeners and the tunnel are libraries.
pub mod Domains
pub mod Laws
use ovm.Base.{
  String, ℕ, Bytes, bytes, Bool, true, false, if◌then◌else◌, Option, none, some, List, [], ◌∷◌,
  ◌++◌,
}
use ovm.Os.Outcome.{Error, errno, message, wrap, Result, ok, err, Action, pure, resume, ◌>>=◌, ◌>>◌}
use ovm.Text.Decimal.{itoa}

abbrev pub gateway_ip : Bytes
gateway_ip = bytes "192.168.127.1"

abbrev pub ssh_host_port : Bytes
ssh_host_port = bytes "192.168.127.2:22"

abbrev pub host_ip : Bytes
host_ip = bytes "192.168.127.254"

-- A record of a zone; the address is the text that net.ParseIP reads.
pub record ZoneRecord : Type 0 where
  pub name : Bytes
  pub ip : Bytes

pub record Zone : Type 0 where
  pub name : Bytes
  pub records : List ZoneRecord

-- The fields of types.Configuration that are set; maps are lists of pairs.
pub record Configuration : Type 0 where
  pub debug : Bool
  pub capture_file : Bytes
  pub mtu : ℕ
  pub subnet : Bytes
  pub gateway_ip_of : Bytes
  pub gateway_mac_address : Bytes
  pub dhcp_static_leases : List (Bytes × Bytes)
  pub dns : List Zone
  pub dns_search_domains : List Bytes
  pub forwards : List (Bytes × Bytes)
  pub nat : List (Bytes × Bytes)
  pub gateway_virtual_ips : List Bytes
  pub vpn_kit_uuid_mac_addresses : List (Bytes × Bytes)

zone : Bytes → Zone
zone n = record {
  name = n;
  records =
      record { name = bytes "gateway"; ip = gateway_ip }
      ∷ record { name = bytes "host"; ip = host_ip }
      ∷ [];
}

-- The configuration, by the port of ssh and the search domains.
unfoldable pub configuration : ℕ → List Bytes → Configuration
unfolding zone itoa
configuration ssh_port domains = record {
  debug = false;
  capture_file = [];
  mtu = 5000;
  subnet = bytes "192.168.127.0/24";
  gateway_ip_of = gateway_ip;
  gateway_mac_address = bytes "5a:94:ef:e4:0c:dd";
  dhcp_static_leases = (bytes "192.168.127.2", bytes "5a:94:ef:e4:0c:ee") ∷ [];
  dns = zone (bytes "containers.internal.") ∷ zone (bytes "docker.internal.") ∷ [];
  dns_search_domains = domains;
  forwards = (bytes "127.0.0.1:" ++ itoa ssh_port, ssh_host_port) ∷ [];
  nat = (host_ip, bytes "127.0.0.1") ∷ [];
  gateway_virtual_ips = host_ip ∷ [];
  vpn_kit_uuid_mac_addresses =
      (bytes "c3d68012-0208-11ea-9fd7-f2189899ab08", bytes "5a:94:ef:e4:0c:ee") ∷ [];
}

-- What the tasks of `httpServe` serve.
pub data Server : Type 0 where
  on_endpoint on_gateway : Server

-- What others see of `Run`. A server is a task that serves and one that closes its listener.
pub data Deed : Type 0 where
  serving : Server → Deed
  notified_channel : Deed
  notified_app : Deed
  spawned_forward : Deed

-- The answers of the logger and of the library.
pub record Host : Type 0 where
  pub log_opens : Bool
  pub creates : Configuration → Bool  -- `virtualnetwork.New`
  pub endpoint_listens : Bool
  pub gateway_listens : Bool

require : Error → Bool → Action (List Deed) (Unit {0})
require e true s = (ok tt, s)
require e false s = (err e, s)

note : Deed → Action (List Deed) (Unit {0})
note d s = (ok tt, s ++ (d ∷ []))

-- `Run`
unfoldable pub run : ℕ → List Bytes → Host → Action (List Deed) (Unit {0})
unfolding require note configuration
run ssh_port domains h = do
  require (message "create gvproxy logger error") h.log_opens
  require errno (h.creates (configuration ssh_port domains))
  require (message "cannot listen") h.endpoint_listens
  note (serving on_endpoint)
  require errno h.gateway_listens
  note (serving on_gateway)
  note notified_channel
  note notified_app
  note spawned_forward

-- What the first select statement of the task receives.
pub data Woken : Type 0 where
  context_done vm_ready : Woken

-- A round of its loop: whether the context is done, and how the tunnel went, which is only logged.
pub record Round : Type 0 where
  pub done : Bool
  pub tunnel : Result (Unit {0})

-- How often a connection was waited for, whether the socket was removed, and the task's result;
-- `none` is a task that goes on.
pub record Forward : Type 0 where
  pub tunnels : ℕ
  pub removed_socket : Bool
  pub result : Option (Result (Unit {0}))

count_tunnel : Forward → Forward
count_tunnel f = record f { tunnels = ovm.Base.suc f.tunnels }

forward_loop : List Round → Forward
unfolding count_tunnel
forward_loop [] = record { tunnels = 0; removed_socket = false; result = none }
forward_loop (r ∷ rounds) =
    let rest = forward_loop rounds in
    if r.done
    then record { tunnels = 0; removed_socket = true; result = some (ok tt) }
    else count_tunnel rest

created : Bool → List Round → Forward
unfolding forward_loop
created false rounds = record { tunnels = 0; removed_socket = true; result = some (err errno) }
created true rounds = forward_loop rounds

-- The task, with the deferred removal of the socket.
unfoldable pub forward : Woken → Bool → List Round → Forward
unfolding created
forward context_done creates rounds = record {
  tunnels = 0;
  removed_socket = false;
  result = some (ok tt);
}
forward vm_ready creates rounds = created creates rounds
