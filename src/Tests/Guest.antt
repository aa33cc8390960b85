-- ===== src/Tests/Guest.antt =====
-- A machine that comes up, its network, and its clock.
use ovm.Base.{
  ◌↔◌, ◌<◌, ◌+◌, ℕ, Bytes, bytes, Bool, true, false, some, List, [], ◌∷◌, ◌++◌, length, ◌≡◌, refl,
  arith, All,
}
use ovm.Os.Outcome.{ok, is_ok}
use ovm.Text.Split.{after_prefix, join}
use ovm.Text.Decimal.{itoa}
use ovm.Text.Lines.{IsLine}
use ovm.Channel
use ovm.Channel.Laws.{total, sends, receives, trues, run-balance}
use ovm.Main.Shutdown.{Group, group_of, ◌⊸*◌, ◌⊶*◌, IsOver}
use ovm.Vfkit.Watch.{watch}
use ovm.Main.Shutdown.Laws.{can_end_iff}
use ovm.Main.Network.{network_before_machine}
use ovm.Gvproxy
use ovm.Gvproxy.Laws.{is_notice, run_of_notice}
use ovm.Gvproxy.Domains.{search_domains, search_domains-join, search_prefix, with_lines, IsOther}
use ovm.PowerMonitor.TimeSync.{took}
use ovm.PowerMonitor.SyncLoop.{Round, sync_loop}
use ovm.PowerMonitor.SyncLoop.Laws.{commands, read_frames, read_frames-sync_loop}
use ovm.Vfkit.Config.{Machine}
use ovm.Vfkit.State.{VmState, running}
use ovm.Vfkit.Run.{Host, Request, gvproxy_ready, run}
use ovm.Vfkit.Run.Laws.{is_started, some_deed}

abbrev machine : Machine
machine = record { bootloader = []; vcpus = 2; memory = 1073741824; devices = [] }

abbrev host : List VmState → Host
host states = record {
  log_opens = true;
  config = λ mounts. ok machine;
  converts = true;
  creates = true;
  api_listens = true;
  woken = gvproxy_ready;
  monitor_starts = true;
  starts = true;
  ignition_listens = true;
  zone_link = some (bytes "/var/db/timezone/zoneinfo/UTC");
  states = states;
}

abbrev request : Request
request = record { shares = []; public_key = bytes "ssh-rsa AAAA"; now = 1700000000 }

-- The machine does not run in time.
late_lem : some_deed is_started (run request (host []) []).1 ≡ true
unfolding run
late_lem = refl

watched_lem : (watch []).returned ≡ false
unfolding watch
watched_lem = refl

can_end_iff_example :
    ((t : Group)
      → group_of (run request (host []) []).1 [] 3 ⊶* t
      → IsOver t
      → t.machine_up ≡ false)
    × (((t : Group) × (group_of (run request (host []) []).1 [] 3 ⊸* t) × IsOver t)
        ↔ (is_ok (run request (host []) []).0 ≡ true))
can_end_iff_example = can_end_iff request (host []) 3 late_lem watched_lem

abbrev network : Gvproxy.Host
network = record {
  log_opens = true;
  creates = λ c. true;
  endpoint_listens = true;
  gateway_listens = true;
}

network_lem : Gvproxy.Laws.some_deed is_notice (Gvproxy.run 2233 [] network []).1 ≡ true
unfolding Gvproxy.run
network_lem = refl

abbrev domains : List Bytes
domains = bytes "lan" ∷ bytes "example.org" ∷ []

nameserver : All IsOther (bytes "nameserver 10.0.0.1" ∷ [])
unfolding after_prefix
nameserver = (
  record {
    is_line = record { no_newline = omega arith; no_return = omega arith; fits = omega arith };
    no_search = refl;
  },
  tt,
)

search-IsLine : IsLine (search_prefix ++ join 32 domains)
unfolding join
search-IsLine = record { no_newline = omega arith; no_return = omega arith; fits = omega arith }

search_domains-join_example :
    search_domains (
      some (
        with_lines
          (bytes "nameserver 10.0.0.1" ∷ [])
          ((search_prefix ++ join 32 domains) ++ (10 ∷ bytes "search other"))))
    ≡ domains
search_domains-join_example =
    search_domains-join (bytes "nameserver 10.0.0.1" ∷ []) domains (bytes "search other") nameserver
      (λ e. cc) (omega arith) search-IsLine

abbrev round : Bool → ℕ → Round
round connected now = record {
  now = now;
  connected = connected;
  header_answers = took 1 ∷ took 1 ∷ [];
  command_answers = took 9 ∷ took 10 ∷ [];
}

abbrev rounds : List Round
rounds = round false 1700000000 ∷ round true 1700000060 ∷ round true 1700000120 ∷ []

rounds_lem : (sync_loop rounds []).ended ≡ some true
unfolding sync_loop itoa
rounds_lem = refl

read_frames-sync_loop_example :
    read_frames (length (commands rounds)) (sync_loop rounds []).wire ≡ (commands rounds, [])
read_frames-sync_loop_example = read_frames-sync_loop rounds (omega arith) rounds_lem

-- The machine waits, is told, and goes on.
abbrev calls : List Channel.Call
calls =
    Channel.receive Channel.gvproxy_ready
    ∷ Channel.notify Channel.gvproxy_ready
    ∷ Channel.receive Channel.gvproxy_ready
    ∷ []

run-balance_example :
    let (es, d) = Channel.run calls Channel.start in
    total (receives Channel.gvproxy_ready) es + trues (d.held Channel.gvproxy_ready)
    ≡ total (sends Channel.gvproxy_ready) es + trues (Channel.start.held Channel.gvproxy_ready)
run-balance_example = run-balance Channel.gvproxy_ready calls Channel.start

told : 0 < total (receives Channel.gvproxy_ready) (Channel.run calls Channel.start).0
unfolding Channel.run Channel.start total
told = omega arith

started_lem : some_deed is_started (run request (host (running ∷ [])) []).1 ≡ true
unfolding run
started_lem = refl

network_before_machine_example : Gvproxy.run 2233 [] network [] ≡ (
  ok tt,
  Gvproxy.serving Gvproxy.on_endpoint
      ∷ Gvproxy.serving Gvproxy.on_gateway
      ∷ Gvproxy.notified_channel
      ∷ Gvproxy.notified_app
      ∷ Gvproxy.spawned_forward
      ∷ [],
)
network_before_machine_example =
    network_before_machine calls 2233 [] network request (host (running ∷ [])) (λ h. network_lem)
      (λ w. told) started_lem
