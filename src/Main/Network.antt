-- ===== src/Main/Network.antt =====
-- cmd/ovm/main.go starts gvproxy and vfkit side by side; pkg/channel/channel.go lets the one wait for
-- the other.
use ovm.Base.{ℕ, Bytes, true, ◌<◌, List, [], ◌∷◌, ◌≡◌}
use ovm.Os.Outcome.{ok}
use ovm.Channel
use ovm.Channel.{Name, Channels, Call, Reply}
use ovm.Channel.Laws.{total, sends, receives, received_was_sent}
use ovm.Gvproxy
use ovm.Gvproxy.Laws.{is_notice, run_of_notice}
use ovm.Vfkit.Run.{Request, Host, gvproxy_ready, run}
use ovm.Vfkit.Run.Laws.{is_started, some_deed, run-started}

-- In whichever order the calls on the channels take effect: if only gvproxy's `Run` sends the notice,
-- and vfkit's `Run` goes on only with a notice that it has received, then a machine that has been
-- started has its network: gvproxy's `Run` has succeeded, with both of its servers.
pub network_before_machine :
    (calls : List Call) (ssh_port : ℕ) (domains : List Bytes) (g : Gvproxy.Host) (r : Request)
    (h : Host)
    → (0 < total (sends Name.gvproxy_ready) (Channel.run calls Channel.start).0
        → Gvproxy.Laws.some_deed is_notice (Gvproxy.run ssh_port domains g []).1 ≡ true)
    → (h.woken ≡ gvproxy_ready
        → 0 < total (receives Name.gvproxy_ready) (Channel.run calls Channel.start).0)
    → some_deed is_started (run r h []).1 ≡ true
    → Gvproxy.run ssh_port domains g [] ≡ (
      ok tt,
      Gvproxy.serving Gvproxy.on_endpoint
          ∷ Gvproxy.serving Gvproxy.on_gateway
          ∷ Gvproxy.notified_channel
          ∷ Gvproxy.notified_app
          ∷ Gvproxy.spawned_forward
          ∷ [],
    )
network_before_machine calls ssh_port domains g r h sender receiver e =
    run_of_notice ssh_port domains g
      (sender (received_was_sent Name.gvproxy_ready calls (receiver (run-started r h e))))
