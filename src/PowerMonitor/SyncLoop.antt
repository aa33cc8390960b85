-- ===== src/PowerMonitor/SyncLoop.antt =====
-- pkg/powermonitor/timesync.go: the task of `initTimeSync` that waits for requests to set the clock.
pub mod Laws
use ovm.Base.{ℕ, Bytes, Bool, true, false, Option, none, some, List, [], ◌∷◌}
use ovm.PowerMonitor.TimeSync.{Written, Sent, send_time}

-- A request: the moment at which it is received, whether the guest has connected by then, and what
-- the connection answers to the two writes.
pub record Round : Type 0 where
  pub now : ℕ
  pub connected : Bool
  pub header_answers : List Written
  pub command_answers : List Written

go_on : (Bytes → Sent) → Sent → Option Bool → Sent
go_on rest sent none = sent
go_on rest sent (some false) = sent
go_on rest sent (some true) = rest sent.wire

after_send : (Bytes → Sent) → Sent → Sent
unfolding go_on
after_send rest sent = go_on rest sent sent.ended

on_round : (Bytes → Sent) → Round → Bool → Bytes → Sent
unfolding after_send send_time
on_round rest r false wire = rest wire
on_round rest r true wire =
    after_send rest (send_time r.now r.header_answers r.command_answers wire)

-- The loop over the requests, behind which the context is done. A write that fails ends it.
unfoldable pub sync_loop : List Round → Bytes → Sent
unfolding on_round
sync_loop [] wire = record { wire = wire; ended = some true }
sync_loop (r ∷ rounds) wire = on_round (sync_loop rounds) r r.connected wire
