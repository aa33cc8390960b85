-- ===== src/Channel.antt =====
-- pkg/channel/channel.go: the three channels by which the parts of the program wait for each other.
-- Two have room for one value, and that of the clock is without bound.
pub mod Laws
use ovm.Base.{ℕ, Bool, true, false, if◌then◌else◌, List, [], ◌∷◌, ◌++◌}

pub data Name : Type 0 where
  gvproxy_ready vm_ready sync_time : Name

-- What the channels hold, and whether `Close` was called.
pub record Channels : Type 0 where
  pub held : Name → List Bool
  pub closed : Bool

-- How a call goes: it returns at once, a receive with a value; it waits; or it panics.
pub data Reply : Type 0 where
  done : Reply
  given : Bool → Reply
  waits : Reply
  panics : Reply

pub data Call : Type 0 where
  notify : Name → Call
  receive : Name → Call
  close : Call

abbrev pub same_name : Name → Name → Bool
same_name gvproxy_ready gvproxy_ready = true
same_name vm_ready vm_ready = true
same_name sync_time sync_time = true
same_name _ _ = false

abbrev pub write : Name → List Bool → Channels → Channels
write n vs c = record c { held = λ m. if same_name m n then vs else c.held m }

-- `init`
unfoldable pub start : Channels
start = record { held = λ n. []; closed = false }

put : Name → Channels → Channels
put n c = write n (c.held n ++ (true ∷ [])) c

-- A send on an open channel.
send_open : Name → List Bool → Channels → Reply × Channels
unfolding put
send_open sync_time held c = (done, put sync_time c)
send_open n [] c = (done, put n c)
send_open n (v ∷ vs) c = (waits, c)

-- `NotifyGVProxyReady`, `NotifyVMReady` and `NotifySyncTime`
unfoldable pub notify_on : Name → Channels → Reply × Channels
unfolding send_open
notify_on n c = if c.closed then (panics, c) else send_open n (c.held n) c

take_from : Name → List Bool → Channels → Reply × Channels
take_from n (v ∷ vs) c = (given v, write n vs c)
take_from n [] c = if c.closed then (given false, c) else (waits, c)

-- A receive from what the three `Receive` functions return. A closed channel that is empty gives the
-- zero value.
unfoldable pub receive_from : Name → Channels → Reply × Channels
unfolding take_from
receive_from n c = take_from n (c.held n) c

-- `Close`
unfoldable pub close_all : Channels → Reply × Channels
close_all c = if c.closed then (panics, c) else (done, record c { closed = true })

unfoldable pub call : Call → Channels → Reply × Channels
unfolding notify_on receive_from close_all
call (notify n) c = notify_on n c
call (receive n) c = receive_from n c
call close c = close_all c

-- Calls in the order in which they take effect, with their replies.
unfoldable pub run : List Call → Channels → List (Call × Reply) × Channels
unfolding call
run [] c = ([], c)
run (k ∷ ks) c = let (r, d) = call k c in let (rs, e) = run ks d in ((k, r) ∷ rs, e)
