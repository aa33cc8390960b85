-- ===== src/PowerMonitor/Tasks.antt =====
-- pkg/powermonitor/timesync.go: the three tasks that `initTimeSync` starts, with the guest that dials
-- and the requests of the channel, as a step relation. What one request writes is in `SyncLoop`.
pub mod Laws
pub mod Ending
use ovm.Base.{
  ℕ, zero, suc, ◌+◌, Bool, true, false, if◌then◌else◌, Option, none, some, List, [], ◌∷◌, ◌≡◌,
}
use ovm.Os.Outcome.{Error, errno, wrap, Result, ok, err}

-- The task that waits for the context and closes the listener, and the one that accepts.
pub data Closer : Type 0 where
  waiting closed : Closer

-- The second: in `Accept`, with a connection, with `timeSyncConn` set, and returned.
pub data Acceptor : Type 0 where
  waiting holding stored : Acceptor
  returned : Result (Unit {0}) → Acceptor

-- The loop: at the select, behind the check of `timeSyncConn`, and returned.
pub data Syncer : Type 0 where
  selecting writing : Syncer
  returned : Result (Unit {0}) → Syncer

-- `connected` says that `timeSyncConn` is set; `dialled` that a connection waits to be accepted.
-- The last five count the requests: made, in the channel, dropped, written to the guest as a whole,
-- and given up in a write that failed.
pub record Tasks : Type 0 where
  pub done : Bool
  pub listening : Bool
  pub dialled : Bool
  pub connected : Bool
  pub closer : Closer
  pub acceptor : Acceptor
  pub syncer : Syncer
  pub asked : ℕ
  pub queued : ℕ
  pub dropped : ℕ
  pub written : ℕ
  pub failed : ℕ

-- Where `net.Listen` succeeds.
abbrev pub start : Tasks
start = record {
  done = false;
  listening = true;
  dialled = false;
  connected = false;
  closer = Closer.waiting;
  acceptor = Acceptor.waiting;
  syncer = selecting;
  asked = 0;
  queued = 0;
  dropped = 0;
  written = 0;
  failed = 0;
}

-- A request is received: without a connection the loop goes on at once.
abbrev pub receive : ℕ → Tasks → Tasks
receive left s =
    if s.connected
    then record s { queued = left; syncer = writing }
    else record s { queued = left; dropped = suc s.dropped }

infix 40 ◌⇝◌ ◌⇝*◌
pub data ◌⇝◌ (s t : Tasks) : Type 0 where
  -- The context, the guest, and `NotifySyncTime`.
  cancel : t ≡ record s { done = true } → s ⇝ t
  dial : s.listening ≡ true → t ≡ record s { dialled = true } → s ⇝ t
  ask : t ≡ record s { asked = suc s.asked; queued = suc s.queued } → s ⇝ t
  -- The first task.
  close :
      s.closer ≡ Closer.waiting
      → s.done ≡ true
      → t ≡ record s { listening = false; closer = closed }
      → s ⇝ t
  -- The second task.
  accept :
      s.acceptor ≡ Acceptor.waiting
      → s.listening ≡ true
      → s.dialled ≡ true
      → t ≡ record s { dialled = false; acceptor = holding }
      → s ⇝ t
  -- `timeSyncConn = &conn`
  store : s.acceptor ≡ holding → t ≡ record s { connected = true; acceptor = stored } → s ⇝ t
  return_accepted :
      s.acceptor ≡ stored → t ≡ record s { acceptor = Acceptor.returned (ok tt) } → s ⇝ t
  accept_fails :
      s.acceptor ≡ Acceptor.waiting
      → s.listening ≡ false
      → t ≡ record s {
        acceptor = Acceptor.returned (err (wrap "accept time sync socket file error" errno));
      }
      → s ⇝ t
  -- The third task: the two cases of its select, and the end of the two writes.
  stop_syncing :
      s.syncer ≡ selecting
      → s.done ≡ true
      → t ≡ record s { syncer = Syncer.returned (ok tt) }
      → s ⇝ t
  take_request :
      (left : ℕ) → s.syncer ≡ selecting → s.queued ≡ suc left → t ≡ receive left s → s ⇝ t
  write_ends :
      s.syncer ≡ writing → t ≡ record s { written = suc s.written; syncer = selecting } → s ⇝ t
  write_fails :
      (e : Error)
      → s.syncer ≡ writing
      → t ≡ record s { failed = suc s.failed; syncer = Syncer.returned (err e) }
      → s ⇝ t

pub data ◌⇝*◌ (s : Tasks) : Tasks → Type 0 where
  here : s ⇝* s
  next : {t u : Tasks} → s ⇝* t → t ⇝ u → s ⇝* u
