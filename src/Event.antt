-- ===== src/Event.antt =====
-- pkg/ipc/event/event.go: the queue of the events, the goroutine that sends them, and the handshake
-- at the exit. What a request is answered is only logged. `Setup` was given a socket path.
pub mod Uri
pub mod Laws
pub mod Setup
use ovm.Base.{Bytes, Bool, true, false, List, [], ◌∷◌, ◌++◌, ◌≡◌, ◌≢◌}

pub data Key : Type 0 where
  k_app k_error k_exit : Key

pub record Datum : Type 0 where
  pub name : Key
  pub message : Bytes

abbrev pub exit_datum : Datum
exit_datum = record { name = k_exit; message = [] }

abbrev pub is_exit : Datum → Bool
is_exit d = elim d.name [ k_exit ↦ true | _ ↦ false ]

-- The goroutine: in its loop, in the send on `waitDone`, or returned.
pub data Consumer : Type 0 where
  looping signalling stopped : Consumer

-- `NotifyExit`, which main calls once.
pub data ExitCall : Type 0 where
  not_called waiting_done closing returned : ExitCall

pub record Events : Type 0 where
  pub waiting : List Datum  -- what is in the channel
  pub requested : List Datum  -- the events that a request was made for, in their order
  pub consumer : Consumer
  pub exit_call : ExitCall
  pub closed : Bool
  pub panicked : Bool
  -- All that was put into the channel. The program does not keep it.
  pub history : List Datum

abbrev pub start : Events
start = record {
  waiting = [];
  requested = [];
  consumer = looping;
  exit_call = not_called;
  closed = false;
  panicked = false;
  history = [];
}

abbrev pub after_request : Datum → Consumer
after_request d = elim d.name [ k_exit ↦ signalling | _ ↦ looping ]

-- `e.channel.In() <- d`
abbrev pub put : Datum → Events → Events
put d s = record s { waiting = s.waiting ++ (d ∷ []); history = s.history ++ (d ∷ []) }

abbrev pub request : Datum → List Datum → Events → Events
request d rest s = record s {
  waiting = rest;
  requested = s.requested ++ (d ∷ []);
  consumer = after_request d;
}

infix 40 ◌⇒◌ ◌⇒*◌
pub data ◌⇒◌ (s t : Events) : Type 0 where
  -- `NotifyApp` and `NotifyError`.
  notify : (d : Datum) → is_exit d ≡ false → s.closed ≡ false → t ≡ put d s → s ⇒ t
  notify_closed :
      (d : Datum) → is_exit d ≡ false → s.closed ≡ true → t ≡ record s { panicked = true } → s ⇒ t
  -- `NotifyExit` up to its receive.
  notify_exit :
      s.exit_call ≡ not_called
      → s.closed ≡ false
      → t ≡ record (put exit_datum s) { exit_call = waiting_done }
      → s ⇒ t
  -- A round of the goroutine's loop.
  send_request :
      (d : Datum) (rest : List Datum)
      → s.consumer ≡ looping
      → s.waiting ≡ d ∷ rest
      → t ≡ request d rest s
      → s ⇒ t
  -- The send and the receive on `waitDone`.
  done :
      s.consumer ≡ signalling
      → s.exit_call ≡ waiting_done
      → t ≡ record s { consumer = stopped; exit_call = closing }
      → s ⇒ t
  -- `e.channel.Close()`, and the return of `NotifyExit`.
  close : s.exit_call ≡ closing → t ≡ record s { exit_call = returned; closed = true } → s ⇒ t

pub data ◌⇒*◌ (s : Events) : Events → Type 0 where
  here : s ⇒* s
  next : {t u : Events} → s ⇒* t → t ⇒ u → s ⇒* u
