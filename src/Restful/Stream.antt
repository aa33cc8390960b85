-- ===== src/Restful/Stream.antt =====
-- The handler of /exec from its goroutine on: the goroutine that runs the command, the loop that
-- sends the events, and the client that may go away, as steps of one system.
pub mod Account
pub mod Order
pub mod Laws
use ovm.Base.{Bytes, Bool, true, false, Option, none, some, List, [], ◌∷◌, ◌++◌, ◌≡◌, map}
use ovm.Restful.Exec.{Said}
use ovm.Restful.Sse.{encode_sse}

-- What the goroutine still has to do.
pub data Action : Type 0 where
  emit : Bytes → Action  -- a write into `outCh`
  fail : Bytes → Action  -- the text of an error into `errCh`
  signal_done : Action
  close_out : Action
  close_err : Action

pub data Event : Type 0 where
  out_event : Bytes → Event  -- with the text that `encodeSSE` makes
  error_event : Bytes → Event
  ping_event : Event
  done_event : Event

-- The handler: in its loop, returned after the event `done`, or returned without it.
pub data Handler : Type 0 where
  looping finished left : Handler

pub record Stream : Type 0 where
  pub todo : List Action
  pub pending : List Bytes  -- what is in `outCh`
  pub out_closed : Bool
  pub failure : Option Bytes  -- what is in `errCh`, which has room for one
  pub err_closed : Bool
  pub is_done : Bool  -- whether `doneCh` is full
  pub client_gone : Bool
  pub handler : Handler
  pub wire : List Event

abbrev failing : Option Bytes → List Action
failing none = []
failing (some e) = fail e ∷ []

-- The goroutine's work, from what `exec` says.
unfoldable pub script : Said → List Action
script said =
    map emit said.outputs ++ (failing said.error ++ (signal_done ∷ close_out ∷ close_err ∷ []))

unfoldable pub start : Said → Stream
unfolding script
start said = record {
  todo = script said;
  pending = [];
  out_closed = false;
  failure = none;
  err_closed = false;
  is_done = false;
  client_gone = false;
  handler = looping;
  wire = [];
}

abbrev pub send : Event → Stream → Stream
send e s = record s { wire = s.wire ++ (e ∷ []) }

infix 40 ◌⊳◌ ◌⊳*◌
pub data ◌⊳◌ (s t : Stream) : Type 0 where
  -- The goroutine.
  emits :
      (b : Bytes) (rest : List Action)
      → s.todo ≡ emit b ∷ rest
      → t ≡ record s { todo = rest; pending = s.pending ++ (b ∷ []) }
      → s ⊳ t
  fails :
      (e : Bytes) (rest : List Action)
      → s.todo ≡ fail e ∷ rest
      → s.failure ≡ none
      → t ≡ record s { todo = rest; failure = some e }
      → s ⊳ t
  signals :
      (rest : List Action)
      → s.todo ≡ signal_done ∷ rest
      → t ≡ record s { todo = rest; is_done = true }
      → s ⊳ t
  closes_out :
      (rest : List Action)
      → s.todo ≡ close_out ∷ rest
      → t ≡ record s { todo = rest; out_closed = true }
      → s ⊳ t
  closes_err :
      (rest : List Action)
      → s.todo ≡ close_err ∷ rest
      → t ≡ record s { todo = rest; err_closed = true }
      → s ⊳ t
  -- The client.
  leaves : t ≡ record s { client_gone = true } → s ⊳ t
  -- The cases of the select statement, of which any that is ready may be taken. A receive from a
  -- closed channel gives the empty text.
  take_done :
      s.handler ≡ looping
      → s.is_done ≡ true
      → s.client_gone ≡ false
      → t ≡ record (send done_event s) { is_done = false; handler = finished }
      → s ⊳ t
  take_done_gone :
      s.handler ≡ looping
      → s.is_done ≡ true
      → s.client_gone ≡ true
      → t ≡ record s { is_done = false; handler = left }
      → s ⊳ t
  take_error :
      (e : Bytes)
      → s.handler ≡ looping
      → s.failure ≡ some e
      → t ≡ record (send (error_event (encode_sse e)) s) { failure = none }
      → s ⊳ t
  take_closed_error :
      s.handler ≡ looping
      → s.failure ≡ none
      → s.err_closed ≡ true
      → t ≡ send (error_event (encode_sse [])) s
      → s ⊳ t
  take_out :
      (b : Bytes) (rest : List Bytes)
      → s.handler ≡ looping
      → s.pending ≡ b ∷ rest
      → t ≡ record (send (out_event (encode_sse b)) s) { pending = rest }
      → s ⊳ t
  take_closed_out :
      s.handler ≡ looping
      → s.pending ≡ []
      → s.out_closed ≡ true
      → t ≡ send (out_event (encode_sse [])) s
      → s ⊳ t
  take_gone : s.handler ≡ looping → s.client_gone ≡ true → t ≡ record s { handler = left } → s ⊳ t
  ping : s.handler ≡ looping → t ≡ send ping_event s → s ⊳ t

pub data ◌⊳*◌ (s : Stream) : Stream → Type 0 where
  here : s ⊳* s
  next : {t u : Stream} → s ⊳* t → t ⊳ u → s ⊳* u
