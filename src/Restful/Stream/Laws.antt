-- ===== src/Restful/Stream/Laws.antt =====
-- What the client sees of the command's output.
use ovm.Restful.Stream.Account.{
  texts, seen, outputs_left, account, step-account, texts-append, outputs_of,
}
use ovm.Restful.Stream.Order.{
  Sequenced, EndsWithDone, OnWire, step-Sequenced, step-OnWire, Signalled, step-Signalled,
  script-Sequenced,
}
use mathlib.Core.Path.{subst}
use ovm.Base.{
  Bytes, none, List, [], ◌∷◌, ◌++◌, map, ◌≡◌, refl, sym, ap, ◌∙◌, append_assoc, append-nil,
}
use ovm.Restful.Exec.{Said}
use ovm.Restful.Sse.{encode_sse}
use ovm.Restful.Stream.{
  Action, emit, signal_done, close_out, close_err, done_event, finished, Stream, script, start,
  emits, signals, take_done, ◌⊳*◌, here, next,
}

-- What every state that the handler reaches has.
record Inv (said : Said) (s : Stream) : Type 0 where
  accounted : account s ≡ texts (map encode_sse said.outputs)
  sequenced : Sequenced s.todo
  signalled : Signalled s
  on_wire : OnWire s.handler s.wire

reach-Inv : (said : Said) {s t : Stream} → s ⊳* t → Inv said s → Inv said t
reach-Inv said here v = v
reach-Inv said (next {t} r m) v =
    let i = reach-Inv said r v in
    record {
      accounted = step-account m ∙ i.accounted;
      sequenced = step-Sequenced m i.sequenced;
      signalled = step-Signalled m i.sequenced i.signalled;
      on_wire = step-OnWire m i.on_wire;
    }

run-Inv : (said : Said) {t : Stream} → start said ⊳* t → Inv said t
unfolding account seen start
run-Inv said r = reach-Inv said r record {
  accounted = ap (λ l. texts (map encode_sse l)) (outputs_of said);
  sequenced = script-Sequenced said;
  signalled = (λ d. cc, λ f. cc);
  on_wire = tt;
}

-- A prefix of a list.
abbrev pub IsPrefix : List Bytes → List Bytes → Type 0
IsPrefix xs ys = (rest : List Bytes) × (ys ≡ xs ++ rest)

-- Whatever steps have been taken, the texts that are not empty which the client has got of the
-- command's output are its first ones as `encodeSSE` makes them, each once and in their order.
pub seen-IsPrefix :
    (said : Said) {t : Stream}
    → start said ⊳* t
    → IsPrefix (texts (seen t.wire)) (texts (map encode_sse said.outputs))
unfolding account
seen-IsPrefix said {t} r =
    let i = run-Inv said r in
    (
      texts (map encode_sse (t.pending ++ outputs_left t.todo)),
      sym i.accounted ∙ texts-append (seen t.wire) _,
    )

-- Where the handler has returned after the event `done`, this event is the last that the client has
-- got and the only one of its kind, and what the client lacks of the output, as `encodeSSE` makes it
-- and but for empty texts, is what the channel still holds.
pub finished-seen :
    (said : Said) {t : Stream}
    → start said ⊳* t
    → t.handler ≡ finished
    → EndsWithDone t.wire
      × (texts (seen t.wire) ++ texts (map encode_sse t.pending)
          ≡ texts (map encode_sse said.outputs))
unfolding account
finished-seen said {t} r h =
    let i = run-Inv said r in
    (
      subst (λ k. OnWire k t.wire) h i.on_wire,
      sym (texts-append (seen t.wire) (map encode_sse t.pending))
          ∙ ap (λ l. texts (seen t.wire ++ map encode_sse l))
              (sym (ap (λ l. t.pending ++ l) (i.signalled.1 h) ∙ append-nil _))
          ∙ i.accounted,
    )

joined : {s t u : Stream} → s ⊳* t → t ⊳* u → s ⊳* u
joined r here = r
joined r (next q m) = next (joined r q) m

-- The goroutine may write all there is before the handler takes anything.
write_all :
    (bs : List Bytes) (rest : List Action) (s : Stream)
    → s.todo ≡ map emit bs ++ rest
    → s ⊳* record s { todo = rest; pending = s.pending ++ bs }
write_all [] rest s h =
    subst (λ (t : Stream). s ⊳* t)
      (λ i. record s { todo = h i; pending = sym (append-nil s.pending) i }) here
write_all (b ∷ bs) rest s h = joined (next here (emits b (map emit bs ++ rest) h refl)) (
    subst
      (λ (l : List Bytes).
        record s { todo = map emit bs ++ rest; pending = s.pending ++ (b ∷ []) }
        ⊳* record s { todo = rest; pending = l })
      (append_assoc s.pending (b ∷ []) bs)
      (write_all bs rest (record s { todo = map emit bs ++ rest; pending = s.pending ++ (b ∷ []) })
        refl))

-- Whatever a command without an error writes, there is a run at whose end the handler has returned
-- after the event `done` and the client has got this event only: all the output is still in the
-- channel.
pub finished_without_output :
    (outputs : List Bytes)
    → (t : Stream) × (start (record { outputs = outputs; error = none }) ⊳* t)
      × (t.handler ≡ finished)
      × (t.wire ≡ done_event ∷ [])
      × (t.pending ≡ outputs)
unfolding start script
finished_without_output outputs =
    let s = start (record { outputs = outputs; error = none }) in
    let t : Stream = record s {
      todo = close_out ∷ close_err ∷ [];
      pending = outputs;
      wire = done_event ∷ [];
      handler = finished;
    } in
    (
      t,
      next
          (next (write_all outputs (signal_done ∷ close_out ∷ close_err ∷ []) s refl)
            (signals (close_out ∷ close_err ∷ []) refl refl))
          (take_done refl refl refl refl),
      refl,
      refl,
      refl,
    )
