-- ===== src/Tests/Stream.antt =====
-- A command that writes twice, whose handler returns while the second text is in the channel.
use ovm.Base.{map, bytes, none, List, [], ◌∷◌, ◌++◌, ◌≡◌, refl}
use ovm.Restful.Exec.{Said, Session, on_stdout, on_stderr, text_of, exec}
use ovm.Restful.Sse.{encode_sse}
use ovm.Restful.Session.{session-IsPrefix}
use ovm.Restful.Stream.{
  Action, emit, signal_done, close_out, close_err, out_event, done_event, finished, Stream, script,
  start, emits, signals, take_done, take_out, ◌⊳*◌, here, next,
}
use ovm.Restful.Stream.Account.{texts, seen}
use ovm.Restful.Stream.Order.{EndsWithDone}
use ovm.Restful.Stream.Laws.{IsPrefix, finished-seen, finished_without_output}

abbrev said : Said
said = record { outputs = bytes "one" ∷ bytes "two\n" ∷ []; error = none }

abbrev left : List Action
left = close_out ∷ close_err ∷ []

abbrev at_end : Stream
at_end = record (start said) {
  todo = left;
  pending = bytes "two\n" ∷ [];
  handler = finished;
  wire = out_event (encode_sse (bytes "one")) ∷ done_event ∷ [];
}

run : start said ⊳* at_end
unfolding start script
run =
    next
      (next
        (next
          (next
            (next here (emits (bytes "one") (emit (bytes "two\n") ∷ signal_done ∷ left) refl refl))
            (take_out (bytes "one") [] refl refl refl))
          (emits (bytes "two\n") (signal_done ∷ left) refl refl))
        (signals left refl refl))
      (take_done refl refl refl refl)

abbrev session : Session
session = record {
  dial_error = none;
  session_error = none;
  chunks = on_stdout (bytes "one") ∷ on_stderr (bytes "two\n") ∷ [];
  run_error = none;
}

session_run : start (exec (λ b. b) session) ⊳* at_end
unfolding exec
session_run = run

session-IsPrefix_example :
    IsPrefix (texts (seen at_end.wire)) (texts (map encode_sse (map text_of session.chunks)))
session-IsPrefix_example = session-IsPrefix (λ b. b) session session_run

finished-seen_example :
    EndsWithDone at_end.wire
    × (texts (seen at_end.wire) ++ texts (map encode_sse at_end.pending)
        ≡ texts (map encode_sse said.outputs))
unfolding start
finished-seen_example = finished-seen said run refl

finished_without_output_example :
    (t : Stream) × (start said ⊳* t)
    × (t.handler ≡ finished)
    × (t.wire ≡ done_event ∷ [])
    × (t.pending ≡ bytes "one" ∷ bytes "two\n" ∷ [])
finished_without_output_example = finished_without_output (bytes "one" ∷ bytes "two\n" ∷ [])
