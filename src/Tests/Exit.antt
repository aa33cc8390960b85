-- ===== src/Tests/Exit.antt =====
-- A run of the event queue with an event that comes behind the exit, and an address.
use ovm.Base.{bytes, true, List, [], ◌∷◌, ◌++◌, ◌≡◌, refl}
use ovm.Event.{
  k_app, k_error, Datum, exit_datum, Events, start, stopped, waiting_done, returned, put, request,
  notify, notify_exit, send_request, done, close, ◌⇒*◌, here, next,
}
use ovm.Event.Laws.{NoExit, exit_last}

abbrev ready : Datum
ready = record { name = k_app; message = bytes "Ready" }

abbrev late : Datum
late = record { name = k_error; message = bytes "50% & more" }

abbrev asked : Events
asked = put late (record (put exit_datum (put ready start)) { exit_call = waiting_done })

asked_run : start ⇒* asked
asked_run =
    next (next (next here (notify ready refl refl refl)) (notify_exit refl refl refl))
      (notify late refl refl refl)

abbrev sent : Events
sent = request exit_datum (late ∷ []) (request ready (exit_datum ∷ late ∷ []) asked)

abbrev over : Events
over = record sent { consumer = stopped; exit_call = returned; closed = true }

over_run : start ⇒* over
over_run =
    next
      (next
        (next (next asked_run (send_request ready (exit_datum ∷ late ∷ []) refl refl refl))
          (send_request exit_datum (late ∷ []) refl refl refl))
        (done refl refl refl))
      (close refl refl)

exit_last_example :
    (before : List Datum) × NoExit before
    × (over.requested ≡ before ++ (exit_datum ∷ []))
    × (over.history ≡ before ++ (exit_datum ∷ over.waiting))
exit_last_example = exit_last over over_run refl
