-- ===== src/Event/Laws.antt =====
-- The order of the events, and the exit that loses none of those before it.
use mathlib.Core.Path.{subst}
use ovm.Base.{
  false, List, [], ◌∷◌, ◌++◌, ◌≡◌, refl, sym, ap, ◌∙◌, arith, append_assoc, All, All-append,
}
use ovm.Event.{
  Datum, exit_datum, is_exit, Consumer, looping, signalling, stopped, ExitCall, not_called,
  waiting_done, closing, returned, Events, start, after_request, ◌⇒◌, notify, notify_closed,
  notify_exit, send_request, done, close, ◌⇒*◌, here, next,
}

abbrev pub NoExit : List Datum → Type 0
NoExit = All (λ d. is_exit d ≡ false)

-- The requests that were made end with that of the exit, and it is the only one.
abbrev pub EndsWithExit : List Datum → Type 0
EndsWithExit ds = (before : List Datum) × NoExit before × (ds ≡ before ++ (exit_datum ∷ []))

-- The exit is among the events, and none before it has its key.
abbrev AwaitsExit : List Datum → Type 0
AwaitsExit ds =
    (before : List Datum) × (later : List Datum) × NoExit before
    × (ds ≡ before ++ (exit_datum ∷ later))

abbrev Sent : Consumer → List Datum → Type 0
Sent looping ds = NoExit ds
Sent signalling ds = EndsWithExit ds
Sent stopped ds = EndsWithExit ds

abbrev Left : ExitCall → Consumer → List Datum → Type 0
Left not_called looping ds = NoExit ds
Left waiting_done looping ds = AwaitsExit ds
Left waiting_done signalling ds = Unit
Left closing stopped ds = Unit
Left returned stopped ds = Unit
Left _ _ ds = ⊥

record Inv (s : Events) : Type 0 where
  in_order : s.history ≡ s.requested ++ s.waiting
  sent : Sent s.consumer s.requested
  left : Left s.exit_call s.consumer s.waiting

Left-put :
    (c : ExitCall) (k : Consumer) (ds : List Datum) (d : Datum)
    → is_exit d ≡ false
    → Left c k ds
    → Left c k (ds ++ (d ∷ []))
Left-put not_called looping ds d n l = All-append (λ x. is_exit x ≡ false) ds (d ∷ []) l (n, tt)
Left-put waiting_done looping ds d n (before, later, nb, e) = (
  before,
  later ++ (d ∷ []),
  nb,
  ap (λ xs. xs ++ (d ∷ [])) e ∙ append_assoc before (exit_datum ∷ later) (d ∷ []),
)
Left-put waiting_done signalling ds d n l = tt
Left-put returned stopped ds d n l = tt
Left-put closing stopped ds d n l = tt
Left-put closing looping ds d n l = l
Left-put closing signalling ds d n l = l
Left-put not_called signalling ds d n l = l
Left-put not_called stopped ds d n l = l
Left-put waiting_done stopped ds d n l = l
Left-put returned looping ds d n l = l
Left-put returned signalling ds d n l = l

Left-exit :
    (k : Consumer) (ds : List Datum)
    → Left not_called k ds
    → Left waiting_done k (ds ++ (exit_datum ∷ []))
Left-exit looping ds l = (ds, [], l, refl)
Left-exit signalling ds l = absurd l
Left-exit stopped ds l = absurd l

loops_on : (d : Datum) → is_exit d ≡ false → after_request d ≡ looping
loops_on d n = ground arith

abbrev Requested : ExitCall → Datum → List Datum → List Datum → Type 0
Requested c d rest sent = Left c (after_request d) rest × Sent (after_request d) (sent ++ (d ∷ []))

plain_request :
    (c : ExitCall) (d : Datum) (rest sent : List Datum)
    → is_exit d ≡ false
    → NoExit sent
    → Left c looping rest
    → Requested c d rest sent
plain_request c d rest sent n ns l =
    rw (loops_on d n) (l, All-append (λ x. is_exit x ≡ false) sent (d ∷ []) ns (n, tt))

exit_request :
    (d : Datum) (rest sent : List Datum)
    → d ≡ exit_datum
    → NoExit sent
    → Requested waiting_done d rest sent
exit_request d rest sent e ns = rw e (tt, (sent, ns, refl))

request_lem :
    (c : ExitCall) (d : Datum) (rest sent : List Datum)
    → NoExit sent
    → Left c looping (d ∷ rest)
    → Requested c d rest sent
request_lem not_called d rest sent ns (n, l) = plain_request not_called d rest sent n ns l
request_lem waiting_done d rest sent ns ([], later, nb, e) = exit_request d rest sent (cc) ns
request_lem waiting_done d rest sent ns (x ∷ before, later, (nx, nb), e) =
    let same_head : d ≡ x = cc in
    plain_request waiting_done d rest sent (ap is_exit same_head ∙ nx) ns (before, later, nb, cc)
request_lem closing d rest sent ns l = absurd l
request_lem returned d rest sent ns l = absurd l

Left-close : (k : Consumer) (ds : List Datum) → Left closing k ds → Left returned k ds
Left-close stopped ds l = tt
Left-close looping ds l = l
Left-close signalling ds l = l

step-Inv : {s t : Events} → s ⇒ t → Inv s → Inv t
step-Inv {s} (notify d n c e) v = rw e (record {
  in_order = ap (λ xs. xs ++ (d ∷ [])) v.in_order ∙ append_assoc s.requested s.waiting (d ∷ []);
  sent = v.sent;
  left = Left-put s.exit_call s.consumer s.waiting d n v.left;
})
step-Inv {s} (notify_closed d n c e) v =
    rw e (record { in_order = v.in_order; sent = v.sent; left = v.left })
step-Inv {s} (notify_exit h c e) v = rw e (record {
  in_order =
      ap (λ xs. xs ++ (exit_datum ∷ [])) v.in_order
      ∙ append_assoc s.requested s.waiting (exit_datum ∷ []);
  sent = v.sent;
  left = Left-exit s.consumer s.waiting (subst (λ c. Left c s.consumer s.waiting) h v.left);
})
step-Inv {s} (send_request d rest h w e) v =
    let ready = subst (λ k. Left s.exit_call k s.waiting) h v.left in
    let (l, r) =
      request_lem s.exit_call d rest s.requested (subst (λ k. Sent k s.requested) h v.sent)
        (subst (Left s.exit_call looping) w ready) in
    rw e (record {
      in_order =
          v.in_order
          ∙ ap (λ xs. s.requested ++ xs) w
          ∙ sym (append_assoc s.requested (d ∷ []) rest);
      sent = r;
      left = l;
    })
step-Inv {s} (done h k e) v =
    rw e
      (record { in_order = v.in_order; sent = subst (λ c. Sent c s.requested) h v.sent; left = tt })
step-Inv {s} (close h e) v = rw e (record {
  in_order = v.in_order;
  sent = v.sent;
  left = Left-close s.consumer s.waiting (subst (λ c. Left c s.consumer s.waiting) h v.left);
})

reach-Inv : {s : Events} → start ⇒* s → Inv s
reach-Inv here = record { in_order = refl; sent = tt; left = tt }
reach-Inv (next run st) = step-Inv st (reach-Inv run)

stopped_of_returned :
    (c : ExitCall) (k : Consumer) (ds sent : List Datum)
    → c ≡ returned
    → Left c k ds
    → Sent k sent
    → EndsWithExit sent
stopped_of_returned returned stopped ds sent e l h = h
stopped_of_returned returned looping ds sent e l h = absurd l
stopped_of_returned returned signalling ds sent e l h = absurd l
stopped_of_returned not_called k ds sent e l h = cc
stopped_of_returned waiting_done k ds sent e l h = cc
stopped_of_returned closing k ds sent e l h = cc

-- When `NotifyExit` has returned, a request was made for each event that came before the exit, in
-- the order in which they came, then one for the exit, and none for an event behind it.
pub exit_last :
    (s : Events)
    → start ⇒* s
    → s.exit_call ≡ returned
    → (before : List Datum) × NoExit before
      × (s.requested ≡ before ++ (exit_datum ∷ []))
      × (s.history ≡ before ++ (exit_datum ∷ s.waiting))
exit_last s run h =
    let v = reach-Inv run in
    let (before, nb, e) =
      stopped_of_returned s.exit_call s.consumer s.waiting s.requested h v.left v.sent in
    (
      before,
      nb,
      e,
      v.in_order ∙ ap (λ xs. xs ++ s.waiting) e ∙ append_assoc before (exit_datum ∷ []) s.waiting,
    )

-- A run to the return of `NotifyExit`, with the events that are requested on it.
abbrev pub Completes : Events → Type 0
Completes s =
    (t : Events) × (later : List Datum) × (s ⇒* t)
    × (t.exit_call ≡ returned)
    × (t.requested ++ later ≡ s.requested ++ s.waiting)
    × (t.panicked ≡ s.panicked)
