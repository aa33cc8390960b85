-- ===== src/PowerMonitor/Tasks/Laws.antt =====
-- The requests that set the clock, and the end of the tasks.
use ovm.Base.{
  ℕ, suc, ◌+◌, Bool, true, false, if◌then◌else◌, Bool-cases, inl, inr, ◌⊎◌, ◌≡◌, refl, sym, ap, ◌∙◌,
  arith,
}
use mathlib.Core.Path.{subst}
use ovm.Os.Outcome.{ok, err}
use ovm.PowerMonitor.Tasks.{
  Closer, Acceptor, Syncer, selecting, writing, closed, Tasks, start, receive, ◌⇝◌, cancel, dial,
  ask, close, accept, store, return_accepted, stored, holding, accept_fails, stop_syncing,
  take_request, write_ends, write_fails, ◌⇝*◌, here, next,
}

abbrev pub in_hand : Syncer → ℕ
in_hand writing = 1
in_hand _ = 0

-- Only a loop with a connection writes, and the connection is that which the second task accepted.
abbrev pub Writes : Syncer → Bool → Type 0
Writes writing c = c ≡ true
Writes _ c = Unit

-- The loop that goes on has had no failing write, and one that has returned had at most one.
abbrev pub Failed : Syncer → ℕ → Type 0
Failed (Syncer.returned (err e)) n = n ≡ 1
Failed _ n = n ≡ 0

abbrev pub Accepted : Bool → Acceptor → Type 0
Accepted true a = (a ≡ stored) ⊎ (a ≡ Acceptor.returned (ok tt))
Accepted false a = Unit

abbrev pub Open : Closer → Bool → Type 0
Open Closer.waiting l = l ≡ true
Open closed l = l ≡ false

pub record Inv (s : Tasks) : Type 0 where
  pub balance : s.asked ≡ s.queued + s.dropped + s.written + s.failed + in_hand s.syncer
  pub going : Failed s.syncer s.failed
  pub no_nil : Writes s.syncer s.connected
  pub accepted : Accepted s.connected s.acceptor
  pub open_until_closed : Open s.closer s.listening

Writes-true : (k : Syncer) → Writes k true
Writes-true writing = refl
Writes-true selecting = tt
Writes-true (Syncer.returned r) = tt

-- As long as the task has not stored a connection, there is none.
Accepted_of_early :
    (c : Bool) (a b : Acceptor)
    → (a ≡ Acceptor.waiting) ⊎ (a ≡ holding)
    → Accepted c a
    → Accepted c b
Accepted_of_early true a b (inl h) (inl k) = cc
Accepted_of_early true a b (inl h) (inr k) = cc
Accepted_of_early true a b (inr h) (inl k) = cc
Accepted_of_early true a b (inr h) (inr k) = cc
Accepted_of_early false a b h k = tt

Accepted_of_back : (c : Bool) (a : Acceptor) → Accepted c (Acceptor.returned (ok tt))
Accepted_of_back true a = inr refl
Accepted_of_back false a = tt

receive-Inv :
    (left : ℕ) (s : Tasks)
    → s.syncer ≡ selecting
    → s.queued ≡ suc left
    → Inv s
    → Inv (receive left s)
receive-Inv left s h q v =
    let none_failed : s.failed ≡ 0 = subst (λ k. Failed k s.failed) h v.going in
    elim (Bool-cases s.connected) [
      | inl c ↦
          subst
            (λ b. Inv (
              if b
              then record s { queued = left; syncer = writing }
              else record s { queued = left; dropped = suc s.dropped }))
            (sym c)
            (record {
              balance = omega (arith, v.balance, q, ap in_hand h);
              going = none_failed;
              no_nil = c;
              accepted = v.accepted;
              open_until_closed = v.open_until_closed;
            })
      | inr c ↦
          subst
            (λ b. Inv (
              if b
              then record s { queued = left; syncer = writing }
              else record s { queued = left; dropped = suc s.dropped }))
            (sym c)
            (record {
              balance = omega (arith, v.balance, q);
              going = v.going;
              no_nil = v.no_nil;
              accepted = v.accepted;
              open_until_closed = v.open_until_closed;
            })
    ]

pub step-Inv : {s t : Tasks} → s ⇝ t → Inv s → Inv t
step-Inv {s} (cancel e) v = rw e (record {
  balance = v.balance;
  going = v.going;
  no_nil = v.no_nil;
  accepted = v.accepted;
  open_until_closed = v.open_until_closed;
})
step-Inv {s} (dial l e) v = rw e (record {
  balance = v.balance;
  going = v.going;
  no_nil = v.no_nil;
  accepted = v.accepted;
  open_until_closed = v.open_until_closed;
})
step-Inv {s} (ask e) v = rw e (record {
  balance = omega (arith, v.balance);
  going = v.going;
  no_nil = v.no_nil;
  accepted = v.accepted;
  open_until_closed = v.open_until_closed;
})
step-Inv {s} (close c d e) v = rw e (record {
  balance = v.balance;
  going = v.going;
  no_nil = v.no_nil;
  accepted = v.accepted;
  open_until_closed = refl;
})
step-Inv {s} (accept a l d e) v = rw e (record {
  balance = v.balance;
  going = v.going;
  no_nil = v.no_nil;
  accepted = Accepted_of_early s.connected s.acceptor _ (inl a) v.accepted;
  open_until_closed = v.open_until_closed;
})
step-Inv {s} (store a e) v = rw e (record {
  balance = v.balance;
  going = v.going;
  no_nil = Writes-true s.syncer;
  accepted = inl refl;
  open_until_closed = v.open_until_closed;
})
step-Inv {s} (return_accepted a e) v = rw e (record {
  balance = v.balance;
  going = v.going;
  no_nil = v.no_nil;
  accepted = Accepted_of_back s.connected s.acceptor;
  open_until_closed = v.open_until_closed;
})
step-Inv {s} (accept_fails a l e) v = rw e (record {
  balance = v.balance;
  going = v.going;
  no_nil = v.no_nil;
  accepted = Accepted_of_early s.connected s.acceptor _ (inl a) v.accepted;
  open_until_closed = v.open_until_closed;
})
step-Inv {s} (stop_syncing y d e) v = rw e (record {
  balance = omega (arith, v.balance, ap in_hand y);
  going = subst (λ k. Failed k s.failed) y v.going;
  no_nil = tt;
  accepted = v.accepted;
  open_until_closed = v.open_until_closed;
})
step-Inv {s} (take_request left y q e) v = rw e (receive-Inv left s y q v)
step-Inv {s} (write_ends y e) v = rw e (record {
  balance = omega (arith, v.balance, ap in_hand y);
  going = subst (λ k. Failed k s.failed) y v.going;
  no_nil = tt;
  accepted = v.accepted;
  open_until_closed = v.open_until_closed;
})
step-Inv {s} (write_fails x y e) v = rw e (record {
  balance = omega (arith, v.balance, ap in_hand y);
  going = ap suc (subst (λ k. Failed k s.failed) y v.going);
  no_nil = tt;
  accepted = v.accepted;
  open_until_closed = v.open_until_closed;
})

pub reach-Inv : {s : Tasks} → start ⇝* s → Inv s
reach-Inv here = record {
  balance = refl;
  going = refl;
  no_nil = tt;
  accepted = tt;
  open_until_closed = refl;
}
reach-Inv (next run st) = step-Inv st (reach-Inv run)

-- In every order of the steps: each request was written to the guest as a whole, was given up when a
-- write failed, is being written, waits in the channel, or was dropped, and no write failed while the
-- loop goes on, or before it returned without an error; the loop writes only when `timeSyncConn` is set, so that no pointer to a connection
-- is nil there; and it is set only when the task that accepts has stored a connection.
pub requests_balance :
    (s : Tasks)
    → start ⇝* s
    → (s.asked ≡ s.queued + s.dropped + s.written + s.failed + in_hand s.syncer)
      × Failed s.syncer s.failed
      × Writes s.syncer s.connected
      × Accepted s.connected s.acceptor
requests_balance s run = let v = reach-Inv run in (v.balance, v.going, v.no_nil, v.accepted)

-- A request that is dropped was received without a connection: with one, none is lost.
dropped-step :
    (s t : Tasks) → s.connected ≡ true → s ⇝ t → (t.dropped ≡ s.dropped) × (t.connected ≡ true)
dropped-step s t c (cancel e) = rw e (refl, c)
dropped-step s t c (dial l e) = rw e (refl, c)
dropped-step s t c (ask e) = rw e (refl, c)
dropped-step s t c (close a d e) = rw e (refl, c)
dropped-step s t c (accept a l d e) = rw e (refl, c)
dropped-step s t c (store a e) = rw e (refl, refl)
dropped-step s t c (return_accepted a e) = rw e (refl, c)
dropped-step s t c (accept_fails a l e) = rw e (refl, c)
dropped-step s t c (stop_syncing y d e) = rw e (refl, c)
dropped-step s t c (take_request left y q e) = rw e (rw c (refl, refl))
dropped-step s t c (write_ends y e) = rw e (refl, c)
dropped-step s t c (write_fails x y e) = rw e (refl, c)

pub connected_loses_none :
    (s t : Tasks) → s.connected ≡ true → s ⇝* t → (t.dropped ≡ s.dropped) × (t.connected ≡ true)
connected_loses_none s t c here = (refl, c)
connected_loses_none s t c (next run st) =
    let (kept, still) = connected_loses_none s _ c run in
    let (kept', still') = dropped-step _ t still st in (kept' ∙ kept, still')
