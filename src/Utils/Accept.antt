-- ===== src/Utils/Accept.antt =====
-- pkg/utils/net.go: `AcceptTimeout`, as the steps of the caller and of the goroutine that accepts.
use mathlib.Core.Path.{subst}
use ovm.Base.{Bool, true, false, Option, none, some, ◌≡◌, ◌≢◌, refl}

-- Where the caller is: in the select statement, in one of its cases, behind `nl.Close()`, and
-- returned with what was accepted or because the context or the time was over.
pub data Caller : Type 0 where
  selecting : Caller
  received : Bool → Caller
  woken : Caller
  closed_listener : Caller
  accepted : Bool → Caller
  gave_up : Caller

-- Where the goroutine is; the Boolean says whether `Accept` gave a connection.
pub data Worker : Type 0 where
  accepting : Worker
  sending : Bool → Worker
  finished : Worker

-- `acc` is a channel with room for one value. The caller closes it when it returns.
pub record Race : Type 0 where
  pub caller : Caller
  pub worker : Worker
  pub acc : Option Bool
  pub acc_closed : Bool
  pub panicked : Bool

abbrev pub start : Race
start = record {
  caller = selecting;
  worker = accepting;
  acc = none;
  acc_closed = false;
  panicked = false;
}

infix 40 ◌⟶◌ ◌⟶*◌
pub data ◌⟶◌ (s t : Race) : Type 0 where
  -- `nl.Accept()` returns.
  accept_returns : (r : Bool) → s.worker ≡ accepting → t ≡ record s { worker = sending r } → s ⟶ t
  -- `acc <- err` while the channel is open.
  send :
      (r : Bool)
      → s.worker ≡ sending r
      → s.acc_closed ≡ false
      → t ≡ record s { worker = finished; acc = some r }
      → s ⟶ t
  -- `acc <- err` on the closed channel.
  send_closed :
      (r : Bool)
      → s.worker ≡ sending r
      → s.acc_closed ≡ true
      → t ≡ record s { worker = finished; panicked = true }
      → s ⟶ t
  -- The cases of the select statement.
  receive :
      (r : Bool)
      → s.caller ≡ selecting
      → s.acc ≡ some r
      → t ≡ record s { caller = received r; acc = none }
      → s ⟶ t
  wake : s.caller ≡ selecting → t ≡ record s { caller = woken } → s ⟶ t
  -- `nl.Close()`. An `Accept` that has not returned then does so with an error.
  close_listener : s.caller ≡ woken → t ≡ record s { caller = closed_listener } → s ⟶ t
  -- The deferred `close(acc)` at the two kinds of returns.
  return_accepted :
      (r : Bool)
      → s.caller ≡ received r
      → t ≡ record s { caller = accepted r; acc_closed = true }
      → s ⟶ t
  return_late :
      s.caller ≡ closed_listener → t ≡ record s { caller = gave_up; acc_closed = true } → s ⟶ t

pub data ◌⟶*◌ (s : Race) : Race → Type 0 where
  here : s ⟶* s
  next : {t u : Race} → s ⟶* t → t ⟶ u → s ⟶* u

-- What the places of the two, the channel and the panic have to do with each other.
abbrev Placed : Caller → Worker → Bool → Bool → Type 0
Placed selecting w c p = (c ≡ false) × (p ≡ false)
Placed (received r) w c p = (w ≡ finished) × (c ≡ false) × (p ≡ false)
Placed woken w c p = (c ≡ false) × (p ≡ false)
Placed closed_listener w c p = (c ≡ false) × (p ≡ false)
Placed (accepted r) w c p = (w ≡ finished) × (c ≡ true) × (p ≡ false)
Placed gave_up w c p = (c ≡ true) × (p ≡ true → w ≡ finished)

-- What holds in every state of a run.
record Inv (s : Race) : Type 0 where
  placed : Placed s.caller s.worker s.acc_closed s.panicked
  sent_when_full : (r : Bool) → s.acc ≡ some r → s.worker ≡ finished

Placed-accept :
    (c : Caller) (w v : Worker) (x p : Bool) → w ≢ finished → Placed c w x p → Placed c v x p
Placed-accept selecting w v x p n h = h
Placed-accept (received r) w v x p n h = absurd (n h.0)
Placed-accept woken w v x p n h = h
Placed-accept closed_listener w v x p n h = h
Placed-accept (accepted r) w v x p n h = absurd (n h.0)
Placed-accept gave_up w v x p n h = (h.0, λ e. absurd (n (h.1 e)))

-- A send on the closed channel comes from a call that gave up.
Placed-panic :
    (c : Caller) (w : Worker) (x p : Bool)
    → w ≢ finished
    → x ≡ true
    → Placed c w x p
    → Placed c finished x true
Placed-panic selecting w x p n e h = cc
Placed-panic (received r) w x p n e h = absurd (n h.0)
Placed-panic woken w x p n e h = cc
Placed-panic closed_listener w x p n e h = cc
Placed-panic (accepted r) w x p n e h = absurd (n h.0)
Placed-panic gave_up w x p n e h = (e, λ q. refl)

not_finished : (w : Worker) (r : Bool) → w ≡ sending r → w ≢ finished
not_finished w r h e = cc

accepting_not_finished : (w : Worker) → w ≡ accepting → w ≢ finished
accepting_not_finished w h e = cc

-- The channel is empty as long as nothing was sent.
stays_empty :
    (o : Option Bool) (w v : Worker)
    → w ≢ finished
    → ((r : Bool) → o ≡ some r → w ≡ finished)
    → (r : Bool) → o ≡ some r
    → v ≡ finished
stays_empty o w v n h r e = absurd (n (h r e))

Placed-at :
    (s : Race) (c : Caller) → s.caller ≡ c → Inv s → Placed c s.worker s.acc_closed s.panicked
Placed-at s c e v = subst (λ k. Placed k s.worker s.acc_closed s.panicked) e v.placed

step-Inv : {s t : Race} → s ⟶ t → Inv s → Inv t
step-Inv {s} (accept_returns r w e) v =
    let n = accepting_not_finished s.worker w in
    rw e (record {
      placed = Placed-accept s.caller s.worker _ s.acc_closed s.panicked n v.placed;
      sent_when_full = stays_empty s.acc s.worker _ n v.sent_when_full;
    })
step-Inv {s} (send r w c e) v = rw e (record {
  placed =
      Placed-accept s.caller s.worker _ s.acc_closed s.panicked (not_finished s.worker r w)
        v.placed;
  sent_when_full = λ q h. refl;
})
step-Inv {s} (send_closed r w c e) v = rw e (record {
  placed =
      Placed-panic s.caller s.worker s.acc_closed s.panicked (not_finished s.worker r w) c v.placed;
  sent_when_full = λ q h. refl;
})
step-Inv {s} (receive r c a e) v =
    let (x, p) = Placed-at s selecting c v in
    rw e (record { placed = (v.sent_when_full r a, x, p); sent_when_full = λ q h. cc })
step-Inv {s} (wake c e) v =
    rw e (record { placed = Placed-at s selecting c v; sent_when_full = v.sent_when_full })
step-Inv {s} (close_listener c e) v =
    rw e (record { placed = Placed-at s woken c v; sent_when_full = v.sent_when_full })
step-Inv {s} (return_accepted r c e) v =
    let (w, x, p) = Placed-at s (received r) c v in
    rw e (record { placed = (w, refl, p); sent_when_full = v.sent_when_full })
step-Inv {s} (return_late c e) v =
    let (x, p) = Placed-at s closed_listener c v in
    rw e (record { placed = (refl, λ q. cc); sent_when_full = v.sent_when_full })

reach-Inv : {t : Race} → start ⟶* t → Inv t
reach-Inv here = record { placed = (refl, refl); sent_when_full = λ r h. cc }
reach-Inv (next r st) = step-Inv st (reach-Inv r)

-- The end of both, with or without a panic.
abbrev pub Over : Race → Bool → Type 0
Over s p = (t : Race) × (s ⟶* t) × (t.caller ≡ gave_up) × (t.worker ≡ finished) × (t.panicked ≡ p)

-- `Accept` returns if it has not done so, and the rest is up to where the send is.
to_send :
    (s : Race) (w : Worker)
    → s.worker ≡ w
    → w ≢ finished
    → (r : Bool) × (s ⟶* record s { worker = sending r })
to_send s accepting h n = (false, next here (accept_returns false h refl))
to_send s (sending r) h n = (r, subst (λ (u : Race). s ⟶* u) (λ i. record s { worker = h i }) here)
to_send s finished h n = absurd (n refl)

both_ends :
    (s : Race)
    → s.caller ≡ woken
    → s.acc_closed ≡ false
    → s.panicked ≡ false
    → s.worker ≢ finished
    → Over s true × Over s false
both_ends s c x p n =
    let (r, run) = to_send s s.worker refl n in
    let late = record s { worker = sending r; caller = gave_up; acc_closed = true } in
    let sent = record s { worker = finished; acc = some r } in
    (
      (
        record late { worker = finished; panicked = true },
        next (next (next run (close_listener c refl)) (return_late refl refl))
            (send_closed r refl refl refl),
        refl,
        refl,
        refl,
      ),
      (
        record sent { caller = gave_up; acc_closed = true },
        next (next (next run (send r refl x refl)) (close_listener c refl)) (return_late refl refl),
        refl,
        refl,
        p,
      ),
    )

Placed-panicked :
    (c : Caller) (w : Worker) (x p : Bool)
    → p ≡ true
    → Placed c w x p
    → (c ≡ gave_up) × (w ≡ finished)
Placed-panicked selecting w x p e h = cc
Placed-panicked (received r) w x p e h = cc
Placed-panicked woken w x p e h = cc
Placed-panicked closed_listener w x p e h = cc
Placed-panicked (accepted r) w x p e h = cc
Placed-panicked gave_up w x p e h = (refl, h.1 e)

-- The program panics only in a call that has given up and returned: one that received what was
-- accepted never does.
panic_needs_giving_up :
    (s : Race) → start ⟶* s → s.panicked ≡ true → (s.caller ≡ gave_up) × (s.worker ≡ finished)
panic_needs_giving_up s run e =
    Placed-panicked s.caller s.worker s.acc_closed s.panicked e (reach-Inv run).placed

-- In a call whose select statement has taken the end of the context or of the time, whether the
-- program panics is a race: as long as the goroutine has not sent, there is a run to the end of both
-- in which its send panics on the closed channel, and one in which nothing panics.
pub late_accept_races :
    (s : Race) → start ⟶* s → s.caller ≡ woken → s.worker ≢ finished → Over s true × Over s false
late_accept_races s run c n =
    let (x, p) = Placed-at s woken c (reach-Inv run) in both_ends s c x p n
