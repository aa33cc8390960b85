-- ===== src/Main/Shutdown/Laws.antt =====
-- Whether the program can come to its end.
use mathlib.Core.Path.{subst, ap₂}
use ovm.Base.{
  ap, not, [], ℕ, zero, suc, Bool, true, false, ◌&&◌, ◌≡◌, ◌↔◌, Bool-cases, inl, inr, refl, sym,
  ◌∙◌,
}
use ovm.Os.Outcome.{is_ok}
use ovm.Vfkit.Watch.{watch}
use ovm.Vfkit.Run.{Request, Host, run}
use ovm.Vfkit.Run.Laws.{some_deed, is_started, run-stopper, run-watcher}
use ovm.Main.Shutdown.{
  Group, group_of, ◌⊶◌, ◌⊶*◌, by_task, goes_down, ◌⊸◌, cancels, stops, fails_to_stop,
  watcher_returns, waiter_returns, other_returns, ◌⊸*◌, here, next, IsOver,
}

-- Nothing stops the machine, and the listener waits for that.
record IsStuck (s : Group) : Type 0 where
  up : s.machine_up ≡ true
  waiting : s.watching ≡ true
  unstopped : s.stopping ≡ false

step-IsStuck : {s t : Group} → s ⊸ t → IsStuck s → IsStuck t
step-IsStuck (cancels e) v =
    rw e (record { up = v.up; waiting = v.waiting; unstopped = v.unstopped })
step-IsStuck (stops c p e) v = let q = v.unstopped in cc
step-IsStuck (fails_to_stop c p e) v = let q = v.unstopped in cc
step-IsStuck (watcher_returns d w e) v = let q = v.up in cc
step-IsStuck (waiter_returns d w e) v = let q = v.up in cc
step-IsStuck (other_returns n c o e) v =
    rw e (record { up = v.up; waiting = v.waiting; unstopped = v.unstopped })

reach-IsStuck : {s t : Group} → s ⊸* t → IsStuck s → IsStuck t
reach-IsStuck here v = v
reach-IsStuck (next r m) v = step-IsStuck m (reach-IsStuck r v)

waiter_gone : (s t : Group) → t.machine_up ≡ false → s ⊸* t → s ⊸* record t { awaiting = false }
waiter_gone s t d r = elim (Bool-cases t.awaiting) [
  | inl w ↦ next r (waiter_returns d w refl)
  | inr w ↦ subst (λ (u : Group). s ⊸* u) (λ i. record t { awaiting = w i }) r
]

others_return :
    (n : ℕ) (s t : Group)
    → t.context_done ≡ true
    → t.others ≡ n
    → s ⊸* t
    → s ⊸* record t { others = 0 }
others_return zero s t c o r = subst (λ (u : Group). s ⊸* u) (λ i. record t { others = o i }) r
others_return (suc n) s t c o r =
    others_return n s (record t { others = n }) c refl (next r (other_returns n c o refl))

-- The listener, once it is there, returns only when the machine is down.
step-watching :
    {s t : Group}
    → s ⊶ t
    → (s.watching ≡ false → s.machine_up ≡ false)
    → t.watching ≡ false
    → t.machine_up ≡ false
step-watching (by_task (cancels e)) v = rw e v
step-watching (by_task (stops c p e)) v = rw e (λ w. refl)
step-watching (by_task (fails_to_stop c p e)) v = rw e v
step-watching (by_task (watcher_returns d w e)) v = rw e (λ x. d)
step-watching (by_task (waiter_returns d w e)) v = rw e v
step-watching (by_task (other_returns n c o e)) v = rw e v
step-watching (goes_down e) v = rw e (λ w. refl)

reach-watching :
    {s t : Group}
    → s ⊶* t
    → (s.watching ≡ false → s.machine_up ≡ false)
    → t.watching ≡ false
    → t.machine_up ≡ false
reach-watching ◌⊶*◌.here v = v
reach-watching (◌⊶*◌.next r m) v = step-watching m (reach-watching r v)

module _ (r : Request) (h : Host) (n : ℕ) (e : some_deed is_started (run r h []).1 ≡ true) where
  abbrev group : Group
  group = group_of (run r h []).1 h.states n

  start-watching : group.watching ≡ false → group.machine_up ≡ false
  unfolding group_of
  start-watching w =
      ap (λ a. a && not (watch h.states).returned) e
      ∙ sym (ap (λ a. a && not (watch h.states).returned) (run-watcher r h e))
      ∙ w

  -- The end that is reached when the task that stops the machine is there.
  can_end :
      (watch h.states).returned ≡ false
      → is_ok (run r h []).0 ≡ true
      → (t : Group) × (group ⊸* t) × IsOver t
  unfolding group_of
  can_end up good =
      let stopper = run-stopper r h ∙ ap₂ (λ a b. a && b) e good in
      let watched = ap₂ (λ a b. a && not b) (run-watcher r h e) up in
      let stopped = record group { context_done = true; machine_up = false; stopping = false } in
      let unwatched = record stopped { watching = false } in
      (
        record unwatched { awaiting = false; others = 0 },
        others_return n group (record unwatched { awaiting = false }) refl refl
            (waiter_gone group unwatched refl (
              next (next (next here (cancels refl)) (stops refl stopper refl))
                (watcher_returns refl watched refl))),
        record { not_watching = refl; not_stopping = refl; not_awaiting = refl; no_others = refl },
      )

  only_if :
      (b : Bool)
      → (watch h.states).returned ≡ false
      → is_ok (run r h []).0 ≡ b
      → (t : Group) × (group ⊸* t) × IsOver t
      → b ≡ true
  unfolding group_of
  only_if true up eb ends = refl
  only_if false up eb (t, steps, over) =
      let stuck = reach-IsStuck steps (record {
        up = ap₂ (λ a b. a && not b) e up;
        waiting = ap₂ (λ a b. a && not b) (run-watcher r h e) up;
        unstopped = run-stopper r h ∙ ap₂ (λ a b. a && b) e eb;
      }) in
      sym over.not_watching ∙ stuck.waiting

-- If the machine has been started, and has neither stopped nor failed by the return of vfkit's `Run`,
-- the program comes to its end only when the machine is down, whatever else brings it down; and if
-- nothing but the tasks stops it, all tasks can come to their ends exactly if `Run` has succeeded:
-- after a start that then fails, no sequence of their steps lets `g.Wait` return.
pub can_end_iff :
    (r : Request) (h : Host) (n : ℕ)
    → some_deed is_started (run r h []).1 ≡ true
    → (watch h.states).returned ≡ false
    → ((t : Group) → group_of (run r h []).1 h.states n ⊶* t → IsOver t → t.machine_up ≡ false)
      × (((t : Group) × (group_of (run r h []).1 h.states n ⊸* t) × IsOver t)
          ↔ (is_ok (run r h []).0 ≡ true))
can_end_iff r h n e up = (
  λ t run over. reach-watching run (start-watching r h n e) over.not_watching,
  (only_if r h n e _ up refl, can_end r h n e up),
)
