-- ===== src/PowerMonitor/Tasks/Ending.antt =====
-- When the context is done, nothing keeps the tasks of the clock from ending.
use ovm.Base.{Bool, true, false, ◌≡◌, refl, sym, ap, ◌∙◌}
use mathlib.Core.Path.{subst}
use ovm.Os.Outcome.{errno, wrap, Result, ok, err}
use ovm.PowerMonitor.Tasks.{
  Closer, Acceptor, Syncer, selecting, writing, closed, Tasks, start, ◌⇝◌, close, accept_fails,
  stop_syncing, write_ends, store, return_accepted, holding, stored, ◌⇝*◌, here, next,
}
use ovm.PowerMonitor.Tasks.Laws.{Inv, Open, step-Inv, reach-Inv}

abbrev pub IsBack : Syncer → Type 0
IsBack k = (r : Result (Unit {0})) × (k ≡ Syncer.returned r)

abbrev pub HasAccepted : Acceptor → Type 0
HasAccepted a = (r : Result (Unit {0})) × (a ≡ Acceptor.returned r)

-- A run that goes on with the context done.
record Onward (s t : Tasks) : Type 0 where
  run : s ⇝* t
  inv : Inv t
  over : t.done ≡ true

onward : (s t u : Tasks) → Onward s t → t ⇝ u → u.done ≡ t.done → Onward s u
onward s t u o st e = record { run = next o.run st; inv = step-Inv st o.inv; over = e ∙ o.over }

stop :
    (s t : Tasks) → Onward s t → t.syncer ≡ selecting → (u : Tasks) × Onward s u × IsBack u.syncer
stop s t o e =
    let u = record t { syncer = Syncer.returned (ok tt) } in
    (u, onward s t u o (stop_syncing e o.over refl) refl, (ok tt, refl))

stop_loop :
    (s t : Tasks) (k : Syncer)
    → t.syncer ≡ k
    → Onward s t
    → (u : Tasks) × Onward s u × IsBack u.syncer
stop_loop s t selecting e o = stop s t o e
stop_loop s t writing e o =
    let u = record t { written = ovm.Base.suc t.written; syncer = selecting } in
    stop s u (onward s t u o (write_ends e refl) refl) refl
stop_loop s t (Syncer.returned r) e o = (t, o, (r, e))

close_listener :
    (s t : Tasks) (c : Closer)
    → t.closer ≡ c
    → Onward s t
    → IsBack t.syncer
    → (u : Tasks) × Onward s u × IsBack u.syncer × (u.closer ≡ closed)
close_listener s t Closer.waiting e o b =
    let u = record t { listening = false; closer = closed } in
    (u, onward s t u o (close e o.over refl) refl, b, refl)
close_listener s t closed e o b = (t, o, b, e)

-- The end of the second task, with the other two back.
abbrev Ended : Tasks → Type 0
Ended s = (u : Tasks) × (s ⇝* u) × (u.closer ≡ closed) × HasAccepted u.acceptor × IsBack u.syncer

return_stored :
    (s t : Tasks) → s ⇝* t → t.acceptor ≡ stored → IsBack t.syncer → t.closer ≡ closed → Ended s
return_stored s t run e b c = (_, next run (return_accepted e refl), c, (ok tt, refl), b)

stop_accepting :
    (s t : Tasks) (a : Acceptor)
    → t.acceptor ≡ a
    → Onward s t
    → IsBack t.syncer
    → t.closer ≡ closed
    → Ended s
stop_accepting s t Acceptor.waiting e o b c =
    let shut : t.listening ≡ false = subst (λ x. Open x t.listening) c o.inv.open_until_closed in
    let failed = err (wrap "accept time sync socket file error" errno) in
    (_, next o.run (accept_fails e shut refl), c, (failed, refl), b)
stop_accepting s t holding e o b c =
    return_stored s (record t { connected = true; acceptor = stored }) (next o.run (store e refl))
      refl b c
stop_accepting s t stored e o b c = return_stored s t o.run e b c
stop_accepting s t (Acceptor.returned r) e o b c = (t, o.run, c, (r, e), b)

-- From every state that can be reached and in which the context is done, steps lead to one in which
-- all three tasks have returned: the group that waits for them is not held up by the clock, whether
-- the guest ever connects or not, if the writes of a request that was begun return.
pub tasks_can_end :
    (s : Tasks)
    → start ⇝* s
    → s.done ≡ true
    → (t : Tasks) × (s ⇝* t) × (t.closer ≡ closed) × HasAccepted t.acceptor × IsBack t.syncer
tasks_can_end s run d =
    let (t, o, b) =
      stop_loop s s s.syncer refl (record { run = here; inv = reach-Inv run; over = d }) in
    let (u, o', b', c) = close_listener s t t.closer refl o b in
    stop_accepting s u u.acceptor refl o' b' c
