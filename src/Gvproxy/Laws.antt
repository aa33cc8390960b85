-- ===== src/Gvproxy/Laws.antt =====
-- When the machine may start, and what becomes of podman's socket.
use ovm.Base.{
  ℕ, Bytes, Bool, true, false, ◌||◌, none, some, List, [], ◌∷◌, ◌++◌, ◌≡◌, refl, arith, All, length,
}
use ovm.Os.Outcome.{ok}
use ovm.Gvproxy.{
  Deed, serving, on_endpoint, on_gateway, notified_channel, notified_app, spawned_forward, Host,
  run, require, note, vm_ready, Round, forward, forward_loop, created,
}

abbrev pub is_notice : Deed → Bool
is_notice notified_channel = true
is_notice _ = false

abbrev pub some_deed : (Deed → Bool) → List Deed → Bool
some_deed f [] = false
some_deed f (d ∷ ds) = f d || some_deed f ds

-- Where the machine's side is told that the network is ready, `Run` succeeds, and what it has done is
-- this, in this order: both servers are there before the notice, and the forward comes behind it.
pub run_of_notice :
    (ssh_port : ℕ) (domains : List Bytes) (h : Host)
    → some_deed is_notice (run ssh_port domains h []).1 ≡ true
    → run ssh_port domains h [] ≡ (
      ok tt,
      serving on_endpoint
          ∷ serving on_gateway
          ∷ notified_channel
          ∷ notified_app
          ∷ spawned_forward
          ∷ [],
    )
unfolding run require note
run_of_notice ssh_port domains h e = ground arith

-- The task goes on while the context is not done, whatever errors the tunnels end with, waits once in
-- each round, and returns in the first round in which the context is done, with the socket removed.
forward_lem :
    (before after : List Round) (last : Round)
    → All (λ r. r.done ≡ false) before
    → last.done ≡ true
    → (forward vm_ready true before
        ≡ record { tunnels = length before; removed_socket = false; result = none })
      × (forward vm_ready true (before ++ (last ∷ after))
          ≡ record { tunnels = length before; removed_socket = true; result = some (ok tt) })
unfolding forward created forward_loop
forward_lem [] after last h e = (refl, rw e refl)
forward_lem (r ∷ before) after last (h, hs) e =
    let (during, whole) = forward_lem before after last hs e in
    (rw (h, during) refl, rw (h, whole) refl)
