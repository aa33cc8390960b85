-- ===== src/Vfkit/State/Laws.antt =====
-- When a wait ends and how, and that a machine is stopped in the end.
use ovm.Base.{
  suc, ◌≤◌, Bool, true, false, ◌||◌, Option, none, some, List, [], ◌∷◌, ◌++◌, ◌≡◌, ◌≢◌, refl, ap,
  sym, ◌∙◌, append-nil, arith, All, length,
}
use ovm.Os.Outcome.{Error, message, Result, ok, err}
use ovm.Vfkit.State.{
  VmState, stopped, running, stopping, resuming, error, other, is_state, Wake, changed, timed_out,
  wait_for_state, Poll, request_stop, stop_vm, after_request,
}

-- A state that is neither the one that is waited for nor the error state.
abbrev pub Ignored : VmState → Wake → Type 0
Ignored state timed_out = ⊥
Ignored state (changed new) = (is_state new state ≡ false) × (is_state new error ≡ false)

is_state_self : (s : VmState) → is_state s s ≡ true
is_state_self stopped = refl
is_state_self running = refl
is_state_self stopping = refl
is_state_self resuming = refl
is_state_self error = refl
is_state_self (other n) = ground arith

wait_past :
    (state : VmState) (past wakes : List Wake)
    → All (Ignored state) past
    → wait_for_state state (past ++ wakes) ≡ wait_for_state state wakes
unfolding wait_for_state
wait_past state [] wakes h = refl
wait_past state (timed_out ∷ past) wakes (h, hs) = absurd h
wait_past state (changed new ∷ past) wakes (h, hs) = ground (arith, wait_past state past wakes hs)

-- A wait passes over other states, and the first decisive wake ends it: the state itself with
-- success, the error state and the timeout with an error.
wait_for_state_first :
    (state : VmState) (past wakes : List Wake)
    → All (Ignored state) past
    → is_state error state ≡ false
    → (wait_for_state state (past ++ (changed state ∷ wakes)) ≡ some (ok tt))
      × (wait_for_state state (past ++ (changed error ∷ wakes))
          ≡ some (err (message "VM state is error")))
      × (wait_for_state state (past ++ (timed_out ∷ wakes))
          ≡ some (err (message "timeout waiting for VM")))
      × (wait_for_state state past ≡ none)
unfolding wait_for_state
wait_for_state_first state past wakes h n = (
  rw (wait_past state past (changed state ∷ wakes) h, is_state_self state),
  rw (wait_past state past (changed error ∷ wakes) h, n),
  rw (wait_past state past (timed_out ∷ wakes) h),
  ap (wait_for_state state) (sym (append-nil past)) ∙ wait_past state past [] h,
)

unfoldable pub any_expired : List Poll → Bool
any_expired [] = false
any_expired (p ∷ polls) = p.expired || any_expired polls

-- The loop of the requests ends once the ten seconds are over, and makes fewer requests than rounds.
request_stop_ends :
    (polls : List Poll)
    → any_expired polls ≡ true
    → ((request_stop polls).result ≢ none) × (suc (request_stop polls).requests ≤ length polls)
unfolding request_stop any_expired
request_stop_ends [] h = cc
request_stop_ends (p ∷ polls) h =
    (ground (arith, request_stop_ends polls), ground (arith, request_stop_ends polls))

request_stop_error :
    (polls : List Poll) (e : Error)
    → (request_stop polls).result ≡ some (err e)
    → e ≡ message "timeout waiting for VM to stop"
unfolding request_stop
request_stop_error [] e h = cc
request_stop_error (p ∷ polls) e h = ground (arith, request_stop_error polls e)

stop_fails :
    (r : Option (Result (Unit {0}))) (state : VmState) (stop_ok : Bool) (e : Error)
    → (after_request r state stop_ok).result ≡ some (err e)
    → (stop_ok ≡ false)
      × (is_state state stopped ≡ false)
      × (is_state state error ≡ false)
      × ((x : Error) × (r ≡ some (err x)))
unfolding after_request
stop_fails none state stop_ok e h = cc
stop_fails (some (ok _)) state stop_ok e h = cc
stop_fails (some (err x)) state stop_ok e h = (ground arith, ground arith, ground arith, (x, refl))

-- Stopping fails only if the time ran out, the machine was in neither end state then, and the forced
-- stop failed.
stop_vm_fails :
    (polls : List Poll) (state : VmState) (stop_ok : Bool) (e : Error)
    → (stop_vm polls state stop_ok).result ≡ some (err e)
    → (stop_ok ≡ false)
      × (is_state state stopped ≡ false)
      × (is_state state error ≡ false)
      × ((request_stop polls).result ≡ some (err (message "timeout waiting for VM to stop")))
unfolding stop_vm
stop_vm_fails polls state stop_ok e h =
    let (failed, live, well, (x, r)) = stop_fails (request_stop polls).result state stop_ok e h in
    (failed, live, well, r ∙ ap (λ y. some (err y)) (request_stop_error polls x r))
