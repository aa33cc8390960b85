-- ===== src/Vfkit/State.antt =====
-- The end of pkg/vfkit/vfkit.go: waiting for a state of the machine, and stopping the machine. What
-- the select statement receives, and what the machine answers at each poll, are lists.
pub mod Laws
use ovm.Base.{
  ℕ, suc, Bool, true, false, not, ◌||◌, if◌then◌else◌, Option, none, some, List, [], ◌∷◌, ◌++◌,
}
use ovm.Os.Outcome.{Error, errno, message, Result, ok, err}

-- The states that the source names; the others are numbered.
pub data VmState : Type 0 where
  stopped running stopping resuming error : VmState
  other : ℕ → VmState

abbrev pub is_state : VmState → VmState → Bool
is_state stopped stopped = true
is_state running running = true
is_state stopping stopping = true
is_state resuming resuming = true
is_state error error = true
is_state (other m) (other n) = ovm.Base.◌==◌ m n
is_state _ _ = false

pub data Wake : Type 0 where
  changed : VmState → Wake
  timed_out : Wake

-- `waitForVMState`; `none` is a wait that goes on.
unfoldable pub wait_for_state : VmState → List Wake → Option (Result (Unit {0}))
wait_for_state state [] = none
wait_for_state state (timed_out ∷ wakes) = some (err (message "timeout waiting for VM"))
wait_for_state state (changed new ∷ wakes) =
    let rest = wait_for_state state wakes in
    if is_state new state
    then some (ok tt)
    else if is_state new error
    then some (err (message "VM state is error"))
    else rest

-- One round of the loop of `requestStopVM`: whether the ten seconds are over, and the machine's
-- answers. What a request returns is only logged.
pub record Poll : Type 0 where
  pub expired : Bool
  pub state : VmState
  pub can_request_stop : Bool

-- The requests that were made, and the result if the loop has ended.
pub record Asked : Type 0 where
  pub requests : ℕ
  pub result : Option (Result (Unit {0}))

abbrev count_request : Bool → Asked → Asked
count_request b a = if b then record a { requests = suc a.requests } else a

after_state : VmState → Bool → Asked → Asked
after_state stopped can rest = record { requests = 0; result = some (ok tt) }
after_state stopping can rest = rest
after_state error can rest = record { requests = 0; result = some (ok tt) }
after_state _ can rest = count_request can rest

-- `requestStopVM`
unfoldable pub request_stop : List Poll → Asked
unfolding after_state
request_stop [] = record { requests = 0; result = none }
request_stop (p ∷ polls) =
    let rest = request_stop polls in
    if p.expired
    then record { requests = 0; result = some (err (message "timeout waiting for VM to stop")) }
    else after_state p.state p.can_request_stop rest

pub record Stopped : Type 0 where
  pub forced : Bool
  pub result : Option (Result (Unit {0}))

force_stop : Bool → Stopped
force_stop true = record { forced = true; result = some (ok tt) }
force_stop false = record { forced = true; result = some (err errno) }

after_request : Option (Result (Unit {0})) → VmState → Bool → Stopped
unfolding force_stop
after_request none state stop_ok = record { forced = false; result = none }
after_request (some (ok _)) state stop_ok = record { forced = false; result = some (ok tt) }
after_request (some (err e)) state stop_ok =
    if is_state state stopped || is_state state error
    then record { forced = false; result = some (ok tt) }
    else force_stop stop_ok

-- `stopVM`: after the requests, the state that is asked for then, and whether the forced stop works.
unfoldable pub stop_vm : List Poll → VmState → Bool → Stopped
unfolding request_stop after_request
stop_vm polls state stop_ok = after_request (request_stop polls).result state stop_ok
