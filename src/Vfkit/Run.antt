-- ===== src/Vfkit/Run.antt =====
-- pkg/vfkit/vfkit.go, `Run`: the steps in their order, each of which may fail, and the tasks that it
-- starts. What the system, the library and the other packages answer is a record.
pub mod Laws
use ovm.Base.{
  String, ℕ, Bytes, Bool, true, false, if◌then◌else◌, Option, none, some, List, [], ◌∷◌, ◌++◌, map,
}
use ovm.Os.Outcome.{Error, errno, message, Result, ok, err, Action, pure, resume, ◌>>=◌, ◌>>◌}
use ovm.Vfkit.Mounts.{Fs, initial_mounts, extend_all}
use ovm.Vfkit.Config.{Machine}
use ovm.Vfkit.State.{VmState, running, Wake, changed, timed_out, wait_for_state}
use ovm.Vfkit.Ignition.{ignition}

pub data Task : Type 0 where
  serve_api monitor_power watch_states connect_ports await_stop stop_machine : Task
  send_ignition : Bytes → Task

-- What others see of `Run`, in its order.
pub data Deed : Type 0 where
  spawned : Task → Deed
  started : Deed
  notified_progress : Deed

-- What the select statement receives first.
pub data Woken : Type 0 where
  context_done gvproxy_late gvproxy_ready : Woken

pub record Host : Type 0 where
  pub log_opens : Bool
  pub config : List Fs → Result Machine  -- `vmConfig`
  pub converts : Bool
  pub creates : Bool
  pub api_listens : Bool
  pub woken : Woken
  pub monitor_starts : Bool
  pub starts : Bool
  pub ignition_listens : Bool
  pub zone_link : Option Bytes
  -- The states that are handed on until five seconds after the ignition.
  pub states : List VmState

-- The fields of the context that `Run` uses itself or hands to `ignition`, and the moment.
pub record Request : Type 0 where
  pub shares : List (Bytes × Bytes)
  pub public_key : Bytes
  pub now : ℕ

require : Error → Bool → Action (List Deed) (Unit {0})
require e true s = (ok tt, s)
require e false s = (err e, s)

given : {A : Type 0} → Result A → Action (List Deed) A
given r s = (r, s)

note : Deed → Action (List Deed) (Unit {0})
note d s = (ok tt, s ++ (d ∷ []))

-- The loop over `ExtendShareDir`.
pub mounts_of : Request → List Fs
unfolding extend_all initial_mounts
mounts_of r = extend_all r.shares initial_mounts

-- The wait with its timer, which fires after the states of these five seconds.
decided : Option (Result (Unit {0})) → Result (Unit {0})
decided none = err (message "still waiting")
decided (some r) = r

await_running : Host → Result (Unit {0})
unfolding wait_for_state decided
await_running h = decided (wait_for_state running (map changed h.states ++ (timed_out ∷ [])))

-- The tasks at the end.
run_tasks : Action (List Deed) (Unit {0})
unfolding note
run_tasks = do note (spawned connect_ports); note (spawned await_stop); note (spawned stop_machine)

-- From the start of the machine on.
bring_up : Request → Host → Action (List Deed) (Unit {0})
unfolding require note given mounts_of await_running run_tasks ignition
bring_up r h = do
  require errno h.starts
  note started
  note notified_progress
  command ← given (ignition h.ignition_listens (mounts_of r) r.public_key r.now h.zone_link)
  note (spawned (send_ignition command))
  given (await_running h)
  run_tasks

-- Behind the select statement.
after_gvproxy : Request → Host → Action (List Deed) (Unit {0})
unfolding require note bring_up
after_gvproxy r h = do
  require errno h.monitor_starts
  note (spawned monitor_power)
  note (spawned watch_states)
  bring_up r h

on_woken : Woken → Request → Host → Action (List Deed) (Unit {0})
unfolding after_gvproxy
on_woken context_done r h s = (ok tt, s)
on_woken gvproxy_late r h s = (err (message "timeout waiting for gvproxy to start"), s)
on_woken gvproxy_ready r h s = after_gvproxy r h s

-- `Run`
unfoldable pub run : Request → Host → Action (List Deed) (Unit {0})
unfolding require given note on_woken mounts_of
run r h = do
  require (message "create vfkit logger error") h.log_opens
  _ ← given (h.config (mounts_of r))
  require errno h.converts
  require errno h.creates
  require errno h.api_listens
  note (spawned serve_api)
  on_woken h.woken r h
