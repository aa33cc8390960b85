-- ===== src/Vfkit/Run/Laws.antt =====
-- When the machine runs, and what stops it.
use ovm.Base.{some, map, ◌++◌, Bytes, Bool, true, false, ◌&&◌, ◌||◌, List, [], ◌∷◌, ◌≡◌, arith}
use ovm.Os.Outcome.{ok, is_ok}
use ovm.Vfkit.Run.{
  serve_api, monitor_power, watch_states, connect_ports, await_stop, stop_machine, send_ignition,
  Deed, spawned, started, notified_progress, gvproxy_ready, Host, Request, run, require, given,
  note, on_woken, after_gvproxy, bring_up, run_tasks, mounts_of,
}
use ovm.Vfkit.Config.{Machine}
use ovm.Vfkit.State.{wait_for_state, running, changed, timed_out}
use ovm.Vfkit.Ignition.{ignition}

abbrev pub is_started : Deed → Bool
is_started started = true
is_started _ = false

abbrev pub is_stopper : Deed → Bool
is_stopper (spawned stop_machine) = true
is_stopper _ = false

abbrev pub is_watcher : Deed → Bool
is_watcher (spawned watch_states) = true
is_watcher _ = false

abbrev pub is_waiter : Deed → Bool
is_waiter (spawned await_stop) = true
is_waiter _ = false

abbrev pub some_deed : (Deed → Bool) → List Deed → Bool
some_deed f [] = false
some_deed f (d ∷ ds) = f d || some_deed f ds

-- The machine is only started after gvproxy has said that it is ready.
pub run-started :
    (r : Request) (h : Host) → some_deed is_started (run r h []).1 ≡ true → h.woken ≡ gvproxy_ready
unfolding run require given note on_woken
run-started r h e = ground arith

-- The task that stops the machine is there exactly if `Run` has started the machine and succeeds:
-- a machine that was started in a call that then fails is not stopped by it.
pub run-stopper :
    (r : Request) (h : Host)
    → some_deed is_stopper (run r h []).1
      ≡ (some_deed is_started (run r h []).1 && is_ok (run r h []).0)
unfolding run require given note on_woken after_gvproxy bring_up run_tasks
run-stopper r h = ground arith

-- A machine that has been started is watched.
pub run-watcher :
    (r : Request) (h : Host)
    → some_deed is_started (run r h []).1 ≡ true
    → some_deed is_watcher (run r h []).1 ≡ true
unfolding run require given note on_woken after_gvproxy bring_up run_tasks
run-watcher r h e = ground arith

-- What has to go well, in the order of the source.
pub record GoesWell (r : Request) (h : Host) : Type 0 where
  pub log_opens : h.log_opens ≡ true
  pub machine : Machine
  pub config : h.config (mounts_of r) ≡ ok machine
  pub converts : h.converts ≡ true
  pub creates : h.creates ≡ true
  pub api_listens : h.api_listens ≡ true
  pub monitor_starts : h.monitor_starts ≡ true
  pub starts : h.starts ≡ true
  pub command : Bytes
  pub ignites :
      ignition h.ignition_listens (mounts_of r) r.public_key r.now h.zone_link ≡ ok command
  pub runs : wait_for_state running (map changed h.states ++ (timed_out ∷ [])) ≡ some (ok tt)

abbrev pub all_deeds : Bytes → List Deed
all_deeds command =
    spawned serve_api
    ∷ spawned monitor_power
    ∷ spawned watch_states
    ∷ started
    ∷ notified_progress
    ∷ spawned (send_ignition command)
    ∷ spawned connect_ports
    ∷ spawned await_stop
    ∷ spawned stop_machine
    ∷ []
