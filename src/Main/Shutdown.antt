-- ===== src/Main/Shutdown.antt =====
-- The end of the group of tasks in cmd/ovm/main.go, as far as pkg/vfkit/vfkit.go decides it: the
-- listener of the states, the task that waits for the machine's end, the one that stops the machine,
-- and the tasks that wait for the context.
-- Apart from them the machine may go down by itself: the guest powers off, the machine fails, or a
-- request of the API stops it.
pub mod Laws
use ovm.Vfkit.State.{VmState}
use ovm.Vfkit.Watch.{watch}
use ovm.Base.{not, ◌&&◌, ℕ, suc, Bool, true, false, List, ◌≡◌}
use ovm.Vfkit.Run.{Deed, spawned, watch_states, stop_machine, started}
use ovm.Vfkit.Run.Laws.{some_deed, is_started, is_stopper, is_watcher, is_waiter}

pub record Group : Type 0 where
  pub context_done : Bool
  pub machine_up : Bool
  pub watching : Bool  -- the listener has not returned
  pub stopping : Bool  -- the task that stops the machine has not returned
  pub awaiting : Bool  -- the task that waits for the machine's end has not returned
  pub others : ℕ  -- the tasks that return when the context is done

-- The group behind the return of vfkit's `Run`, from what it has done and the states of the machine
-- that the listener has handed on by then: it has returned at one in which the machine has stopped
-- or failed.
unfoldable pub group_of : List Deed → List VmState → ℕ → Group
unfolding watch
group_of deeds states n = record {
  context_done = false;
  machine_up = some_deed is_started deeds && not (watch states).returned;
  watching = some_deed is_watcher deeds && not (watch states).returned;
  stopping = some_deed is_stopper deeds;
  awaiting = some_deed is_waiter deeds;
  others = n;
}

infix 40 ◌⊸◌ ◌⊸*◌
pub data ◌⊸◌ (s t : Group) : Type 0 where
  -- A task returns an error, or the program gets a signal.
  cancels : t ≡ record s { context_done = true } → s ⊸ t
  -- The task that stops the machine: `stopVM` works, or fails, and the task returns.
  stops :
      s.context_done ≡ true
      → s.stopping ≡ true
      → t ≡ record s { machine_up = false; stopping = false }
      → s ⊸ t
  fails_to_stop :
      s.context_done ≡ true → s.stopping ≡ true → t ≡ record s { stopping = false } → s ⊸ t
  -- The listener is told that the machine has stopped or failed.
  watcher_returns :
      s.machine_up ≡ false → s.watching ≡ true → t ≡ record s { watching = false } → s ⊸ t
  waiter_returns :
      s.machine_up ≡ false → s.awaiting ≡ true → t ≡ record s { awaiting = false } → s ⊸ t
  other_returns :
      (n : ℕ) → s.context_done ≡ true → s.others ≡ suc n → t ≡ record s { others = n } → s ⊸ t

pub data ◌⊸*◌ (s : Group) : Group → Type 0 where
  here : s ⊸* s
  next : {t u : Group} → s ⊸* t → t ⊸ u → s ⊸* u

-- The steps of the tasks, and the machine that goes down by itself.
infix 40 ◌⊶◌ ◌⊶*◌
pub data ◌⊶◌ (s t : Group) : Type 0 where
  by_task : s ⊸ t → s ⊶ t
  goes_down : t ≡ record s { machine_up = false } → s ⊶ t

pub data ◌⊶*◌ (s : Group) : Group → Type 0 where
  here : s ⊶* s
  next : {t u : Group} → s ⊶* t → t ⊶ u → s ⊶* u

-- All tasks have returned, and so does `g.Wait`.
pub record IsOver (s : Group) : Type 0 where
  pub not_watching : s.watching ≡ false
  pub not_stopping : s.stopping ≡ false
  pub not_awaiting : s.awaiting ≡ false
  pub no_others : s.others ≡ 0
