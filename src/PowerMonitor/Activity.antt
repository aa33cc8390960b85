-- ===== src/PowerMonitor/Activity.antt =====
-- pkg/powermonitor/powermonitor.go: the loop over the notifier's activities. The machine's answers
-- are taken at each activity.
use ovm.Base.{
  Bool, true, false, not, if◌then◌else◌, List, [], ◌∷◌, ◌++◌, ◌≡◌, refl, arith, All, All-append,
}

pub data Kind : Type 0 where
  awake sleep other : Kind

pub record Activity : Type 0 where
  pub kind : Kind
  pub power_save_mode : Bool
  pub can_resume : Bool
  pub can_pause : Bool

pub data Reaction : Type 0 where
  notify_sync_time resume_vm pause_vm : Reaction

on_awake : Bool → Bool → List Reaction
on_awake power_save_mode can_resume =
    if not power_save_mode
    then notify_sync_time ∷ []
    else if not can_resume
    then []
    else resume_vm ∷ []

on_sleep : Bool → Bool → List Reaction
on_sleep power_save_mode can_pause =
    if not power_save_mode then [] else if not can_pause then [] else pause_vm ∷ []

unfoldable pub react : Kind → Activity → List Reaction
unfolding on_awake on_sleep
react awake a = on_awake a.power_save_mode a.can_resume
react sleep a = on_sleep a.power_save_mode a.can_pause
react other a = []

-- The loop until the channel is closed.
unfoldable pub run : List Activity → List Reaction
unfolding react
run [] = []
run (a ∷ more) = react a.kind a ++ run more

abbrev pub IsSaving : Reaction → Type 0
IsSaving notify_sync_time = ⊥
IsSaving _ = Unit

abbrev pub is_awake : Kind → Bool
is_awake awake = true
is_awake _ = false

pub count_awake : List Activity → List Reaction
count_awake [] = []
count_awake (a ∷ more) =
    if is_awake a.kind then notify_sync_time ∷ count_awake more else count_awake more

-- Outside the power save mode the machine is never paused or resumed, and the guest's clock is set
-- once for each time that the host wakes up.
run_always_on :
    (seen : List Activity) → All (λ a. a.power_save_mode ≡ false) seen → run seen ≡ count_awake seen
unfolding run count_awake
run_always_on [] h = refl
run_always_on (a ∷ more) (h, hs) = ground (arith, run_always_on more hs)

-- In the power save mode the clock is not set, and each reaction is a pause or a resumption.
run-IsSaving :
    (seen : List Activity) → All (λ a. a.power_save_mode ≡ true) seen → All IsSaving (run seen)
unfolding run
run-IsSaving [] h = tt
run-IsSaving (a ∷ more) (h, hs) =
    All-append IsSaving (react a.kind a) (run more) (ground arith) (run-IsSaving more hs)
