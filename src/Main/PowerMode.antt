-- ===== src/Main/PowerMode.antt =====
-- The context's `PowerSaveMode` is shared: pkg/ipc/restful/restful.go writes it on a request, and the
-- loop of pkg/powermonitor/powermonitor.go reads it at each activity of the host.
use ovm.Base.{
  Bytes, Bool, true, false, if◌then◌else◌, List, [], ◌∷◌, ◌++◌, ◌≡◌, refl, ap, sym, ◌∙◌, arith,
  append-nil, append_assoc,
}
use ovm.Restful.Routes.{Method, Environment, Server, handle}
use ovm.Restful.Routes.Power.{mode_after, handle-mode_after}
use ovm.PowerMonitor.Activity.{
  Kind, awake, sleep, other, Reaction, notify_sync_time, resume_vm, pause_vm, react,
}

-- A request, or an activity of the host with what the machine answers then.
pub data Happening : Type 0 where
  requested : Method → Bytes → Bytes → Happening
  noticed : Kind → Bool → Bool → Happening

pub record World : Type 0 where
  pub server : Server
  pub reactions : List Reaction

on_activity : Kind → Bool → Bool → World → World
unfolding react
on_activity kind can_resume can_pause w = record w {
  reactions =
      w.reactions
      ++ react kind (record {
        kind = kind;
        power_save_mode = w.server.power_save_mode;
        can_resume = can_resume;
        can_pause = can_pause;
      });
}

step : Environment → Happening → World → World
unfolding on_activity handle
step env (requested method path body) w = record w {
  server = (handle env method path body w.server).1;
}
step env (noticed kind can_resume can_pause) w = on_activity kind can_resume can_pause w

unfoldable pub play : Environment → List Happening → World → World
unfolding step
play env [] w = w
play env (h ∷ hs) w = play env hs (step env h w)

-- The mode that the last request to set it has asked for, or the one that the program began with.
unfoldable pub last_mode : Environment → List Happening → Bool → Bool
unfolding mode_after
last_mode env [] mode = mode
last_mode env (requested method path body ∷ hs) mode =
    last_mode env hs (mode_after env method path body mode)
last_mode env (noticed kind can_resume can_pause ∷ hs) mode = last_mode env hs mode

-- What the host expects of the program in a mode.
unfoldable pub expected : Kind → Bool → Bool → Bool → List Reaction
expected awake false can_resume can_pause = notify_sync_time ∷ []
expected awake true can_resume can_pause = if can_resume then resume_vm ∷ [] else []
expected sleep false can_resume can_pause = []
expected sleep true can_resume can_pause = if can_pause then pause_vm ∷ [] else []
expected other mode can_resume can_pause = []

unfoldable pub expected_all : Environment → List Happening → Bool → List Reaction
unfolding expected mode_after
expected_all env [] mode = []
expected_all env (requested method path body ∷ hs) mode =
    expected_all env hs (mode_after env method path body mode)
expected_all env (noticed kind can_resume can_pause ∷ hs) mode =
    expected kind mode can_resume can_pause ++ expected_all env hs mode

react-expected :
    (kind : Kind) (mode can_resume can_pause : Bool)
    → react kind (record {
      kind = kind;
      power_save_mode = mode;
      can_resume = can_resume;
      can_pause = can_pause;
    })
      ≡ expected kind mode can_resume can_pause
unfolding react expected
react-expected awake false r p = refl
react-expected awake true r p = ground arith
react-expected sleep false r p = refl
react-expected sleep true r p = ground arith
react-expected other mode r p = refl

-- Whatever requests come between the activities of the host, the machine is paused, resumed or given
-- the time at each activity as the mode asks for that the last accepted request has set by then; no
-- other request changes it.
pub play-expected_all :
    (env : Environment) (hs : List Happening) (w : World)
    → ((play env hs w).reactions ≡ w.reactions ++ expected_all env hs w.server.power_save_mode)
      × ((play env hs w).server.power_save_mode ≡ last_mode env hs w.server.power_save_mode)
unfolding play step on_activity expected_all last_mode
play-expected_all env [] w = (sym (append-nil w.reactions), refl)
play-expected_all env (requested method path body ∷ hs) w =
    let (seen, mode) =
      play-expected_all env hs (record w { server = (handle env method path body w.server).1 }) in
    let set = handle-mode_after env method path body w.server in
    (seen ∙ ap (λ m. w.reactions ++ expected_all env hs m) set, mode ∙ ap (last_mode env hs) set)
play-expected_all env (noticed kind can_resume can_pause ∷ hs) w =
    let (seen, mode) = play-expected_all env hs (on_activity kind can_resume can_pause w) in
    (
      seen
          ∙ append_assoc w.reactions _ (expected_all env hs w.server.power_save_mode)
          ∙ ap (λ rs. w.reactions ++ (rs ++ expected_all env hs w.server.power_save_mode))
              (react-expected kind w.server.power_save_mode can_resume can_pause),
      mode,
    )
