-- ===== src/Tests/Power.antt =====
-- A host that sleeps and wakes while the mode is changed, and a guest that connects late.
use ovm.Base.{
  ◌+◌, if◌then◌else◌, bytes, bytes_dec, same, true, false, none, some, List, [], ◌∷◌, ◌++◌, ◌≡◌,
  refl,
}
use ovm.PowerMonitor.Activity.{awake, sleep, pause_vm, notify_sync_time}
use ovm.PowerMonitor.Tasks.{
  Tasks, start, closed, ◌⇝*◌, here, next, ask, cancel, dial, accept, store, return_accepted,
  take_request, Acceptor,
}
use ovm.PowerMonitor.Tasks.Laws.{requests_balance, in_hand, Failed, Writes, Accepted}
use ovm.PowerMonitor.Tasks.Ending.{tasks_can_end, IsBack, HasAccepted}
use ovm.Restful.Routes.{put_method, Environment}
use ovm.Main.PowerMode.{
  Happening, World, requested, noticed, play, last_mode, expected_all, play-expected_all,
}
use ovm.Tests.Server.{environment, server}

abbrev switching : Environment
switching = record environment {
  power_body = λ b. if◌then◌else◌ (same b (bytes "1")) (some true) none;
}

abbrev one_night : List Happening
one_night =
    noticed sleep true true
    ∷ noticed awake true true
    ∷ requested put_method (bytes "/power-save-mode") (bytes "1")
    ∷ requested put_method (bytes "/power-save-mode") (bytes "x")
    ∷ noticed sleep true true
    ∷ []

abbrev evening : World
evening = record { server = server; reactions = [] }

play-expected_all_example :
    ((play switching one_night evening).reactions ≡ [] ++ expected_all switching one_night false)
    × ((play switching one_night evening).server.power_save_mode
        ≡ last_mode switching one_night false)
play-expected_all_example = play-expected_all switching one_night evening

one_night_lem : expected_all switching one_night false ≡ notify_sync_time ∷ pause_vm ∷ []
unfolding expected_all bytes_dec
one_night_lem = refl

-- A request is dropped, the guest connects, and another request is taken.
abbrev late : Tasks
late = record start {
  done = true;
  connected = true;
  acceptor = Acceptor.returned (ovm.Os.Outcome.ok tt);
  syncer = ovm.PowerMonitor.Tasks.writing;
  asked = 2;
  dropped = 1;
}

late_run : start ⇝* late
late_run =
    next
      (next
        (next
          (next
            (next
              (next
                (next (next (next here (ask refl)) (take_request 0 refl refl refl))
                  (dial refl refl))
                (accept refl refl refl refl))
              (store refl refl))
            (return_accepted refl refl))
          (ask refl))
        (take_request 0 refl refl refl))
      (cancel refl)

requests_balance_example :
    (late.asked ≡ late.queued + late.dropped + late.written + late.failed + in_hand late.syncer)
    × Failed late.syncer late.failed
    × Writes late.syncer late.connected
    × Accepted late.connected late.acceptor
requests_balance_example = requests_balance late late_run

tasks_can_end_example :
    (t : Tasks) × (late ⇝* t) × (t.closer ≡ closed) × HasAccepted t.acceptor × IsBack t.syncer
tasks_can_end_example = tasks_can_end late late_run refl
