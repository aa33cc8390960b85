-- ===== src/Vfkit/Ignition/Laws.antt =====
-- When the ignition succeeds, and what the guest is told.
use ovm.Base.{ℕ, Bytes, Bool, true, false, ◌&&◌, none, some, List, ◌≡◌, refl, arith}
use ovm.Os.Outcome.{is_ok}
use ovm.Vfkit.Mounts.{Fs}
use ovm.Vfkit.Ignition.{
  cmd, ignition, Connection, send_command, local_tz, with_zone, after_accept, after_close, listened,
}

-- The task succeeds exactly if the connection is accepted, written to and closed, and the app is told
-- that the ignition is done exactly if the command was written, also where the close then fails.
send_command_lem :
    (c : Connection)
    → (is_ok (send_command c).result ≡ (is_ok c.accepted && is_ok c.written && is_ok c.closed))
      × ((send_command c).notified_done ≡ (is_ok c.accepted && is_ok c.written))
unfolding send_command after_accept after_close
send_command_lem c = (ground arith, ground arith)

-- `ignition` starts its task exactly if it can listen and the link of the time zone can be read.
ignition_lem :
    (listens : Bool) (mounts : List Fs) (public_key : Bytes) (now : ℕ)
    → (is_ok (ignition listens mounts public_key now none) ≡ false)
      × ((zone : Bytes) → is_ok (ignition listens mounts public_key now (some zone)) ≡ listens)
unfolding ignition cmd listened with_zone local_tz
ignition_lem true mounts public_key now = (refl, λ zone. refl)
ignition_lem false mounts public_key now = (refl, λ zone. refl)
