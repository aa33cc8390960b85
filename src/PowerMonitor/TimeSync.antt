-- ===== src/PowerMonitor/TimeSync.antt =====
-- pkg/powermonitor/timesync.go: the frames that set the guest's clock, and the loop that writes them.
pub mod Laws
use ovm.Base.{
  ℕ, zero, suc, ◌+◌, ◌-◌, ◌/◌, ◌%◌, Bytes, bytes, Bool, true, false, ◌==◌, if◌then◌else◌, List, [],
  ◌∷◌, ◌++◌, length, drop, take, Option, none, some,
}
use ovm.Text.Decimal.{itoa}

-- The bytes of the command for a moment, in seconds since 1970.
unfoldable pub command : ℕ → Bytes
unfolding itoa
command now = bytes "date -s @" ++ itoa now

-- `binary.LittleEndian.PutUint16` of `uint16(length)`
unfoldable pub header : ℕ → Bytes
header n = let m = n % 65536 in m % 256 ∷ m / 256 ∷ []

-- One answer of the connection's `Write`: the bytes that it took, or an error.
pub data Written : Type 0 where
  took : ℕ → Written
  broken : Written

-- What went out on the connection, and how the loop ended; `none` is a loop that goes on.
pub record Sent : Type 0 where
  pub wire : Bytes
  pub ended : Option Bool

-- The loop of `writeConn`: it writes what is left of the data until all of it is taken.
unfoldable pub write_loop : Bytes → ℕ → List Written → Bytes → Sent
write_loop content total [] wire = record { wire = wire; ended = none }
write_loop content total (broken ∷ answers) wire = record { wire = wire; ended = some false }
write_loop content total (took more ∷ answers) wire =
    let wire' = wire ++ take more (drop total content) in
    let rest = write_loop content (total + more) answers wire' in
    if total + more == length content then record { wire = wire'; ended = some true } else rest

unfoldable pub write_conn : Bytes → List Written → Bytes → Sent
unfolding write_loop
write_conn content answers wire = write_loop content 0 answers wire

then_send : Option Bool → Bytes → List Written → Sent → Sent
unfolding write_conn
then_send none content answers first = first
then_send (some false) content answers first = first
then_send (some true) content answers first = write_conn content answers first.wire

send_both : Bytes → Bytes → List Written → List Written → Bytes → Sent
unfolding then_send
send_both c d c_answers d_answers wire =
    let first = write_conn c c_answers wire in then_send first.ended d d_answers first

-- One round of the loop in `initTimeSync`, once there is a connection: the header, and then the
-- command if the header went out.
unfoldable pub send_time : ℕ → List Written → List Written → Bytes → Sent
unfolding command header send_both
send_time now header_answers command_answers wire =
    send_both (header (length (command now))) (command now) header_answers command_answers wire
