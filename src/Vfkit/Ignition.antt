-- ===== src/Vfkit/Ignition.antt =====
-- pkg/vfkit/ignition.go, with LocalTZ of pkg/utils/misc.go: the command for the guest, the listener,
-- and the task that sends the command. The moment and what the system answers are arguments.
pub mod Laws
use ovm.Base.{
  ℕ, Bytes, bytes, Bool, true, false, if◌then◌else◌, Option, none, some, List, [], ◌∷◌, ◌++◌,
}
use ovm.Os.Outcome.{Error, errno, message, wrap, Result, ok, err}
use ovm.Text.Decimal.{itoa}
use ovm.Text.Split.{trim_prefix}
use ovm.Vfkit.Mounts.{Fs, to_fstab}

-- `LocalTZ`, by what os.Readlink says of /etc/localtime.
unfoldable pub local_tz : Option Bytes → Result Bytes
unfolding trim_prefix
local_tz none = err (message "readlink /etc/localtime failed")
local_tz (some p) = ok (trim_prefix (bytes "/var/db/timezone/zoneinfo") p)

-- The loop over `toFSTAB`: two backslashes and an n stand behind each line.
fstab_of : List Bytes → Bytes
fstab_of [] = []
fstab_of (item ∷ items) = (item ++ (92 ∷ 92 ∷ bytes "n")) ++ fstab_of items

set_zone : Bytes → Bytes
set_zone zone =
    bytes "ln -sf /usr/share/zoneinfo/"
    ++ (zone
        ++ (bytes " /mnt/overlay/etc/localtime; echo "
            ++ (zone ++ bytes " > /mnt/overlay/etc/timezone")))

set_mounts : List Fs → Bytes
unfolding fstab_of to_fstab
set_mounts mounts =
    bytes "echo -e " ++ (fstab_of (to_fstab mounts) ++ bytes " >> /mnt/overlay/etc/fstab")

set_keys : Bytes → Bytes
set_keys public_key =
    bytes "mkdir -p /mnt/overlay/root/.ssh; echo "
    ++ (public_key ++ bytes " >> /mnt/overlay/root/.ssh/authorized_keys")

set_ready : ℕ → Bytes
unfolding itoa
set_ready now =
    bytes "echo -e "
    ++ (34 ∷ bytes "date -s @")
    ++ (itoa now
        ++ (bytes ";"
            ++ (92 ∷ 92 ∷ bytes "necho Ready | socat -v -d -d - VSOCK-CONNECT:2:1026")
            ++ (34 ∷ bytes " > /mnt/overlay/opt/ready.command")))

with_zone : List Fs → Bytes → ℕ → Result Bytes → Result Bytes
unfolding set_zone set_mounts set_keys set_ready
with_zone mounts public_key now (err e) = err e
with_zone mounts public_key now (ok zone) = ok (
    set_mounts mounts
    ++ (bytes "; "
        ++ (set_keys public_key
            ++ (bytes "; " ++ (set_ready now ++ (bytes "; " ++ set_zone zone))))))

-- `cmd`
unfoldable pub cmd : List Fs → Bytes → ℕ → Option Bytes → Result Bytes
unfolding with_zone local_tz
cmd mounts public_key now link = with_zone mounts public_key now (local_tz link)

listened : Bool → Result Bytes → Result Bytes
listened false command = err (message "listen ignition socket failed")
listened true (err e) = err (wrap "generate ignition command failed" e)
listened true (ok command) = ok command

-- `ignition` up to its task: the command that the task will send.
unfoldable pub ignition : Bool → List Fs → Bytes → ℕ → Option Bytes → Result Bytes
unfolding listened cmd
ignition listens mounts public_key now link = listened listens (cmd mounts public_key now link)

-- What the connection says: how accepting went, and whether the write and the close worked.
pub record Connection : Type 0 where
  pub accepted : Result (Unit {0})
  pub written : Result (Unit {0})
  pub closed : Result (Unit {0})

-- Whether the app is told that the ignition is done, and what the task returns.
pub record Sending : Type 0 where
  pub notified_done : Bool
  pub result : Result (Unit {0})

-- An error of the close replaces that of the write.
after_close : Result (Unit {0}) → Result (Unit {0}) → Result (Unit {0})
after_close written (ok _) = written
after_close written (err e) = err e

after_accept : Connection → Result (Unit {0}) → Sending
unfolding after_close
after_accept c (err e) = record { notified_done = false; result = err e }
after_accept c (ok _) = record {
  notified_done = ovm.Os.Outcome.is_ok c.written;
  result = after_close c.written c.closed;
}

-- The task.
unfoldable pub send_command : Connection → Sending
unfolding after_accept
send_command c = after_accept c c.accepted
