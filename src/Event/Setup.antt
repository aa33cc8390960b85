-- ===== src/Event/Setup.antt =====
-- pkg/ipc/event/event.go: `Setup`, with and without a socket path, and the three calls that
-- announce an event, on the package's `e`. The goroutine that `Setup` starts is that of `Event`.
use ovm.Base.{true, Bytes, bytes, same, if◌then◌else◌, Option, none, some, [], ◌++◌}
use ovm.Os.Outcome.{Action, pure, ◌>>◌}
use ovm.Logger.{Loggers, new}
use ovm.Event.{Events, Datum, k_app, k_error, exit_datum, start, put, waiting_done}

unfoldable client_of : Bytes → Option Events
client_of socket_path = if same socket_path [] then none else some start

-- `Setup`: without a socket path `e` stays nil, and no event is sent.
unfoldable pub setup_events : Bytes → Bytes → Bytes → Action Loggers (Option Events)
unfolding client_of new
setup_events log_path name socket_path = do
  new log_path (name ++ bytes "-event")
  pure (client_of socket_path)

-- A send on the channel; on a closed channel it panics.
send : Datum → Events → Events
send d s = if s.closed then record s { panicked = true } else put d s

unfoldable pub notify : Datum → Option Events → Option Events
unfolding send
notify d none = none
notify d (some s) = some (send d s)

app_datum : Bytes → Datum
app_datum name = record { name = k_app; message = name }

-- `NotifyApp` and `NotifyError`.
unfoldable pub notify_app : Bytes → Option Events → Option Events
unfolding notify app_datum
notify_app name e = notify (app_datum name) e

unfoldable pub notify_error : Bytes → Option Events → Option Events
unfolding notify
notify_error text e = notify (record { name = k_error; message = text }) e

-- `NotifyExit` up to its receive.
unfoldable pub notify_exit : Option Events → Option Events
unfolding notify
notify_exit none = none
notify_exit (some s) = some (record (send exit_datum s) { exit_call = waiting_done })
