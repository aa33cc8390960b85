-- ===== src/Logger/Levels.antt =====
-- pkg/logger/logger.go: `Info`, `Warn`, `Error` and `Close`, and what is on the disk for good. The
-- moment of a call and the text of fmt.Sprintf without arguments are arguments; the forms with a
-- format pass the text on that fmt.Sprintf gave.
pub mod Laws
use ovm.Base.{
  Bytes, bytes, bytes_dec, same, Bool, true, false, if◌then◌else◌, ◌==◌, ℕ, Option, none, some,
  List, [], ◌∷◌, ◌++◌, ◌≡◌, ◌≢◌, refl, sym, ap, ◌∙◌, arith, append-nil, append_assoc,
}
use ovm.Os.Outcome.{ok}
use ovm.Os.Disk.{Disk, Node, file, Call, write_call, sync_call, put, close, write_fd, append_to}
use ovm.Logger.{Context, line, log, new_without_manage, init}
use ovm.Logger.Slots.{slot}
use ovm.Logger.Rotation.{NoFault, IsPlain, Rotated, init-Rotated, init-open}

pub data Level : Type 0 where
  info warn error : Level

unfoldable pub label : Level → Bytes
label info = bytes "INFO"
label warn = bytes "WARN"
label error = bytes "ERROR"

-- The files as programs see them, and as they are after a crash of the machine.
pub record Store : Type 0 where
  pub disk : Disk
  pub durable : Bytes → Option Node

-- `c.file.Sync()`
unfoldable pub sync : ℕ → Store → Store
sync fd s = elim (s.disk.open_at fd) [
  | none ↦ s
  | some p ↦
      if s.disk.fault (sync_call p)
      then s
      else record s { durable = put s.durable p (s.disk.entry p) }
]

unfoldable pub write_line : Context → Bytes → Level → Bytes → Store → Store
unfolding log label
write_line c time level text s = record s { disk = log c time (label level) text s.disk }

unfoldable pub info_call : Context → Bytes → Bytes → Store → Store
unfolding write_line
info_call c time text s = write_line c time info text s

unfoldable pub warn_call : Context → Bytes → Bytes → Store → Store
unfolding write_line sync
warn_call c time text s = sync c.file (write_line c time warn text s)

-- The text of the error that is returned, and the store.
unfoldable pub error_call : (Bytes → Bytes) → Context → Bytes → Bytes → Store → Bytes × Store
unfolding write_line sync
error_call sprintf c time text s = (sprintf text, sync c.file (write_line c time error text s))

unfoldable pub close_log : Context → Store → Store
close_log c s = record s { disk = close c.file s.disk }

-- One call of a logger.
pub record Entry : Type 0 where
  pub logger : Context
  pub level : Level
  pub time : Bytes
  pub text : Bytes

perform_at : (Bytes → Bytes) → Level → Context → Bytes → Bytes → Store → Store
unfolding info_call warn_call error_call
perform_at sprintf info c time text s = info_call c time text s
perform_at sprintf warn c time text s = warn_call c time text s
perform_at sprintf error c time text s = (error_call sprintf c time text s).1

unfoldable pub perform : (Bytes → Bytes) → Entry → Store → Store
unfolding perform_at
perform sprintf e s = perform_at sprintf e.level e.logger e.time e.text s

unfoldable pub perform_all : (Bytes → Bytes) → List Entry → Store → Store
unfolding perform
perform_all sprintf [] s = s
perform_all sprintf (e ∷ es) s = perform_all sprintf es (perform sprintf e s)

-- What a call adds to the file at a path, by where the descriptors stand.
line_at : (ℕ → Option Bytes) → Bytes → Entry → Bytes
unfolding line label
line_at open_at p e = elim (open_at e.logger.file) [
  | none ↦ []
  | some q ↦ if same q p then line e.time (label e.level) e.text else []
]

unfoldable pub lines_at : (ℕ → Option Bytes) → Bytes → List Entry → Bytes
unfolding line_at
lines_at open_at p [] = []
lines_at open_at p (e ∷ es) = line_at open_at p e ++ lines_at open_at p es
