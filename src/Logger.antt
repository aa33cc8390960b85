-- ===== src/Logger.antt =====
-- pkg/logger/logger.go: log files that are rotated when they are opened, and the list of the
-- loggers that `CloseAll` closes. The moment that a line is stamped with is an argument.
pub mod Slots
pub mod Rotation
pub mod Safety
pub mod Levels
pub mod Spares
use ovm.Base.{
  ℕ, zero, suc, Bool, true, false, ◌+◌, Bytes, bytes, ltb, ◌==◌, if◌then◌else◌, List, [], ◌∷◌, ◌++◌,
  Option, none, some,
}
use ovm.Os.Outcome.{Error, Result, ok, err, Action, pure, raise, wrapping, ◌>>=◌, ◌>>◌}
use ovm.Os.Disk.{Disk, stat, rename, open_truncated, close, write_fd}
use ovm.Text.Decimal.{itoa}
use ovm.Text.FilePath.{path_join}

pub record Context : Type 0 where
  pub path : Bytes
  pub name : Bytes
  pub file : ℕ

-- `logName + ".log"` for the round `i` of the loop.
unfoldable pub log_name : Bytes → ℕ → Bytes
log_name n i = (if ltb 1 i then n ++ bytes "." ++ itoa i else n) ++ bytes ".log"

unfoldable pub next_name : Bytes → ℕ → Bytes
next_name n i = n ++ bytes "." ++ itoa (i + 1) ++ bytes ".log"

exists : Bytes → Action Disk Bool
unfolding stat
exists p d = elim (stat p d) [ some (some n) ↦ (ok true, d) | _ ↦ (ok false, d) ]

-- A log that is there takes the next number.
unfoldable pub shift : Bytes → Bytes → Action Disk (Unit {0})
unfolding exists rename
shift old new = do
  found ← exists old
  if found then wrapping "cannot rename log file" (rename old new) else pure tt

unfoldable pub init_rounds : Bytes → Bytes → ℕ → Action Disk ℕ
unfolding shift open_truncated
init_rounds p n zero = raise (Error.message "no round")
init_rounds p n (suc zero) = do
  shift (path_join p (log_name n 1)) (path_join p (next_name n 1))
  wrapping "cannot open log file" (open_truncated (path_join p (log_name n 1)))
init_rounds p n (suc (suc i)) = do
  shift (path_join p (log_name n (suc (suc i)))) (path_join p (next_name n (suc (suc i))))
  init_rounds p n (suc i)

-- `init`: `max` is 5, and the rounds go from 4 down to 1. The result is the descriptor.
unfoldable pub init : Bytes → Bytes → Action Disk ℕ
unfolding init_rounds log_name next_name
init p n = init_rounds p n 4

unfoldable pub new_without_manage : Bytes → Bytes → Action Disk Context
unfolding init
new_without_manage p n = do fd ← init p n; pure (record { path = p; name = n; file = fd })

-- The disk and the package's list `cs`.
pub record Loggers : Type 0 where
  pub disk : Disk
  pub managed : List Context

unfoldable pub new : Bytes → Bytes → Action Loggers Context
unfolding new_without_manage
new p n l =
    let (r, d) = new_without_manage p n l.disk in
    elim r [
      | ok c ↦ (ok c, record { disk = d; managed = l.managed ++ (c ∷ []) })
      | err e ↦ (err e, record l { disk = d })
    ]

-- The stream is closed again, and the caller gets the path. Closing is taken to succeed.
unfoldable pub new_without_stream : Bytes → Bytes → Action Disk Bytes
unfolding init close
new_without_stream p n = do fd ← init p n; λ d. (ok (path_join p (n ++ bytes ".log")), close fd d)

close_each : List Context → Disk → Disk
close_each [] d = d
close_each (c ∷ cs) d = close_each cs (close c.file d)

unfoldable pub close_all : Loggers → Loggers
unfolding close_each close
close_all l = record l { disk = close_each l.managed l.disk }

-- `base`: one line with the time and the level.
unfoldable pub line : Bytes → Bytes → Bytes → Bytes
line time level text = time ++ bytes " [" ++ level ++ bytes "]: " ++ text ++ bytes "\n"

unfoldable pub log : Context → Bytes → Bytes → Bytes → Disk → Disk
unfolding write_fd line
log c time level text d = write_fd c.file (line time level text) d
