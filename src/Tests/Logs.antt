-- ===== src/Tests/Logs.antt =====
-- A folder with three logs, one in which a rename fails, and loggers that are called by turns.
use ovm.Logger.{Context, line}
use ovm.Logger.Levels.{Store, Entry, info, warn, error, perform_all, lines_at, label}
use ovm.Logger.Levels.Laws.{own_lines, opened-own_lines, urgent_lines_kept}
use ovm.Base.{
  [], ◌∷◌, ◌++◌, List, Bytes, bytes, Bool, true, false, Option, none, some, ◌≡◌, refl, arith, ◌⊎◌,
}
use ovm.Os.Outcome.{ok}
use ovm.Os.Disk.{Disk, Node, file, Call, rename_call, put}
use ovm.Logger.{init}
use ovm.Logger.Slots.{slot}
use ovm.Logger.Rotation.{Rotated, init-Rotated}
use ovm.Logger.Safety.{init-Kept}

abbrev folder_path : Bytes
folder_path = bytes "/logs"

abbrev name : Bytes
name = bytes "ovm"

abbrev some_logs : Bytes → Option Node
some_logs =
    put
      (put (put (λ q. none) (slot folder_path name 1) (some (file (bytes "new"))))
        (slot folder_path name 2) (some (file (bytes "old"))))
      (slot folder_path name 4) (some (file (bytes "oldest")))

abbrev quiet : Disk
quiet = record {
  entry = some_logs;
  fault = λ c. false;
  open_at = λ n. none;
  next_fd = 3;
  partial = λ p. 0;
}

init-Rotated_example :
    ((init folder_path name quiet).0 ≡ ok 3)
    × Rotated folder_path name quiet.entry (init folder_path name quiet).1.entry
init-Rotated_example = init-Rotated folder_path name quiet (λ e. cc) (λ c. refl) (λ i. ground arith)

abbrev is_rename : Call → Bool
is_rename (rename_call a b) = true
is_rename _ = false

abbrev stuck : Disk
stuck = record quiet { fault = is_rename }

init-Kept_example :
    ((init folder_path name stuck).1.entry (slot folder_path name 4) ≡ some (file (bytes "oldest")))
    ⊎ ((init folder_path name stuck).1.entry (slot folder_path name 5)
        ≡ some (file (bytes "oldest")))
init-Kept_example =
    init-Kept folder_path name 4 (file (bytes "oldest")) stuck (λ e. cc) (λ q. refl) (omega arith)
      (omega arith) (ground arith)

-- Two loggers whose lines are written by turns.
abbrev first_logger : Context
first_logger = record { path = folder_path; name = name; file = 3 }

abbrev second_logger : Context
second_logger = record { path = folder_path; name = bytes "ovm-event"; file = 2 }

abbrev by_turns : List Entry
by_turns =
    record { logger = first_logger; level = info; time = bytes "1"; text = bytes "a" }
    ∷ record { logger = second_logger; level = warn; time = bytes "2"; text = bytes "b" }
    ∷ record { logger = first_logger; level = info; time = bytes "3"; text = bytes "c" }
    ∷ []

abbrev quiet_store : Store
quiet_store = record { disk = quiet; durable = λ q. none }

opened-own_lines_example :
    (perform_all
        (λ s. s)
        by_turns
        (record quiet_store { disk = (init folder_path name quiet).1 })).disk.entry
      (slot folder_path name 1)
    ≡ some (file (own_lines 3 by_turns))
opened-own_lines_example =
    opened-own_lines (λ s. s) folder_path name by_turns quiet_store (λ e. cc) (λ c. refl)
      (λ i. ground arith) (λ x e. cc)

own_lines_lem : own_lines 3 by_turns ≡ bytes "1 [INFO]: a\n3 [INFO]: c\n"
unfolding own_lines line label
own_lines_lem = refl

-- The log is open, and has a line.
abbrev open_store : Store
open_store = record {
  disk = record quiet {
    entry = put (λ q. none) (bytes "/logs/ovm.log") (some (file (bytes "0\n")));
    open_at = λ n. some (bytes "/logs/ovm.log");
  };
  durable = λ q. none;
}

abbrev failed_call : Entry
failed_call = record { logger = first_logger; level = error; time = bytes "4"; text = bytes "d" }

urgent_lines_kept_example :
    (perform_all (λ s. s) (by_turns ++ (failed_call ∷ [])) open_store).durable
      (bytes "/logs/ovm.log")
    ≡ some (
        file (
          bytes "0\n"
          ++ lines_at open_store.disk.open_at
              (bytes "/logs/ovm.log")
              (by_turns ++ (failed_call ∷ []))))
urgent_lines_kept_example =
    urgent_lines_kept (λ s. s) (bytes "/logs/ovm.log") by_turns failed_call (bytes "0\n") open_store
      refl refl (ground arith) tt refl
