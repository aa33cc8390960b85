-- ===== src/Main/Start.antt =====
-- cmd/ovm/main.go: `init`, and `main` up to the set up of the events, from the arguments on, with the
-- packages' own functions. The lines that are printed and logged are left out.
pub mod Laws
use ovm.Base.{Bool, Bool, ℕ, Bytes, bytes, String, Option, none, some, List, [], ◌∷◌, ◌++◌}
use ovm.Os.Outcome.{is_ok, Error, Result, ok, err, Action}
use ovm.Os.Disk.{Disk}
use ovm.Logger.{Loggers, new, new_without_manage}
use ovm.PidLock.{Context, Locks, unlock}
use ovm.Cli.Flags.{Flags, validate}
use ovm.Cli.Args.{parse, Parsing, parsed, helped, refused, defaults}
use ovm.Cli.Versions.{Key, Codec}
use ovm.Cli.Sockets.{Sockets}
use ovm.Cli.Keys.{Keygen, Keys}
use ovm.Cli.Setup.{Program, Basics, Images, pre_setup, setup}
use ovm.Event.{Events}
use ovm.Event.Setup.{setup_events}
use ovm.Main.SingleInstance.{Answers, Outcome, Ending, panicked, returned, make_single_instance}

-- The files with the open loggers, the lock files, and the package's `cleans`.
pub record World : Type 0 where
  pub loggers : Loggers
  pub locks : Locks
  pub cleans : List Context

unlock_each : List Context → Locks → Locks
unlock_each [] s = s
unlock_each (l ∷ ls) s = unlock_each ls (unlock l s)

-- What `main` goes on with.
pub record Session (Signer : Type 0) : Type 0 where
  pub basics : Basics
  pub sockets : Sockets
  pub keys : Keys Signer
  pub ssh_port : ℕ
  pub images : Images
  pub events : Option Events

pub data Reached (Signer : Type 0) : Type 0 where
  exited : ℕ → Reached Signer
  crashed : Reached Signer
  going_on : Session Signer → Reached Signer

abbrev on_disk : {A : Type 0} → Action Disk A → Action Loggers A
on_disk m l = let (r, d) = m l.disk in (r, record l { disk = d })

abbrev pub single_log : Bytes
single_log = bytes "single-instance"

module _ {Signer : Type 0} where
  -- `exit`
  exit : ℕ → World → Reached Signer × World
  unfolding unlock_each
  exit code w = (exited code, record w { locks = unlock_each w.cleans w.locks })

  after_stage :
      {A : Type 0}
      → (A → World → Reached Signer × World)
      → World
      → Result A × Loggers
      → Reached Signer × World
  unfolding exit
  after_stage next w (ok a, l) = next a (record w { loggers = l })
  after_stage next w (err e, l) = exit 1 (record w { loggers = l })

  -- A call whose error ends the program.
  stage :
      {A : Type 0}
      → Action Loggers A
      → (A → World → Reached Signer × World)
      → World
      → Reached Signer × World
  unfolding after_stage
  stage m next w = after_stage next w (m w.loggers)

  after_lock : (World → Reached Signer × World) → World → Ending → Locks → Reached Signer × World
  unfolding exit
  after_lock next w panicked locks = (crashed, record w { locks = locks })
  after_lock next w (returned (err e)) locks = exit 1 (record w { locks = locks })
  after_lock next w (returned (ok l)) locks =
      next (record w { locks = locks; cleans = w.cleans ++ (l ∷ []) })

  -- `makeSingleInstance` with its own logger, whose answer is the logger's result.
  single_instance :
      Answers
      → ℕ
      → Basics
      → Bytes
      → (World → Reached Signer × World)
      → World
      → Reached Signer × World
  unfolding after_lock
  single_instance a pid b log_path next w =
      let (r, l) = on_disk (new_without_manage log_path single_log) w.loggers in
      let out =
        make_single_instance (record a { log_opens = is_ok r }) pid b.lock_file b.executable_path
          w.locks in
      after_lock next (record w { loggers = l }) out.ending out.locks

  with_events :
      Basics
      → Sockets × (Keys Signer × (ℕ × Images))
      → Option Events
      → World
      → Reached Signer × World
  with_events b (sockets, (keys, (port, images))) e w = (
    going_on (record {
      basics = b;
      sockets = sockets;
      keys = keys;
      ssh_port = port;
      images = images;
      events = e;
    }),
    w,
  )

module _ {Signer : Type 0} (parse_key : Bytes → Option Signer) (sys : Program) (a : Answers)
    (pid : ℕ) (j : Codec) (gen : Keygen) (occupied : ℕ → Bool) (cwd : Option Bytes)
    (order : List Key) where
  with_setup :
      Flags
      → Basics
      → Bytes
      → Sockets × (Keys Signer × (ℕ × Images))
      → World
      → Reached Signer × World
  unfolding stage setup_events with_events
  with_setup f b log_path out =
      stage (setup_events log_path b.name f.event_socket_path) (with_events b out)

  with_log : Flags → Basics → Bytes → World → Reached Signer × World
  unfolding stage with_setup setup
  with_log f b log_path =
      stage (on_disk (setup parse_key j gen occupied cwd order f)) (with_setup f b log_path)

  with_lock : Flags → Basics → Bytes → World → Reached Signer × World
  unfolding stage with_log new
  with_lock f b log_path = stage (new log_path (b.name ++ bytes "-ovm")) λ c. with_log f b log_path

  with_basics : Flags → Basics × Bytes → World → Reached Signer × World
  unfolding single_instance with_lock
  with_basics f (b, log_path) = single_instance a pid b log_path (with_lock f b log_path)

  validated : Flags → Option String → World → Reached Signer × World
  unfolding stage with_basics pre_setup exit
  validated f none w = stage (on_disk (pre_setup sys cwd f)) (with_basics f) w
  validated f (some e) w = exit 1 w

  -- `init` behind the flags, and `main`.
  with_flags : Flags → World → Reached Signer × World
  unfolding validated validate
  with_flags f w = validated f (validate f) w

  after_parse : Parsing → World → Reached Signer × World
  unfolding with_flags
  after_parse (parsed f) w = with_flags f w
  after_parse helped w = (exited 0, w)
  after_parse (refused e) w = (exited 2, w)

  unfoldable pub begin : List Bytes → World → Reached Signer × World
  unfolding after_parse parse defaults
  begin args w = after_parse (parse args defaults) w
