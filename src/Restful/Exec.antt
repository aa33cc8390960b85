-- ===== src/Restful/Exec.antt =====
-- The command of /exec: `exec`, its two writers, and what it puts into the channels of the handler.
-- What ssh answers is an argument, and so is fmt.Sprintf without arguments.
use ovm.Base.{Bytes, bytes, Option, none, some, List, [], ◌∷◌, ◌++◌, map}

-- A write of the session, to its output or to its error output.
pub data Chunk : Type 0 where
  on_stdout : Bytes → Chunk
  on_stderr : Bytes → Chunk

-- How the connection, the session and the command go; `some` is the text of an error.
pub record Session : Type 0 where
  pub dial_error : Option Bytes
  pub session_error : Option Bytes
  pub chunks : List Chunk
  pub run_error : Option Bytes

-- What goes into `outCh` and into `errCh`.
pub record Said : Type 0 where
  pub outputs : List Bytes
  pub error : Option Bytes

-- Both writers hand every write on.
abbrev pub text_of : Chunk → Bytes
text_of (on_stdout b) = b
text_of (on_stderr b) = b

-- `LastRecord`: the last write to the error output.
last_record : Bytes → List Chunk → Bytes
last_record last [] = last
last_record last (on_stdout b ∷ chunks) = last_record last chunks
last_record last (on_stderr b ∷ chunks) = last_record b chunks

run_text : (Bytes → Bytes) → List Chunk → Option Bytes → Option Bytes
unfolding last_record
run_text sprintf chunks none = none
run_text sprintf chunks (some e) = some (sprintf (last_record [] chunks ++ (bytes "\n" ++ e)))

in_session : (Bytes → Bytes) → Session → Option Bytes → Said
unfolding run_text
in_session sprintf s (some e) = record {
  outputs = [];
  error = some (bytes "new ssh session error: " ++ e);
}
in_session sprintf s none = record {
  outputs = map text_of s.chunks;
  error = run_text sprintf s.chunks s.run_error;
}

dialed : (Bytes → Bytes) → Session → Option Bytes → Said
unfolding in_session
dialed sprintf s (some e) = record { outputs = []; error = some (bytes "dial ssh error: " ++ e) }
dialed sprintf s none = in_session sprintf s s.session_error

-- `exec`
unfoldable pub exec : (Bytes → Bytes) → Session → Said
unfolding dialed
exec sprintf s = dialed sprintf s s.dial_error
