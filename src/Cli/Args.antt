-- ===== src/Cli/Args.antt =====
-- pkg/cli/cli.go: the flags of the program by their names, and `Parse`, which reads the arguments
-- with Go's flag package.
pub mod Spelling
use ovm.Base.{
  Bytes, bytes, Bool, true, false, ◌==◌, if◌then◌else◌, same, ◌||◌, Option, none, some, List, [],
  ◌∷◌, ℕ,
}
use ovm.Base.Int.{ℤ, pos}
use ovm.Text.Integer.{parse_uint, parse_int, parse_bool, max_uint}
use ovm.Cli.Flags.{Flags}

-- A variable of the package, by what a value of its type does to the flags.
pub data Var : Type 0 where
  text : (Bytes → Flags → Flags) → Var
  unsigned : (ℕ → Flags → Flags) → Var
  signed : (ℤ → Flags → Flags) → Var
  switch : (Bool → Flags → Flags) → Var

-- `Value.Set` of the variable; `none` if the text is no value of its type.
unfoldable pub set : Var → Bytes → Flags → Option Flags
unfolding parse_uint parse_int parse_bool
set (text put) v f = some (put v f)
set (unsigned put) v f = elim (parse_uint max_uint v) [ none ↦ none | some n ↦ some (put n f) ]
set (signed put) v f = elim (parse_int v) [ none ↦ none | some z ↦ some (put z f) ]
set (switch put) v f = elim (parse_bool v) [ none ↦ none | some b ↦ some (put b f) ]

-- The flags that `Parse` defines.
unfoldable pub table : List (Bytes × Var)
table =
    (bytes "name", text (λ v f. record f { name = v }))
    ∷ (bytes "log-path", text (λ v f. record f { log_path = v }))
    ∷ (bytes "socket-path", text (λ v f. record f { socket_path = v }))
    ∷ (bytes "ssh-key-path", text (λ v f. record f { ssh_key_path = v }))
    ∷ (bytes "cpus", unsigned (λ n f. record f { cpus = n }))
    ∷ (bytes "memory", unsigned (λ n f. record f { memory = n }))
    ∷ (bytes "kernel-path", text (λ v f. record f { kernel_path = v }))
    ∷ (bytes "initrd-path", text (λ v f. record f { initrd_path = v }))
    ∷ (bytes "rootfs-path", text (λ v f. record f { rootfs_path = v }))
    ∷ (bytes "target-path", text (λ v f. record f { target_path = v }))
    ∷ (bytes "versions", text (λ v f. record f { versions = v }))
    ∷ (bytes "event-socket-path", text (λ v f. record f { event_socket_path = v }))
    ∷ (bytes "cli", switch (λ b f. record f { cli_mode = b }))
    ∷ (bytes "bind-pid", signed (λ z f. record f { bind_pid = z }))
    ∷ (bytes "power-save-mode", switch (λ b f. record f { power_save_mode = b }))
    ∷ (bytes "kernel-debug", switch (λ b f. record f { kernel_debug = b }))
    ∷ (bytes "extend-share-dir", text (λ v f. record f { extend_share_dir = v }))
    ∷ []

-- The values before any flag is read.
unfoldable pub defaults : Flags
defaults = record {
  name = [];
  log_path = [];
  socket_path = [];
  ssh_key_path = [];
  cpus = 0;
  memory = 0;
  kernel_path = [];
  initrd_path = [];
  rootfs_path = [];
  target_path = [];
  versions = [];
  event_socket_path = [];
  cli_mode = false;
  bind_pid = pos 0;
  power_save_mode = false;
  kernel_debug = false;
  extend_share_dir = [];
}

unfoldable pub find : Bytes → List (Bytes × Var) → Option Var
find name [] = none
find name ((n, v) ∷ t) = let rest = find name t in if same n name then some v else rest

pub data Fault : Type 0 where
  bad_syntax undefined_flag needs_argument : Bytes → Fault
  invalid_value : Bytes → Bytes → Fault

-- The flags, or the end of the program: with code 0 behind the usage, with code 2 for a fault.
pub data Parsing : Type 0 where
  parsed : Flags → Parsing
  helped : Parsing
  refused : Fault → Parsing

-- What one argument is: not a flag, at fault, a flag with its value, or a flag whose value is the
-- next argument.
pub data Move : Type 0 where
  stop help : Move
  fault : Fault → Move
  settle await : Bytes → Var → Bytes → Move

-- The name before the first `=`, and what follows it.
unfoldable pub cut_value : Bytes → Bytes × Option Bytes
cut_value [] = ([], none)
cut_value (c ∷ s) =
    let rest = cut_value s in if c == b'=' then ([], some s) else (c ∷ rest.0, rest.1)

-- A flag that is defined; a switch needs no value.
with_var : Bytes → Var → Option Bytes → Move
with_var name v (some value) = settle name v value
with_var name (switch put) none = settle name (switch put) (bytes "true")
with_var name v none = await name v []

named : Bytes → Option Bytes → Move
unfolding find table with_var
named name value = elim (find name table) [
  | none ↦
      if same name (bytes "help") || same name (bytes "h")
      then help
      else fault (undefined_flag name)
  | some v ↦ with_var name v value
]

-- An argument `s` behind its dashes.
undashed : Bytes → Bytes → Move
unfolding named cut_value
undashed s [] = fault (bad_syntax s)
undashed s (c ∷ rest) =
    if c == b'-' || c == b'='
    then fault (bad_syntax s)
    else named (cut_value (c ∷ rest)).0 (cut_value (c ∷ rest)).1

unfoldable pub classify : Bytes → Move
unfolding undashed
classify [] = stop
classify (c ∷ []) = stop
classify (c ∷ d ∷ s) =
    if c == b'-'
    then (if d == b'-'
        then elim s [ [] ↦ stop | e ∷ t ↦ undashed (c ∷ d ∷ e ∷ t) (e ∷ t) ]
        else undashed (c ∷ d ∷ s) (d ∷ s))
    else stop

-- The value is set and the rest is read.
settled : Bytes → Bytes → (Flags → Parsing) → Option Flags → Parsing
settled name value next none = refused (invalid_value value name)
settled name value next (some f) = next f

-- `flag.Parse`. What is behind the first argument that is no flag is not looked at.
unfoldable pub parse : List Bytes → Flags → Parsing
unfolding classify settled set
parse [] f = parsed f
parse (a ∷ []) f = elim (classify a) [
  | stop ↦ parsed f
  | help ↦ helped
  | fault e ↦ refused e
  | settle name v value ↦ settled name value (λ g. parsed g) (set v value f)
  | await name v _ ↦ refused (needs_argument name)
]
parse (a ∷ b ∷ rest) f = elim (classify a) [
  | stop ↦ parsed f
  | help ↦ helped
  | fault e ↦ refused e
  | settle name v value ↦ settled name value (parse (b ∷ rest)) (set v value f)
  | await name v _ ↦ settled name b (parse rest) (set v b f)
]
