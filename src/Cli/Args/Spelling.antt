-- ===== src/Cli/Args/Spelling.antt =====
-- pkg/cli/cli.go: how a caller may write the flags, and that `Parse` then reads what is meant.
pub mod Laws
use ovm.Base.{
  Bytes, bytes, Bool, true, false, ◌==◌, if◌then◌else◌, same, ◌≡◌, refl, ◌≤◌, ◌≢◌, Option, none,
  some, List, [], ◌∷◌, ◌++◌, ap, ◌∙◌, arith, ℕ, All,
}
use ovm.Base.Int.{ℤ, pos}
use ovm.Text.Decimal.{itoa}
use ovm.Text.Split.{Lacks}
use ovm.Text.Integer.{print_int, max_uint, IsInt, parse_uint-itoa, parse_int-print_int, parse_bool}
use ovm.Cli.Flags.{Flags}
use ovm.Cli.Args.{
  with_var, named, undashed, Var, text, unsigned, signed, switch, set, table, find, cut_value,
  classify, parse, parsed, Parsing, settled, stop, help, fault, settle, await,
}

-- The flags by the types of their values.
pub data TextFlag : Type 0 where
  name log_path socket_path ssh_key_path kernel_path initrd_path rootfs_path target_path versions
        event_socket_path extend_share_dir :
      TextFlag

pub data NumberFlag : Type 0 where
  cpus memory : NumberFlag

pub data SwitchFlag : Type 0 where
  cli power_save_mode kernel_debug : SwitchFlag

-- A flag with the value that is meant.
pub data Setting : Type 0 where
  text_is : TextFlag → Bytes → Setting
  number_is : NumberFlag → ℕ → Setting
  bind_pid_is : ℤ → Setting
  switch_is : SwitchFlag → Bool → Setting

-- `-flag=value`, `-flag value`, and `-flag` for a switch that is on; each with one dash or two.
pub data Form : Type 0 where
  joined apart bare : Form

pub record Spelling : Type 0 where
  pub form : Form
  pub double : Bool
  pub setting : Setting

unfoldable pub put_text : TextFlag → Bytes → Flags → Flags
put_text name v f = record f { name = v }
put_text log_path v f = record f { log_path = v }
put_text socket_path v f = record f { socket_path = v }
put_text ssh_key_path v f = record f { ssh_key_path = v }
put_text kernel_path v f = record f { kernel_path = v }
put_text initrd_path v f = record f { initrd_path = v }
put_text rootfs_path v f = record f { rootfs_path = v }
put_text target_path v f = record f { target_path = v }
put_text versions v f = record f { versions = v }
put_text event_socket_path v f = record f { event_socket_path = v }
put_text extend_share_dir v f = record f { extend_share_dir = v }

unfoldable pub put_number : NumberFlag → ℕ → Flags → Flags
put_number cpus n f = record f { cpus = n }
put_number memory n f = record f { memory = n }

unfoldable pub put_switch : SwitchFlag → Bool → Flags → Flags
put_switch cli b f = record f { cli_mode = b }
put_switch power_save_mode b f = record f { power_save_mode = b }
put_switch kernel_debug b f = record f { kernel_debug = b }

-- What the setting means for the flags.
unfoldable pub give : Setting → Flags → Flags
unfolding put_text put_number put_switch
give (text_is t v) f = put_text t v f
give (number_is t n) f = put_number t n f
give (bind_pid_is z) f = record f { bind_pid = z }
give (switch_is t b) f = put_switch t b f

unfoldable pub give_all : List Spelling → Flags → Flags
unfolding give
give_all [] f = f
give_all (s ∷ ss) f = give_all ss (give s.setting f)

text_name : TextFlag → Bytes
text_name name = bytes "name"
text_name log_path = bytes "log-path"
text_name socket_path = bytes "socket-path"
text_name ssh_key_path = bytes "ssh-key-path"
text_name kernel_path = bytes "kernel-path"
text_name initrd_path = bytes "initrd-path"
text_name rootfs_path = bytes "rootfs-path"
text_name target_path = bytes "target-path"
text_name versions = bytes "versions"
text_name event_socket_path = bytes "event-socket-path"
text_name extend_share_dir = bytes "extend-share-dir"

number_name : NumberFlag → Bytes
number_name cpus = bytes "cpus"
number_name memory = bytes "memory"

switch_name : SwitchFlag → Bytes
switch_name cli = bytes "cli"
switch_name power_save_mode = bytes "power-save-mode"
switch_name kernel_debug = bytes "kernel-debug"

flag_of : Setting → Bytes
unfolding text_name number_name switch_name
flag_of (text_is t v) = text_name t
flag_of (number_is t n) = number_name t
flag_of (bind_pid_is z) = bytes "bind-pid"
flag_of (switch_is t b) = switch_name t

print_bool : Bool → Bytes
print_bool true = bytes "true"
print_bool false = bytes "false"

value_of : Setting → Bytes
unfolding print_bool print_int itoa
value_of (text_is t v) = v
value_of (number_is t n) = itoa n
value_of (bind_pid_is z) = print_int z
value_of (switch_is t b) = print_bool b

dashed : Bool → Bytes → Bytes
dashed double s = if double then b'-' ∷ b'-' ∷ s else b'-' ∷ s

spelled : Form → Bool → Setting → List Bytes
unfolding flag_of value_of dashed
spelled joined double s = dashed double (flag_of s ++ (b'=' ∷ value_of s)) ∷ []
spelled apart double s = dashed double (flag_of s) ∷ value_of s ∷ []
spelled bare double s = dashed double (flag_of s) ∷ []

-- The arguments that a caller writes for the settings.
unfoldable pub args_of : List Spelling → List Bytes
unfolding spelled
args_of [] = []
args_of (s ∷ ss) = spelled s.form s.double s.setting ++ args_of ss

-- Numbers fit into 64 bits.
abbrev Fits : Setting → Type 0
Fits (number_is t n) = n ≤ max_uint
Fits (bind_pid_is z) = IsInt z
Fits _ = Unit

-- A switch takes its value behind `=` only, and only a switch may go without a value.
abbrev Suits : Form → Setting → Type 0
Suits apart (switch_is t b) = ⊥
Suits bare (switch_is t b) = b ≡ true
Suits bare _ = ⊥
Suits _ _ = Unit

abbrev pub IsLegal : Spelling → Type 0
IsLegal s = Fits s.setting × Suits s.form s.setting

var_of : Setting → Var
unfolding put_text put_number put_switch
var_of (text_is t v) = text (put_text t)
var_of (number_is t n) = unsigned (put_number t)
var_of (bind_pid_is z) = signed (λ y f. record f { bind_pid = y })
var_of (switch_is t b) = switch (put_switch t)
