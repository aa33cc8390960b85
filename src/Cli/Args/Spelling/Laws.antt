-- ===== src/Cli/Args/Spelling/Laws.antt =====
-- pkg/cli/cli.go: `Parse` reads what the arguments of the settings mean.
use ovm.Base.{
  ap, Option, ℕ, Bytes, Bool, true, false, ◌≡◌, refl, ◌≢◌, none, some, List, [], ◌∷◌, ◌++◌, ◌∙◌,
  arith, All,
}
use ovm.Text.Split.{Lacks}
use ovm.Text.Integer.{max_uint, parse_uint-itoa, parse_int-print_int, parse_bool}
use ovm.Cli.Flags.{Flags}
use ovm.Cli.Args.{
  with_var, named, undashed, Var, text, unsigned, switch, set, table, find, cut_value, classify,
  parse, parsed, settled, settle, await,
}
use ovm.Base.{bytes_dec}
use ovm.Cli.Args.{undashed, named, with_var}
use ovm.Cli.Args.Spelling.{
  Setting, text_is, number_is, bind_pid_is, switch_is, TextFlag, NumberFlag, SwitchFlag, name,
  log_path, socket_path, ssh_key_path, kernel_path, initrd_path, rootfs_path, target_path, versions,
  event_socket_path, extend_share_dir, cpus, memory, cli, power_save_mode, kernel_debug, text_name,
  number_name, switch_name, flag_of, var_of, dashed, spelled, args_of, Form, joined, apart, bare,
  Spelling, Fits, Suits, IsLegal, put_text, put_number, put_switch, give, give_all, value_of,
  print_bool,
}

find-text_name : (t : TextFlag) → find (text_name t) table ≡ some (text (put_text t))
unfolding bytes_dec find table text_name put_text
find-text_name name = refl
find-text_name log_path = refl
find-text_name socket_path = refl
find-text_name ssh_key_path = refl
find-text_name kernel_path = refl
find-text_name initrd_path = refl
find-text_name rootfs_path = refl
find-text_name target_path = refl
find-text_name versions = refl
find-text_name event_socket_path = refl
find-text_name extend_share_dir = refl

find-number_name : (t : NumberFlag) → find (number_name t) table ≡ some (unsigned (put_number t))
unfolding bytes_dec find table number_name put_number
find-number_name cpus = refl
find-number_name memory = refl

find-switch_name : (t : SwitchFlag) → find (switch_name t) table ≡ some (switch (put_switch t))
unfolding bytes_dec find table switch_name put_switch
find-switch_name cli = refl
find-switch_name power_save_mode = refl
find-switch_name kernel_debug = refl

find-flag_of : (s : Setting) → find (flag_of s) table ≡ some (var_of s)
unfolding flag_of var_of
find-flag_of (text_is t v) = find-text_name t
find-flag_of (number_is t n) = find-number_name t
find-flag_of (bind_pid_is z) = unfold bytes_dec find table in refl
find-flag_of (switch_is t b) = find-switch_name t

set-var_of : (s : Setting) (f : Flags) → Fits s → set (var_of s) (value_of s) f ≡ some (give s f)
unfolding set var_of value_of print_bool give
set-var_of (text_is t v) f h = refl
set-var_of (number_is t n) f h = rw (parse_uint-itoa max_uint n h, set)
set-var_of (bind_pid_is z) f h = rw (parse_int-print_int z h, set)
set-var_of (switch_is t true) f h = unfold bytes_dec parse_bool in refl
set-var_of (switch_is t false) f h = unfold bytes_dec parse_bool in refl

-- A name that the reader of an argument takes as it is.
abbrev IsName : Bytes → Type 0
IsName [] = ⊥
IsName (c ∷ s) = (c ≢ b'-') × Lacks b'=' (c ∷ s)

flag_of-IsName : (s : Setting) → IsName (flag_of s)
unfolding flag_of text_name number_name switch_name
flag_of-IsName (text_is name v) = ground arith
flag_of-IsName (text_is log_path v) = ground arith
flag_of-IsName (text_is socket_path v) = ground arith
flag_of-IsName (text_is ssh_key_path v) = ground arith
flag_of-IsName (text_is kernel_path v) = ground arith
flag_of-IsName (text_is initrd_path v) = ground arith
flag_of-IsName (text_is rootfs_path v) = ground arith
flag_of-IsName (text_is target_path v) = ground arith
flag_of-IsName (text_is versions v) = ground arith
flag_of-IsName (text_is event_socket_path v) = ground arith
flag_of-IsName (text_is extend_share_dir v) = ground arith
flag_of-IsName (number_is cpus n) = ground arith
flag_of-IsName (number_is memory n) = ground arith
flag_of-IsName (bind_pid_is z) = ground arith
flag_of-IsName (switch_is cli b) = ground arith
flag_of-IsName (switch_is power_save_mode b) = ground arith
flag_of-IsName (switch_is kernel_debug b) = ground arith

cut_value_of_Lacks : (n : Bytes) → Lacks b'=' n → cut_value n ≡ (n, none)
unfolding cut_value
cut_value_of_Lacks [] h = refl
cut_value_of_Lacks (c ∷ s) (h, hs) = ground (arith, cut_value_of_Lacks s hs)

cut_value_of_join : (n v : Bytes) → Lacks b'=' n → cut_value (n ++ (b'=' ∷ v)) ≡ (n, some v)
unfolding cut_value
cut_value_of_join [] v h = refl
cut_value_of_join (c ∷ s) v (h, hs) = ground (arith, cut_value_of_join s v hs)

-- An argument with a flag that is defined.
classify-dashed :
    (double : Bool) (c : ℕ) (n : Bytes)
    → c ≢ b'-'
    → c ≢ b'='
    → classify (dashed double (c ∷ n)) ≡ named (cut_value (c ∷ n)).0 (cut_value (c ∷ n)).1
unfolding classify undashed dashed
classify-dashed true c n h k = ground arith
classify-dashed false c n h k = ground arith

named_of_find :
    (n : Bytes) (value : Option Bytes) (x : Var)
    → find n table ≡ some x
    → named n value ≡ with_var n x value
unfolding named bytes_dec
named_of_find n value x e = rw e

-- The two parts of a name that was cut.
named_of_cut :
    (s n : Bytes) (value : Option Bytes)
    → cut_value s ≡ (n, value)
    → named (cut_value s).0 (cut_value s).1 ≡ named n value
named_of_cut s n value e = ap (λ (c : Bytes × Option Bytes). named c.0 c.1) e

classify_joined :
    (double : Bool) (n v : Bytes) (x : Var)
    → IsName n
    → find n table ≡ some x
    → classify (dashed double (n ++ (b'=' ∷ v))) ≡ settle n x v
unfolding with_var
classify_joined double [] v x h e = elim h [ ]
classify_joined double (c ∷ n) v x (k, (h, hs)) e =
    classify-dashed double c (n ++ (b'=' ∷ v)) k h
    ∙ named_of_cut _ _ _ (cut_value_of_join (c ∷ n) v (h, hs))
    ∙ named_of_find (c ∷ n) (some v) x e

classify_plain :
    (double : Bool) (n : Bytes) (x : Var)
    → IsName n
    → find n table ≡ some x
    → classify (dashed double n) ≡ with_var n x none
classify_plain double [] x h e = elim h [ ]
classify_plain double (c ∷ n) x (k, (h, hs)) e =
    classify-dashed double c n k h
    ∙ named_of_cut _ _ _ (cut_value_of_Lacks (c ∷ n) (h, hs))
    ∙ named_of_find (c ∷ n) none x e

with_var_of_apart :
    (s : Setting)
    → Suits apart s
    → with_var (flag_of s) (var_of s) none ≡ await (flag_of s) (var_of s) []
unfolding with_var var_of
with_var_of_apart (text_is t v) h = refl
with_var_of_apart (number_is t n) h = refl
with_var_of_apart (bind_pid_is z) h = refl
with_var_of_apart (switch_is t b) h = elim h [ ]

with_var_of_bare :
    (s : Setting)
    → Suits bare s
    → with_var (flag_of s) (var_of s) none ≡ settle (flag_of s) (var_of s) (value_of s)
unfolding with_var var_of value_of print_bool
with_var_of_bare (text_is t v) h = elim h [ ]
with_var_of_bare (number_is t n) h = elim h [ ]
with_var_of_bare (bind_pid_is z) h = elim h [ ]
with_var_of_bare (switch_is t b) h = rw h

-- The argument that is read gives the setting, and the rest is read with it.
parse-settle :
    (a n value : Bytes) (x : Var) (f g : Flags) (rest : List Bytes)
    → classify a ≡ settle n x value
    → set x value f ≡ some g
    → parse (a ∷ rest) f ≡ parse rest g
unfolding parse settled
parse-settle a n value x f g [] e k = ground arith
parse-settle a n value x f g (b ∷ rest) e k = ground arith

parse-await :
    (a n value : Bytes) (x : Var) (f g : Flags) (rest : List Bytes)
    → classify a ≡ await n x []
    → set x value f ≡ some g
    → parse (a ∷ value ∷ rest) f ≡ parse rest g
unfolding parse settled
parse-await a n value x f g rest e k = ground arith

parse-spelled :
    (w : Form) (double : Bool) (s : Setting) (f : Flags) (rest : List Bytes)
    → Fits s
    → Suits w s
    → parse (spelled w double s ++ rest) f ≡ parse rest (give s f)
unfolding spelled
parse-spelled joined double s f rest h k =
    parse-settle _ _ _ _ f (give s f) rest
      (classify_joined double (flag_of s) (value_of s) (var_of s) (flag_of-IsName s)
        (find-flag_of s))
      (set-var_of s f h)
parse-spelled apart double s f rest h k =
    parse-await _ (flag_of s) _ _ f (give s f) rest
      (classify_plain double (flag_of s) (var_of s) (flag_of-IsName s) (find-flag_of s)
        ∙ with_var_of_apart s k)
      (set-var_of s f h)
parse-spelled bare double s f rest h k =
    parse-settle _ (flag_of s) _ _ f (give s f) rest
      (classify_plain double (flag_of s) (var_of s) (flag_of-IsName s) (find-flag_of s)
        ∙ with_var_of_bare s k)
      (set-var_of s f h)

-- From arguments that spell settings, each flag with `=`, with the next argument or, for a switch
-- that is on, alone, with one dash or two, `Parse` reads these settings, a later one over an earlier
-- one, if the numbers fit into their types.
pub parse-args_of :
    (ss : List Spelling) (f : Flags)
    → All IsLegal ss
    → parse (args_of ss) f ≡ parsed (give_all ss f)
unfolding args_of give_all
parse-args_of [] f h = unfold parse in refl
parse-args_of (s ∷ ss) f ((h, k), hs) =
    parse-spelled s.form s.double s.setting f (args_of ss) h k
    ∙ parse-args_of ss (give s.setting f) hs
