-- ===== src/Vfkit/KernelCmd.antt =====
-- pkg/vfkit/kernel_cmd.go, with `IsAMD64` of internal/consts as an argument.
use ovm.Base.{Bytes, bytes, Bool, true, false, if◌then◌else◌, List, [], ◌∷◌, ◌++◌, ◌≡◌, refl}
use ovm.Text.Split.{split}
use ovm.Text.Trim.{trim_right_byte}

abbrev write_if : Bool → Bytes → Bytes → Bytes
write_if b text sb = if b then sb ++ text else sb

-- `kernelCMD`: the calls of `WriteString` in their order.
unfoldable pub kernel_cmd : Bool → Bool → Bool → Bytes
unfolding trim_right_byte
kernel_cmd is_amd64 is_cli_mode kernel_debug =
    let sb = bytes "console=hvc0 " ++ bytes "fb_tunnels=none " in
    let sb1 = write_if is_amd64 (bytes "clocksource=tsc tsc=reliable ") sb in
    let sb2 = if is_cli_mode then sb1 else sb1 ++ bytes "systemd.log_color=false " in
    let sb3 = sb2 ++ bytes "systemd.default_standard_output=journal+console " in
    let sb4 = sb3 ++ bytes "systemd.default_standard_error=journal+console " in
    trim_right_byte 32 (write_if kernel_debug (bytes "debug ") sb4)

abbrev pub keep : Bool → List Bytes → List Bytes
keep true ws = ws
keep false ws = []

-- The parameters that the guest is meant to get.
pub parameters : Bool → Bool → Bool → List Bytes
parameters is_amd64 is_cli_mode kernel_debug =
    (bytes "console=hvc0" ∷ bytes "fb_tunnels=none" ∷ [])
    ++ (keep is_amd64 (bytes "clocksource=tsc" ∷ bytes "tsc=reliable" ∷ [])
        ++ ((if is_cli_mode then [] else bytes "systemd.log_color=false" ∷ [])
            ++ ((bytes "systemd.default_standard_output=journal+console"
                  ∷ bytes "systemd.default_standard_error=journal+console"
                  ∷ [])
                ++ keep kernel_debug (bytes "debug" ∷ []))))

-- Cut at its spaces, the command line is the list of parameters and holds no empty word: the clock
-- source is fixed on amd64 only, colours are off outside the command line mode only, and `debug` is
-- there on demand only.
split-kernel_cmd :
    (is_amd64 is_cli_mode kernel_debug : Bool)
    → split 32 (kernel_cmd is_amd64 is_cli_mode kernel_debug)
      ≡ parameters is_amd64 is_cli_mode kernel_debug
unfolding kernel_cmd parameters split
split-kernel_cmd true true true = refl
split-kernel_cmd true true false = refl
split-kernel_cmd true false true = refl
split-kernel_cmd true false false = refl
split-kernel_cmd false true true = refl
split-kernel_cmd false true false = refl
split-kernel_cmd false false true = refl
split-kernel_cmd false false false = refl
