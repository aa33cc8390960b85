-- ===== src/Tests/Copies.antt =====
-- Two copies and the data disk, made side by side.
use mathlib.Core.Path.{subst}
use ovm.Base.{
  ℕ, Bytes, bytes, bytes_dec, none, some, Option, List, [], ◌∷◌, false, inl, inr, ◌≡◌, refl, sym,
  arith,
}
use ovm.Os.Disk.{Disk, file, put}
use ovm.Os.Calls.{is_within}
use ovm.Os.Tasks.{play}
use ovm.Os.Tasks.Laws.Ending.{result_at, picks}
use ovm.Text.FilePath.{abs, path_join, base}
use ovm.Text.Split.{split, join, after_prefix}
use ovm.Cli.Versions.{kernel, initrd, image_data}
use ovm.Cli.Target.{SrcPath, dist_path, bring, bring_all}
use ovm.Cli.Target.Tasks.{tasks_of}
use ovm.Cli.Target.Tasks.Laws.{Unseen}
use ovm.Cli.Target.Tasks.Order.{any_order-bring_all}

abbrev cwd : Option Bytes
cwd = some (bytes "/")

abbrev target : Bytes
target = bytes "/vm"

abbrev kernel_src : SrcPath
kernel_src = record { key = kernel; p = bytes "/app/kernel" }

abbrev initrd_src : SrcPath
initrd_src = record { key = initrd; p = bytes "/app/initrd" }

abbrev data_src : SrcPath
data_src = record { key = image_data; p = bytes "/vm/data.img" }

abbrev disk : Disk
disk = record {
  entry =
      put (put (λ q. none) (bytes "/app/kernel") (some (file (bytes "k")))) (bytes "/app/initrd")
        (some (file (bytes "i")));
  fault = λ c. false;
  open_at = λ n. none;
  next_fd = 3;
  partial = λ p. 0;
}

separate_lem :
    (src other : SrcPath) (p : Bytes)
    → abs cwd src.p ≡ some p
    → is_within (dist_path target other) (dist_path target src) ≡ false
    → is_within (dist_path target other) p ≡ false
    → Unseen cwd target src other
separate_lem src other p e h k q (inl d) =
    subst (λ x. is_within (dist_path target other) x ≡ false) (sym d) h
separate_lem src other p e h k q (inr s) =
    let same_source : p ≡ q = cc in
    subst (λ x. is_within (dist_path target other) x ≡ false) same_source k

by_kernel : Unseen cwd target initrd_src kernel_src
unfolding abs path_join base split join bytes_dec after_prefix
by_kernel = separate_lem initrd_src kernel_src (bytes "/app/initrd") refl refl refl

by_data : Unseen cwd target initrd_src data_src
unfolding abs path_join base split join bytes_dec after_prefix
by_data = separate_lem initrd_src data_src (bytes "/app/initrd") refl refl refl

-- The calls take turns.
abbrev turns : List ℕ
turns = 0 ∷ 1 ∷ 2 ∷ 2 ∷ 1 ∷ 0 ∷ 1 ∷ 1 ∷ 0 ∷ 2 ∷ 1 ∷ 0 ∷ 0 ∷ 1 ∷ 2 ∷ 0 ∷ []

any_order-bring_all_example :
    let (ts, e) = play turns (tasks_of cwd target (kernel_src ∷ initrd_src ∷ data_src ∷ [])) disk in
    (result_at 1 ts ≡ some (bring cwd target initrd_src disk).0)
    × (e.entry (dist_path target initrd_src)
        ≡ (bring_all cwd target (kernel_src ∷ initrd_src ∷ data_src ∷ []) disk).1.entry
            (dist_path target initrd_src))
unfolding picks
any_order-bring_all_example =
    any_order-bring_all cwd target (kernel_src ∷ []) initrd_src (data_src ∷ []) turns disk
      (by_kernel, tt) (by_data, tt) (omega arith)
