-- ===== src/Utils/Files/Frame.antt =====
-- The file helpers change nothing but the path that they write.
use ovm.Base.{ℕ, Bytes, ◌≢◌, refl, Option, arith}
use mathlib.Core.Path.{subst}
use ovm.Base.{◌≡◌, sym, none, some, Option-cases, inl, inr}
use ovm.Os.Outcome.{Result, Action, ok, err, errno, bind_ok, bind_err, ◌>>=◌}
use ovm.Os.Spares.{Spares, Spared, Spared-refl, looking-Spares}
use ovm.Text.FilePath.{abs}
use ovm.Os.Disk.{Disk, Node, file, sparse, folder}
use ovm.Os.Frame.{
  Leaves, bind-Leaves, wrapping-Leaves, create-Leaves, copy_content-Leaves, truncate-Leaves,
  sync-Leaves, open_source-Leaves,
}
use ovm.Utils.Files.{stat_node, regular, absolute, copy, create_sparse_file}

pub absolute_fails :
    (cwd : Option Bytes) (flag : Bytes) (d : Disk)
    → abs cwd flag ≡ none
    → absolute cwd flag d ≡ (err errno, d)
unfolding absolute
absolute_fails cwd flag d e = ground arith

pub absolute_place :
    (cwd : Option Bytes) (flag p : Bytes) (d : Disk)
    → abs cwd flag ≡ some p
    → absolute cwd flag d ≡ (ok p, d)
unfolding absolute
absolute_place cwd flag p d e = ground arith

pub absolute_inv :
    (cwd : Option Bytes) (flag p : Bytes) (d d' : Disk)
    → absolute cwd flag d ≡ (ok p, d')
    → abs cwd flag ≡ some p
unfolding absolute
absolute_inv cwd flag p d d' h = ground arith

module _ (q : Bytes) where
  absolute-Leaves : (cwd : Option Bytes) (p : Bytes) → Leaves q (absolute cwd p)
  unfolding Leaves absolute
  absolute-Leaves cwd p d = ground arith

  stat_node-Leaves : (p : Bytes) → Leaves q (stat_node p)
  unfolding Leaves stat_node
  stat_node-Leaves p d = ground arith

  regular-Leaves : (p : Bytes) (n : Node) → Leaves q (regular p n)
  unfolding Leaves regular
  regular-Leaves p (file b) d = refl
  regular-Leaves p (sparse n) d = refl
  regular-Leaves p folder d = refl

  pub copy-Leaves : (cwd : Option Bytes) (src dst : Bytes) → q ≢ dst → Leaves q (copy cwd src dst)
  unfolding copy
  copy-Leaves cwd src dst h = bind-Leaves q _ _ (absolute-Leaves cwd src) λ p.
      bind-Leaves q _ _ (stat_node-Leaves p) λ n. bind-Leaves q _ _ (regular-Leaves p n) λ _.
        bind-Leaves q _ _ (open_source-Leaves q p) λ _.
          bind-Leaves q _ _ (create-Leaves q dst h)
            λ _. bind-Leaves q _ _ (copy_content-Leaves q dst h p) λ _. sync-Leaves q dst

  pub create_sparse_file-Leaves :
      (p : Bytes) (size : ℕ) → q ≢ p → Leaves q (create_sparse_file p size)
  unfolding create_sparse_file
  create_sparse_file-Leaves p size h =
      bind-Leaves q _ _ (wrapping-Leaves q _ _ (create-Leaves q p h)) λ _.
        bind-Leaves q _ _ (wrapping-Leaves q _ _ (truncate-Leaves q p h size))
          λ _. wrapping-Leaves q _ _ (sync-Leaves q p)

  -- What follows on the absolute path of a flag.
  pub absolute-Spares :
      {A : Type 0} (cwd : Option Bytes) (flag : Bytes) (m : Bytes → Action Disk A)
      → ((p : Bytes) → abs cwd flag ≡ some p → Spares q (m p))
      → Spares q (absolute cwd flag >>= m)
  unfolding Spares
  absolute-Spares {A} cwd flag m h d = elim (Option-cases (abs cwd flag)) [
    | inl e ↦
        subst (λ (r : Result A × Disk). Spared q d r.1)
          (sym (bind_err (absolute cwd flag) m d (absolute_fails cwd flag d e))) (Spared-refl q d)
    | inr (p, e) ↦
        subst (λ (r : Result A × Disk). Spared q d r.1)
          (sym (bind_ok (absolute cwd flag) m d (absolute_place cwd flag p d e))) (h p e d)
  ]

  pub stat_node-Spares : (p : Bytes) → Spares q (stat_node p)
  unfolding stat_node
  stat_node-Spares p = looking-Spares q (stat_node p) (λ d. ground arith)
