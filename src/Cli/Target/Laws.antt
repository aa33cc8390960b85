-- ===== src/Cli/Target/Laws.antt =====
-- What `handle` leaves alone, on every disk.
use ovm.Base.{
  inl, Bool-cases, inr, ◌⊎◌, Bytes, true, false, not, Option, some, List, [], ◌∷◌, ◌≡◌, ◌≢◌, refl,
  sym, ◌∙◌, ap, arith, All, same_self,
}
use ovm.Os.Outcome.{Result, ok, err, ◌>>=◌}
use ovm.Os.Disk.{Disk}
use ovm.Os.Calls.{is_within}
use ovm.Os.Frame.{
  Leaves, Leaves-apply, bind-Leaves, pure-Leaves, raise-Leaves, attempt-Leaves, remove_all-Leaves,
  write_file-Leaves,
}
use ovm.Utils.Files.{path_exists}
use ovm.Utils.Files.Frame.{copy-Leaves, create_sparse_file-Leaves}
use ovm.Cli.Versions.{Key, image_data, Versions, get, Codec, VersionsJson, set, save_to_disk}
use ovm.Cli.Versions.Laws.{get-set_ne, path-set}
use ovm.Cli.Target.{
  SrcPath, TargetContext, dist_path, differs, stale, select, bring_to, bring, first_error,
  bring_all, handle, data_size,
}

-- `q` is none of the paths that the task of `src` writes, and not below them.
abbrev pub Apart : Bytes → Bytes → SrcPath → Type 0
Apart target q src = (q ≢ dist_path target src) × (is_within (dist_path target src) q ≡ false)

bring_to-Leaves :
    (cwd : Option Bytes) (q : Bytes) (k : Key) (src dist : Bytes)
    → q ≢ dist
    → is_within dist q ≡ false
    → Leaves q (bring_to cwd k src dist)
unfolding bring_to
bring_to-Leaves cwd q image_data src dist h w =
    bind-Leaves q _ _ (remove_all-Leaves q dist w) λ _. create_sparse_file-Leaves q dist data_size h
bring_to-Leaves cwd q _ src dist h w = copy-Leaves q cwd src dist h

bring-Leaves :
    (cwd : Option Bytes) (target q : Bytes) (src : SrcPath)
    → Apart target q src
    → Leaves q (bring cwd target src)
unfolding bring
bring-Leaves cwd target q src h = bring_to-Leaves cwd q src.key src.p (dist_path target src) h.0 h.1

first_error-Leaves : (q : Bytes) (one rest : Result (Unit {0})) → Leaves q (first_error one rest)
unfolding first_error
first_error-Leaves q (err e) rest = raise-Leaves q _ e
first_error-Leaves q (ok _) (err e) = raise-Leaves q _ e
first_error-Leaves q (ok _) (ok _) = pure-Leaves q tt

bring_all-Leaves :
    (cwd : Option Bytes) (target q : Bytes) (srcs : List SrcPath)
    → All (Apart target q) srcs
    → Leaves q (bring_all cwd target srcs)
unfolding bring_all
bring_all-Leaves cwd target q [] h = pure-Leaves q tt
bring_all-Leaves cwd target q (src ∷ srcs) (h, hs) =
    bind-Leaves q _ _ (attempt-Leaves q _ (bring-Leaves cwd target q src h)) λ one.
      bind-Leaves q _ _ (attempt-Leaves q _ (bring_all-Leaves cwd target q srcs hs))
        λ rest. first_error-Leaves q one rest

module _ (want : Versions) (target q : Bytes) (k : Key) where
  -- A source has another key and another place, or its place is `q` itself.
  abbrev pub Separate : SrcPath → Type 0
  Separate src = ((src.key ≢ k) × Apart target q src) ⊎ ((src.key ≡ k) × (dist_path target src ≡ q))

  stale_of_current :
      (src : SrcPath) (v : VersionsJson) (d : Disk)
      → src.key ≡ k
      → dist_path target src ≡ q
      → get k v.installed ≡ get k want
      → path_exists q d ≡ some true
      → stale want target src v d ≡ false
  unfolding stale differs
  stale_of_current src v d hk hq hv he =
      (λ i. differs (path_exists (hq i) d) (get (hk i) v.installed) (get (hk i) want))
      ∙ (λ i. differs (he i) (hv i) (get k want))
      ∙ ap not (same_self (get k want))

  select-Apart :
      (srcs : List SrcPath) (v : VersionsJson) (d : Disk)
      → All Separate srcs
      → get k v.installed ≡ get k want
      → path_exists q d ≡ some true
      → All (Apart target q) (select want target srcs v d).1
  unfolding select
  select-Apart [] v d h hv he = tt
  select-Apart (src ∷ srcs) v d (inr (hk, hq), hs) hv he =
      rw (stale_of_current src v d hk hq hv he) (select-Apart srcs v d hs hv he)
  select-Apart (src ∷ srcs) v d (inl (nk, a), hs) hv he =
      elim (Bool-cases (stale want target src v d)) [
        | inl e ↦ rw e (
          a,
          select-Apart srcs (set src.key (get src.key want) v) d hs
              (get-set_ne k src.key _ v (λ p. nk (sym p)) ∙ hv) he,
        )
        | inr e ↦ rw e (select-Apart srcs v d hs hv he)
      ]

pub path-select :
    (want : Versions) (target : Bytes) (srcs : List SrcPath) (v : VersionsJson) (d : Disk)
    → (select want target srcs v d).0.path ≡ v.path
unfolding select
path-select want target [] v d = refl
path-select want target (src ∷ srcs) v d = ground (
  arith,
  path-select want target srcs (set src.key (get src.key want) v) d,
  path-select want target srcs v d,
  path-set src.key (get src.key want) v,
)

save_to_disk-Leaves :
    (j : Codec) (q : Bytes) (v : VersionsJson) → q ≢ v.path → Leaves q (save_to_disk j v)
unfolding save_to_disk
save_to_disk-Leaves j q v h = elim (Bool-cases v.need_update_json) [
  | inl e ↦ rw e (write_file-Leaves q v.path h (j.encode v.installed))
  | inr e ↦ rw e (pure-Leaves q tt)
]

-- A file that is there, can be examined, has the version that is asked for, and is neither the place
-- of another source nor versions.json keeps its content, whatever happens to the other files and
-- whichever calls fail; the user's data disk is one.
pub entry-handle :
    (j : Codec) (cwd : Option Bytes) (want : Versions) (t : TargetContext) (k : Key) (q : Bytes)
    (d : Disk)
    → All (Separate want t.target_path q k) t.src_paths
    → q ≢ t.versions_json.path
    → get k t.versions_json.installed ≡ get k want
    → path_exists q d ≡ some true
    → (handle j cwd want t d).1.entry q ≡ d.entry q
unfolding handle
entry-handle j cwd want t k q d hs hp hv he =
    let (v, todo) = select want t.target_path t.src_paths t.versions_json d in
    Leaves-apply q (bring_all cwd t.target_path todo >>= λ _. save_to_disk j v)
      (bind-Leaves q _ _
        (bring_all-Leaves cwd t.target_path q todo
          (select-Apart want t.target_path q k t.src_paths t.versions_json d hs hv he))
        (λ _.
          save_to_disk-Leaves j q v
            (λ e. hp (e ∙ path-select want t.target_path t.src_paths t.versions_json d))))
      d
