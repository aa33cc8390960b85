-- ===== src/Cli/Target/Tasks/Laws.antt =====
-- The copies of the files run side by side; each ends as it would alone.
use ovm.Base.{Bytes, Option, none, some, List, [], ◌∷◌, false, All, ◌⊎◌, inl, inr, ◌≡◌, refl, arith}
use ovm.Os.Outcome.{errno, raise}
use ovm.Os.Disk.{Disk, stat_call}
use ovm.Os.Calls.{open_source, sync, is_within}
use ovm.Os.View.{
  Local, Quiet, create-Local, open_source-Local, copy_content-Local, sync-Local, truncate-Local,
  remove_all-Local, wrapping-Local, create-Quiet, copy_content-Quiet, truncate-Quiet,
  remove_all-Quiet, wrapping-Quiet, looking-Quiet,
}
use ovm.Os.Tasks.Laws.{TaskQuiet}
use ovm.Text.FilePath.{abs}
use ovm.Utils.Files.{stat_node, regular}
use ovm.Cli.Versions.{Key, kernel, initrd, rootfs, image_data}
use ovm.Cli.Target.{SrcPath, dist_path, data_size}
use ovm.Cli.Target.Tasks.{check, copy_calls, create_calls, calls_to, calls_of, tasks_of}

-- The paths that the task of a source looks at: the file that it makes, and the source.
abbrev pub Foot : Option Bytes → Bytes → SrcPath → Bytes → Type 0
Foot cwd target src q = (q ≡ dist_path target src) ⊎ (abs cwd src.p ≡ some q)

module _ (F : Bytes → Type 0) where
  check-Local : (p : Bytes) → F p → Local F (check p)
  unfolding Local check stat_node regular
  check-Local p own d e v =
      let f : d.fault (stat_call p) ≡ e.fault (stat_call p) = λ i. v.faults i (stat_call p) in
      (
        ground (arith, f, v.entries p own),
        record {
          faults = ground (arith, v.faults);
          partials = ground (arith, v.partials);
          entries = λ q w. ground (arith, v.entries q w);
        },
      )

  check-Quiet : (p : Bytes) → Quiet F (check p)
  unfolding check stat_node regular
  check-Quiet p = looking-Quiet F (check p) (λ d. ground arith)

  raise-Local : Local F (raise errno)
  unfolding Local
  raise-Local d e v = (refl, v)

  open_source-same : (p : Bytes) (d : Disk) → (open_source p d).1 ≡ d
  unfolding open_source
  open_source-same p d = ground arith

  sync-Quiet : (p : Bytes) → Quiet F (sync p)
  unfolding sync
  sync-Quiet p = looking-Quiet F (sync p) (λ d. ground arith)

  create_calls-Local : (dst : Bytes) → F dst → All (Local F) (create_calls dst)
  unfolding create_calls
  create_calls-Local dst own = (
    remove_all-Local F dst,
    (
      wrapping-Local F _ _ (create-Local F dst own),
      (
        wrapping-Local F _ _ (truncate-Local F dst data_size),
        (wrapping-Local F _ _ (sync-Local F dst), tt),
      ),
    ),
  )

  copy_calls-Local :
      (o : Option Bytes) (dst : Bytes)
      → F dst
      → ((p : Bytes) → o ≡ some p → F p)
      → All (Local F) (copy_calls o dst)
  unfolding copy_calls
  copy_calls-Local none dst own from = (raise-Local, tt)
  copy_calls-Local (some p) dst own from = (
    check-Local p (from p refl),
    (
      open_source-Local F p (from p refl),
      (create-Local F dst own, (copy_content-Local F p (from p refl) dst, (sync-Local F dst, tt))),
    ),
  )

  module _ (dst : Bytes) (away : (q : Bytes) → F q → is_within dst q ≡ false) where
    create_calls-Quiet : All (Quiet F) (create_calls dst)
    unfolding create_calls
    create_calls-Quiet = (
      remove_all-Quiet F dst away,
      (
        wrapping-Quiet F _ _ (create-Quiet F dst away),
        (
          wrapping-Quiet F _ _ (truncate-Quiet F dst away data_size),
          (wrapping-Quiet F _ _ (sync-Quiet dst), tt),
        ),
      ),
    )

    copy_calls-Quiet : (o : Option Bytes) → All (Quiet F) (copy_calls o dst)
    unfolding copy_calls
    copy_calls-Quiet none = (looking-Quiet F (raise errno) (λ d. refl), tt)
    copy_calls-Quiet (some p) = (
      check-Quiet p,
      (
        looking-Quiet F (open_source p) (open_source-same p),
        (create-Quiet F dst away, (copy_content-Quiet F dst away p, (sync-Quiet dst, tt))),
      ),
    )

    pub calls_to-Quiet :
        (cwd : Option Bytes) (k : Key) (src : Bytes) → All (Quiet F) (calls_to cwd k src dst)
    unfolding calls_to
    calls_to-Quiet cwd image_data src = create_calls-Quiet
    calls_to-Quiet cwd kernel src = copy_calls-Quiet (abs cwd src)
    calls_to-Quiet cwd initrd src = copy_calls-Quiet (abs cwd src)
    calls_to-Quiet cwd rootfs src = copy_calls-Quiet (abs cwd src)

  calls_to-Local :
      (cwd : Option Bytes) (k : Key) (src dst : Bytes)
      → F dst
      → ((p : Bytes) → abs cwd src ≡ some p → F p)
      → All (Local F) (calls_to cwd k src dst)
  unfolding calls_to
  calls_to-Local cwd image_data src dst own from = create_calls-Local dst own
  calls_to-Local cwd kernel src dst own from = copy_calls-Local (abs cwd src) dst own from
  calls_to-Local cwd initrd src dst own from = copy_calls-Local (abs cwd src) dst own from
  calls_to-Local cwd rootfs src dst own from = copy_calls-Local (abs cwd src) dst own from

-- What the task of one source makes is not looked at by the task of the other.
abbrev pub Unseen : Option Bytes → Bytes → SrcPath → SrcPath → Type 0
Unseen cwd target src other =
    (q : Bytes) → Foot cwd target src q → is_within (dist_path target other) q ≡ false

pub tasks_of-TaskQuiet :
    (cwd : Option Bytes) (target : Bytes) (src : SrcPath) (srcs : List SrcPath)
    → All (Unseen cwd target src) srcs
    → All (TaskQuiet (Foot cwd target src)) (tasks_of cwd target srcs)
unfolding tasks_of calls_of
tasks_of-TaskQuiet cwd target src [] h = tt
tasks_of-TaskQuiet cwd target src (o ∷ srcs) (h, hs) = (
  calls_to-Quiet (Foot cwd target src) (dist_path target o) h cwd o.key o.p,
  tasks_of-TaskQuiet cwd target src srcs hs,
)

pub calls_of-Local :
    (cwd : Option Bytes) (target : Bytes) (src : SrcPath)
    → All (Local (Foot cwd target src)) (calls_of cwd target src)
unfolding calls_of
calls_of-Local cwd target src =
    calls_to-Local (Foot cwd target src) cwd src.key src.p (dist_path target src) (inl refl)
      (λ p e. inr e)
