-- ===== src/Cli/Target/Tasks/Whole.antt =====
-- pkg/cli/target.go: the calls of a task one after another are the task.
use ovm.Os.Outcome.{bind_ok, bind_err}
use ovm.Utils.Files.Frame.{absolute_fails, absolute_place}
use ovm.Base.{Bytes, Option, some, Option-cases, inl, inr, ◌≡◌, refl, sym, ap, ◌∙◌}
use ovm.Os.Outcome.{Result, ok, err, Action, pure, resume, wrapping, ◌>>=◌, ◌>>◌}
use ovm.Os.Disk.{Disk, Node}
use ovm.Os.Calls.{create, open_source, copy_content, truncate, sync, remove_all}
use ovm.Os.Tasks.{run_calls}
use ovm.Text.FilePath.{abs}
use ovm.Utils.Files.{stat_node, regular, absolute, copy, create_sparse_file}
use ovm.Cli.Versions.{Key, kernel, initrd, rootfs, image_data}
use ovm.Cli.Target.{SrcPath, dist_path, bring, bring_to, data_size}
use ovm.Cli.Target.Tasks.{check, copy_calls, create_calls, calls_to, calls_of}

resume_cong :
    (f g : Action Disk (Unit {0}))
    → ((d : Disk) → f d ≡ g d)
    → (r : Result (Unit {0}) × Disk) → resume (λ _. f) r ≡ resume (λ _. g) r
resume_cong f g h (ok _, d) = h d
resume_cong f g h (err e, d) = refl

resume_last : (r : Result (Unit {0}) × Disk) → resume (λ _. pure tt) r ≡ r
resume_last (ok _, d) = refl
resume_last (err e, d) = refl

-- A block whose rest is the same action.
seq_cong :
    (m f g : Action Disk (Unit {0}))
    → ((d : Disk) → f d ≡ g d)
    → (d : Disk) → (m >> f) d ≡ (m >> g) d
seq_cong m f g h d = resume_cong f g h (m d)

last_call : (m : Action Disk (Unit {0})) (d : Disk) → (m >> pure tt) d ≡ m d
last_call m d = resume_last (m d)

-- `Copy` behind the absolute path.
copy_rest : Bytes → Bytes → Action Disk (Unit {0})
copy_rest p dst = open_source p >> (create dst >> (copy_content p dst >> sync dst))

copy_at : Bytes → Bytes → Action Disk (Unit {0})
unfolding copy_rest
copy_at p dst = stat_node p >>= λ n. regular p n >> copy_rest p dst

resume_assoc :
    (p : Bytes) (k : Action Disk (Unit {0})) (r : Result Node × Disk)
    → resume (λ _. k) (resume (regular p) r) ≡ resume (λ n. regular p n >> k) r
resume_assoc p k (ok n, d) = refl
resume_assoc p k (err e, d) = refl

copy_at-calls : (p dst : Bytes) (d : Disk) → run_calls (copy_calls (some p) dst) d ≡ copy_at p dst d
unfolding run_calls copy_calls copy_at copy_rest check
copy_at-calls p dst d =
    seq_cong (check p) _ (copy_rest p dst)
      (seq_cong (open_source p) _ _
        (seq_cong (create dst) _ _ (seq_cong (copy_content p dst) _ _ (last_call (sync dst)))))
      d
    ∙ resume_assoc p (copy_rest p dst) (stat_node p d)

copy-calls :
    (cwd : Option Bytes) (src dst : Bytes) (d : Disk)
    → run_calls (copy_calls (abs cwd src) dst) d ≡ copy cwd src dst d
unfolding copy copy_at copy_rest
copy-calls cwd src dst d = elim (Option-cases (abs cwd src)) [
  | inl e ↦
      ap (λ o. run_calls (copy_calls o dst) d) e
      ∙ unfold run_calls copy_calls in
        refl ∙ sym (bind_err (absolute cwd src) (λ p. copy_at p dst) d (absolute_fails cwd src d e))
  | inr (p, e) ↦
      ap (λ o. run_calls (copy_calls o dst) d) e
      ∙ copy_at-calls p dst d
      ∙ sym (bind_ok (absolute cwd src) (λ p. copy_at p dst) d (absolute_place cwd src p d e))
]

create-calls :
    (dst : Bytes) (d : Disk)
    → run_calls (create_calls dst) d ≡ (remove_all dst >> create_sparse_file dst data_size) d
unfolding run_calls create_calls create_sparse_file
create-calls dst d =
    seq_cong (remove_all dst) _ _
      (seq_cong (wrapping "create sparse file failed" (create dst)) _ _ (
        seq_cong (wrapping "truncate sparse file failed" (truncate dst data_size)) _ _
          (last_call (wrapping "sync sparse file failed" (sync dst)))))
      d

bring_to-calls :
    (cwd : Option Bytes) (k : Key) (src dst : Bytes) (d : Disk)
    → run_calls (calls_to cwd k src dst) d ≡ bring_to cwd k src dst d
unfolding calls_to bring_to
bring_to-calls cwd image_data src dst d = create-calls dst d
bring_to-calls cwd kernel src dst d = copy-calls cwd src dst d
bring_to-calls cwd initrd src dst d = copy-calls cwd src dst d
bring_to-calls cwd rootfs src dst d = copy-calls cwd src dst d

pub bring-calls :
    (cwd : Option Bytes) (target : Bytes) (src : SrcPath) (d : Disk)
    → run_calls (calls_of cwd target src) d ≡ bring cwd target src d
unfolding calls_of bring
bring-calls cwd target src d = bring_to-calls cwd src.key src.p (dist_path target src) d
