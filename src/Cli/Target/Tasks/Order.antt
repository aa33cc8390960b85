-- ===== src/Cli/Target/Tasks/Order.antt =====
-- pkg/cli/target.go: in whatever order the calls of the copies come, the files are those that the
-- copies make one after another.
use ovm.Base.{
  ℕ, suc, ◌≤◌, Bytes, Option, none, some, List, [], ◌∷◌, ◌++◌, length, All, inl, ◌≡◌, refl, sym, ap,
  ◌∙◌, arith,
}
use mathlib.Core.Path.{subst}
use ovm.Os.Outcome.{Result, ok, err, Action, resume}
use ovm.Os.Disk.{Disk}
use ovm.Os.View.{View, View-refl, View-trans, Agrees, Quiet}
use ovm.Os.Tasks.{Calls, run_calls, Task, running, play}
use ovm.Os.Tasks.Laws.{run_calls-Agrees}
use ovm.Os.Tasks.Laws.Ending.{ends_as_alone, result_at, picks}
use ovm.Cli.Versions.{Key, kernel, initrd, rootfs, image_data}
use ovm.Cli.Target.{SrcPath, dist_path, bring, bring_all, first_error}
use ovm.Cli.Target.Tasks.{calls_to, copy_calls, create_calls, calls_of, tasks_of}
use ovm.Cli.Target.Tasks.Whole.{bring-calls}
use ovm.Cli.Target.Tasks.Laws.{Foot, Unseen, tasks_of-TaskQuiet, calls_of-Local, calls_to-Quiet}

length-copy_calls : (o : Option Bytes) (dst : Bytes) → length (copy_calls o dst) ≤ 5
unfolding copy_calls
length-copy_calls none dst = omega arith
length-copy_calls (some p) dst = omega arith

length-calls_to :
    (cwd : Option Bytes) (k : Key) (src dst : Bytes) → length (calls_to cwd k src dst) ≤ 5
unfolding calls_to create_calls
length-calls_to cwd image_data src dst = omega arith
length-calls_to cwd kernel src dst = length-copy_calls _ dst
length-calls_to cwd initrd src dst = length-copy_calls _ dst
length-calls_to cwd rootfs src dst = length-copy_calls _ dst

tasks_of-append :
    (cwd : Option Bytes) (target : Bytes) (xs ys : List SrcPath)
    → tasks_of cwd target (xs ++ ys) ≡ tasks_of cwd target xs ++ tasks_of cwd target ys
unfolding tasks_of
tasks_of-append cwd target [] ys = refl
tasks_of-append cwd target (x ∷ xs) ys =
    ap (λ ts. running (calls_of cwd target x) ∷ ts) (tasks_of-append cwd target xs ys)

length-tasks_of :
    (cwd : Option Bytes) (target : Bytes) (xs : List SrcPath)
    → length (tasks_of cwd target xs) ≡ length xs
unfolding tasks_of
length-tasks_of cwd target [] = refl
length-tasks_of cwd target (x ∷ xs) = ap suc (length-tasks_of cwd target xs)

module _ (cwd : Option Bytes) (target : Bytes) (src : SrcPath) where
  abbrev F : Bytes → Type 0
  F = Foot cwd target src

  abbrev dist : Bytes
  dist = dist_path target src

  length-calls_of : length (calls_of cwd target src) ≤ 5
  unfolding calls_of
  length-calls_of = length-calls_to cwd src.key src.p dist

  -- Calls that the task does not see, one after another.
  resume-View :
      (f : Action Disk (Unit {0})) (r : Result (Unit {0}) × Disk) (d : Disk)
      → ((e : Disk) → View F (f e).1 e)
      → View F r.1 d
      → View F (resume (λ _. f) r).1 d
  resume-View f (ok _, e) d h v = View-trans F (f e).1 e d (h e) v
  resume-View f (err x, e) d h v = v

  run_calls-View : (cs : Calls) → All (Quiet F) cs → (d : Disk) → View F (run_calls cs d).1 d
  unfolding run_calls Quiet
  run_calls-View [] h d = View-refl F d
  run_calls-View (c ∷ cs) (h, hs) d =
      resume-View (run_calls cs) (c d) d (run_calls-View cs hs) (h d)

  bring-View :
      (o : SrcPath) → Unseen cwd target src o → (d : Disk) → View F (bring cwd target o d).1 d
  unfolding calls_of
  bring-View o h d =
      subst (λ (r : Result (Unit {0}) × Disk). View F r.1 d) (bring-calls cwd target o d)
        (run_calls-View (calls_of cwd target o)
          (calls_to-Quiet F (dist_path target o) h cwd o.key o.p) d)

  first_error-disk : (a b : Result (Unit {0})) (d : Disk) → (first_error a b d).1 ≡ d
  unfolding first_error
  first_error-disk (err e) b d = refl
  first_error-disk (ok _) (err e) d = refl
  first_error-disk (ok _) (ok _) d = refl

  bring_all-disk :
      (o : SrcPath) (srcs : List SrcPath) (d : Disk)
      → (bring_all cwd target (o ∷ srcs) d).1
        ≡ (bring_all cwd target srcs (bring cwd target o d).1).1
  unfolding bring_all
  bring_all-disk o srcs d =
      first_error-disk (bring cwd target o d).0
        (bring_all cwd target srcs (bring cwd target o d).1).0
        (bring_all cwd target srcs (bring cwd target o d).1).1

  bring_all-View :
      (srcs : List SrcPath)
      → All (Unseen cwd target src) srcs
      → (d : Disk) → View F (bring_all cwd target srcs d).1 d
  bring_all-View [] h d = unfold bring_all in View-refl F d
  bring_all-View (o ∷ srcs) (h, hs) d =
      let e = (bring cwd target o d).1 in
      subst (λ x. View F x d) (sym (bring_all-disk o srcs d))
        (View-trans F _ e d (bring_all-View srcs hs e) (bring-View o h d))

  bring-Agrees :
      (d e : Disk) → View F d e → Agrees F (bring cwd target src d) (bring cwd target src e)
  bring-Agrees d e v =
      subst (λ r. Agrees F r (bring cwd target src e)) (bring-calls cwd target src d)
        (subst (Agrees F (run_calls (calls_of cwd target src) d)) (bring-calls cwd target src e)
          (run_calls-Agrees F (calls_of cwd target src) (calls_of-Local cwd target src) d e v))

  -- One after another, the file of a source is what its task makes alone.
  bring_all-alone :
      (before after : List SrcPath) (d : Disk)
      → All (Unseen cwd target src) before
      → All (Unseen cwd target src) after
      → View F (bring_all cwd target (before ++ (src ∷ after)) d).1 (bring cwd target src d).1
  bring_all-alone [] after d b a =
      let e = (bring cwd target src d).1 in
      subst (λ x. View F x e) (sym (bring_all-disk src after d)) (bring_all-View after a e)
  bring_all-alone (o ∷ before) after d (b, bs) a =
      let e = (bring cwd target o d).1 in
      subst (λ x. View F x (bring cwd target src d).1)
        (sym (bring_all-disk o (before ++ (src ∷ after)) d))
        (View-trans F _ (bring cwd target src e).1 _ (bring_all-alone before after e bs a)
          (bring-Agrees e d (bring-View o b d)).1)

  side_by_side :
      (before after : List SrcPath) (ns : List ℕ) (d : Disk)
      → All (Unseen cwd target src) before
      → All (Unseen cwd target src) after
      → 6 ≤ picks (length before) ns
      → let (ts, e) = play ns (tasks_of cwd target (before ++ (src ∷ after))) d in
        (result_at (length before) ts ≡ some (bring cwd target src d).0)
        × View F e (bring cwd target src d).1
  unfolding tasks_of
  side_by_side before after ns d b a enough =
      let alone =
        ends_as_alone F (tasks_of cwd target before) (calls_of cwd target src)
          (tasks_of cwd target after) ns d (tasks_of-TaskQuiet cwd target src before b)
          (calls_of-Local cwd target src) (tasks_of-TaskQuiet cwd target src after a)
          (omega
            (arith, length-calls_of, ap (λ n. picks n ns) (length-tasks_of cwd target before))) in
      subst (λ out. Ends (length before) (tasks_of cwd target (before ++ (src ∷ after))) out)
        (bring-calls cwd target src d)
        (subst (λ ts. Ends (length before) ts (run_calls (calls_of cwd target src) d))
          (sym (tasks_of-append cwd target before (src ∷ after)))
          (subst
            (λ n.
              Ends n (tasks_of cwd target before ++ tasks_of cwd target (src ∷ after))
                (run_calls (calls_of cwd target src) d))
            (length-tasks_of cwd target before) alone))
    where
      Ends : ℕ → List Task → Result (Unit {0}) × Disk → Type 0
      Ends n ts out = (result_at n (play ns ts d).0 ≡ some out.0) × View F (play ns ts d).1 out.1

-- The copies run side by side, their calls in any order in which the task of a source is picked at
-- least six times. If no other task makes a file at or above a path that this task reads or makes, it
-- ends with the result that it has alone, and its file is the one that the tasks make when they
-- run one after another; whichever calls fail, in this task or in others.
pub any_order-bring_all :
    (cwd : Option Bytes) (target : Bytes) (before : List SrcPath) (src : SrcPath)
    (after : List SrcPath) (ns : List ℕ) (d : Disk)
    → All (Unseen cwd target src) before
    → All (Unseen cwd target src) after
    → 6 ≤ picks (length before) ns
    → let (ts, e) = play ns (tasks_of cwd target (before ++ (src ∷ after))) d in
      (result_at (length before) ts ≡ some (bring cwd target src d).0)
      × (e.entry (dist_path target src)
          ≡ (bring_all cwd target (before ++ (src ∷ after)) d).1.entry (dist_path target src))
any_order-bring_all cwd target before src after ns d b a enough =
    let (ended, seen) = side_by_side cwd target src before after ns d b a enough in
    let sequential = bring_all-alone cwd target src before after d b a in
    (
      ended,
      seen.entries (dist_path target src) (inl refl)
          ∙ sym (sequential.entries (dist_path target src) (inl refl)),
    )
