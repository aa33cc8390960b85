-- ===== src/Os/Spares.antt =====
-- Actions on the disk that leave what stands at a path, if anything does, and the answers of the
-- system, whether they succeed or not.
use ovm.Base.{
  true, Bool, if◌then◌else◌, if◌then◌else◌, Bool, String, Bytes, false, some, ◌≡◌, ◌≢◌, refl, ◌∙◌,
  arith,
}
use ovm.Os.Outcome.{Result, ok, err, Action, attempt, wrapping, rewrap, resume, ◌>>=◌}
use ovm.Os.Disk.{Disk, Node, rename, open_truncated}
use ovm.Os.Calls.{remove_all, is_within}

pub record Spared (q : Bytes) (d d' : Disk) : Type 0 where
  pub fault_kept : d'.fault ≡ d.fault
  pub stays : (x : Node) → d.entry q ≡ some x → d'.entry q ≡ some x

unfoldable pub Spares : {A : Type 0} → Bytes → Action Disk A → Type 0
Spares q m = (d : Disk) → Spared q d (m d).1

module _ (q : Bytes) where
  pub Spares-apply : {A : Type 0} (m : Action Disk A) → Spares q m → (d : Disk) → Spared q d (m d).1
  unfolding Spares
  Spares-apply m h d = h d

  pub Spared-refl : (d : Disk) → Spared q d d
  Spared-refl d = record { fault_kept = refl; stays = λ x e. e }

  pub Spared-trans : (a b c : Disk) → Spared q a b → Spared q b c → Spared q a c
  Spared-trans a b c h k = record {
    fault_kept = k.fault_kept ∙ h.fault_kept;
    stays = λ x e. k.stays x (h.stays x e);
  }

  -- An action that only looks.
  pub looking-Spares : {A : Type 0} (m : Action Disk A) → ((d : Disk) → (m d).1 ≡ d) → Spares q m
  unfolding Spares
  looking-Spares m h d = rw (h d) (Spared-refl d)

  resume-Spared :
      {A B : Type 0} (f : A → Action Disk B) (r : Result A × Disk)
      → ((a : A) (d : Disk) → Spared q d (f a d).1)
      → Spared q r.1 (resume f r).1
  resume-Spared f (ok a, d) h = h a d
  resume-Spared f (err e, d) h = Spared-refl d

  pub bind-Spares :
      {A B : Type 0} (m : Action Disk A) (f : A → Action Disk B)
      → Spares q m
      → ((a : A) → Spares q (f a))
      → Spares q (m >>= f)
  unfolding Spares
  bind-Spares m f h k d = Spared-trans d (m d).1 _ (h d) (resume-Spared f (m d) k)

  pub attempt-Spares : {A : Type 0} (m : Action Disk A) → Spares q m → Spares q (attempt m)
  unfolding Spares
  attempt-Spares m h d = h d

  rewrap-same : {A : Type 0} (text : String) (r : Result A × Disk) → (rewrap text r).1 ≡ r.1
  rewrap-same text (ok a, d) = refl
  rewrap-same text (err e, d) = refl

  pub wrapping-Spares :
      {A : Type 0} (text : String) (m : Action Disk A) → Spares q m → Spares q (wrapping text m)
  unfolding Spares
  wrapping-Spares text m h d = rw (rewrap-same text (m d)) (h d)

  pub remove_all-Spares : (p : Bytes) → is_within p q ≡ false → Spares q (remove_all p)
  unfolding Spares remove_all
  remove_all-Spares p h d = record { fault_kept = ground arith; stays = λ x e. ground arith }

  pub rename-Spares : (a b : Bytes) → q ≢ a → q ≢ b → Spares q (rename a b)
  unfolding Spares rename
  rename-Spares a b ha hb d = record { fault_kept = ground arith; stays = λ x e. ground arith }

  pub open_truncated-Spares : (p : Bytes) → q ≢ p → Spares q (open_truncated p)
  unfolding Spares open_truncated
  open_truncated-Spares p h d = record { fault_kept = ground arith; stays = λ x e. ground arith }

  pub choice-Spared :
      {A : Type 0} (b : Bool) (r t : Result A × Disk) (d : Disk)
      → Spared q d r.1
      → Spared q d t.1
      → Spared q d (if b then r else t).1
  choice-Spared true r t d h k = h
  choice-Spared false r t d h k = k
