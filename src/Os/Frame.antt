-- ===== src/Os/Frame.antt =====
-- Actions on the disk that leave some paths alone, whether they succeed or not.
use ovm.Base.{ℕ, String, Bytes, false, ◌≡◌, ◌≢◌, refl, ◌∙◌, arith}
use ovm.Os.Outcome.{
  Error, Result, ok, err, Action, pure, raise, attempt, wrapping, rewrap, resume, ◌>>=◌,
}
use ovm.Os.Disk.{Disk}
use ovm.Os.Calls.{
  create, open_source, copy_content, truncate, sync, remove_all, write_file, is_within,
}

-- What stands at the path `q` stays.
unfoldable pub Leaves : {A : Type 0} → Bytes → Action Disk A → Type 0
Leaves q m = (d : Disk) → (m d).1.entry q ≡ d.entry q

module _ (q : Bytes) where
  pub Leaves-apply :
      {A : Type 0} (m : Action Disk A) → Leaves q m → (d : Disk) → (m d).1.entry q ≡ d.entry q
  unfolding Leaves
  Leaves-apply m h d = h d

  pub resume-entry :
      {A B : Type 0} (f : A → Action Disk B) (r : Result A × Disk)
      → ((a : A) (d : Disk) → (f a d).1.entry q ≡ d.entry q)
      → (resume f r).1.entry q ≡ r.1.entry q
  resume-entry f (ok a, d) h = h a d
  resume-entry f (err e, d) h = refl

  pub bind-Leaves :
      {A B : Type 0} (m : Action Disk A) (f : A → Action Disk B)
      → Leaves q m
      → ((a : A) → Leaves q (f a))
      → Leaves q (m >>= f)
  unfolding Leaves
  bind-Leaves m f h k d = resume-entry f (m d) k ∙ h d

  pub pure-Leaves : {A : Type 0} (a : A) → Leaves q (pure a)
  unfolding Leaves
  pure-Leaves a d = refl

  pub raise-Leaves : (A : Type 0) (e : Error) → Leaves q (raise {A = A} e)
  unfolding Leaves
  raise-Leaves A e d = refl

  pub attempt-Leaves : {A : Type 0} (m : Action Disk A) → Leaves q m → Leaves q (attempt m)
  unfolding Leaves
  attempt-Leaves m h d = h d

  rewrap-entry :
      {A : Type 0} (text : String) (r : Result A × Disk) → (rewrap text r).1.entry q ≡ r.1.entry q
  rewrap-entry text (ok a, d) = refl
  rewrap-entry text (err e, d) = refl

  pub wrapping-Leaves :
      {A : Type 0} (text : String) (m : Action Disk A) → Leaves q m → Leaves q (wrapping text m)
  unfolding Leaves
  wrapping-Leaves text m h d = rewrap-entry text (m d) ∙ h d

  module _ (p : Bytes) (apart : q ≢ p) where
    pub create-Leaves : Leaves q (create p)
    unfolding Leaves create
    create-Leaves d = ground arith

    pub copy_content-Leaves : (src : Bytes) → Leaves q (copy_content src p)
    unfolding Leaves copy_content
    copy_content-Leaves src d = ground arith

    pub truncate-Leaves : (n : ℕ) → Leaves q (truncate p n)
    unfolding Leaves truncate
    truncate-Leaves n d = ground arith

    pub write_file-Leaves : (b : Bytes) → Leaves q (write_file p b)
    unfolding Leaves write_file
    write_file-Leaves b d = ground arith

  pub remove_all-Leaves : (p : Bytes) → is_within p q ≡ false → Leaves q (remove_all p)
  unfolding Leaves remove_all
  remove_all-Leaves p h d = ground arith

  pub open_source-Leaves : (p : Bytes) → Leaves q (open_source p)
  unfolding Leaves open_source
  open_source-Leaves p d = ground arith

  pub sync-Leaves : (p : Bytes) → Leaves q (sync p)
  unfolding Leaves sync
  sync-Leaves p d = ground arith
