-- ===== src/Os/Calls/Folders.antt =====
-- What os.MkdirAll leaves alone: it makes only the path and what lies on the way to it.
use ovm.Base.{
  ◌+◌, ◌<◌, Bytes, [], ◌∷◌, ◌++◌, ◌≡◌, ◌≢◌, refl, ap, arith, length, length-append, Bool-cases, inl,
  inr, ◌==◌, ◌∙◌,
}
use ovm.Os.Outcome.{Result, ok, err, Action, resume}
use ovm.Os.Disk.{Disk}
use ovm.Os.Calls.{make_folder, make_on_way, mkdir_all}
use ovm.Os.Frame.{Leaves, bind-Leaves}
use ovm.Os.Spares.{Spares, bind-Spares}

make_folder-Leaves : (q p : Bytes) → q ≢ p → Leaves q (make_folder p)
unfolding Leaves make_folder
make_folder-Leaves q p h d = ground arith

ne_of_longer : (q p : Bytes) → length p < length q → q ≢ p
ne_of_longer q p h e = absurd (omega (arith, ap length e))

make_on_way-Leaves :
    (q done rest : Bytes) → length done + length rest < length q → Leaves q (make_on_way done rest)
unfolding make_on_way
make_on_way-Leaves q [] [] h = make_folder-Leaves q [] (ne_of_longer q [] h)
make_on_way-Leaves q (b ∷ done) [] h =
    make_folder-Leaves q (b ∷ done) (ne_of_longer q (b ∷ done) (omega arith))
make_on_way-Leaves q [] (c ∷ rest) h = make_on_way-Leaves q (c ∷ []) rest (omega arith)
make_on_way-Leaves q (b ∷ done) (c ∷ rest) h =
    let later =
      make_on_way-Leaves q ((b ∷ done) ++ (c ∷ [])) rest
        (omega (arith, length-append done (c ∷ []))) in
    elim (Bool-cases (c == b'/')) [
      | inl e ↦ rw e (
          bind-Leaves q _ _
            (make_folder-Leaves q (b ∷ done) (ne_of_longer q (b ∷ done) (omega arith)))
            (λ _. later))
      | inr e ↦ rw e later
    ]

-- A path longer than the folder stays as it is.
pub mkdir_all-Leaves : (q p : Bytes) → length p < length q → Leaves q (mkdir_all p)
unfolding mkdir_all
mkdir_all-Leaves q p h = make_on_way-Leaves q [] p (omega arith)

-- Making folders changes no answer of the system.
resume-fault :
    {A B : Type 0} (f : A → Action Disk B) (r : Result A × Disk)
    → ((a : A) (d : Disk) → (f a d).1.fault ≡ d.fault)
    → (resume f r).1.fault ≡ r.1.fault
resume-fault f (ok a, d) h = h a d
resume-fault f (err e, d) h = refl

make_folder-fault : (p : Bytes) (d : Disk) → (make_folder p d).1.fault ≡ d.fault
unfolding make_folder
make_folder-fault p d = ground arith

make_on_way-fault : (done rest : Bytes) (d : Disk) → (make_on_way done rest d).1.fault ≡ d.fault
unfolding make_on_way
make_on_way-fault [] [] d = make_folder-fault [] d
make_on_way-fault (b ∷ done) [] d = make_folder-fault (b ∷ done) d
make_on_way-fault [] (c ∷ rest) d = make_on_way-fault (c ∷ []) rest d
make_on_way-fault (b ∷ done) (c ∷ rest) d =
    let later = make_on_way-fault ((b ∷ done) ++ (c ∷ [])) rest in
    elim (Bool-cases (c == b'/')) [
      | inl e ↦ rw e (
          resume-fault (λ _. make_on_way ((b ∷ done) ++ (c ∷ [])) rest) (make_folder (b ∷ done) d)
            (λ _. later)
          ∙ make_folder-fault (b ∷ done) d)
      | inr e ↦ rw e (later d)
    ]

pub mkdir_all-fault : (p : Bytes) (d : Disk) → (mkdir_all p d).1.fault ≡ d.fault
unfolding mkdir_all
mkdir_all-fault p d = make_on_way-fault [] p d

module _ (q : Bytes) where
  -- A folder is made only where nothing stands.
  make_folder-Spares : (p : Bytes) → Spares q (make_folder p)
  unfolding Spares make_folder
  make_folder-Spares p d = record { fault_kept = ground arith; stays = λ x e. ground arith }

  make_on_way-Spares : (done rest : Bytes) → Spares q (make_on_way done rest)
  unfolding make_on_way
  make_on_way-Spares done [] = make_folder-Spares done
  make_on_way-Spares [] (c ∷ rest) = make_on_way-Spares (c ∷ []) rest
  make_on_way-Spares (b ∷ done) (c ∷ rest) =
      let later = make_on_way-Spares ((b ∷ done) ++ (c ∷ [])) rest in
      elim (Bool-cases (c == b'/')) [
        | inl e ↦ rw e (bind-Spares q _ _ (make_folder-Spares (b ∷ done)) (λ _. later))
        | inr e ↦ rw e later
      ]

  pub mkdir_all-Spares : (p : Bytes) → Spares q (mkdir_all p)
  unfolding mkdir_all
  mkdir_all-Spares p = make_on_way-Spares [] p
