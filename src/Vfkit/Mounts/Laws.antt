-- ===== src/Vfkit/Mounts/Laws.antt =====
-- No tag and no folder is mounted twice, and each line of fstab has its six fields.
use ovm.Base.{
  Bytes, bytes, false, List, [], ◌∷◌, ◌++◌, ◌≡◌, ◌≢◌, refl, ap, ◌∙◌, arith, All, All-append, inl,
  inr, Bool-cases,
}
use ovm.Text.Split.{split, split_part, Lacks, replace_byte, replace_byte-Lacks}
use ovm.Vfkit.Mounts.{Fs, initial_mounts, taken, extend, extend_all, escaped_space, fstab_line}

-- Two mounts share neither the tag nor the folder.
abbrev pub Differ : Fs → Fs → Type 0
Differ a b = (a.tag ≢ b.tag) × (a.share_dir ≢ b.share_dir)

abbrev pub AllDiffer : List Fs → Type 0
AllDiffer [] = Unit
AllDiffer (f ∷ fs) = All (Differ f) fs × AllDiffer fs

pub initial_mounts-AllDiffer : AllDiffer initial_mounts
unfolding initial_mounts
initial_mounts-AllDiffer =
    (((λ e. cc, λ e. cc), ((λ e. cc, λ e. cc), tt)), (((λ e. cc, λ e. cc), tt), (tt, tt)))

not_taken :
    (tag dir : Bytes) (fs : List Fs)
    → taken tag dir fs ≡ false
    → All (λ f. Differ f (record { tag = tag; share_dir = dir })) fs
unfolding taken
not_taken tag dir [] h = tt
not_taken tag dir (f ∷ fs) h = ((ground arith, ground arith), not_taken tag dir fs (ground arith))

AllDiffer-snoc :
    (fs : List Fs) (g : Fs) → AllDiffer fs → All (λ f. Differ f g) fs → AllDiffer (fs ++ (g ∷ []))
AllDiffer-snoc [] g h k = (tt, tt)
AllDiffer-snoc (f ∷ fs) g (h, hs) (k, ks) =
    (All-append (Differ f) fs (g ∷ []) h (k, tt), AllDiffer-snoc fs g hs ks)

extend-AllDiffer : (tag dir : Bytes) (fs : List Fs) → AllDiffer fs → AllDiffer (extend tag dir fs)
unfolding extend
extend-AllDiffer tag dir fs h = elim (Bool-cases (taken tag dir fs)) [
  | inl e ↦ rw e h
  | inr e ↦ rw e (AllDiffer-snoc fs _ h (not_taken tag dir fs e))
]

-- Whatever folders are added, and in whatever order, no two mounts share a tag or a folder.
pub extend_all-AllDiffer :
    (more : List (Bytes × Bytes)) (fs : List Fs) → AllDiffer fs → AllDiffer (extend_all more fs)
unfolding extend_all
extend_all-AllDiffer [] fs h = h
extend_all-AllDiffer ((tag, dir) ∷ more) fs h =
    extend_all-AllDiffer more (extend tag dir fs) (extend-AllDiffer tag dir fs h)

-- The six fields of a line are the tag, the folder with its spaces escaped, and the four constants.
split-fstab_line :
    (f : Fs)
    → Lacks 32 f.tag
    → split 32 (fstab_line f)
      ≡ f.tag
        ∷ replace_byte 32 escaped_space f.share_dir
        ∷ bytes "virtiofs"
        ∷ bytes "defaults"
        ∷ bytes "0"
        ∷ bytes "0"
        ∷ []
unfolding fstab_line
split-fstab_line f h =
    split_part 32 f.tag _ h
    ∙ ap (λ l. f.tag ∷ l)
        (split_part 32 (replace_byte 32 escaped_space f.share_dir) (bytes "virtiofs defaults 0 0")
            (replace_byte-Lacks 32 escaped_space f.share_dir (omega arith))
          ∙ unfold split in refl)
