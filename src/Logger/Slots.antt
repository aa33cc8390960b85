-- ===== src/Logger/Slots.antt =====
-- The five log files of a logger stand at five different paths.
use ovm.Base.{
  ℕ, zero, suc, ◌+◌, ◌≤◌, ◌<◌, ◌==◌, if◌then◌else◌, Bytes, bytes, [], ◌∷◌, ◌++◌, ◌≡◌, ◌≢◌, refl,
  sym, ◌∙◌, ap, arith, append_assoc,
}
use mathlib.Core.List.{append_cancel_left}
use ovm.Text.Decimal.{itoa}
use ovm.Text.FilePath.{path_join}
use ovm.Text.FilePath.Stem.{IsSuffix, stem, path_join-stem}
use ovm.Logger.{next_name, log_name}

-- The file `name.log`, and behind it `name.2.log` to `name.5.log`.
abbrev pub slot : Bytes → Bytes → ℕ → Bytes
slot p n i = path_join p (log_name n i)

-- What stands behind the stem of the path.
suffix : ℕ → Bytes
suffix i = log_name [] i

suffix-IsSuffix : (i : ℕ) → 1 ≤ i → i ≤ 5 → IsSuffix (suffix i)
unfolding suffix log_name itoa
suffix-IsSuffix zero h k = absurd (omega arith)
suffix-IsSuffix (suc zero) h k = omega arith
suffix-IsSuffix (suc (suc zero)) h k = omega arith
suffix-IsSuffix (suc (suc (suc zero))) h k = omega arith
suffix-IsSuffix (suc (suc (suc (suc zero)))) h k = omega arith
suffix-IsSuffix (suc (suc (suc (suc (suc zero))))) h k = omega arith
suffix-IsSuffix (suc (suc (suc (suc (suc (suc i)))))) h k = absurd (omega arith)

log_name-suffix : (n : Bytes) (i : ℕ) → 1 ≤ i → i ≤ 5 → log_name n i ≡ n ++ suffix i
unfolding suffix log_name
log_name-suffix n zero h k = absurd (omega arith)
log_name-suffix n (suc zero) h k = refl
log_name-suffix n (suc (suc i)) h k = ground (
  arith,
  append_assoc n (bytes ".") (itoa (suc (suc i))),
  append_assoc n (bytes "." ++ itoa (suc (suc i))) (bytes ".log"),
)

slot-stem : (p n : Bytes) (i : ℕ) → p ≢ [] → 1 ≤ i → i ≤ 5 → slot p n i ≡ stem p n ++ suffix i
slot-stem p n i q h k =
    ap (path_join p) (log_name-suffix n i h k)
    ∙ path_join-stem p n (suffix i) q (suffix-IsSuffix i h k)

-- The byte behind the first dot tells the suffixes apart.
second : Bytes → ℕ
second (a ∷ b ∷ s) = b
second s = 0

mark : ℕ → ℕ
mark i = if i == 1 then b'l' else b'0' + i

second-suffix : (i : ℕ) → 1 ≤ i → i ≤ 5 → second (suffix i) ≡ mark i
unfolding second mark suffix log_name itoa
second-suffix zero h k = absurd (omega arith)
second-suffix (suc zero) h k = refl
second-suffix (suc (suc zero)) h k = refl
second-suffix (suc (suc (suc zero))) h k = refl
second-suffix (suc (suc (suc (suc zero)))) h k = refl
second-suffix (suc (suc (suc (suc (suc zero))))) h k = refl
second-suffix (suc (suc (suc (suc (suc (suc i)))))) h k = absurd (omega arith)

mark-ne : (i j : ℕ) → 1 ≤ i → i < j → j ≤ 5 → mark i ≢ mark j
unfolding mark
mark-ne i j h k l = ground arith

suffix-ne : (i j : ℕ) → 1 ≤ i → i < j → j ≤ 5 → suffix i ≢ suffix j
suffix-ne i j h k l e =
    mark-ne i j h k l
      (sym (second-suffix i h (omega arith)) ∙ ap second e ∙ second-suffix j (omega arith) l)

pub slot-ne : (p n : Bytes) (i j : ℕ) → p ≢ [] → 1 ≤ i → i < j → j ≤ 5 → slot p n i ≢ slot p n j
slot-ne p n i j q h k l e = suffix-ne i j h k l (
    append_cancel_left (stem p n) (suffix i) (suffix j)
      (sym (slot-stem p n i q h (omega arith)) ∙ e ∙ slot-stem p n j q (omega arith) l))

-- The path that a round moves to is the next slot.
pub next_slot : (p n : Bytes) (i : ℕ) → path_join p (next_name n (suc i)) ≡ slot p n (suc (suc i))
unfolding next_name log_name
next_slot p n i = ground arith
