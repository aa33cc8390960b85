-- ===== src/Logger/Rotation.antt =====
-- What `init` does to the files of a logger.
use ovm.Base.{
  zero, refl, ◌<◌, ℕ, suc, ◌+◌, ◌≤◌, Bytes, ◌==◌, [], ◌≡◌, ◌≢◌, ◌∙◌, ap, arith, false,
  if◌then◌else◌, Option, none, some,
}
use mathlib.Core.Option.{or_else}
use ovm.Os.Outcome.{ok, wrapping, rewrap, bind_ok}
use ovm.Os.Disk.{
  Disk, Node, file, Call, stat_call, rename_call, open_call, open_truncated, put, is_folder,
}
use ovm.Text.FilePath.{path_join}
use ovm.Logger.{shift, init_rounds, init, next_name}
use ovm.Logger.Slots.{slot-ne, next_slot, slot}

abbrev Entries : Type 0
Entries = Bytes → Option Node

-- The entries after `a` was moved to `b`, if there is an `a`.
move : Entries → Bytes → Bytes → Entries
move e a b = elim (e a) [ none ↦ e | some n ↦ put (put e a none) b (some n) ]

move-plain :
    (e : Entries) (a b q : Bytes)
    → is_folder (e a) ≡ false
    → is_folder (e q) ≡ false
    → is_folder (move e a b q) ≡ false
unfolding move
move-plain e a b q h k = ground arith

-- No call fails for a reason that the entries do not show.
abbrev pub NoFault : Disk → Type 0
NoFault d = (c : Call) → d.fault c ≡ false

shift_lem :
    (a b : Bytes) (d : Disk)
    → NoFault d
    → is_folder (d.entry b) ≡ false
    → shift a b d ≡ (ok tt, record d { entry = move d.entry a b })
unfolding shift move
shift_lem a b d h k = ground (arith, h (stat_call a), h (rename_call a b))

-- With no fault, a round moves its slot to the next one.
shift-slot :
    (p n : Bytes) (i : ℕ) (d : Disk)
    → NoFault d
    → is_folder (d.entry (slot p n (suc (suc i)))) ≡ false
    → shift (slot p n (suc i)) (path_join p (next_name n (suc i))) d
      ≡ (ok tt, record d { entry = move d.entry (slot p n (suc i)) (slot p n (suc (suc i))) })
shift-slot p n i d h k =
    ap (λ b. shift (slot p n (suc i)) b d) (next_slot p n i) ∙ shift_lem _ _ d h k

init_step :
    (p n : Bytes) (i : ℕ) (d : Disk)
    → NoFault d
    → is_folder (d.entry (slot p n (suc (suc (suc i))))) ≡ false
    → init_rounds p n (suc (suc i)) d
      ≡ init_rounds p n (suc i) (record d {
        entry = move d.entry (slot p n (suc (suc i))) (slot p n (suc (suc (suc i))));
      })
unfolding init_rounds
init_step p n i d h k =
    bind_ok (shift _ _) (λ _. init_rounds p n (suc i)) d (shift-slot p n (suc i) d h k)

open_log : Bytes → Disk → Disk
open_log p d = record d {
  entry = put d.entry p (some (file []));
  open_at = (λ n. if n == d.next_fd then some p else d.open_at n);
  next_fd = d.next_fd + 1;
}

opened_lem :
    (q : Bytes) (d : Disk)
    → d.fault (open_call q) ≡ false
    → is_folder (d.entry q) ≡ false
    → open_truncated q d ≡ (ok d.next_fd, open_log q d)
unfolding open_truncated open_log
opened_lem q d h k = rw (h, k)

init_last :
    (p n : Bytes) (d : Disk)
    → NoFault d
    → is_folder (d.entry (slot p n 1)) ≡ false
    → is_folder (d.entry (slot p n 2)) ≡ false
    → init_rounds p n 1 d ≡ (
      ok d.next_fd,
      open_log (slot p n 1) (record d { entry = move d.entry (slot p n 1) (slot p n 2) }),
    )
unfolding init_rounds
init_last p n d h k l =
    bind_ok (shift _ _) (λ _. wrapping "cannot open log file" (open_truncated (slot p n 1))) d
      (shift-slot p n 0 d h l)
    ∙ ap (rewrap "cannot open log file") (
        opened_lem (slot p n 1) (record d { entry = move d.entry (slot p n 1) (slot p n 2) })
          (h (open_call (slot p n 1)))
          (move-plain d.entry (slot p n 1) (slot p n 2) (slot p n 1) k k))

-- No log file is a folder.
abbrev pub IsPlain : Bytes → Bytes → Disk → Type 0
IsPlain p n d = (i : ℕ) → is_folder (d.entry (slot p n i)) ≡ false

rotated : Bytes → Bytes → Entries → Entries
rotated p n e =
    put
      (move
        (move (move (move e (slot p n 4) (slot p n 5)) (slot p n 3) (slot p n 4)) (slot p n 2)
          (slot p n 3))
        (slot p n 1) (slot p n 2))
      (slot p n 1) (some (file []))

init_lem :
    (p n : Bytes) (d : Disk)
    → NoFault d
    → IsPlain p n d
    → init p n d ≡ (ok d.next_fd, record (open_log (slot p n 1) d) { entry = rotated p n d.entry })
unfolding init rotated open_log
init_lem p n d h k =
    let e = d.entry in
    let s = slot p n in
    let e4 = move e (s 4) (s 5) in
    let e3 = move e4 (s 3) (s 4) in
    let e2 = move e3 (s 2) (s 3) in
    let plain4 = λ (i : ℕ). move-plain e (s 4) (s 5) (s i) (k 4) (k i) in
    let plain3 = λ (i : ℕ). move-plain e4 (s 3) (s 4) (s i) (plain4 3) (plain4 i) in
    let plain2 = λ (i : ℕ). move-plain e3 (s 2) (s 3) (s i) (plain3 2) (plain3 i) in
    init_step p n 2 d h (k 5)
    ∙ init_step p n 1 (record d { entry = e4 }) h (plain4 4)
    ∙ init_step p n 0 (record d { entry = e3 }) h (plain3 3)
    ∙ init_last p n (record d { entry = e2 }) h (plain2 1) (plain2 2)

-- Four moves down a row of five different paths.
module _ (e : Entries) (a b c d f : Bytes) (ab : a ≢ b) (ac : a ≢ c) (ad : a ≢ d) (af : a ≢ f)
    (bc : b ≢ c) (bd : b ≢ d) (bf : b ≢ f) (cd : c ≢ d) (cf : c ≢ f) (df : d ≢ f) where
  abbrev row : Entries
  row = put (move (move (move (move e d f) c d) b c) a b) a (some (file []))

  row_first : row a ≡ some (file [])
  row_first = ground arith

  row_second : row b ≡ e a
  unfolding move
  row_second = ground arith

  row_third : row c ≡ e b
  unfolding move
  row_third = ground arith

  row_fourth : row d ≡ e c
  unfolding move
  row_fourth = ground arith

  row_last : row f ≡ or_else (e d) (e f)
  unfolding move or_else
  row_last = ground arith

  row_other : (q : Bytes) → q ≢ a → q ≢ b → q ≢ c → q ≢ d → q ≢ f → row q ≡ e q
  unfolding move
  row_other q qa qb qc qd qf = ground arith

-- What the slots hold after `init`: each log has taken the next number, the fifth was dropped if
-- the fourth was there, and the first is new and empty.
pub record Rotated (p n : Bytes) (e e' : Bytes → Option Node) : Type 0 where
  pub first : e' (slot p n 1) ≡ some (file [])
  pub later : (i : ℕ) → 1 ≤ i → i ≤ 3 → e' (slot p n (i + 1)) ≡ e (slot p n i)
  pub last : e' (slot p n 5) ≡ or_else (e (slot p n 4)) (e (slot p n 5))
  pub others : (q : Bytes) → ((i : ℕ) → 1 ≤ i → i ≤ 5 → q ≢ slot p n i) → e' q ≡ e q

-- The distance facts of the five slots fill the section's parameters.
module _ (p n : Bytes) (e : Entries) (q : p ≢ []) where
  far : (i j : ℕ) → 1 ≤ i → i < j → j ≤ 5 → slot p n i ≢ slot p n j
  far i j = slot-ne p n i j q

  at_row {ℓ} :
      {T : Type ℓ}
      → ((ab : slot p n 1 ≢ slot p n 2) (ac : slot p n 1 ≢ slot p n 3)
            (ad : slot p n 1 ≢ slot p n 4) (af : slot p n 1 ≢ slot p n 5)
            (bc : slot p n 2 ≢ slot p n 3) (bd : slot p n 2 ≢ slot p n 4)
            (bf : slot p n 2 ≢ slot p n 5) (cd : slot p n 3 ≢ slot p n 4)
            (cf : slot p n 3 ≢ slot p n 5) (df : slot p n 4 ≢ slot p n 5)
          → T)
      → T
  at_row f =
      f (far 1 2 (omega arith) (omega arith) (omega arith))
        (far 1 3 (omega arith) (omega arith) (omega arith))
        (far 1 4 (omega arith) (omega arith) (omega arith))
        (far 1 5 (omega arith) (omega arith) (omega arith))
        (far 2 3 (omega arith) (omega arith) (omega arith))
        (far 2 4 (omega arith) (omega arith) (omega arith))
        (far 2 5 (omega arith) (omega arith) (omega arith))
        (far 3 4 (omega arith) (omega arith) (omega arith))
        (far 3 5 (omega arith) (omega arith) (omega arith))
        (far 4 5 (omega arith) (omega arith) (omega arith))

  later_rotated : (i : ℕ) → 1 ≤ i → i ≤ 3 → rotated p n e (slot p n (i + 1)) ≡ e (slot p n i)
  unfolding rotated
  later_rotated zero h k = absurd (omega arith)
  later_rotated (suc zero) h k = at_row (row_second e _ _ _ _ _)
  later_rotated (suc (suc zero)) h k = at_row (row_third e _ _ _ _ _)
  later_rotated (suc (suc (suc zero))) h k = at_row (row_fourth e _ _ _ _ _)
  later_rotated (suc (suc (suc (suc i)))) h k = absurd (omega arith)

  rotated-Rotated : Rotated p n e (rotated p n e)
  unfolding rotated
  rotated-Rotated = record {
    first = at_row (row_first e _ _ _ _ _);
    later = later_rotated;
    last = at_row (row_last e _ _ _ _ _);
    others = λ t out. at_row (λ ab ac ad af bc bd bf cd cf df.
        row_other e _ _ _ _ _ ab ac ad af bc bd bf cd cf df t (out 1 (omega arith) (omega arith))
          (out 2 (omega arith) (omega arith)) (out 3 (omega arith) (omega arith))
          (out 4 (omega arith) (omega arith)) (out 5 (omega arith) (omega arith)));
  }

-- Where no call fails and no log is a folder, opening a logger succeeds with a new descriptor and
-- rotates: every log takes the next number, a fourth log replaces the fifth, `name.log` is a new
-- empty file, and no other path changes.
pub init-Rotated :
    (p n : Bytes) (d : Disk)
    → p ≢ []
    → NoFault d
    → IsPlain p n d
    → ((init p n d).0 ≡ ok d.next_fd) × Rotated p n d.entry (init p n d).1.entry
init-Rotated p n d q h k = rw (init_lem p n d h k) (refl, rotated-Rotated p n d.entry q)

pub init-open :
    (p n : Bytes) (d : Disk)
    → NoFault d
    → IsPlain p n d
    → (init p n d).1.open_at d.next_fd ≡ some (slot p n 1)
unfolding open_log
init-open p n d h k = rw (init_lem p n d h k) (ground arith)

pub init-open_at :
    (p n : Bytes) (d : Disk)
    → NoFault d
    → IsPlain p n d
    → (init p n d).1.open_at ≡ (λ x. if x == d.next_fd then some (slot p n 1) else d.open_at x)
unfolding open_log
init-open_at p n d h k = rw (init_lem p n d h k)

pub init-fault :
    (p n : Bytes) (d : Disk) → NoFault d → IsPlain p n d → (init p n d).1.fault ≡ d.fault
unfolding open_log
init-fault p n d h k = rw (init_lem p n d h k)
