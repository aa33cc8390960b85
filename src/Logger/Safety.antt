-- ===== src/Logger/Safety.antt =====
-- What becomes of the old logs when calls fail.
use ovm.Base.{
  ℕ, zero, suc, ◌≤◌, ◌<◌, Bytes, [], ◌≡◌, ◌≢◌, refl, sym, ◌∙◌, ap, arith, false, some, ◌⊎◌, inl,
  inr,
}
use mathlib.Core.Path.{subst}
use native.Mathlib.Decide.{dec_le}
use ovm.Os.Outcome.{resume, Error, Result, ok, err, Action, wrapping}
use ovm.Os.Disk.{Disk, Node, stat_call, open_truncated}
use ovm.Text.FilePath.{path_join}
use ovm.Logger.{shift, init_rounds, init, next_name}
use ovm.Logger.Slots.{slot, slot-ne, next_slot}

-- The state of every path is known, so that `os.Stat` fails only where nothing is there.
abbrev pub Readable : Disk → Type 0
Readable d = (q : Bytes) → d.fault (stat_call q) ≡ false

-- A round that ends with no error has moved its log if there was one, and changed no third path.
-- One that ends with an error has changed nothing.
record Shifted (a b : Bytes) (d : Disk) (r : Result (Unit {0})) (d' : Disk) : Type 0 where
  faults : d'.fault ≡ d.fault
  moved : (x : Node) → d.entry a ≡ some x → r ≡ ok tt → d'.entry b ≡ some x
  failed : (e : Error) → r ≡ err e → d'.entry ≡ d.entry
  third : (q : Bytes) → q ≢ a → q ≢ b → d'.entry q ≡ d.entry q

shift-Shifted :
    (a b : Bytes) (d : Disk) → a ≢ b → Readable d → Shifted a b d (shift a b d).0 (shift a b d).1
unfolding shift
shift-Shifted a b d h k = record {
  faults = ground arith;
  moved = λ x e o. ground (arith, k a);
  failed = λ e o. ground arith;
  third = λ q qa qb. ground arith;
}

open_new : Bytes → Action Disk ℕ
open_new q = wrapping "cannot open log file" (open_truncated q)

open_new-entry : (q t : Bytes) (d : Disk) → t ≢ q → (open_new q d).1.entry t ≡ d.entry t
unfolding open_new open_truncated
open_new-entry q t d h = ground arith

-- The round at the slot `suc i`, by the names of the slots.
round-shift :
    (p n : Bytes) (i : ℕ)
    → shift (slot p n (suc i)) (path_join p (next_name n (suc i)))
      ≡ shift (slot p n (suc i)) (slot p n (suc (suc i)))
round-shift p n i = ap (shift (slot p n (suc i))) (next_slot p n i)

first_round :
    (p n : Bytes) (d : Disk)
    → init_rounds p n 1 d ≡ resume (λ _. open_new (slot p n 1)) (shift (slot p n 1) (slot p n 2) d)
unfolding init_rounds open_new
first_round p n d = ap (λ m. resume (λ _. open_new (slot p n 1)) (m d)) (round-shift p n 0)

later_round :
    (p n : Bytes) (i : ℕ) (d : Disk)
    → init_rounds p n (suc (suc i)) d
      ≡ resume
          (λ _. init_rounds p n (suc i))
          (shift (slot p n (suc (suc i))) (slot p n (suc (suc (suc i)))) d)
unfolding init_rounds
later_round p n i d =
    ap (λ m. resume (λ _. init_rounds p n (suc i)) (m d)) (round-shift p n (suc i))

module _ (p n : Bytes) (q : p ≢ []) where
  abbrev s : ℕ → Bytes
  s = slot p n

  -- The rest runs on a disk that agrees at a path that the round does not touch.
  resume-third :
      {A : Type 0} (f : Unit {0} → Action Disk A) (a b t : Bytes) (d : Disk) (r : Result (Unit {0}))
      (d' : Disk)
      → Shifted a b d r d'
      → t ≢ a
      → t ≢ b
      → (r ≡ ok tt → (f tt d').1.entry t ≡ d'.entry t)
      → (resume f (r, d')).1.entry t ≡ d.entry t
  resume-third f a b t d (ok tt) d' h ta tb k = k refl ∙ h.third t ta tb
  resume-third f a b t d (err e) d' h ta tb k = h.third t ta tb

  apart : (i j : ℕ) → 1 ≤ i → i < j → j ≤ 5 → s j ≢ s i
  apart i j h k l e = slot-ne p n i j q h k l (sym e)

  round-Shifted :
      (i : ℕ) (d : Disk)
      → Readable d
      → suc i ≤ 4
      → Shifted
          (s (suc i))
          (s (suc (suc i)))
          d
          (shift (s (suc i)) (s (suc (suc i))) d).0
          (shift (s (suc i)) (s (suc (suc i))) d).1
  round-Shifted i d h k =
      shift-Shifted _ _ d
        (slot-ne p n (suc i) (suc (suc i)) q (omega arith) (omega arith) (omega arith)) h

  -- Rounds from the slot `suc i` down leave the slots above `suc (suc i)` as they are.
  untouched :
      (i j : ℕ) (d : Disk)
      → Readable d
      → suc (suc i) < j
      → j ≤ 5
      → (init_rounds p n (suc i) d).1.entry (s j) ≡ d.entry (s j)
  untouched zero j d h lo hi = rw (first_round p n d) (
      resume-third (λ _. open_new (s 1)) (s 1) (s 2) (s j) d _ _ (round-Shifted 0 d h (omega arith))
        (apart 1 j (omega arith) (omega arith) hi) (apart 2 j (omega arith) (omega arith) hi)
        (λ _. open_new-entry (s 1) (s j) _ (apart 1 j (omega arith) (omega arith) hi)))
  untouched (suc i) j d h lo hi =
      let sh = round-Shifted (suc i) d h (omega arith) in
      rw (later_round p n i d) (
        resume-third (λ _. init_rounds p n (suc i)) (s (suc (suc i))) (s (suc (suc (suc i)))) (s j)
          d _ _ sh (apart (suc (suc i)) j (omega arith) (omega arith) hi)
          (apart (suc (suc (suc i))) j (omega arith) (omega arith) hi)
          (λ _. untouched i j _ (λ t. (λ k. sh.faults k (stat_call t)) ∙ h t) (omega arith) hi))

  Kept : ℕ → Node → Disk → Type 0
  Kept k x d = (d.entry (s k) ≡ some x) ⊎ (d.entry (s (suc k)) ≡ some x)

  -- The log of the round itself: it has moved, or the round failed and it is where it was.
  resume-own :
      {A : Type 0} (f : Unit {0} → Action Disk A) (k : ℕ) (x : Node) (d : Disk)
      (r : Result (Unit {0})) (d' : Disk)
      → Shifted (s k) (s (suc k)) d r d'
      → d.entry (s k) ≡ some x
      → (f tt d').1.entry (s (suc k)) ≡ d'.entry (s (suc k))
      → Kept k x (resume f (r, d')).1
  unfolding Kept
  resume-own f k x d (ok tt) d' h e u = inr (u ∙ h.moved x e refl)
  resume-own f k x d (err o) d' h e u = inl ((λ i. h.failed o refl i (s k)) ∙ e)

  -- A log of a later round is where it was when the next round starts.
  resume-lower :
      {A : Type 0} (f : Unit {0} → Action Disk A) (a b : Bytes) (k : ℕ) (x : Node) (d : Disk)
      (r : Result (Unit {0})) (d' : Disk)
      → Shifted a b d r d'
      → s k ≢ a
      → s k ≢ b
      → d.entry (s k) ≡ some x
      → (d'.entry (s k) ≡ some x → Kept k x (f tt d').1)
      → Kept k x (resume f (r, d')).1
  unfolding Kept
  resume-lower f a b k x d (ok tt) d' h ka kb e u = u (h.third (s k) ka kb ∙ e)
  resume-lower f a b k x d (err o) d' h ka kb e u = inl (h.third (s k) ka kb ∙ e)

  own-Kept :
      (i : ℕ) (x : Node) (d : Disk)
      → Readable d
      → suc i ≤ 4
      → d.entry (s (suc i)) ≡ some x
      → Kept (suc i) x (init_rounds p n (suc i) d).1
  own-Kept zero x d h top e = rw (first_round p n d) (
      resume-own (λ _. open_new (s 1)) 1 x d _ _ (round-Shifted 0 d h top) e
        (open_new-entry (s 1) (s 2) _ (apart 1 2 (omega arith) (omega arith) (omega arith))))
  own-Kept (suc i) x d h top e =
      let sh = round-Shifted (suc i) d h top in
      rw (later_round p n i d) (
        resume-own (λ _. init_rounds p n (suc i)) (suc (suc i)) x d _ _ sh e
          (untouched i (suc (suc (suc i))) _ (λ t. (λ k. sh.faults k (stat_call t)) ∙ h t)
            (omega arith) (omega arith)))

  rounds-Kept :
      (i k : ℕ) (x : Node) (d : Disk)
      → Readable d
      → 1 ≤ k
      → k ≤ suc i
      → suc i ≤ 4
      → d.entry (s k) ≡ some x
      → Kept k x (init_rounds p n (suc i) d).1
  rounds-Kept zero k x d h lo hi top e =
      let one : k ≡ 1 = omega arith in
      subst (λ m. Kept m x (init_rounds p n 1 d).1) (sym one)
        (own-Kept 0 x d h top (subst (λ m. d.entry (s m) ≡ some x) one e))
  rounds-Kept (suc i) k x d h lo hi top e = elim (dec_le k (suc i)) [
    | yes lower ↦
        let sh = round-Shifted (suc i) d h top in
        rw (later_round p n i d) (
          resume-lower (λ _. init_rounds p n (suc i)) (s (suc (suc i))) (s (suc (suc (suc i)))) k x
            d _ _ sh (slot-ne p n k (suc (suc i)) q lo (omega arith) (omega arith))
            (slot-ne p n k (suc (suc (suc i))) q lo (omega arith) (omega arith)) e
            (rounds-Kept i k x _ (λ t. (λ j. sh.faults j (stat_call t)) ∙ h t) lo lower
              (omega arith)))
    | no higher ↦
        let own : k ≡ suc (suc i) = omega arith in
        subst (λ m. Kept m x (init_rounds p n (suc (suc i)) d).1) (sym own)
          (own-Kept (suc i) x d h top (subst (λ m. d.entry (s m) ≡ some x) own e))
  ]

-- Whatever renames and opens fail, and whether `init` succeeds or not, none of the four newest
-- logs is lost: each is in its slot or in the next one.
pub init-Kept :
    (p n : Bytes) (k : ℕ) (x : Node) (d : Disk)
    → p ≢ []
    → Readable d
    → 1 ≤ k
    → k ≤ 4
    → d.entry (slot p n k) ≡ some x
    → ((init p n d).1.entry (slot p n k) ≡ some x)
      ⊎ ((init p n d).1.entry (slot p n (suc k)) ≡ some x)
unfolding init Kept
init-Kept p n k x d q h lo hi e = rounds-Kept p n q 3 k x d h lo hi (omega arith) e
