-- ===== src/Os/Tasks/Laws.antt =====
-- In every schedule, a task ends as it would alone, if no other task touches what it looks at.
pub mod Ending
use mathlib.Core.Path.{subst}
use ovm.Base.{
  none, some, Option, ◌++◌, ℕ, zero, suc, ◌+◌, ◌-◌, ◌≤◌, ◌==◌, if◌then◌else◌, Bytes, List, [], ◌∷◌,
  ◌≡◌, refl, sym, ap, ◌∙◌, arith, All, length,
}
use ovm.Os.Outcome.{Error, Result, ok, err, Action, pure, resume, ◌>>◌}
use ovm.Os.Disk.{Disk}
use ovm.Os.View.{View, View-refl, View-trans, Agrees, Local, Quiet}
use ovm.Os.Tasks.{Calls, run_calls, Task, running, over, after_call, advance, advance_at, play}

-- What a task does when it goes on alone.
finish : Task → Action Disk (Unit {0})
unfolding run_calls
finish (running cs) d = run_calls cs d
finish (over r) d = (r, d)

finish-after_call :
    (cs : Calls) (r : Result (Unit {0}) × Disk)
    → finish (after_call cs r).0 (after_call cs r).1 ≡ resume (λ _. run_calls cs) r
unfolding finish after_call
finish-after_call cs (ok _, d) = refl
finish-after_call cs (err e, d) = refl

finish-advance : (t : Task) (d : Disk) → finish (advance t d).0 (advance t d).1 ≡ finish t d
unfolding finish advance run_calls
finish-advance (running []) d = refl
finish-advance (running (c ∷ cs)) d = finish-after_call cs (c d)
finish-advance (over r) d = refl

module _ (F : Bytes → Type 0) where
  abbrev pub TaskLocal : Task → Type 0
  TaskLocal (running cs) = All (Local F) cs
  TaskLocal (over r) = Unit

  abbrev pub TaskQuiet : Task → Type 0
  TaskQuiet (running cs) = All (Quiet F) cs
  TaskQuiet (over r) = Unit

  resume-Agrees :
      (f : Action Disk (Unit {0})) (r t : Result (Unit {0}) × Disk)
      → ((d e : Disk) → View F d e → Agrees F (f d) (f e))
      → Agrees F r t
      → Agrees F (resume (λ _. f) r) (resume (λ _. f) t)
  resume-Agrees f (ok _, d) (ok _, e) h (k, v) = h d e v
  resume-Agrees f (err a, d) (err b, e) h k = k
  resume-Agrees f (ok _, d) (err b, e) h (k, v) = cc
  resume-Agrees f (err a, d) (ok _, e) h (k, v) = cc

  pub run_calls-Agrees :
      (cs : Calls)
      → All (Local F) cs
      → (d e : Disk) → View F d e
      → Agrees F (run_calls cs d) (run_calls cs e)
  unfolding run_calls Local
  run_calls-Agrees [] h d e v = (refl, v)
  run_calls-Agrees (c ∷ cs) (h, hs) d e v =
      resume-Agrees (run_calls cs) (c d) (c e) (run_calls-Agrees cs hs) (h d e v)

  finish-Agrees :
      (t : Task) → TaskLocal t → (d e : Disk) → View F d e → Agrees F (finish t d) (finish t e)
  unfolding finish
  finish-Agrees (running cs) h d e v = run_calls-Agrees cs h d e v
  finish-Agrees (over r) h d e v = (refl, v)

  after_call-Local :
      (cs : Calls) (r : Result (Unit {0}) × Disk) → All (Local F) cs → TaskLocal (after_call cs r).0
  unfolding after_call
  after_call-Local cs (ok _, d) h = h
  after_call-Local cs (err e, d) h = tt

  advance-Local : (t : Task) (d : Disk) → TaskLocal t → TaskLocal (advance t d).0
  unfolding advance
  advance-Local (running []) d h = tt
  advance-Local (running (c ∷ cs)) d (h, hs) = after_call-Local cs (c d) hs
  advance-Local (over r) d h = tt

  after_call-Quiet :
      (cs : Calls) (r : Result (Unit {0}) × Disk) (d : Disk)
      → All (Quiet F) cs
      → View F r.1 d
      → TaskQuiet (after_call cs r).0 × View F (after_call cs r).1 d
  unfolding after_call
  after_call-Quiet cs (ok _, e) d h v = (h, v)
  after_call-Quiet cs (err x, e) d h v = (tt, v)

  advance-Quiet :
      (t : Task) (d : Disk) → TaskQuiet t → TaskQuiet (advance t d).0 × View F (advance t d).1 d
  unfolding advance Quiet
  advance-Quiet (running []) d h = (tt, View-refl F d)
  advance-Quiet (running (c ∷ cs)) d (h, hs) = after_call-Quiet cs (c d) d hs (h d)
  advance-Quiet (over r) d h = (tt, View-refl F d)

  others :
      (n : ℕ) (ts : List Task) (d : Disk)
      → All TaskQuiet ts
      → All TaskQuiet (advance_at n ts d).0 × View F (advance_at n ts d).1 d
  unfolding advance_at
  others n [] d h = (tt, View-refl F d)
  others zero (t ∷ ts) d (h, hs) = let (q, v) = advance-Quiet t d h in ((q, hs), v)
  others (suc n) (t ∷ ts) d (h, hs) = let (q, v) = others n ts d hs in ((h, q), v)

  -- The task at an index will end as it is expected to, whatever the others do.
  Expects : ℕ → List Task → Disk → Result (Unit {0}) × Disk → Type 0
  Expects i [] d out = ⊥
  Expects zero (t ∷ ts) d out = TaskLocal t × All TaskQuiet ts × Agrees F (finish t d) out
  Expects (suc i) (t ∷ ts) d out = TaskQuiet t × Expects i ts d out

  Agrees-trans : (a b c : Result (Unit {0}) × Disk) → Agrees F a b → Agrees F b c → Agrees F a c
  Agrees-trans a b c (h, v) (k, w) = (h ∙ k, View-trans F a.1 b.1 c.1 v w)

  Expects-View :
      (i : ℕ) (ts : List Task) (d e : Disk) (out : Result (Unit {0}) × Disk)
      → View F e d
      → Expects i ts d out
      → Expects i ts e out
  unfolding Expects
  Expects-View i [] d e out v h = h
  Expects-View zero (t ∷ ts) d e out v (l, q, a) =
      (l, q, Agrees-trans (finish t e) (finish t d) out (finish-Agrees t l e d v) a)
  Expects-View (suc i) (t ∷ ts) d e out v (q, h) = (q, Expects-View i ts d e out v h)

  advance_at-Expects :
      (n i : ℕ) (ts : List Task) (d : Disk) (out : Result (Unit {0}) × Disk)
      → Expects i ts d out
      → Expects i (advance_at n ts d).0 (advance_at n ts d).1 out
  unfolding Expects advance_at
  advance_at-Expects n i [] d out h = elim h [ ]
  advance_at-Expects zero zero (t ∷ ts) d out (l, q, a) =
      (advance-Local t d l, q, subst (λ r. Agrees F r out) (sym (finish-advance t d)) a)
  advance_at-Expects (suc n) zero (t ∷ ts) d out (l, q, a) =
      let (q', v) = others n ts d q in
      let d' = (advance_at n ts d).1 in
      (l, q', Agrees-trans (finish t d') (finish t d) out (finish-Agrees t l d' d v) a)
  advance_at-Expects zero (suc i) (t ∷ ts) d out (q, h) =
      let (q', v) = advance-Quiet t d q in (q', Expects-View i ts d (advance t d).1 out v h)
  advance_at-Expects (suc n) (suc i) (t ∷ ts) d out (q, h) = (q, advance_at-Expects n i ts d out h)

  play-Expects :
      (ns : List ℕ) (i : ℕ) (ts : List Task) (d : Disk) (out : Result (Unit {0}) × Disk)
      → Expects i ts d out
      → Expects i (play ns ts d).0 (play ns ts d).1 out
  unfolding play
  play-Expects [] i ts d out h = h
  play-Expects (n ∷ ns) i ts d out h =
      play-Expects ns i (advance_at n ts d).0 (advance_at n ts d).1 out
        (advance_at-Expects n i ts d out h)

  play-start :
      (before : List Task) (cs : Calls) (after : List Task) (d : Disk)
      → All TaskQuiet before
      → All (Local F) cs
      → All TaskQuiet after
      → Expects (length before) (before ++ (running cs ∷ after)) d (run_calls cs d)
  unfolding Expects finish
  play-start [] cs after d b l a = (l, a, (refl, View-refl F (run_calls cs d).1))
  play-start (t ∷ before) cs after d (b, bs) l a = (b, play-start before cs after d bs l a)
