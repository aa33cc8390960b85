-- ===== src/Os/Tasks/Laws/Ending.antt =====
-- A schedule that picks a task often enough lets it end.
use ovm.Base.{
  none, some, Option, ◌++◌, ℕ, zero, suc, ◌-◌, ◌≤◌, ◌==◌, if◌then◌else◌, Bytes, List, [], ◌∷◌, ◌≡◌,
  refl, ap, arith, All, length,
}
use ovm.Os.Outcome.{Result, ok, err}
use ovm.Os.Disk.{Disk}
use ovm.Os.View.{View, Local}
use ovm.Os.Tasks.{Calls, run_calls, Task, running, over, after_call, advance, advance_at, play}
use ovm.Os.Tasks.Laws.{finish, Expects, play-start, play-Expects, TaskQuiet}

-- The steps that a task has left, and how often a schedule picks it.
abbrev left_of : Task → ℕ
left_of (running cs) = suc (length cs)
left_of (over r) = 0

left_at : ℕ → List Task → ℕ
left_at i [] = 0
left_at zero (t ∷ ts) = left_of t
left_at (suc i) (t ∷ ts) = left_at i ts

unfoldable pub picks : ℕ → List ℕ → ℕ
picks i [] = 0
picks i (n ∷ ns) = if n == i then suc (picks i ns) else picks i ns

after_call-left :
    (cs : Calls) (r : Result (Unit {0}) × Disk) → left_of (after_call cs r).0 ≤ suc (length cs)
unfolding after_call
after_call-left cs (ok _, d) = omega arith
after_call-left cs (err e, d) = omega arith

advance-left : (t : Task) (d : Disk) → left_of (advance t d).0 ≤ left_of t - 1
unfolding advance
advance-left (running []) d = omega arith
advance-left (running (c ∷ cs)) d = omega (arith, after_call-left cs (c d))
advance-left (over r) d = omega arith

advance_at-left :
    (n i : ℕ) (ts : List Task) (d : Disk)
    → left_at i (advance_at n ts d).0 ≤ left_at i ts - (if n == i then 1 else 0)
unfolding advance_at left_at
advance_at-left n i [] d = omega arith
advance_at-left zero zero (t ∷ ts) d = omega (arith, advance-left t d)
advance_at-left (suc n) zero (t ∷ ts) d = ground arith
advance_at-left zero (suc i) (t ∷ ts) d = ground arith
advance_at-left (suc n) (suc i) (t ∷ ts) d = ground (arith, advance_at-left n i ts d)

play-left :
    (ns : List ℕ) (i : ℕ) (ts : List Task) (d : Disk)
    → left_at i (play ns ts d).0 ≤ left_at i ts - picks i ns
unfolding play picks
play-left [] i ts d = omega arith
play-left (n ∷ ns) i ts d =
    ground
      (arith, play-left ns i (advance_at n ts d).0 (advance_at n ts d).1, advance_at-left n i ts d)

unfoldable pub result_at : ℕ → List Task → Option (Result (Unit {0}))
result_at i [] = none
result_at zero (over r ∷ ts) = some r
result_at zero (running cs ∷ ts) = none
result_at (suc i) (t ∷ ts) = result_at i ts

ended-Expects :
    (F : Bytes → Type 0) (i : ℕ) (ts : List Task) (d : Disk) (out : Result (Unit {0}) × Disk)
    → Expects F i ts d out
    → left_at i ts ≡ 0
    → (result_at i ts ≡ some out.0) × View F d out.1
unfolding Expects left_at result_at finish
ended-Expects F i [] d out h e = elim h [ ]
ended-Expects F zero (over r ∷ ts) d out (l, q, (a, v)) e = (ap some a, v)
ended-Expects F zero (running cs ∷ ts) d out h e = absurd (omega arith)
ended-Expects F (suc i) (t ∷ ts) d out (q, h) e = ended-Expects F i ts d out h e

left_at-middle :
    (before after : List Task) (cs : Calls)
    → left_at (length before) (before ++ (running cs ∷ after)) ≡ suc (length cs)
unfolding left_at
left_at-middle [] after cs = refl
left_at-middle (t ∷ before) after cs = left_at-middle before after cs

-- A task that is picked once more than it has calls has ended, with the result that it has alone, and
-- what stands at its paths is what it leaves there alone.
pub ends_as_alone :
    (F : Bytes → Type 0) (before : List Task) (cs : Calls) (after : List Task) (ns : List ℕ)
    (d : Disk)
    → All (TaskQuiet F) before
    → All (Local F) cs
    → All (TaskQuiet F) after
    → suc (length cs) ≤ picks (length before) ns
    → (result_at (length before) (play ns (before ++ (running cs ∷ after)) d).0
        ≡ some (run_calls cs d).0)
      × View F (play ns (before ++ (running cs ∷ after)) d).1 (run_calls cs d).1
ends_as_alone F before cs after ns d b l a enough =
    let ts = before ++ (running cs ∷ after) in
    ended-Expects F (length before) (play ns ts d).0 (play ns ts d).1 (run_calls cs d)
      (play-Expects F ns (length before) ts d (run_calls cs d)
        (play-start F before cs after d b l a))
      (omega (arith, play-left ns (length before) ts d, left_at-middle before after cs))
