-- ===== src/Os/Tasks.antt =====
-- The tasks of an errgroup call by call: each is the list of the calls that it has left, and a
-- schedule says whose call comes next.
pub mod Laws
use ovm.Base.{ℕ, zero, suc, ◌+◌, List, [], ◌∷◌}
use ovm.Os.Outcome.{Error, Result, ok, err, Action, pure, resume, ◌>>◌}
use ovm.Os.Disk.{Disk}

abbrev pub Calls : Type 0
Calls = List (Action Disk (Unit {0}))

-- The calls one after another, up to the first error.
unfoldable pub run_calls : Calls → Action Disk (Unit {0})
run_calls [] = pure tt
run_calls (c ∷ cs) = c >> run_calls cs

pub data Task : Type 0 where
  running : Calls → Task
  over : Result (Unit {0}) → Task

after_call : Calls → Result (Unit {0}) × Disk → Task × Disk
after_call cs (ok _, d) = (running cs, d)
after_call cs (err e, d) = (over (err e), d)

unfoldable pub advance : Task → Disk → Task × Disk
unfolding after_call
advance (running []) d = (over (ok tt), d)
advance (running (c ∷ cs)) d = after_call cs (c d)
advance (over r) d = (over r, d)

-- The next call of the task at an index.
unfoldable pub advance_at : ℕ → List Task → Disk → List Task × Disk
unfolding advance
advance_at n [] d = ([], d)
advance_at zero (t ∷ ts) d = let (t', d') = advance t d in (t' ∷ ts, d')
advance_at (suc n) (t ∷ ts) d = let (ts', d') = advance_at n ts d in (t ∷ ts', d')

unfoldable pub play : List ℕ → List Task → Disk → List Task × Disk
unfolding advance_at
play [] ts d = (ts, d)
play (n ∷ ns) ts d = let (ts', d') = advance_at n ts d in play ns ts' d'
