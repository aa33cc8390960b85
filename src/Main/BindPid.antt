-- ===== src/Main/BindPid.antt =====
-- cmd/ovm/wait_bind_pid.go. A round is what the loop asks in one second; for the pid 0 it is whether
-- the context is done by then.
use ovm.Base.{
  ◌∙◌, inr, append-nil, inl, sym, Bool-cases, zero, suc, Bool, true, false, not, Option, none, some,
  List, [], ◌∷◌, ◌++◌, ◌≡◌, ◌≢◌, refl, if◌then◌else◌, All,
}
use ovm.Base.Int.{ℤ, pos, negsuc}

pub record Round : Type 0 where
  pub context_done : Bool
  pub process_exists : Bool

pub data Reason : Type 0 where
  cancelled : Reason
  process_gone : Reason

wait_cancelled : List Round → Option Reason
wait_cancelled [] = none
wait_cancelled (r ∷ rs) =
    let rest = wait_cancelled rs in if r.context_done then some cancelled else rest

wait_process : List Round → Option Reason
wait_process [] = none
wait_process (r ∷ rs) =
    let rest = wait_process rs in
    if r.context_done
    then some cancelled
    else if not r.process_exists
    then some process_gone
    else rest

-- `waitBindPID`; `none` is a wait that goes on.
unfoldable pub wait_bind_pid : ℤ → List Round → Option Reason
unfolding wait_cancelled wait_process
wait_bind_pid (pos zero) rounds = wait_cancelled rounds
wait_bind_pid (pos (suc n)) rounds = wait_process rounds
wait_bind_pid (negsuc n) rounds = wait_process rounds

-- Nothing has happened: the context is not done, and the process, if there is one, exists.
abbrev pub IsIdle : ℤ → Round → Type 0
IsIdle pid r = (r.context_done ≡ false) × (pid ≢ pos 0 → r.process_exists ≡ true)

-- What ends the wait.
abbrev pub reason_of : Round → Reason
reason_of r = if r.context_done then cancelled else process_gone

idle-cancelled :
    (before after : List Round)
    → All (IsIdle (pos 0)) before
    → wait_cancelled (before ++ after) ≡ wait_cancelled after
unfolding wait_cancelled
idle-cancelled [] after h = refl
idle-cancelled (r ∷ before) after ((c, p), hs) = rw c (idle-cancelled before after hs)

idle-process :
    (pid : ℤ) (before after : List Round)
    → pid ≢ pos 0
    → All (IsIdle pid) before
    → wait_process (before ++ after) ≡ wait_process after
unfolding wait_process
idle-process pid [] after n h = refl
idle-process pid (r ∷ before) after n ((c, p), hs) =
    rw (c, p n) (idle-process pid before after n hs)

zero_waits :
    (r : Round)
    → (r.context_done ≡ false → (pos 0 ≢ pos 0) × (r.process_exists ≡ false))
    → r.context_done ≡ true
zero_waits r e = elim (Bool-cases r.context_done) [ inl y ↦ y | inr n ↦ absurd ((e n).0 refl) ]

first_cancelled :
    (after : List Round) (r : Round)
    → r.context_done ≡ true
    → wait_cancelled (r ∷ after) ≡ some (reason_of r)
unfolding wait_cancelled
first_cancelled after r h = rw h refl

first_process :
    (after : List Round) (r : Round)
    → (r.context_done ≡ false → r.process_exists ≡ false)
    → wait_process (r ∷ after) ≡ some (reason_of r)
unfolding wait_process
first_process after r e = elim (Bool-cases r.context_done) [
  | inl y ↦ rw y refl
  | inr n ↦ rw (n, e n) refl
]

-- For every number of the process, the wait goes on while nothing has happened, and ends in the
-- first round in which something has, with its reason: the context if that is done, and otherwise
-- the process, for a number other than 0.
pub wait_bind_pid_lem :
    (pid : ℤ) (before after : List Round) (r : Round)
    → All (IsIdle pid) before
    → (r.context_done ≡ false → (pid ≢ pos 0) × (r.process_exists ≡ false))
    → (wait_bind_pid pid before ≡ none)
      × (wait_bind_pid pid (before ++ (r ∷ after)) ≡ some (reason_of r))
unfolding wait_bind_pid
wait_bind_pid_lem (pos zero) before after r h e = (
  rw (sym (append-nil before)) (idle-cancelled before [] h),
  idle-cancelled before (r ∷ after) h ∙ first_cancelled after r (zero_waits r e),
)
wait_bind_pid_lem (pos (suc n)) before after r h e =
    let other : pos (suc n) ≢ pos 0 = λ p. cc in
    (
      rw (sym (append-nil before)) (idle-process _ before [] other h),
      idle-process _ before (r ∷ after) other h ∙ first_process after r (λ c. (e c).1),
    )
wait_bind_pid_lem (negsuc n) before after r h e =
    let other : negsuc n ≢ pos 0 = λ p. cc in
    (
      rw (sym (append-nil before)) (idle-process _ before [] other h),
      idle-process _ before (r ∷ after) other h ∙ first_process after r (λ c. (e c).1),
    )
