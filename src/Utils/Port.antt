-- ===== src/Utils/Port.antt =====
-- pkg/utils/port.go: `portOccupied` by what the package net answers, and the search, for which the
-- answer for each port is an argument.
use native.Mathlib.Decide.{ℕ_discrete}
use ovm.Os.Outcome.{Result, ok, err, message, is_ok}
use ovm.Base.{
  not, ℕ, zero, suc, ◌+◌, ◌≤◌, ◌<◌, Bool, true, false, if◌then◌else◌, Option, none, some, ◌≡◌, ap,
  ◌∙◌, arith, inl, inr, Bool-cases,
}

-- What the net package answers for an address of this machine.
pub record Net : Type 0 where
  pub resolves : ℕ → Bool
  pub listens : ℕ → Bool

-- `portOccupied`: an error of either call counts as occupied.
unfoldable pub port_occupied : Net → ℕ → Result (Unit {0})
port_occupied net port =
    if not (net.resolves port)
    then err (message "resolve TCPAddr failed")
    else if not (net.listens port)
    then err (message "port is occupied")
    else ok tt

-- The loop of `FindUsablePort`, by the ports that are left.
find_from : (ℕ → Bool) → ℕ → ℕ → Option ℕ
find_from occupied zero port = none
find_from occupied (suc left) port =
    let rest = find_from occupied left (port + 1) in if occupied port then rest else some port

-- `FindUsablePort`: `none` is the error of the last port.
unfoldable pub find_usable_port : (ℕ → Bool) → ℕ → Option ℕ
unfolding find_from
find_usable_port occupied start_port = find_from occupied 100 start_port

find_from_sound :
    (occupied : ℕ → Bool) (left port p : ℕ)
    → find_from occupied left port ≡ some p
    → (port ≤ p)
      × (p < port + left)
      × (occupied p ≡ false)
      × ((q : ℕ) → port ≤ q → q < p → occupied q ≡ true)
unfolding find_from
find_from_sound occupied zero port p h = cc
find_from_sound occupied (suc left) port p h = elim (Bool-cases (occupied port)) [
  | inr free ↦
      let found : port ≡ p = ground arith in
      (omega arith, omega arith, ap occupied (omega arith) ∙ free, λ q lo hi. absurd (omega arith))
  | inl taken ↦
      let (lo, hi, free, before) = find_from_sound occupied left (port + 1) p (ground arith) in
      (
        omega arith,
        omega arith,
        free,
        λ q ql qh. elim (ℕ_discrete q port) [
          | yes same_port ↦ ap occupied same_port ∙ taken
          | no later ↦ before q (omega arith) qh
        ],
      )
]

find_from-none :
    (occupied : ℕ → Bool) (left port q : ℕ)
    → find_from occupied left port ≡ none
    → port ≤ q
    → q < port + left
    → occupied q ≡ true
unfolding find_from
find_from-none occupied zero port q h lo hi = absurd (omega arith)
find_from-none occupied (suc left) port q h lo hi = elim (Bool-cases (occupied port)) [
  | inr free ↦ ground arith
  | inl taken ↦ elim (ℕ_discrete q port) [
    | yes same_port ↦ ap occupied same_port ∙ taken
    | no later ↦
        find_from-none occupied left (port + 1) q (ground arith) (omega arith) (omega arith)
  ]
]

-- The port that is found is the first free one of the hundred from the start.
find_usable_port_sound :
    (occupied : ℕ → Bool) (start_port p : ℕ)
    → find_usable_port occupied start_port ≡ some p
    → (start_port ≤ p)
      × (p < start_port + 100)
      × (occupied p ≡ false)
      × ((q : ℕ) → start_port ≤ q → q < p → occupied q ≡ true)
unfolding find_usable_port
find_usable_port_sound occupied start_port p h = find_from_sound occupied 100 start_port p h

-- It fails only if all the hundred are occupied.
find_usable_port_fails :
    (occupied : ℕ → Bool) (start_port q : ℕ)
    → find_usable_port occupied start_port ≡ none
    → start_port ≤ q
    → q < start_port + 100
    → occupied q ≡ true
unfolding find_usable_port
find_usable_port_fails occupied start_port q h lo hi =
    find_from-none occupied 100 start_port q h lo hi

-- The port that is found could be listened on at that moment.
port_found-listens :
    (net : Net) (start_port p : ℕ)
    → find_usable_port (λ q. not (is_ok (port_occupied net q))) start_port ≡ some p
    → net.listens p ≡ true
unfolding port_occupied
port_found-listens net start_port p h =
    let (_, _, free, _) = find_usable_port_sound _ start_port p h in ground (arith, free)
