-- ===== src/AgentSock.antt =====
-- pkg/sshagentsock/sshagentsock.go: which agent the program's own agent is extended by, and
-- `Start`. The environment, the file system and launchctl are what the system answers; the agent is a
-- library.
use mathlib.Core.Option.{or_else}
use ovm.Os.Outcome.{Result, ok, err, errno}
use ovm.Base.{
  not, ◌++◌, Bool-cases, inl, inr, Bytes, bytes, Bool, true, false, if◌then◌else◌, Option, none,
  some, List, [], ◌∷◌, ◌≡◌, arith, ◌||◌,
}
use ovm.Text.Split.{after_prefix}
use ovm.Text.Trim.{trim_space}
use ovm.Text.FilePath.{path_join}

pub record System : Type 0 where
  pub ssh_auth_sock : Option Bytes
  pub user_home_dir : Option Bytes
  pub exists : Bytes → Bool
  pub launchctl : Option Bytes

is_some_text : Option Bytes → Bool
is_some_text none = false
is_some_text (some r) = true

-- strings.Contains
unfoldable pub contains : Bytes → Bytes → Bool
unfolding after_prefix is_some_text
contains s [] = is_some_text (after_prefix s [])
contains s (c ∷ text) = is_some_text (after_prefix s (c ∷ text)) || contains s text

abbrev pub built_in : Bytes
built_in = bytes "com.apple.launchd."

abbrev pub known_agent_paths : List Bytes
known_agent_paths =
    bytes ".1password/agent.sock"
    ∷ bytes "Library/Group Containers/2BUA8C4S2C.com.1password/t/agent.sock"
    ∷ []

pub record Found : Type 0 where
  pub socket_path : Bytes
  pub found : Bool

from_launchctl : System → Bytes → Found
unfolding trim_space
from_launchctl sys alternative = elim sys.launchctl [
  | none ↦ record { socket_path = alternative; found = false }
  | some output ↦
      if sys.exists (trim_space output)
      then record { socket_path = trim_space output; found = true }
      else record { socket_path = alternative; found = false }
]

-- The loop over the known paths, and the label behind it.
known_or_launchctl : System → Bytes → List Bytes → Bytes → Found
unfolding path_join from_launchctl
known_or_launchctl sys home [] alternative = from_launchctl sys alternative
known_or_launchctl sys home (p ∷ ps) alternative =
    let rest = known_or_launchctl sys home ps alternative in
    if sys.exists (path_join home p)
    then record { socket_path = path_join home p; found = true }
    else rest

without_variable : System → Bytes → Found
unfolding known_or_launchctl
without_variable sys alternative = elim sys.user_home_dir [
  | none ↦ from_launchctl sys alternative
  | some home ↦ known_or_launchctl sys home known_agent_paths alternative
]

-- `FindExtendedAgent`
unfoldable pub find_extended_agent : System → Found
unfolding contains without_variable
find_extended_agent sys = elim sys.ssh_auth_sock [
  | none ↦ without_variable sys []
  | some p ↦
      if contains built_in p
      then without_variable sys p
      else record { socket_path = p; found = true }
]

-- What `Start` hands to the agent.
unfoldable pub extended_agent : System → Option Bytes
unfolding find_extended_agent
extended_agent sys =
    if (find_extended_agent sys).found then some (find_extended_agent sys).socket_path else none

-- What the agent's library answers, and the keys that are found.
pub record Library : Type 0 where
  pub makes : Bool
  pub takes_keys : Bool
  pub identities : List Bytes

pub data Deed : Type 0 where
  made listening : Deed
  added : List Bytes → Deed
  extended : Bytes → Deed

extending : Option Bytes → List Deed
extending none = []
extending (some p) = extended p ∷ []

-- `Start`: whether there was an error, and what was done.
unfoldable pub start : Library → System → Result (Unit {0}) × List Deed
unfolding extending extended_agent
start lib sys =
    if not lib.makes
    then (err errno, [])
    else if not lib.takes_keys
    then (err errno, made ∷ [])
    else (ok tt, made ∷ added lib.identities ∷ (extending (extended_agent sys) ++ (listening ∷ [])))

-- An agent that listens has all the keys that were found.
start_listens :
    (lib : Library) (sys : System)
    → (start lib sys).0 ≡ ok tt
    → (rest : List Deed) × ((start lib sys).1 ≡ made ∷ added lib.identities ∷ rest)
unfolding start
start_listens lib sys h = elim (Bool-cases lib.makes) [
  | inr n ↦ absurd (ground arith)
  | inl m ↦ elim (Bool-cases lib.takes_keys) [
    | inr n ↦ absurd (ground arith)
    | inl t ↦ (extending (extended_agent sys) ++ (listening ∷ []), rw (m, t))
  ]
]

-- The sources of an agent in their order: the variable unless it names the built-in agent, the known
-- paths under the home folder, and launchctl.
abbrev when : Bool → Bytes → Option Bytes
when b p = if b then some p else none

abbrev pub from_variable : System → Option Bytes
from_variable sys = elim sys.ssh_auth_sock [
  | none ↦ none
  | some p ↦ if contains built_in p then none else some p
]

abbrev first_known : System → Bytes → List Bytes → Option Bytes
first_known sys home [] = none
first_known sys home (p ∷ ps) =
    or_else (when (sys.exists (path_join home p)) (path_join home p)) (first_known sys home ps)

abbrev pub from_known : System → Option Bytes
from_known sys = elim sys.user_home_dir [
  | none ↦ none
  | some home ↦ first_known sys home known_agent_paths
]

abbrev pub asked_launchctl : System → Option Bytes
asked_launchctl sys = elim sys.launchctl [
  | none ↦ none
  | some output ↦ when (sys.exists (trim_space output)) (trim_space output)
]

-- The agent that is used is the first that one of the three sources gives, where a variable that
-- names the built-in agent gives none, and there is none if none gives one: the built-in agent is
-- then not used.
pub extended_agent_lem :
    (sys : System)
    → extended_agent sys
      ≡ or_else (from_variable sys) (or_else (from_known sys) (asked_launchctl sys))
unfolding extended_agent or_else
extended_agent_lem sys = ground arith
