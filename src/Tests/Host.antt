-- ===== src/Tests/Host.antt =====
-- An agent, and a listener of the host.
use mathlib.Core.Option.{or_else}
use ovm.Base.{ℕ, bytes, same, leb, Bool, true, false, none, some, ◌≡◌, refl}
use ovm.AgentSock.{
  System, extended_agent, from_variable, from_known, asked_launchctl, extended_agent_lem,
}
use ovm.Utils.Accept.{Race, Caller, start, ◌⟶◌, ◌⟶*◌, Over, late_accept_races}

abbrev with_agent : System
with_agent = record {
  ssh_auth_sock = some (bytes "/private/tmp/com.apple.launchd.x/Listeners");
  user_home_dir = some (bytes "/Users/me");
  exists = λ p. same p (bytes "/Users/me/.1password/agent.sock");
  launchctl = none;
}

extended_agent_lem_example :
    extended_agent with_agent
    ≡ or_else
        (from_variable with_agent)
        (or_else (from_known with_agent) (asked_launchctl with_agent))
extended_agent_lem_example = extended_agent_lem with_agent

abbrev occupied : ℕ → Bool
occupied p = leb p 2235

-- The time is over while the goroutine waits in `Accept`.
abbrev out_of_time : Race
out_of_time = record start { caller = Caller.woken }

late_accept_races_example : Over out_of_time true × Over out_of_time false
late_accept_races_example =
    late_accept_races out_of_time (◌⟶*◌.next ◌⟶*◌.here (◌⟶◌.wake refl refl)) refl (λ e. cc)
