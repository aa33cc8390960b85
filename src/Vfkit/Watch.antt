-- ===== src/Vfkit/Watch.antt =====
-- pkg/vfkit/vfkit.go: the task of `Run` that listens to the machine's states.
use ovm.Base.{ℕ, suc, Bool, true, false, ◌||◌, if◌then◌else◌, List, [], ◌∷◌, ◌++◌, ◌≡◌, refl, All}
use ovm.Vfkit.State.{VmState, stopped, running, stopping, resuming, error, other, is_state}

-- The states that were handed to `vmState`, the requests to set the guest's clock, and whether the
-- task has returned.
pub record Watched : Type 0 where
  pub forwarded : List VmState
  pub sync_times : ℕ
  pub returned : Bool

after_state : VmState → Watched → Watched
after_state stopped rest = record { forwarded = stopped ∷ []; sync_times = 0; returned = true }
after_state error rest = record { forwarded = error ∷ []; sync_times = 0; returned = true }
after_state resuming rest = record rest {
  forwarded = resuming ∷ rest.forwarded;
  sync_times = suc rest.sync_times;
}
after_state state rest = record rest { forwarded = state ∷ rest.forwarded }

-- The loop, over the states that the machine tells. Each is taken from `vmState` at once.
unfoldable pub watch : List VmState → Watched
unfolding after_state
watch [] = record { forwarded = []; sync_times = 0; returned = false }
watch (state ∷ states) = let rest = watch states in after_state state rest

abbrev pub is_end : VmState → Bool
is_end s = is_state s stopped || is_state s error

pub resumed : List VmState → ℕ
resumed [] = 0
resumed (s ∷ states) = let rest = resumed states in if is_state s resuming then suc rest else rest

-- A state that is no end is put in front of what the rest does.
after_state-going :
    (s : VmState)
    → is_end s ≡ false
    → (rest : Watched)
    → after_state s rest ≡ record {
      forwarded = s ∷ rest.forwarded;
      sync_times = if is_state s resuming then suc rest.sync_times else rest.sync_times;
      returned = rest.returned;
    }
unfolding after_state
after_state-going stopped h rest = cc
after_state-going error h rest = cc
after_state-going running h rest = refl
after_state-going stopping h rest = refl
after_state-going resuming h rest = refl
after_state-going (other n) h rest = refl

-- The task goes on while the machine neither stops nor fails, hands on each state in its order, and
-- sets the guest's clock once for each resumption. It returns at the first state in which the
-- machine has stopped or failed, which it hands on too, and with which it is over.
watch-append :
    (before after : List VmState) (last : VmState)
    → All (λ s. is_end s ≡ false) before
    → is_end last ≡ true
    → (watch before ≡ record { forwarded = before; sync_times = resumed before; returned = false })
      × (watch (before ++ (last ∷ after)) ≡ record {
        forwarded = before ++ (last ∷ []);
        sync_times = resumed before;
        returned = true;
      })
unfolding watch after_state resumed
watch-append [] after stopped h e = (refl, refl)
watch-append [] after error h e = (refl, refl)
watch-append [] after running h e = cc
watch-append [] after stopping h e = cc
watch-append [] after resuming h e = cc
watch-append [] after (other n) h e = cc
watch-append (s ∷ before) after last (h, hs) e =
    let (during, whole) = watch-append before after last hs e in
    (rw during (after_state-going s h _), rw whole (after_state-going s h _))
