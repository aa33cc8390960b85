-- ===== src/Main/Serving.antt =====
-- The two tasks by which `Start` of pkg/ipc/restful/restful.go and `httpServe` of
-- pkg/gvproxy/gvproxy.go serve a listener until the context is done. The serving is net/http's; it
-- ends with an error, and at the latest when the listener is closed.
use ovm.Base.{Bool, true, false, Option, none, some, ◌≡◌, ◌≢◌, refl, Bool-cases, inl, inr}
use ovm.Os.Outcome.{Error, errno}

pub record Serving : Type 0 where
  pub done : Bool
  pub closed : Bool
  pub served : Option Error

abbrev pub start : Serving
start = record { done = false; closed = false; served = none }

infix 40 ◌⇶◌ ◌⇶*◌
pub data ◌⇶◌ (s t : Serving) : Type 0 where
  cancel : t ≡ record s { done = true } → s ⇶ t
  -- The task that waits for the context has closed the listener and returned.
  close : s.done ≡ true → s.closed ≡ false → t ≡ record s { closed = true } → s ⇶ t
  -- `Serve` gives up, or finds the listener closed.
  fail : (e : Error) → s.served ≡ none → t ≡ record s { served = some e } → s ⇶ t
  stop : s.closed ≡ true → s.served ≡ none → t ≡ record s { served = some errno } → s ⇶ t

pub data ◌⇶*◌ (s : Serving) : Serving → Type 0 where
  here : s ⇶* s
  next : {t u : Serving} → s ⇶* t → t ⇶ u → s ⇶* u

stop_serving :
    (s t : Serving) (o : Option Error)
    → t.served ≡ o
    → s ⇶* t
    → t.closed ≡ true
    → (u : Serving) × (s ⇶* u) × (u.closed ≡ true) × (u.served ≢ none)
stop_serving s t none e run c =
    (record t { served = some errno }, next run (stop c e refl), c, λ h. cc)
stop_serving s t (some x) e run c = (t, run, c, λ h. cc)

-- When the context is done, the listener can be closed and both tasks return, whatever came before.
serving_can_end :
    (s : Serving) → s.done ≡ true → (t : Serving) × (s ⇶* t) × (t.closed ≡ true) × (t.served ≢ none)
serving_can_end s d = elim (Bool-cases s.closed) [
  | inl c ↦ stop_serving s s s.served refl here c
  | inr c ↦
      let t = record s { closed = true } in
      stop_serving s t t.served refl (next here (close d c refl)) refl
]
