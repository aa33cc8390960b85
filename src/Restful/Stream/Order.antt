-- ===== src/Restful/Stream/Order.antt =====
-- In which order the goroutine works, and what the client gets last.
use ovm.Restful.Stream.Account.{outputs_left, behind}
use mathlib.Core.Path.{subst}
use ovm.Base.{
  Bytes, true, Option, none, some, List, [], ◌∷◌, ◌++◌, map, ◌≡◌, ◌≢◌, refl, All, All-append,
}
use ovm.Restful.Exec.{Said}
use ovm.Restful.Stream.{
  Action, emit, fail, signal_done, close_out, close_err, Event, out_event, error_event, ping_event,
  done_event, Handler, looping, finished, left, Stream, script, ◌⊳◌, emits, fails, signals,
  closes_out, closes_err, leaves, take_done, take_done_gone, take_error, take_closed_error,
  take_out, take_closed_out, take_gone, ping,
}

-- Behind the signal there is no output.
abbrev pub Sequenced : List Action → Type 0
Sequenced [] = Unit
Sequenced (emit b ∷ acts) = Sequenced acts
Sequenced (fail b ∷ acts) = Sequenced acts
Sequenced (signal_done ∷ acts) = (outputs_left acts ≡ []) × Sequenced acts
Sequenced (close_out ∷ acts) = Sequenced acts
Sequenced (close_err ∷ acts) = Sequenced acts

abbrev pub NoDone : List Event → Type 0
NoDone = All (λ e. e ≢ done_event)

abbrev pub EndsWithDone : List Event → Type 0
EndsWithDone es = (front : List Event) × NoDone front × (es ≡ front ++ (done_event ∷ []))

abbrev pub OnWire : Handler → List Event → Type 0
OnWire looping es = NoDone es
OnWire finished es = EndsWithDone es
OnWire left es = NoDone es

pub step-Sequenced : {s t : Stream} → s ⊳ t → Sequenced s.todo → Sequenced t.todo
step-Sequenced {s} (emits b rest h e) v = rw e (subst Sequenced h v)
step-Sequenced {s} (fails x rest h f e) v = rw e (subst Sequenced h v)
step-Sequenced {s} (signals rest h e) v = rw e ((subst Sequenced h v).1)
step-Sequenced {s} (closes_out rest h e) v = rw e (subst Sequenced h v)
step-Sequenced {s} (closes_err rest h e) v = rw e (subst Sequenced h v)
step-Sequenced {s} (leaves e) v = rw e v
step-Sequenced {s} (take_done h d c e) v = rw e v
step-Sequenced {s} (take_done_gone h d c e) v = rw e v
step-Sequenced {s} (take_error x h f e) v = rw e v
step-Sequenced {s} (take_closed_error h f c e) v = rw e v
step-Sequenced {s} (take_out b rest h p e) v = rw e v
step-Sequenced {s} (take_closed_out h p c e) v = rw e v
step-Sequenced {s} (take_gone h c e) v = rw e v
step-Sequenced {s} (ping h e) v = rw e v

still-NoDone : (es : List Event) (e : Event) → NoDone es → e ≢ done_event → NoDone (es ++ (e ∷ []))
still-NoDone es e v h = All-append _ es (e ∷ []) v (h, tt)

not_out : (b : Bytes) → out_event b ≢ done_event
not_out b h = cc

not_error : (b : Bytes) → error_event b ≢ done_event
not_error b h = cc

not_ping : ping_event ≢ done_event
not_ping h = cc

pub step-OnWire : {s t : Stream} → s ⊳ t → OnWire s.handler s.wire → OnWire t.handler t.wire
step-OnWire {s} (emits b rest h e) v = rw e v
step-OnWire {s} (fails x rest h f e) v = rw e v
step-OnWire {s} (signals rest h e) v = rw e v
step-OnWire {s} (closes_out rest h e) v = rw e v
step-OnWire {s} (closes_err rest h e) v = rw e v
step-OnWire {s} (leaves e) v = rw e v
step-OnWire {s} (take_done h d c e) v =
    rw e (s.wire, subst (λ (k : Handler). OnWire k s.wire) h v, refl)
step-OnWire {s} (take_done_gone h d c e) v = rw e (subst (λ (k : Handler). OnWire k s.wire) h v)
step-OnWire {s} (take_error x h f e) v =
    rw (e, h) (still-NoDone s.wire _ (subst (λ (k : Handler). OnWire k s.wire) h v) (not_error _))
step-OnWire {s} (take_closed_error h f c e) v =
    rw (e, h) (still-NoDone s.wire _ (subst (λ (k : Handler). OnWire k s.wire) h v) (not_error _))
step-OnWire {s} (take_out b rest h p e) v =
    rw (e, h) (still-NoDone s.wire _ (subst (λ (k : Handler). OnWire k s.wire) h v) (not_out _))
step-OnWire {s} (take_closed_out h p c e) v =
    rw (e, h) (still-NoDone s.wire _ (subst (λ (k : Handler). OnWire k s.wire) h v) (not_out _))
step-OnWire {s} (take_gone h c e) v = rw e (subst (λ (k : Handler). OnWire k s.wire) h v)
step-OnWire {s} (ping h e) v =
    rw (e, h) (still-NoDone s.wire _ (subst (λ (k : Handler). OnWire k s.wire) h v) not_ping)

-- Where the goroutine has signalled, or the handler has taken the signal, the command's output has
-- all been written.
abbrev pub Signalled : Stream → Type 0
Signalled s =
    (s.is_done ≡ true → outputs_left s.todo ≡ [])
    × (s.handler ≡ finished → outputs_left s.todo ≡ [])

pub step-Signalled : {s t : Stream} → s ⊳ t → Sequenced s.todo → Signalled s → Signalled t
unfolding outputs_left
step-Signalled {s} (emits b rest h e) q (v, w) = rw e (λ d. cc (v d, h), λ f. cc (w f, h))
step-Signalled {s} (fails x rest h f e) q (v, w) = rw e (λ d. cc (v d, h), λ f. cc (w f, h))
step-Signalled {s} (signals rest h e) q (v, w) =
    rw e (λ d. (subst Sequenced h q).0, λ f. (subst Sequenced h q).0)
step-Signalled {s} (closes_out rest h e) q (v, w) = rw e (λ d. cc (v d, h), λ f. cc (w f, h))
step-Signalled {s} (closes_err rest h e) q (v, w) = rw e (λ d. cc (v d, h), λ f. cc (w f, h))
step-Signalled {s} (leaves e) q v = rw e v
step-Signalled {s} (take_done h d c e) q (v, w) = rw e (λ d. cc, λ f. v d)
step-Signalled {s} (take_done_gone h d c e) q v = rw e (λ d. cc, λ f. cc)
step-Signalled {s} (take_error x h f e) q v = rw e v
step-Signalled {s} (take_closed_error h f c e) q v = rw e v
step-Signalled {s} (take_out b rest h p e) q v = rw e v
step-Signalled {s} (take_closed_out h p c e) q v = rw e v
step-Signalled {s} (take_gone h c e) q (v, w) = rw e (v, λ f. cc)
step-Signalled {s} (ping h e) q v = rw e v

emits-Sequenced :
    (bs : List Bytes) (rest : List Action) → Sequenced rest → Sequenced (map emit bs ++ rest)
emits-Sequenced [] rest v = v
emits-Sequenced (b ∷ bs) rest v = emits-Sequenced bs rest v

pub script-Sequenced : (said : Said) → Sequenced (script said)
unfolding script outputs_left
script-Sequenced said =
    emits-Sequenced said.outputs (behind said.error) (behind-Sequenced said.error)
  where
    behind-Sequenced : (error : Option Bytes) → Sequenced (behind error)
    behind-Sequenced none = (refl, tt)
    behind-Sequenced (some e) = (refl, tt)
