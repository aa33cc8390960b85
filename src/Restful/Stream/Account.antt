-- ===== src/Restful/Stream/Account.antt =====
-- What there is of the output of a command, wherever it is.
use ovm.Base.{
  Bytes, Option, none, some, List, [], ◌∷◌, ◌++◌, map, ◌≡◌, refl, ap, ◌∙◌, append_assoc, append-nil,
}
use ovm.Restful.Exec.{Said}
use ovm.Text.Trim.{trim_space}
use ovm.Text.Split.{replace_byte}
use ovm.Restful.Sse.{encode_sse}
use ovm.Restful.Stream.{
  failing, Action, emit, signal_done, close_out, close_err, Event, out_event, error_event,
  ping_event, done_event, Stream, script, ◌⊳◌, emits, fails, signals, closes_out, closes_err,
  leaves, take_done, take_done_gone, take_error, take_closed_error, take_out, take_closed_out,
  take_gone, ping,
}

-- The texts that are not empty.
unfoldable pub texts : List Bytes → List Bytes
texts [] = []
texts ([] ∷ bs) = texts bs
texts ((c ∷ b) ∷ bs) = (c ∷ b) ∷ texts bs

-- The texts of the output that the client has got.
unfoldable pub seen : List Event → List Bytes
seen [] = []
seen (out_event b ∷ es) = b ∷ seen es
seen (_ ∷ es) = seen es

unfoldable pub outputs_left : List Action → List Bytes
outputs_left [] = []
outputs_left (emit b ∷ acts) = b ∷ outputs_left acts
outputs_left (_ ∷ acts) = outputs_left acts

pub texts-append : (xs ys : List Bytes) → texts (xs ++ ys) ≡ texts xs ++ texts ys
unfolding texts
texts-append [] ys = refl
texts-append ([] ∷ xs) ys = texts-append xs ys
texts-append ((c ∷ x) ∷ xs) ys = ap (λ r. (c ∷ x) ∷ r) (texts-append xs ys)

seen-append : (xs ys : List Event) → seen (xs ++ ys) ≡ seen xs ++ seen ys
unfolding seen
seen-append [] ys = refl
seen-append (out_event b ∷ xs) ys = ap (λ r. b ∷ r) (seen-append xs ys)
seen-append (error_event b ∷ xs) ys = seen-append xs ys
seen-append (ping_event ∷ xs) ys = seen-append xs ys
seen-append (done_event ∷ xs) ys = seen-append xs ys

-- The text that a receive from a closed channel gives is sent as an empty one.
encode_sse-nil : encode_sse [] ≡ []
unfolding encode_sse trim_space replace_byte
encode_sse-nil = refl

pub sse_all-append :
    (xs ys : List Bytes) → map encode_sse (xs ++ ys) ≡ map encode_sse xs ++ map encode_sse ys
sse_all-append [] ys = refl
sse_all-append (x ∷ xs) ys = ap (λ r. encode_sse x ∷ r) (sse_all-append xs ys)

-- All the output there is, as it is sent: on the wire, in the channel, and still to come.
unfoldable pub account : Stream → List Bytes
account s = texts (seen s.wire ++ map encode_sse (s.pending ++ outputs_left s.todo))

pub step-account : {s t : Stream} → s ⊳ t → account t ≡ account s
unfolding account outputs_left texts seen
step-account {s} (emits b rest h e) = rw (e, h) (simp (append_assoc) refl)
step-account {s} (fails x rest h f e) = rw (e, h) refl
step-account {s} (signals rest h e) = rw (e, h) refl
step-account {s} (closes_out rest h e) = rw (e, h) refl
step-account {s} (closes_err rest h e) = rw (e, h) refl
step-account {s} (leaves e) = rw e refl
step-account {s} (take_done h d c e) = rw e (simp (seen-append, append-nil) refl)
step-account {s} (take_done_gone h d c e) = rw e refl
step-account {s} (take_error x h f e) = rw e (simp (seen-append, append-nil) refl)
step-account {s} (take_closed_error h f c e) = rw e (simp (seen-append, append-nil) refl)
step-account {s} (take_out b rest h p e) = rw (e, p) (simp (seen-append, append_assoc) refl)
step-account {s} (take_closed_out h p c e) =
    rw (e, p, encode_sse-nil) (simp (seen-append, append_assoc, texts-append) refl)
step-account {s} (take_gone h c e) = rw e refl
step-account {s} (ping h e) = rw e (simp (seen-append, append-nil) refl)

outputs_left-emits :
    (bs : List Bytes) (rest : List Action)
    → outputs_left (map emit bs ++ rest) ≡ bs ++ outputs_left rest
unfolding outputs_left
outputs_left-emits [] rest = refl
outputs_left-emits (b ∷ bs) rest = ap (λ r. b ∷ r) (outputs_left-emits bs rest)

-- What the goroutine does behind the output.
abbrev pub behind : Option Bytes → List Action
behind error = failing error ++ (signal_done ∷ close_out ∷ close_err ∷ [])

pub outputs_of : (said : Said) → outputs_left (script said) ≡ said.outputs
unfolding script outputs_left
outputs_of said = outputs_left-emits said.outputs (behind said.error) ∙ ended said.error
  where
    ended : (error : Option Bytes) → said.outputs ++ outputs_left (behind error) ≡ said.outputs
    ended none = append-nil said.outputs
    ended (some e) = append-nil said.outputs
