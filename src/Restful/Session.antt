-- ===== src/Restful/Session.antt =====
-- The command of /exec from the session to the client: what `exec` puts into the channels, through
-- the loop of the handler.
use ovm.Base.{Bytes, List, [], ◌∷◌, map, ◌≡◌, ◌⊎◌, inl, inr, refl, Option-cases}
use mathlib.Core.Path.{subst}
use ovm.Restful.Exec.{Session, text_of, exec}
use ovm.Restful.Sse.{encode_sse}
use ovm.Restful.Stream.{Stream, start, ◌⊳*◌}
use ovm.Restful.Stream.Account.{texts, seen}
use ovm.Restful.Stream.Laws.{IsPrefix, seen-IsPrefix}

-- Nothing is put out if there is no session, and otherwise all that the session writes.
exec-outputs :
    (sprintf : Bytes → Bytes) (s : Session)
    → ((exec sprintf s).outputs ≡ []) ⊎ ((exec sprintf s).outputs ≡ map text_of s.chunks)
unfolding exec
exec-outputs sprintf s = elim (Option-cases s.dial_error) [
  | inr (e, h) ↦ inl (rw h refl)
  | inl h ↦ elim (Option-cases s.session_error) [
    | inr (e, k) ↦ inl (rw (h, k) refl)
    | inl k ↦ inr (rw (h, k) refl)
  ]
]

prefix_of_nil : (xs ys : List Bytes) → IsPrefix xs [] → IsPrefix xs ys
prefix_of_nil [] ys p = (ys, refl)
prefix_of_nil (x ∷ xs) ys (rest, e) = absurd cc

-- However the connection, the session and the command go, and whatever steps the handler, the
-- goroutine and the client have taken, the texts that are not empty which the client has got of the
-- output are the first ones that `encodeSSE` makes of what the session wrote to its two streams, each
-- once and in their order.
pub session-IsPrefix :
    (sprintf : Bytes → Bytes) (s : Session) {t : Stream}
    → start (exec sprintf s) ⊳* t
    → IsPrefix (texts (seen t.wire)) (texts (map encode_sse (map text_of s.chunks)))
unfolding texts
session-IsPrefix sprintf s {t} r = elim (exec-outputs sprintf s) [
  | inl e ↦ prefix_of_nil _ _ (
      subst (λ (o : List Bytes). IsPrefix (texts (seen t.wire)) (texts (map encode_sse o))) e
        (seen-IsPrefix (exec sprintf s) r))
  | inr e ↦
      subst (λ (o : List Bytes). IsPrefix (texts (seen t.wire)) (texts (map encode_sse o))) e
        (seen-IsPrefix (exec sprintf s) r)
]
