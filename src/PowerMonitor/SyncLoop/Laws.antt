-- ===== src/PowerMonitor/SyncLoop/Laws.antt =====
-- What the guest reads of many requests.
use ovm.Base.{
  ℕ, zero, suc, ◌<◌, ◌^◌, Bytes, Bool, true, false, if◌then◌else◌, Option, none, some, List, [],
  ◌∷◌, ◌++◌, length, ◌≡◌, refl, sym, ap, ◌∙◌, append_assoc, append-nil, All,
}
use ovm.PowerMonitor.TimeSync.{Sent, command, send_time}
use ovm.PowerMonitor.TimeSync.Laws.{unframe, frame, send_time-wire, unframe-frame}
use ovm.PowerMonitor.SyncLoop.{Round, go_on, on_round, sync_loop}

-- The commands of the requests that found the guest connected.
pub commands : List Round → List Bytes
commands [] = []
commands (r ∷ rounds) =
    let rest = commands rounds in if r.connected then command r.now ∷ rest else rest

after_frame : (Bytes → List Bytes × Bytes) → Bytes → Option (Bytes × Bytes) → List Bytes × Bytes
after_frame next s none = ([], s)
after_frame next s (some (c, rest)) = let (cs, left) = next rest in (c ∷ cs, left)

-- What the guest does: it cuts so many frames, and keeps what is left.
pub read_frames : ℕ → Bytes → List Bytes × Bytes
unfolding after_frame
read_frames zero s = ([], s)
read_frames (suc n) s = after_frame (read_frames n) s (unframe s)

frames : List Round → Bytes
frames [] = []
frames (r ∷ rounds) = let rest = frames rounds in if r.connected then frame r.now ++ rest else rest

go_on_inv :
    (rest : Bytes → Sent) (sent : Sent) (o : Option Bool)
    → (go_on rest sent o).ended ≡ some true
    → sent.ended ≡ o
    → (o ≡ some true) × (go_on rest sent o ≡ rest sent.wire)
unfolding go_on
go_on_inv rest sent none h e = cc
go_on_inv rest sent (some false) h e = cc
go_on_inv rest sent (some true) h e = (refl, refl)

sync_loop-wire :
    (rounds : List Round) (wire : Bytes)
    → (sync_loop rounds wire).ended ≡ some true
    → (sync_loop rounds wire).wire ≡ wire ++ frames rounds
unfolding sync_loop frames
sync_loop-wire [] wire h = sym (append-nil wire)
sync_loop-wire (r ∷ rounds) wire h = at (λ w k. sync_loop-wire rounds w k) r.connected h
  where
    at :
        ((w : Bytes)
          → (sync_loop rounds w).ended ≡ some true
          → (sync_loop rounds w).wire ≡ w ++ frames rounds)
        → (b : Bool) → (on_round (sync_loop rounds) r b wire).ended ≡ some true
        → (on_round (sync_loop rounds) r b wire).wire
          ≡ wire ++ (if b then frame r.now ++ frames rounds else frames rounds)
    at ih false k = ih wire k
    at ih true k =
        let sent = send_time r.now r.header_answers r.command_answers wire in
        let (good, same) = go_on_inv (sync_loop rounds) sent sent.ended k refl in
        ap (λ (x : Sent). x.wire) same
        ∙ ih sent.wire (sym (ap (λ (x : Sent). x.ended) same) ∙ k)
        ∙ ap (λ t. t ++ frames rounds)
            (send_time-wire r.now r.header_answers r.command_answers wire good)
        ∙ append_assoc wire (frame r.now) (frames rounds)

read_frames-frames :
    (rounds : List Round)
    → All (λ r. r.now < 2 ^ 63) rounds
    → read_frames (length (commands rounds)) (frames rounds) ≡ (commands rounds, [])
unfolding read_frames commands frames
read_frames-frames [] h = refl
read_frames-frames (r ∷ rounds) (h, hs) = at (read_frames-frames rounds hs) r.connected
  where
    at :
        read_frames (length (commands rounds)) (frames rounds) ≡ (commands rounds, [])
        → (b : Bool)
        → read_frames
            (length (if b then command r.now ∷ commands rounds else commands rounds))
            (if b then frame r.now ++ frames rounds else frames rounds)
          ≡ (if b then command r.now ∷ commands rounds else commands rounds, [])
    at ih false = ih
    at ih true =
        ap (after_frame (read_frames (length (commands rounds))) (frame r.now ++ frames rounds))
          (unframe-frame r.now (frames rounds) h)
        ∙ ap (λ (x : List Bytes × Bytes). (command r.now ∷ x.0, x.1)) ih

-- When the loop ends without an error, in whatever portions the connection took the writes, the
-- guest reads from the stream the commands of the requests that found it connected, each once and
-- in their order, and nothing is left over.
pub read_frames-sync_loop :
    (rounds : List Round)
    → All (λ r. r.now < 2 ^ 63) rounds
    → (sync_loop rounds []).ended ≡ some true
    → read_frames (length (commands rounds)) (sync_loop rounds []).wire ≡ (commands rounds, [])
read_frames-sync_loop rounds fits h =
    ap (read_frames (length (commands rounds))) (sync_loop-wire rounds [] h)
    ∙ read_frames-frames rounds fits
