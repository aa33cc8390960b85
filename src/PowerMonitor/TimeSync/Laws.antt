-- ===== src/PowerMonitor/TimeSync/Laws.antt =====
-- What is written is the data, and the guest can cut the frame again.
use ovm.Base.{
  append-nil, ℕ, zero, suc, ◌+◌, ◌*◌, ◌/◌, ◌%◌, ◌^◌, ◌≤◌, ◌<◌, Bytes, bytes, Bool, true, false,
  ◌==◌, ltb, if◌then◌else◌, List, [], ◌∷◌, ◌++◌, length, drop, take, Option, none, some, ◌≡◌, refl,
  ap, ◌∙◌, sym, arith, append_assoc, length-drop, length-append, drop_all, take-append-drop,
  Bool-cases, inl, inr,
}
use native.Mathlib.Nat.{suc-add}
use ovm.Text.Decimal.{itoa, length-itoa}
use ovm.PowerMonitor.TimeSync.{
  command, header, Written, took, broken, Sent, write_loop, write_conn, then_send, send_both,
  send_time,
}

take_all : (n : ℕ) (xs : Bytes) → length xs ≤ n → take n xs ≡ xs
take_all zero [] h = refl
take_all zero (x ∷ xs) h = absurd (omega arith)
take_all (suc n) [] h = refl
take_all (suc n) (x ∷ xs) h = ap (λ ys. x ∷ ys) (take_all n xs (omega arith))

drop-drop : (m n : ℕ) (xs : Bytes) → drop n (drop m xs) ≡ drop (m + n) xs
drop-drop zero n xs = ap (λ k. drop k xs) (omega arith)
drop-drop (suc m) n [] = drop_all n [] (omega arith) ∙ sym (drop_all (suc m + n) [] (omega arith))
drop-drop (suc m) n (x ∷ xs) = drop-drop m n xs ∙ ap (λ k. drop k (x ∷ xs)) (sym (suc-add m n))

write_loop-wire :
    (content : Bytes) (total : ℕ) (answers : List Written) (wire : Bytes)
    → (write_loop content total answers wire).ended ≡ some true
    → (write_loop content total answers wire).wire ≡ wire ++ drop total content
unfolding write_loop
write_loop-wire content total [] wire h = cc
write_loop-wire content total (broken ∷ answers) wire h = cc
write_loop-wire content total (took more ∷ answers) wire h =
    elim (Bool-cases (total + more == length content)) [
      | inl e ↦ rw e (
          ap (λ t. wire ++ t)
            (take_all more (drop total content) (ground (arith, length-drop total content))))
      | inr n ↦ rw n (
          write_loop-wire content (total + more) answers (wire ++ take more (drop total content))
            (rw n at h)
          ∙ append_assoc wire (take more (drop total content)) (drop (total + more) content)
          ∙ ap (λ t. wire ++ t)
              (ap (λ t. take more (drop total content) ++ t) (sym (drop-drop total more content))
                ∙ take-append-drop more (drop total content)))
    ]

write_conn-wire :
    (content : Bytes) (answers : List Written) (wire : Bytes)
    → (write_conn content answers wire).ended ≡ some true
    → (write_conn content answers wire).wire ≡ wire ++ content
unfolding write_conn
write_conn-wire content answers wire h = write_loop-wire content 0 answers wire h

-- What the guest does with the stream: a length in two bytes, the low one first, and as many bytes.
pub unframe : Bytes → Option (Bytes × Bytes)
unframe (lo ∷ hi ∷ s) =
    let n = lo + 256 * hi in if ltb (length s) n then none else some (take n s, drop n s)
unframe _ = none

take_append : (xs ys : Bytes) → take (length xs) (xs ++ ys) ≡ xs
take_append [] ys = refl
take_append (x ∷ xs) ys = ap (λ t. x ∷ t) (take_append xs ys)

drop_append : (xs ys : Bytes) → drop (length xs) (xs ++ ys) ≡ ys
drop_append [] ys = refl
drop_append (x ∷ xs) ys = drop_append xs ys

unframe-header :
    (c rest : Bytes)
    → length c < 65536
    → unframe (header (length c) ++ (c ++ rest)) ≡ some (c, rest)
unfolding unframe header
unframe-header c rest h =
    let size : length c % 65536 % 256 + 256 * (length c % 65536 / 256) ≡ length c = omega arith in
    rw size (ground (arith, length-append c rest, take_append c rest, drop_append c rest))

command-short : (now : ℕ) → now < 2 ^ 63 → length (command now) < 65536
unfolding command
command-short now h =
    omega (arith, length-append (bytes "date -s @") (itoa now), length-itoa now 18 (omega arith))

then_send-wire :
    (o : Option Bool) (content : Bytes) (answers : List Written) (first : Sent)
    → first.ended ≡ o
    → (then_send o content answers first).ended ≡ some true
    → (first.ended ≡ some true) × ((then_send o content answers first).wire ≡ first.wire ++ content)
unfolding then_send
then_send-wire none content answers first e h = cc
then_send-wire (some false) content answers first e h = cc
then_send-wire (some true) content answers first e h =
    (e, write_conn-wire content answers first.wire h)

send_both-wire :
    (c d : Bytes) (c_answers d_answers : List Written) (wire : Bytes)
    → (send_both c d c_answers d_answers wire).ended ≡ some true
    → (send_both c d c_answers d_answers wire).wire ≡ wire ++ (c ++ d)
unfolding send_both
send_both-wire c d cs ds wire h =
    let first = write_conn c cs wire in
    let (good, both) = then_send-wire first.ended d ds first refl h in
    both ∙ ap (λ t. t ++ d) (write_conn-wire c cs wire good) ∙ append_assoc wire c d

-- The bytes of a command with its header.
abbrev pub frame : ℕ → Bytes
frame now = header (length (command now)) ++ command now

pub send_time-wire :
    (now : ℕ) (hs cs : List Written) (wire : Bytes)
    → (send_time now hs cs wire).ended ≡ some true
    → (send_time now hs cs wire).wire ≡ wire ++ frame now
unfolding send_time
send_time-wire now hs cs wire h =
    send_both-wire (header (length (command now))) (command now) hs cs wire h

pub unframe-frame :
    (now : ℕ) (rest : Bytes) → now < 2 ^ 63 → unframe (frame now ++ rest) ≡ some (command now, rest)
unframe-frame now rest fits =
    ap unframe (append_assoc (header (length (command now))) (command now) rest)
    ∙ unframe-header (command now) rest (command-short now fits)

-- When both writes have ended well, in whatever portions the connection took them, the guest cuts
-- the frame and gets the command for that moment, and nothing is left of it on the wire.
unframe-send_time :
    (now : ℕ) (header_answers command_answers : List Written)
    → now < 2 ^ 63
    → (send_time now header_answers command_answers []).ended ≡ some true
    → unframe (send_time now header_answers command_answers []).wire ≡ some (command now, [])
unframe-send_time now hs cs fits h =
    ap unframe (send_time-wire now hs cs [] h ∙ sym (append-nil (frame now)))
    ∙ unframe-frame now [] fits
