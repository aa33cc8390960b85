-- ===== src/Text/Lines.antt =====
-- The lines that a bufio.Scanner gives of a text: it drops a carriage return before the newline, and
-- stops at a line that does not fit into its buffer of 65536 bytes.
use ovm.Base.{
  Bytes, bytes, ltb, ◌==◌, ◌<◌, if◌then◌else◌, List, [], ◌∷◌, ◌++◌, ◌≡◌, ◌≢◌, refl, ap, ◌∙◌, arith,
  length,
}
use ovm.Text.Split.{split, Lacks, split_part, split-ne-nil}

drop_cr : Bytes → Bytes
drop_cr [] = []
drop_cr (c ∷ []) = if c == 13 then [] else c ∷ []
drop_cr (c ∷ d ∷ s) = c ∷ drop_cr (d ∷ s)

-- What is behind the last newline is a line only if it is not empty.
without_last : List Bytes → List Bytes
without_last [] = []
without_last ([] ∷ []) = []
without_last ((c ∷ p) ∷ []) = (c ∷ p) ∷ []
without_last (p ∷ q ∷ ps) = p ∷ without_last (q ∷ ps)

tokens : List Bytes → List Bytes
unfolding drop_cr
tokens [] = []
tokens (p ∷ ps) = let rest = tokens ps in if ltb (length p) 65536 then drop_cr p ∷ rest else []

unfoldable pub scan_lines : Bytes → List Bytes
unfolding without_last tokens split
scan_lines text = tokens (without_last (split 10 text))

-- A line of a text, as it is read: it has no newline, no carriage return, and fits.
pub record IsLine (line : Bytes) : Type 0 where
  pub no_newline : Lacks 10 line
  pub no_return : Lacks 13 line
  pub fits : length line < 65536

drop_cr_of_Lacks : (s : Bytes) → Lacks 13 s → drop_cr s ≡ s
unfolding drop_cr
drop_cr_of_Lacks [] h = refl
drop_cr_of_Lacks (c ∷ []) (h, hs) = ground arith
drop_cr_of_Lacks (c ∷ d ∷ s) (h, hs) = ap (λ r. c ∷ r) (drop_cr_of_Lacks (d ∷ s) hs)

without_last-cons :
    (p : Bytes) (ps : List Bytes) → ps ≢ [] → without_last (p ∷ ps) ≡ p ∷ without_last ps
unfolding without_last
without_last-cons p [] h = absurd (h refl)
without_last-cons [] (q ∷ ps) h = refl
without_last-cons (c ∷ p) (q ∷ ps) h = refl

-- A line with its newline comes first, and the rest is read behind it.
pub scan_lines-line :
    (line rest : Bytes) → IsLine line → scan_lines (line ++ (10 ∷ rest)) ≡ line ∷ scan_lines rest
unfolding scan_lines
scan_lines-line line rest h =
    ap (λ ps. tokens (without_last ps)) (split_part 10 line rest h.no_newline)
    ∙ ap tokens (without_last-cons line (split 10 rest) (split-ne-nil 10 rest))
    ∙ first (without_last (split 10 rest))
  where
    first : (ps : List Bytes) → tokens (line ∷ ps) ≡ line ∷ tokens ps
    first ps = ground (arith, h.fits, drop_cr_of_Lacks line h.no_return)

scan_lines_example : scan_lines (bytes "a\r\n\nb") ≡ bytes "a" ∷ [] ∷ bytes "b" ∷ []
unfolding scan_lines
scan_lines_example = refl
