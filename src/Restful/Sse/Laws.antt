-- ===== src/Restful/Sse/Laws.antt =====
-- A client that reads the events gets each message back, however many lines it has.
use ovm.Base.{
  ℕ, Bytes, bytes, false, ◌==◌, List, [], ◌∷◌, ◌++◌, map, ◌≡◌, ◌≢◌, refl, ap, ◌∙◌, sym, arith, none,
  some, append_assoc, append-nil, inl, inr, Bool-cases, All-append,
}
use mathlib.Core.Path.{subst}
use ovm.Text.Split.{
  split, join, glue, Lacks, split_part, split-ne-nil, replace_byte, join-split, after_prefix,
}
use ovm.Text.Trim.{trim_space}
use ovm.Restful.Sse.{data_field, encode_sse, event_text}

-- What the specification of server-sent events says of an event's lines, each ended by a line feed:
-- the data of the event are the rests of the lines that begin with the data field, joined by line
-- feeds.
data_lines : List Bytes → List Bytes
data_lines [] = []
data_lines (l ∷ ls) = elim (after_prefix data_field l) [
  | none ↦ data_lines ls
  | some r ↦ r ∷ data_lines ls
]

pub event_data : Bytes → Bytes
unfolding data_lines
event_data text = join b'\n' (data_lines (split b'\n' text))

onto_first : Bytes → List Bytes → List Bytes
onto_first p [] = p ∷ []
onto_first p (q ∷ qs) = (p ++ q) ∷ qs

split_field : (x : Bytes) → split b'\n' (data_field ++ x) ≡ onto_first data_field (split b'\n' x)
unfolding split onto_first
split_field x = split_glued (split b'\n' x)
  where
    split_glued :
        (ps : List Bytes)
        → glue b'd' (glue b'a' (glue b't' (glue b'a' (glue b':' (glue 32 ps)))))
          ≡ onto_first data_field ps
    split_glued [] = refl
    split_glued (p ∷ ps) = refl

-- Every line but the first has the field in front.
tag_rest : List Bytes → List Bytes
tag_rest [] = []
tag_rest (p ∷ ps) = p ∷ map (λ q. data_field ++ q) ps

onto_first-tag_rest :
    (ps : List Bytes)
    → ps ≢ []
    → onto_first data_field (tag_rest ps) ≡ map (λ q. data_field ++ q) ps
unfolding onto_first tag_rest
onto_first-tag_rest [] h = absurd (h refl)
onto_first-tag_rest (p ∷ ps) h = refl

tag_rest-glue : (c : ℕ) (ps : List Bytes) → ps ≢ [] → tag_rest (glue c ps) ≡ glue c (tag_rest ps)
unfolding tag_rest
tag_rest-glue c [] h = absurd (h refl)
tag_rest-glue c (p ∷ ps) h = refl

tag_rest-ne : (ps : List Bytes) → ps ≢ [] → tag_rest ps ≢ []
unfolding tag_rest
tag_rest-ne [] h = h
tag_rest-ne (p ∷ ps) h = λ e. cc

split_other :
    (c : ℕ) (x : Bytes) → (c == b'\n') ≡ false → split b'\n' (c ∷ x) ≡ glue c (split b'\n' x)
unfolding split
split_other c x n = rw n

split_newline : (x : Bytes) → split b'\n' (b'\n' ∷ x) ≡ [] ∷ split b'\n' x
unfolding split
split_newline x = refl

replace_newline : (by t : Bytes) → replace_byte b'\n' by (b'\n' ∷ t) ≡ by ++ replace_byte b'\n' by t
unfolding replace_byte
replace_newline by t = refl

replace_other :
    (c : ℕ) (by t : Bytes)
    → (c == b'\n') ≡ false
    → replace_byte b'\n' by (c ∷ t) ≡ c ∷ replace_byte b'\n' by t
unfolding replace_byte
replace_other c by t n = rw n

abbrev with_field : Bytes → Bytes
with_field = replace_byte b'\n' (b'\n' ∷ data_field)

split-replaced_newline :
    (t : Bytes)
    → split b'\n' (with_field t) ≡ tag_rest (split b'\n' t)
    → split b'\n' (with_field (b'\n' ∷ t)) ≡ tag_rest (split b'\n' (b'\n' ∷ t))
unfolding tag_rest
split-replaced_newline t ih =
    ap (split b'\n') (replace_newline (b'\n' ∷ data_field) t)
    ∙ split_newline (data_field ++ with_field t)
    ∙ ap (λ l. [] ∷ l)
        (split_field (with_field t)
          ∙ ap (onto_first data_field) ih
          ∙ onto_first-tag_rest (split b'\n' t) (split-ne-nil b'\n' t))
    ∙ sym (ap tag_rest (split_newline t))

-- The lines of the text with the replaced line feeds.
split-replaced : (t : Bytes) → split b'\n' (with_field t) ≡ tag_rest (split b'\n' t)
split-replaced [] = unfold split replace_byte tag_rest in refl
split-replaced (c ∷ t) = elim (Bool-cases (c == b'\n')) [
  | inl e ↦
      let newline : c ≡ b'\n' = ground arith in
      subst (λ b. split b'\n' (with_field (b ∷ t)) ≡ tag_rest (split b'\n' (b ∷ t))) (sym newline)
        (split-replaced_newline t (split-replaced t))
  | inr n ↦
      ap (split b'\n') (replace_other c (b'\n' ∷ data_field) t n)
      ∙ split_other c (with_field t) n
      ∙ ap (glue c) (split-replaced t)
      ∙ sym (tag_rest-glue c (split b'\n' t) (split-ne-nil b'\n' t))
      ∙ sym (ap tag_rest (split_other c t n))
]

glue-append : (c : ℕ) (ps qs : List Bytes) → ps ≢ [] → glue c (ps ++ qs) ≡ glue c ps ++ qs
glue-append c [] qs h = absurd (h refl)
glue-append c (p ∷ ps) qs h = refl

onto_first-append :
    (p : Bytes) (ps qs : List Bytes) → ps ≢ [] → onto_first p (ps ++ qs) ≡ onto_first p ps ++ qs
unfolding onto_first
onto_first-append p [] qs h = absurd (h refl)
onto_first-append p (r ∷ ps) qs h = refl

split_at_newline : (x y : Bytes) → split b'\n' (x ++ (b'\n' ∷ y)) ≡ split b'\n' x ++ split b'\n' y
unfolding split
split_at_newline [] y = refl
split_at_newline (c ∷ x) y = ground (
  arith,
  split_at_newline x y,
  glue-append c (split b'\n' x) (split b'\n' y) (split-ne-nil b'\n' x),
)

split-data :
    (t : Bytes)
    → split b'\n' (data_field ++ (with_field t ++ bytes "\n\n"))
      ≡ map (λ q. data_field ++ q) (split b'\n' t) ++ ([] ∷ [] ∷ [])
unfolding split
split-data t =
    split_field (with_field t ++ bytes "\n\n")
    ∙ ap (onto_first data_field) (
        split_at_newline (with_field t) (b'\n' ∷ [])
        ∙ ap (λ l. l ++ ([] ∷ [] ∷ [])) (split-replaced t))
    ∙ onto_first-append data_field (tag_rest (split b'\n' t)) ([] ∷ [] ∷ [])
        (tag_rest-ne (split b'\n' t) (split-ne-nil b'\n' t))
    ∙ ap (λ l. l ++ ([] ∷ [] ∷ [])) (onto_first-tag_rest (split b'\n' t) (split-ne-nil b'\n' t))

-- The lines of an event.
split-event_text :
    (kind text : Bytes)
    → Lacks b'\n' kind
    → split b'\n' (event_text kind text)
      ≡ (bytes "event: " ++ kind)
        ∷ (map (λ q. data_field ++ q) (split b'\n' (trim_space text)) ++ ([] ∷ [] ∷ []))
unfolding event_text encode_sse
split-event_text kind text h =
    ap (split b'\n') (append_assoc (bytes "event: " ++ kind) (bytes "\n") _)
    ∙ split_part b'\n' (bytes "event: " ++ kind) _
        (All-append (λ c. c ≢ b'\n') (bytes "event: ") kind (omega arith) h)
    ∙ ap (λ l. (bytes "event: " ++ kind) ∷ l) (split-data (trim_space text))

data_lines-map :
    (ps rest : List Bytes)
    → data_lines (map (λ q. data_field ++ q) ps ++ rest) ≡ ps ++ data_lines rest
unfolding data_lines after_prefix
data_lines-map [] rest = refl
data_lines-map (p ∷ ps) rest = ap (λ l. p ∷ l) (data_lines-map ps rest)

-- The client reads the text of the message, without the white space at its ends, and line by line
-- as it was.
event_data-event_text :
    (kind text : Bytes) → Lacks b'\n' kind → event_data (event_text kind text) ≡ trim_space text
unfolding event_data data_lines after_prefix
event_data-event_text kind text h =
    ap (λ ls. join b'\n' (data_lines ls)) (split-event_text kind text h)
    ∙ ap (join b'\n') (
        data_lines-map (split b'\n' (trim_space text)) ([] ∷ [] ∷ [])
        ∙ append-nil (split b'\n' (trim_space text)))
    ∙ join-split b'\n' (trim_space text)
