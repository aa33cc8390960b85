-- ===== src/Text/FilePath/Stem.antt =====
-- The last element of a joined path keeps a suffix of the name: what `path_join` does to the text
-- in front of a suffix such as ".2.log" does not depend on the suffix.
use mathlib.Core.List.{reverse, reverse-cons}
use ovm.Base.{
  ℕ, ◌≤◌, Bytes, bytes, List, [], ◌∷◌, ◌++◌, ◌≡◌, ◌≢◌, refl, ap, ◌∙◌, sym, arith, Bool, true, false,
  length, length-append, append_assoc,
}
use ovm.Text.Split.{split, split-ne-nil, join, Lacks, glue, split_of_Lacks}
use ovm.Text.FilePath.{slash, visit, walk, render, is_rooted, clean, path_join, last_part}

-- A suffix that makes any name an element of its own: it has no slash, and is longer than "..".
pub record IsSuffix (suf : Bytes) : Type 0 where
  pub no_slash : Lacks slash suf
  pub long : 3 ≤ length suf

onto_last : Bytes → List Bytes → List Bytes
onto_last suf [] = suf ∷ []
onto_last suf (p ∷ []) = (p ++ suf) ∷ []
onto_last suf (p ∷ q ∷ ps) = p ∷ onto_last suf (q ∷ ps)

all_but_last : List Bytes → List Bytes
all_but_last [] = []
all_but_last (p ∷ []) = []
all_but_last (p ∷ q ∷ ps) = p ∷ all_but_last (q ∷ ps)

onto_last-glue :
    (suf : Bytes) (c : ℕ) (ps : List Bytes)
    → ps ≢ []
    → onto_last suf (glue c ps) ≡ glue c (onto_last suf ps)
unfolding onto_last
onto_last-glue suf c [] h = absurd (h refl)
onto_last-glue suf c (p ∷ []) h = refl
onto_last-glue suf c (p ∷ q ∷ ps) h = refl

onto_last-cons :
    (suf p : Bytes) (ps : List Bytes) → ps ≢ [] → onto_last suf (p ∷ ps) ≡ p ∷ onto_last suf ps
unfolding onto_last
onto_last-cons suf p [] h = absurd (h refl)
onto_last-cons suf p (q ∷ ps) h = refl

split-append :
    (x suf : Bytes) → Lacks slash suf → split slash (x ++ suf) ≡ onto_last suf (split slash x)
unfolding split
split-append [] suf h = unfold onto_last in split_of_Lacks slash suf h
split-append (c ∷ x) suf h = ground (
  arith,
  split-append x suf h,
  split-ne-nil slash x,
  onto_last-glue suf c (split slash x),
  onto_last-cons suf [] (split slash x),
)

long_ne : (p suf q : Bytes) → 3 ≤ length suf → length q ≤ 2 → (p ++ suf) ≢ q
long_ne p suf q h k e = absurd (omega (arith, length-append p suf, ap length e))

visit_suffixed :
    (rooted : Bool) (kept : List Bytes) (p suf : Bytes)
    → 3 ≤ length suf
    → visit rooted kept (p ++ suf) ≡ (p ++ suf) ∷ kept
unfolding visit
visit_suffixed rooted kept p suf h = ground (
  arith,
  long_ne p suf [] h (omega arith),
  long_ne p suf (bytes ".") h (omega arith),
  long_ne p suf (bytes "..") h (omega arith),
)

walk-onto_last :
    (rooted : Bool) (kept ps : List Bytes) (suf : Bytes)
    → 3 ≤ length suf
    → ps ≢ []
    → walk rooted kept (onto_last suf ps)
      ≡ (last_part ps ++ suf) ∷ walk rooted kept (all_but_last ps)
unfolding walk onto_last all_but_last last_part
walk-onto_last rooted kept [] suf h n = absurd (n refl)
walk-onto_last rooted kept (p ∷ []) suf h n = visit_suffixed rooted kept p suf h
walk-onto_last rooted kept (p ∷ q ∷ ps) suf h n =
    walk-onto_last rooted (visit rooted kept p) (q ∷ ps) suf h (λ e. cc)

-- Each element with a slash behind it.
opened : List Bytes → Bytes
opened [] = []
opened (p ∷ ps) = p ++ (slash ∷ opened ps)

join-concat : (ps : List Bytes) (q : Bytes) → join slash (ps ++ (q ∷ [])) ≡ opened ps ++ q
unfolding join opened
join-concat [] q = refl
join-concat (p ∷ []) q = simp append_assoc
join-concat (p ∷ r ∷ ps) q = rw (join-concat (r ∷ ps) q) (simp append_assoc)

abbrev root_of : Bool → Bytes
root_of true = slash ∷ []
root_of false = []

render_suffixed :
    (rooted : Bool) (kept : List Bytes) (p suf : Bytes)
    → render rooted ((p ++ suf) ∷ kept) ≡ (root_of rooted ++ opened (reverse kept) ++ p) ++ suf
unfolding render
render_suffixed true kept p suf =
    ap (λ (t : List Bytes). slash ∷ join slash t) (reverse-cons (p ++ suf) kept)
    ∙ rw join-concat (simp append_assoc)
render_suffixed false kept p suf =
    ap (λ (t : List Bytes). join slash t) (reverse-cons (p ++ suf) kept)
    ∙ rw join-concat (simp append_assoc)

-- The text in front of the suffix.
pub stem : Bytes → Bytes → Bytes
stem p n =
    let x = p ++ (slash ∷ n) in
    let rooted = is_rooted x in
    root_of rooted
    ++ opened (reverse (walk rooted [] (all_but_last (split slash x))))
    ++ last_part (split slash x)

pub path_join-stem :
    (p n suf : Bytes) → p ≢ [] → IsSuffix suf → path_join p (n ++ suf) ≡ stem p n ++ suf
unfolding path_join clean stem
path_join-stem [] n suf h s = absurd (h refl)
path_join-stem (c ∷ p) n suf h s =
    let x = c ∷ p ++ (slash ∷ n) in
    ap (λ (t : Bytes). render (is_rooted x) (walk (is_rooted x) [] (split slash t)))
      (sym (append_assoc (c ∷ p) (slash ∷ n) suf))
    ∙ ap (λ (t : List Bytes). render (is_rooted x) (walk (is_rooted x) [] t))
        (split-append x suf s.no_slash)
    ∙ ap (render (is_rooted x))
        (walk-onto_last (is_rooted x) [] (split slash x) suf s.long (split-ne-nil slash x))
    ∙ render_suffixed (is_rooted x) _ _ suf
