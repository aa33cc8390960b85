-- ===== src/Text/Split.antt =====
-- strings.Split at a separator of one byte, strings.HasPrefix, strings.TrimPrefix, and
-- strings.ReplaceAll of one byte.
use ovm.Base.{
  ap, ◌∙◌, ℕ, Bytes, List, [], ◌∷◌, ◌++◌, ◌≡◌, ◌≢◌, refl, arith, ◌==◌, if◌then◌else◌, All,
  All-append, Bool-cases, inl, inr, append_assoc, Option, none, some,
}

-- Puts a byte in front of the first part.
abbrev pub glue : ℕ → List Bytes → List Bytes
glue c [] = (c ∷ []) ∷ []
glue c (p ∷ ps) = (c ∷ p) ∷ ps

unfoldable pub split : ℕ → Bytes → List Bytes
split sep [] = [] ∷ []
split sep (c ∷ s) = let rest = split sep s in if c == sep then [] ∷ rest else glue c rest

-- What strings.TrimPrefix returns when the prefix is there.
unfoldable pub after_prefix : Bytes → Bytes → Option Bytes
after_prefix [] s = some s
after_prefix (p ∷ ps) [] = none
after_prefix (p ∷ ps) (c ∷ s) = let rest = after_prefix ps s in if p == c then rest else none

unfoldable pub trim_prefix : Bytes → Bytes → Bytes
unfolding after_prefix
trim_prefix p s = elim (after_prefix p s) [ none ↦ s | some r ↦ r ]

unfoldable pub replace_byte : ℕ → Bytes → Bytes → Bytes
replace_byte c by [] = []
replace_byte c by (b ∷ s) =
    let rest = replace_byte c by s in if b == c then by ++ rest else b ∷ rest

abbrev pub Lacks : ℕ → Bytes → Type 0
Lacks b = All (λ c. c ≢ b)

-- The parts joined again, a separator between each two.
unfoldable pub join : ℕ → List Bytes → Bytes
join sep [] = []
join sep (p ∷ []) = p
join sep (p ∷ q ∷ ps) = p ++ (sep ∷ join sep (q ∷ ps))

pub split-ne-nil : (sep : ℕ) (s : Bytes) → split sep s ≢ []
unfolding split
split-ne-nil sep [] = λ h. cc
split-ne-nil sep (c ∷ s) = ground (arith, split-ne-nil sep s)

-- A text without the separator is one part.
pub split_of_Lacks : (sep : ℕ) (s : Bytes) → Lacks sep s → split sep s ≡ s ∷ []
unfolding split
split_of_Lacks sep [] h = refl
split_of_Lacks sep (c ∷ s) (h, hs) = ground (arith, split_of_Lacks sep s hs)

-- A part that lacks the separator, and what follows the separator.
pub split_part :
    (sep : ℕ) (p s : Bytes) → Lacks sep p → split sep (p ++ (sep ∷ s)) ≡ p ∷ split sep s
unfolding split
split_part sep [] s h = ground arith
split_part sep (c ∷ p) s (h, hp) = ground (arith, split_part sep p s hp)

join-glue : (sep c : ℕ) (ps : List Bytes) → ps ≢ [] → join sep (glue c ps) ≡ c ∷ join sep ps
unfolding join
join-glue sep c [] h = absurd (h refl)
join-glue sep c (p ∷ []) h = refl
join-glue sep c (p ∷ q ∷ ps) h = refl

join-cons :
    (sep : ℕ) (p : Bytes) (ps : List Bytes) → ps ≢ [] → join sep (p ∷ ps) ≡ p ++ (sep ∷ join sep ps)
unfolding join
join-cons sep p [] h = absurd (h refl)
join-cons sep p (q ∷ ps) h = refl

pub join-split : (sep : ℕ) (s : Bytes) → join sep (split sep s) ≡ s
unfolding split
join-split sep [] = unfold join in refl
join-split sep (c ∷ s) = ground (
  arith,
  join-split sep s,
  split-ne-nil sep s,
  join-cons sep [] (split sep s),
  join-glue sep c (split sep s),
)

-- Each part of a split lacks the separator.
All-glue :
    (sep c : ℕ) (ps : List Bytes) → c ≢ sep → All (Lacks sep) ps → All (Lacks sep) (glue c ps)
All-glue sep c [] n h = ((n, tt), tt)
All-glue sep c (p ∷ ps) n (h, hs) = ((n, h), hs)

pub split-Lacks : (sep : ℕ) (s : Bytes) → All (Lacks sep) (split sep s)
unfolding split
split-Lacks sep [] = (tt, tt)
split-Lacks sep (c ∷ s) = ground (arith, split-Lacks sep s, All-glue sep c (split sep s))

pub replace_byte-append :
    (c : ℕ) (by s t : Bytes)
    → replace_byte c by (s ++ t) ≡ replace_byte c by s ++ replace_byte c by t
unfolding replace_byte
replace_byte-append c by [] t = refl
replace_byte-append c by (b ∷ s) t = ground (
  arith,
  replace_byte-append c by s t,
  append_assoc by (replace_byte c by s) (replace_byte c by t),
)

pub replace_byte_of_Lacks : (c : ℕ) (by s : Bytes) → Lacks c s → replace_byte c by s ≡ s
unfolding replace_byte
replace_byte_of_Lacks c by [] h = refl
replace_byte_of_Lacks c by (b ∷ s) (h, hs) = ground (arith, replace_byte_of_Lacks c by s hs)

-- The replaced byte is gone, unless the replacement has it.
pub replace_byte-Lacks : (c : ℕ) (by s : Bytes) → Lacks c by → Lacks c (replace_byte c by s)
unfolding replace_byte
replace_byte-Lacks c by [] h = tt
replace_byte-Lacks c by (b ∷ s) h = elim (Bool-cases (b == c)) [
  | inl e ↦ rw e (All-append (λ d. d ≢ c) by _ h (replace_byte-Lacks c by s h))
  | inr n ↦ rw n (ground arith, replace_byte-Lacks c by s h)
]

-- Parts that lack the separator are what their join is split into.
pub split-join :
    (sep : ℕ) (ps : List Bytes) → ps ≢ [] → All (Lacks sep) ps → split sep (join sep ps) ≡ ps
unfolding join
split-join sep [] n h = absurd (n refl)
split-join sep (p ∷ []) n (h, hs) = split_of_Lacks sep p h
split-join sep (p ∷ q ∷ ps) n (h, hs) =
    split_part sep p (join sep (q ∷ ps)) h
    ∙ ap (λ rest. p ∷ rest) (split-join sep (q ∷ ps) (λ e. cc) hs)
