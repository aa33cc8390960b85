-- ===== src/Gvproxy/Domains.antt =====
-- pkg/gvproxy/gvproxy.go, `searchDomains`: the domains of /etc/resolv.conf.
use ovm.Base.{Bytes, bytes, Option, none, some, List, [], ◌∷◌, ◌++◌, ◌≡◌, ◌≢◌, refl, ap, ◌∙◌, All}
use ovm.Text.Split.{split, split-join, join, after_prefix, Lacks}
use ovm.Text.Lines.{scan_lines, scan_lines-line, IsLine}

abbrev pub search_prefix : Bytes
search_prefix = bytes "search "

found : Option Bytes → List Bytes → List Bytes
unfolding split
found none rest = rest
found (some domains) rest = split 32 domains

first_search : List Bytes → List Bytes
unfolding found after_prefix
first_search [] = []
first_search (line ∷ lines) =
    let rest = first_search lines in found (after_prefix search_prefix line) rest

-- `searchDomains`, by what can be read of the file, if it opens. No domains are the Go value nil.
unfoldable pub search_domains : Option Bytes → List Bytes
unfolding first_search scan_lines
search_domains none = []
search_domains (some content) = first_search (scan_lines content)

-- A text that begins with these lines.
abbrev pub with_lines : List Bytes → Bytes → Bytes
with_lines [] rest = rest
with_lines (l ∷ ls) rest = l ++ (10 ∷ with_lines ls rest)

-- A line that names no domains.
pub record IsOther (line : Bytes) : Type 0 where
  pub is_line : IsLine line
  pub no_search : after_prefix search_prefix line ≡ none

past_others :
    (others : List Bytes) (rest : Bytes)
    → All IsOther others
    → first_search (scan_lines (with_lines others rest)) ≡ first_search (scan_lines rest)
unfolding first_search
past_others [] rest h = refl
past_others (l ∷ ls) rest (h, hs) =
    ap first_search (scan_lines-line l (with_lines ls rest) h.is_line)
    ∙ ap (λ o. found o (first_search (scan_lines (with_lines ls rest)))) h.no_search
    ∙ past_others ls rest hs

-- The domains that the first `search` line lists, one space between each two, are read as they were
-- written, whatever lines stand before it and whatever text behind it; later `search` lines are not
-- read.
pub search_domains-join :
    (others : List Bytes) (domains : List Bytes) (rest : Bytes)
    → All IsOther others
    → domains ≢ []
    → All (Lacks 32) domains
    → IsLine (search_prefix ++ join 32 domains)
    → search_domains (some (with_lines others ((search_prefix ++ join 32 domains) ++ (10 ∷ rest))))
      ≡ domains
unfolding search_domains
search_domains-join others domains rest h n hd hl =
    past_others others _ h
    ∙ ap first_search (scan_lines-line (search_prefix ++ join 32 domains) rest hl)
    ∙ split-join 32 domains n hd
