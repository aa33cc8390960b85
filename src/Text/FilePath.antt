-- ===== src/Text/FilePath.antt =====
-- path.Clean, path.Join of two elements, filepath.Base and filepath.Abs on Unix.
pub mod Stem
use mathlib.Core.List.{reverse}
use ovm.Base.{
  ℕ, Bytes, bytes, same, bytes_dec, List, [], ◌∷◌, ◌++◌, ◌≡◌, refl, Bool, true, false, ◌==◌,
  if◌then◌else◌, ◌||◌, Option, none, some,
}
use ovm.Text.Split.{split, join}

abbrev pub slash : ℕ
slash = b'/'

-- What "..", a way up, does to the elements that are kept, the last one first.
go_up : Bool → List Bytes → List Bytes
go_up true [] = []
go_up false [] = bytes ".." ∷ []
go_up rooted (p ∷ kept) = if same p (bytes "..") then bytes ".." ∷ p ∷ kept else kept

visit : Bool → List Bytes → Bytes → List Bytes
visit rooted kept p =
    if same p [] || same p (bytes ".")
    then kept
    else if same p (bytes "..")
    then go_up rooted kept
    else p ∷ kept

walk : Bool → List Bytes → List Bytes → List Bytes
walk rooted kept [] = kept
walk rooted kept (p ∷ ps) = walk rooted (visit rooted kept p) ps

render : Bool → List Bytes → Bytes
render true kept = slash ∷ join slash (reverse kept)
render false [] = bytes "."
render false (p ∷ kept) = join slash (reverse (p ∷ kept))

abbrev pub is_rooted : Bytes → Bool
is_rooted [] = false
is_rooted (c ∷ s) = c == slash

unfoldable pub clean : Bytes → Bytes
unfolding go_up visit walk render
clean s = render (is_rooted s) (walk (is_rooted s) [] (split slash s))

unfoldable pub path_join : Bytes → Bytes → Bytes
unfolding clean
path_join [] [] = []
path_join [] (c ∷ b) = clean (c ∷ b)
path_join (c ∷ a) b = clean ((c ∷ a) ++ (slash ∷ b))

drop_slashes : Bytes → Bytes
drop_slashes [] = []
drop_slashes (c ∷ s) = let rest = drop_slashes s in if c == slash then rest else c ∷ s

last_part : List Bytes → Bytes
last_part [] = []
last_part (p ∷ []) = p
last_part (p ∷ q ∷ ps) = last_part (q ∷ ps)

-- filepath.Base: slashes at the end are dropped first.
base_of : Bytes → Bytes
base_of [] = bytes "/"
base_of (c ∷ s) = last_part (split slash (reverse (c ∷ s)))

unfoldable pub base : Bytes → Bytes
unfolding drop_slashes last_part base_of
base [] = bytes "."
base (c ∷ s) = base_of (drop_slashes (reverse (c ∷ s)))

-- filepath.Abs; `none` is the error of os.Getwd.
unfoldable pub abs : Option Bytes → Bytes → Option Bytes
unfolding path_join
abs cwd p =
    if is_rooted p then some (clean p) else elim cwd [ none ↦ none | some d ↦ some (path_join d p) ]

path_join_example : path_join (bytes "/a/./b/") (bytes "../c//d.log") ≡ bytes "/a/c/d.log"
unfolding path_join split join bytes_dec
path_join_example = refl

base_example :
    (base (bytes "/x/rootfs.img//") ≡ bytes "rootfs.img") × (base (bytes "//") ≡ bytes "/")
unfolding base split bytes_dec
base_example = (refl, refl)
