-- ===== src/Cli/Shares.antt =====
-- pkg/cli/setup.go, the end of `basic`: the folders of --extend-share-dir, as a map from tags.
use ovm.Base.{
  Bytes, same, if◌then◌else◌, Option, none, some, List, [], ◌∷◌, ◌≡◌, refl, All, Bool-cases, inl,
  inr,
}
use mathlib.Core.Path.{subst}
use ovm.Os.Outcome.{about, Result, ok, err}
use ovm.Os.Disk.{Disk, Node, folder, file, sparse, stat}
use ovm.Text.Split.{split}

-- A map by its entries, each key once.
abbrev pub Shares : Type 0
Shares = List (Bytes × Bytes)

unfoldable pub assign : Bytes → Bytes → Shares → Shares
assign k v [] = (k, v) ∷ []
assign k v ((j, w) ∷ m) = let rest = assign k v m in if same j k then (k, v) ∷ m else (j, w) ∷ rest

unfoldable pub lookup : Bytes → Shares → Option Bytes
lookup k [] = none
lookup k ((j, w) ∷ m) = let rest = lookup k m in if same j k then some w else rest

check_folder : Bytes → Bytes → Option (Option Node) → Shares → Result Shares
unfolding assign
check_folder tag dir (some (some folder)) m = ok (assign tag dir m)
check_folder tag dir (some (some _)) m = err (about "extend share dir is not a directory" dir)
check_folder tag dir _ m = err (about "extend share dir not exists" dir)

share_item : Disk → Bytes → List Bytes → Shares → Result Shares
unfolding check_folder stat
share_item d item (tag ∷ dir ∷ []) m = check_folder tag dir (stat dir d) m
share_item d item _ m = err (about "invalid extend share dir" item)

share_next : (Shares → Result Shares) → Result Shares → Result Shares
share_next f (ok m) = f m
share_next f (err e) = err e

share_items : Disk → List Bytes → Shares → Result Shares
unfolding share_item share_next
share_items d [] m = ok m
share_items d (item ∷ items) m =
    share_next (share_items d items) (share_item d item (split b':' item) m)

unfoldable pub shares_of : Disk → Bytes → Result Shares
unfolding share_items split
shares_of d [] = ok []
shares_of d (c ∷ s) = share_items d (split b',' (c ∷ s)) []

abbrev pub IsFolder : Disk → Bytes → Type 0
IsFolder d p = stat p d ≡ some (some folder)

abbrev pub AllFolders : Disk → Shares → Type 0
AllFolders d = All (λ (e : Bytes × Bytes). IsFolder d e.1)

ok_injective : {a b : Shares} → ok a ≡ ok b → a ≡ b
ok_injective h = cc

assign-AllFolders :
    (d : Disk) (k v : Bytes) (m : Shares)
    → IsFolder d v
    → AllFolders d m
    → AllFolders d (assign k v m)
unfolding assign
assign-AllFolders d k v [] h hs = (h, tt)
assign-AllFolders d k v ((j, w) ∷ m) h (hw, hs) = elim (Bool-cases (same j k)) [
  | inl e ↦ rw e (h, hs)
  | inr e ↦ rw e (hw, assign-AllFolders d k v m h hs)
]

check_folder-AllFolders :
    (d : Disk) (tag dir : Bytes) (r : Option (Option Node)) (m m' : Shares)
    → stat dir d ≡ r
    → AllFolders d m
    → check_folder tag dir r m ≡ ok m'
    → AllFolders d m'
unfolding check_folder
check_folder-AllFolders d tag dir (some (some folder)) m m' e hs h =
    subst (AllFolders d) (ok_injective h) (assign-AllFolders d tag dir m e hs)
check_folder-AllFolders d tag dir (some (some (file b))) m m' e hs h = cc
check_folder-AllFolders d tag dir (some (some (sparse n))) m m' e hs h = cc
check_folder-AllFolders d tag dir (some none) m m' e hs h = cc
check_folder-AllFolders d tag dir none m m' e hs h = cc

share_item-AllFolders :
    (d : Disk) (item : Bytes) (parts : List Bytes) (m m' : Shares)
    → AllFolders d m
    → share_item d item parts m ≡ ok m'
    → AllFolders d m'
unfolding share_item
share_item-AllFolders d item [] m m' hs h = cc
share_item-AllFolders d item (tag ∷ []) m m' hs h = cc
share_item-AllFolders d item (tag ∷ dir ∷ []) m m' hs h =
    check_folder-AllFolders d tag dir (stat dir d) m m' refl hs h
share_item-AllFolders d item (tag ∷ dir ∷ more ∷ parts) m m' hs h = cc

share_next-AllFolders :
    (d : Disk) (f : Shares → Result Shares) (r : Result Shares) (m' : Shares)
    → ((m : Shares) → r ≡ ok m → f m ≡ ok m' → AllFolders d m')
    → share_next f r ≡ ok m'
    → AllFolders d m'
unfolding share_next
share_next-AllFolders d f (ok m) m' k h = k m refl h
share_next-AllFolders d f (err e) m' k h = cc

share_items-AllFolders :
    (d : Disk) (items : List Bytes) (m m' : Shares)
    → AllFolders d m
    → share_items d items m ≡ ok m'
    → AllFolders d m'
unfolding share_items
share_items-AllFolders d [] m m' hs h = subst (AllFolders d) (ok_injective h) hs
share_items-AllFolders d (item ∷ items) m m' hs h =
    share_next-AllFolders d (share_items d items) (share_item d item (split b':' item) m) m'
      (λ m1 e1 e2.
        share_items-AllFolders d items m1 m'
          (share_item-AllFolders d item (split b':' item) m m1 hs e1) e2)
      h

-- If the flag is accepted, every folder in the map is a folder on the host when it is
-- checked.
shares_of-AllFolders :
    (d : Disk) (flag : Bytes) (m : Shares) → shares_of d flag ≡ ok m → AllFolders d m
unfolding shares_of
shares_of-AllFolders d [] m h = subst (AllFolders d) (ok_injective h) tt
shares_of-AllFolders d (c ∷ s) m h = share_items-AllFolders d (split b',' (c ∷ s)) [] m tt h
