-- ===== src/Cli/Sockets/Laws.antt =====
-- The paths of the sockets, and their folder after the setup.
use ovm.Base.{
  Bool, not, ◌&&◌, bytes_dec, ◌≤◌, ◌<◌, Bytes, bytes, Option, none, some, List, [], ◌∷◌, ◌++◌, ◌≡◌,
  ◌≢◌, refl, sym, ap, ◌∙◌, arith, All, true, map, length, length-append, Option-cases, Bool-cases,
  inl, inr, same,
}
use mathlib.Core.List.{append_cancel_left}
use mathlib.Core.Path.{subst}
use ovm.Text.Split.{after_prefix}
use ovm.Os.Outcome.{Result, ok, Action, bind_steps, pure, pure_inv, ◌>>◌}
use ovm.Utils.Files.{absolute}
use ovm.Os.Disk.{Disk}
use ovm.Os.Frame.{Leaves-apply}
use ovm.Os.Calls.{remove_all, mkdir_all, is_within, within_prefix}
use ovm.Os.Calls.Folders.{mkdir_all-Leaves}
use ovm.Text.FilePath.{path_join}
use ovm.Text.FilePath.Stem.{IsSuffix, stem, path_join-stem}
use ovm.Cli.Sockets.{Sockets, sockets_of, setup_sockets, files}

abbrev pub AllDistinct : List Bytes → Type 0
AllDistinct [] = Unit
AllDistinct (x ∷ xs) = All (λ y. x ≢ y) xs × AllDistinct xs

AllDistinct-append :
    (s : Bytes) (x : Bytes) (xs : List Bytes)
    → All (λ y. x ≢ y) xs
    → All (λ y. s ++ x ≢ y) (map (λ y. s ++ y) xs)
AllDistinct-append s x [] h = tt
AllDistinct-append s x (y ∷ xs) (n, h) =
    (λ e. n (append_cancel_left s x y e), AllDistinct-append s x xs h)

prefixed-AllDistinct :
    (s : Bytes) (xs : List Bytes) → AllDistinct xs → AllDistinct (map (λ x. s ++ x) xs)
prefixed-AllDistinct s [] h = tt
prefixed-AllDistinct s (x ∷ xs) (n, h) = (AllDistinct-append s x xs n, prefixed-AllDistinct s xs h)

abbrev suffixes : List Bytes
suffixes =
    bytes "-podman.sock"
    ∷ bytes "-vfkit-network.sock"
    ∷ bytes "-initrd-vsock.sock"
    ∷ bytes "-ready.sock"
    ∷ bytes "-restful.sock"
    ∷ bytes "-sync-time.sock"
    ∷ bytes "-ssh-auth.sock"
    ∷ []

apart_from : Bytes → List Bytes → Bool
apart_from x [] = true
apart_from x (y ∷ ys) = not (same x y) && apart_from x ys

all_apart : List Bytes → Bool
all_apart [] = true
all_apart (x ∷ xs) = apart_from x xs && all_apart xs

apart_from_sound : (x : Bytes) (ys : List Bytes) → apart_from x ys ≡ true → All (λ y. x ≢ y) ys
unfolding apart_from
apart_from_sound x [] h = tt
apart_from_sound x (y ∷ ys) h = ((λ e. ground arith), apart_from_sound x ys (ground arith))

all_apart-AllDistinct : (xs : List Bytes) → all_apart xs ≡ true → AllDistinct xs
unfolding all_apart
all_apart-AllDistinct [] h = tt
all_apart-AllDistinct (x ∷ xs) h =
    (apart_from_sound x xs (ground arith), all_apart-AllDistinct xs (ground arith))

suffixes-AllDistinct : AllDistinct suffixes
unfolding all_apart apart_from bytes_dec
suffixes-AllDistinct = all_apart-AllDistinct suffixes refl

suffixes-IsSuffix : All IsSuffix suffixes
suffixes-IsSuffix = omega arith

joined-stem :
    (p name : Bytes) (sufs : List Bytes)
    → p ≢ []
    → All IsSuffix sufs
    → map (λ suf. path_join p (name ++ suf)) sufs ≡ map (λ suf. stem p name ++ suf) sufs
joined-stem p name [] h hs = refl
joined-stem p name (suf ∷ sufs) h (s, hs) =
    rw (path_join-stem p name suf h s, joined-stem p name sufs h hs) refl

-- The seven sockets of a machine stand at seven different paths, whatever the folder and the name.
sockets_of-AllDistinct : (p name : Bytes) → p ≢ [] → AllDistinct (files (sockets_of p name))
unfolding sockets_of
sockets_of-AllDistinct p name h =
    subst AllDistinct (sym (joined-stem p name suffixes h suffixes-IsSuffix))
      (prefixed-AllDistinct (stem p name) suffixes suffixes-AllDistinct)

-- A path below a folder is longer.
length-after_prefix : (p s r : Bytes) → after_prefix p s ≡ some r → length p ≤ length s
unfolding after_prefix
length-after_prefix [] s r h = omega arith
length-after_prefix (c ∷ p) [] r h = cc
length-after_prefix (c ∷ p) (d ∷ s) r h = ground (arith, length-after_prefix p s r)

longer-after_prefix : (p s r : Bytes) → s ≢ p → after_prefix p s ≡ some r → length p < length s
unfolding after_prefix
longer-after_prefix [] [] r n h = absurd (n refl)
longer-after_prefix [] (d ∷ s) r n h = omega arith
longer-after_prefix (c ∷ p) [] r n h = cc
longer-after_prefix (c ∷ p) (d ∷ s) r n h =
    let same_head : d ≡ c = ground arith in
    ground (arith, longer-after_prefix p s r (λ e. n (rw (same_head, e) refl)))

longer_of_prefix :
    (p q r : Bytes) → q ≢ p → after_prefix (within_prefix p) q ≡ some r → length p < length q
longer_of_prefix p q r n e = elim (Bool-cases (same p (bytes "/"))) [
  | inl root ↦ longer-after_prefix p q r n (ground arith)
  | inr other ↦
      let e' : after_prefix (p ++ bytes "/") q ≡ some r = ground arith in
      omega (arith, length-after_prefix (p ++ bytes "/") q r e', length-append p (bytes "/"))
]

abbrev pub IsBelow : Bytes → Bytes → Type 0
IsBelow p q = (is_within p q ≡ true) × (q ≢ p)

IsBelow-longer : (p q : Bytes) → IsBelow p q → length p < length q
IsBelow-longer p q (w, n) = elim (Option-cases (after_prefix (within_prefix p) q)) [
  | inl none_left ↦ ground arith
  | inr (r, e) ↦ longer_of_prefix p q r n e
]

removed-below :
    (p q : Bytes) (d d' : Disk)
    → is_within p q ≡ true
    → remove_all p d ≡ (ok tt, d')
    → d'.entry q ≡ none
unfolding remove_all
removed-below p q d d' w h = ground arith

after_absolute : Bytes → Bytes → Action Disk Sockets
after_absolute name p = remove_all p >> (mkdir_all p >> pure (sockets_of p name))

place_of : (p name : Bytes) (s : Sockets) → sockets_of p name ≡ s → p ≡ s.socket_path
unfolding sockets_of
place_of p name s h = ap (λ (x : Sockets). x.socket_path) h

emptied :
    (p name q : Bytes) (d d' : Disk) (s : Sockets)
    → after_absolute name p d ≡ (ok s, d')
    → IsBelow s.socket_path q
    → d'.entry q ≡ none
unfolding after_absolute
emptied p name q d d' s h b =
    let (_, d2, e2, h2) =
      bind_steps (remove_all p) (λ _. mkdir_all p >> pure (sockets_of p name)) d h in
    let (_, d3, e3, h3) = bind_steps (mkdir_all p) (λ _. pure (sockets_of p name)) d2 h2 in
    let (made, kept) = pure_inv (sockets_of p name) d3 h3 in
    let below : IsBelow p q = subst (λ f. IsBelow f q) (sym (place_of p name s made)) b in
    ap (λ (x : Disk). x.entry q) (sym kept)
    ∙ ap (λ (r : Result (Unit {0}) × Disk). r.1.entry q) (sym e3)
    ∙ Leaves-apply q (mkdir_all p) (mkdir_all-Leaves q p (IsBelow-longer p q below)) d2
    ∙ removed-below p q d d2 below.0 e2

-- When the sockets are set up, nothing is left below their folder: no socket of an earlier run.
pub setup_sockets-empty :
    (cwd : Option Bytes) (flag name q : Bytes) (d d' : Disk) (s : Sockets)
    → setup_sockets cwd flag name d ≡ (ok s, d')
    → IsBelow s.socket_path q
    → d'.entry q ≡ none
unfolding setup_sockets after_absolute
setup_sockets-empty cwd flag name q d d' s h b =
    let (p, d1, e1, h1) = bind_steps (absolute cwd flag) (after_absolute name) d h in
    emptied p name q d1 d' s h1 b
