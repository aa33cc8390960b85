-- ===== src/Cli/Versions/Laws/Parse.antt =====
-- The `versions` flag: what is accepted, and that what is printed is read back.
use mathlib.Core.List.{Memᴰ}
use ovm.Base.{
  inr, inl, Bool-cases, Bytes, same, true, false, ◌≡◌, ◌≢◌, refl, ap, sym, ◌∙◌, arith, List, [],
  ◌∷◌, ◌++◌, All, All-append, Bool-cases, inl, inr, bytes_dec, some,
}
use ovm.Os.Outcome.{ok}
use ovm.Text.Split.{split, Lacks, split_part, split_of_Lacks}
use ovm.Text.Trim.{trim_space}
use ovm.Text.Trim.Visible.{IsVisible, trim_space_visible}
use ovm.Cli.Versions.{
  Key, kernel, initrd, rootfs, image_data, key_name, all_keys, Versions, no_versions, get, write,
  key_of, assign, parse_pair, parse_items, check_order, parse_versions,
}

check_order_empty :
    (k : Key) (order : List Key) (v w : Versions)
    → same (get k v) [] ≡ true
    → check_order (k ∷ order) v ≢ ok w
unfolding check_order
check_order_empty k order v w e h = ground arith

filled_of_same : (b : Bytes) → same b [] ≡ false → b ≢ []
filled_of_same b e = ground arith

named :
    (k : Key) (order : List Key) (v w : Versions)
    → same (get k v) [] ≡ false
    → v ≡ w
    → ((j : Key) → Memᴰ j order → get j w ≢ [])
    → (j : Key) → Memᴰ j (k ∷ order)
    → get j w ≢ []
named k order v w e p rest j (Memᴰ.head q) z =
    filled_of_same (get k v) e (ap (λ i. get i v) (sym q) ∙ ap (get j) p ∙ z)
named k order v w e p rest j (Memᴰ.tail m) z = rest j m z

check_order_sound :
    (order : List Key) (v w : Versions)
    → check_order order v ≡ ok w
    → (v ≡ w) × ((k : Key) → Memᴰ k order → get k w ≢ [])
unfolding check_order
check_order_sound [] v w h = (cc, λ k m. elim m [ ])
check_order_sound (k ∷ order) v w h = elim (Bool-cases (same (get k v) [])) [
  | inl e ↦ absurd (check_order_empty k order v w e h)
  | inr e ↦
      let (p, rest) = check_order_sound order v w (rw e at h) in
      (p, λ j m. named k order v w e p rest j m)
]

check_order_complete :
    (order : List Key) (v : Versions) → ((k : Key) → get k v ≢ []) → check_order order v ≡ ok v
unfolding check_order
check_order_complete [] v h = refl
check_order_complete (k ∷ order) v h = ground (arith, h k, check_order_complete order v h)

-- In whatever order Go visits the map, an accepted flag names a version for each of the four keys.
parse_versions_sound :
    (order : List Key) (s : Bytes) (v : Versions)
    → ((k : Key) → Memᴰ k order)
    → parse_versions order s ≡ ok v
    → (k : Key) → get k v ≢ []
unfolding parse_versions
parse_versions_sound order s v h e k =
    (check_order_sound order (parse_items (split b',' s) no_versions) v e).1 k (h k)

-- A version that the flag can carry.
pub record IsVersion (b : Bytes) : Type 0 where
  pub visible : All IsVisible b
  pub no_comma : Lacks b',' b
  pub no_equals : Lacks b'=' b
  pub filled : b ≢ []

pub item : Key → Versions → Bytes
item k v = key_name k ++ (b'=' ∷ get k v)

key_name_fits :
    (k : Key) → All IsVisible (key_name k) × Lacks b'=' (key_name k) × Lacks b',' (key_name k)
key_name_fits kernel = omega arith
key_name_fits initrd = omega arith
key_name_fits rootfs = omega arith
key_name_fits image_data = omega arith

key_of_name : (k : Key) → key_of all_keys (key_name k) ≡ some k
unfolding key_of bytes_dec
key_of_name kernel = refl
key_of_name initrd = refl
key_of_name rootfs = refl
key_of_name image_data = refl

parse_pair_lem :
    (k : Key) (b : Bytes) (w : Versions)
    → All IsVisible b
    → parse_pair (key_name k ∷ b ∷ []) w ≡ write k b w
unfolding parse_pair assign
parse_pair_lem k b w h =
    (λ i.
      assign (key_of all_keys (trim_space_visible (key_name k) (key_name_fits k).0 i))
        (trim_space_visible b h i) w)
    ∙ ap (λ o. assign o b w) (key_of_name k)

parse-item :
    (k : Key) (v w : Versions)
    → IsVersion (get k v)
    → parse_pair (split b'=' (trim_space (item k v))) w ≡ write k (get k v) w
unfolding item
parse-item k v w h =
    let fits = key_name_fits k in
    ap (λ s. parse_pair (split b'=' s) w)
      (trim_space_visible (item k v)
        (All-append IsVisible (key_name k) _ fits.0 ((omega arith, omega arith), h.visible)))
    ∙ ap (λ l. parse_pair l w)
        (split_part b'=' (key_name k) (get k v) fits.1
          ∙ ap (λ l. key_name k ∷ l) (split_of_Lacks b'=' (get k v) h.no_equals))
    ∙ parse_pair_lem k (get k v) w h.visible

item-Lacks : (k : Key) (v : Versions) → IsVersion (get k v) → Lacks b',' (item k v)
unfolding item
item-Lacks k v h =
    All-append (λ c. c ≢ b',') (key_name k) _ (key_name_fits k).2 (omega arith, h.no_comma)

pub flag_of : Versions → Bytes
flag_of v =
    item kernel v
    ++ (b',' ∷ (item initrd v ++ (b',' ∷ (item rootfs v ++ (b',' ∷ item image_data v)))))

split-flag_of :
    (v : Versions)
    → ((k : Key) → IsVersion (get k v))
    → split b',' (flag_of v)
      ≡ item kernel v ∷ item initrd v ∷ item rootfs v ∷ item image_data v ∷ []
unfolding flag_of
split-flag_of v h = rw (
  split_part b',' (item kernel v) _ (item-Lacks kernel v (h kernel)),
  split_part b',' (item initrd v) _ (item-Lacks initrd v (h initrd)),
  split_part b',' (item rootfs v) _ (item-Lacks rootfs v (h rootfs)),
  split_of_Lacks b',' (item image_data v) (item-Lacks image_data v (h image_data)),
)

-- The flag `kernel=…,initrd=…,rootfs=…,data=…` is read as the four versions that it names, in
-- whatever order Go visits the map, if none is empty and each is of visible ASCII
-- without `,` and `=`.
pub parse_versions-flag_of :
    (order : List Key) (v : Versions)
    → ((k : Key) → IsVersion (get k v))
    → parse_versions order (flag_of v) ≡ ok v
unfolding parse_versions parse_items
parse_versions-flag_of order v h =
    ap (λ l. check_order order (parse_items l no_versions)) (split-flag_of v h)
    ∙ ap (check_order order) (
        rw (
          parse-item kernel v no_versions (h kernel),
          parse-item initrd v _ (h initrd),
          parse-item rootfs v _ (h rootfs),
          parse-item image_data v _ (h image_data),
        ))
    ∙ check_order_complete order v (λ k. (h k).filled)
