-- ===== src/Text/Trim/Visible.antt =====
-- Text of visible ASCII is not trimmed.
use mathlib.Core.List.{reverse, reverse-reverse, reverse-cons}
use ovm.Base.{ℕ, ◌≤◌, Bytes, [], ◌∷◌, ◌≡◌, refl, ap, ◌∙◌, arith, Bool, false, All, All-append}
use ovm.Text.Trim.{space_pair, space_triple, drop_spaces, trim_right, trim_space}

abbrev pub IsVisible : ℕ → Type 0
IsVisible c = (33 ≤ c) × (c ≤ 126)

drop_spaces_visible :
    (two : ℕ → ℕ → Bool) (three : ℕ → ℕ → ℕ → Bool) (s : Bytes)
    → ((a b : ℕ) → IsVisible a → two a b ≡ false)
    → ((a b c : ℕ) → IsVisible a → three a b c ≡ false)
    → All IsVisible s
    → drop_spaces two three s ≡ s
unfolding drop_spaces
drop_spaces_visible two three [] h k v = refl
drop_spaces_visible two three (a ∷ []) h k v = ground arith
drop_spaces_visible two three (a ∷ b ∷ []) h k v = ground (arith, h a b)
drop_spaces_visible two three (a ∷ b ∷ c ∷ s) h k v = ground (arith, h a b, k a b c)

reverse-All : (s : Bytes) → All IsVisible s → All IsVisible (reverse s)
reverse-All [] h = tt
reverse-All (a ∷ s) (h, hs) =
    rw reverse-cons (All-append IsVisible (reverse s) (a ∷ []) (reverse-All s hs) (h, tt))

pub trim_space_visible : (s : Bytes) → All IsVisible s → trim_space s ≡ s
unfolding trim_space space_pair space_triple
trim_space_visible s h =
    ap trim_right (drop_spaces_visible _ _ s (λ a b v. ground arith) (λ a b c v. ground arith) h)
    ∙ ap reverse (
        drop_spaces_visible (λ a b. space_pair b a) (λ a b c. space_triple c b a) (reverse s)
          (λ a b v. ground arith) (λ a b c v. ground arith) (reverse-All s h))
    ∙ reverse-reverse s
