-- ===== src/Text/Trim.antt =====
-- strings.TrimSpace, strings.TrimRight at one byte, and strings.ToLower on ASCII letters.
pub mod Visible
use mathlib.Core.List.{reverse}
use ovm.Base.{ℕ, Bytes, [], ◌∷◌, ◌≡◌, refl, Bool, ◌==◌, leb, if◌then◌else◌, ◌&&◌, ◌||◌, bytes}

-- The white space of Unicode in UTF-8: one byte, two bytes, three bytes.
abbrev pub space_byte : ℕ → Bool
space_byte c = (leb 9 c && leb c 13) || c == 32

space_pair : ℕ → ℕ → Bool
space_pair a b = a == 0xc2 && (b == 0x85 || b == 0xa0)

space_triple : ℕ → ℕ → ℕ → Bool
space_triple a b c =
    (a == 0xe1 && b == 0x9a && c == 0x80)
    || (a == 0xe2
        && b == 0x80
        && ((leb 0x80 c && leb c 0x8a) || c == 0xa8 || c == 0xa9 || c == 0xaf))
    || (a == 0xe2 && b == 0x81 && c == 0x9f)
    || (a == 0xe3 && b == 0x80 && c == 0x80)

-- Drops leading spaces, by tests on the first two and the first three bytes.
drop_spaces : (ℕ → ℕ → Bool) → (ℕ → ℕ → ℕ → Bool) → Bytes → Bytes
drop_spaces two three [] = []
drop_spaces two three (a ∷ []) = if space_byte a then [] else a ∷ []
drop_spaces two three (a ∷ b ∷ []) =
    let one = drop_spaces two three (b ∷ []) in
    if space_byte a then one else if two a b then [] else a ∷ b ∷ []
drop_spaces two three (a ∷ b ∷ c ∷ s) =
    let one = drop_spaces two three (b ∷ c ∷ s) in
    let pair = drop_spaces two three (c ∷ s) in
    let triple = drop_spaces two three s in
    if space_byte a
    then one
    else if two a b
    then pair
    else if three a b c
    then triple
    else a ∷ b ∷ c ∷ s

trim_left : Bytes → Bytes
unfolding drop_spaces space_pair space_triple
trim_left = drop_spaces space_pair space_triple

-- The bytes of a space come in reverse order from the end.
trim_right : Bytes → Bytes
unfolding drop_spaces space_pair space_triple
trim_right s =
    reverse (drop_spaces (λ a b. space_pair b a) (λ a b c. space_triple c b a) (reverse s))

unfoldable pub trim_space : Bytes → Bytes
unfolding trim_left trim_right
trim_space s = trim_right (trim_left s)

drop_byte : ℕ → Bytes → Bytes
drop_byte b [] = []
drop_byte b (c ∷ s) = let rest = drop_byte b s in if c == b then rest else c ∷ s

-- strings.TrimRight with a cutset of one byte.
unfoldable pub trim_right_byte : ℕ → Bytes → Bytes
unfolding drop_byte
trim_right_byte b s = reverse (drop_byte b (reverse s))

trim_space_example : trim_space (bytes " a b\t\n") ≡ bytes "a b"
unfolding trim_space
trim_space_example = refl

trim_space_wide : trim_space (0xe3 ∷ 0x80 ∷ 0x80 ∷ 65 ∷ 0xc2 ∷ 0xa0 ∷ []) ≡ 65 ∷ []
unfolding trim_space
trim_space_wide = refl
