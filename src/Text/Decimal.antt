-- ===== src/Text/Decimal.antt =====
-- fmt's %d and strconv.Itoa on numbers that are not negative, and strconv.Atoi.
pub mod Longer
use Prim.Native.Nat.{◌^◌}
use native.Mathlib.Nat.{pow-suc}
use ovm.Base.{
  inr, inl, ◌⊎◌, length, ℕ, zero, suc, ◌+◌, ◌-◌, ◌*◌, ◌/◌, ◌%◌, ◌≤◌, ◌<◌, Bytes, [], ◌∷◌, ◌≡◌, ◌≢◌,
  refl, ap, ◌∙◌, arith, Bool, ◌==◌, ltb, leb, if◌then◌else◌, ◌&&◌, Option, none, some, All,
}
use ovm.Base.Int.{ℤ, pos, negsuc}

-- One digit a round; the fuel is a bound on the number of digits.
unfoldable pub digits : ℕ → ℕ → Bytes → Bytes
digits zero n out = out
digits (suc f) n out =
    let rest = digits f (n / 10) ((b'0' + n % 10) ∷ out) in
    if ltb n 10 then (b'0' + n) ∷ out else rest

unfoldable pub itoa : ℕ → Bytes
unfolding digits
itoa n = digits (suc n) n []

abbrev pub max_int : ℕ
max_int = 2 ^ 63 - 1

abbrev is_digit : ℕ → Bool
is_digit c = leb b'0' c && leb c b'9'

-- The digits behind a value; `none` is a syntax error, or a range error above the limit.
unfoldable pub scan : ℕ → Bytes → ℕ → Option ℕ
scan limit [] n = some n
scan limit (c ∷ s) n =
    let m = n * 10 + (c - b'0') in
    let rest = scan limit s m in if is_digit c then (if ltb limit m then none else rest) else none

scan_some : ℕ → Bytes → Option ℕ
scan_some limit [] = none
scan_some limit (c ∷ s) = scan limit (c ∷ s) 0

abbrev pub negated : ℕ → ℤ
negated zero = pos 0
negated (suc n) = negsuc n

abbrev plus : Option ℕ → Option ℤ
plus none = none
plus (some n) = some (pos n)

abbrev minus : Option ℕ → Option ℤ
minus none = none
minus (some n) = some (negated n)

-- strconv.Atoi on a 64-bit machine: `none` is its error.
unfoldable pub atoi : Bytes → Option ℤ
unfolding scan_some scan
atoi [] = none
atoi (c ∷ s) =
    if c == b'-'
    then minus (scan_some (2 ^ 63) s)
    else if c == b'+'
    then plus (scan_some max_int s)
    else plus (scan max_int (c ∷ s) 0)

abbrev pub IsDigit : ℕ → Type 0
IsDigit c = (b'0' ≤ c) × (c ≤ b'9')

Nat-cases : (n : ℕ) → (n ≡ 0) ⊎ ((m : ℕ) × (n ≡ suc m))
Nat-cases zero = inl refl
Nat-cases (suc m) = inr (m, refl)

digits-IsDigit : (f n : ℕ) (out : Bytes) → All IsDigit out → All IsDigit (digits f n out)
unfolding digits
digits-IsDigit zero n out h = h
digits-IsDigit (suc f) n out h =
    ground
      (arith, digits-IsDigit f (n / 10) ((b'0' + n % 10) ∷ out) ((omega arith, omega arith), h))

pub itoa-IsDigit : (n : ℕ) → All IsDigit (itoa n)
unfolding itoa
itoa-IsDigit n = digits-IsDigit (suc n) n [] tt

scan-digits :
    (limit f n : ℕ) (out : Bytes)
    → n < f
    → n ≤ limit
    → scan limit (digits f n out) 0 ≡ scan limit out n
unfolding digits scan
scan-digits limit zero n out h k = elim h [ ]
scan-digits limit (suc f) n out h k =
    ground (arith, scan-digits limit f (n / 10) ((b'0' + n % 10) ∷ out))

digits-ne-nil : (f n : ℕ) (out : Bytes) → n < f → digits f n out ≢ []
unfolding digits
digits-ne-nil zero n out h = elim h [ ]
digits-ne-nil (suc f) n out h = ground (arith, digits-ne-nil f (n / 10) ((b'0' + n % 10) ∷ out))

pub itoa-ne-nil : (n : ℕ) → itoa n ≢ []
unfolding itoa
itoa-ne-nil n = digits-ne-nil (suc n) n [] (omega arith)

atoi_of_digits : (s : Bytes) → s ≢ [] → All IsDigit s → atoi s ≡ plus (scan max_int s 0)
unfolding atoi
atoi_of_digits [] h k = absurd (h refl)
atoi_of_digits (c ∷ s) h (kc, ks) = ground arith

-- The print of a number below the limit is its digits.
pub scan-itoa : (limit n : ℕ) → n ≤ limit → scan limit (itoa n) 0 ≡ some n
unfolding itoa scan
scan-itoa limit n h = scan-digits limit (suc n) n [] (omega arith) h

-- Not led by a 0.
abbrev pub Leads : Bytes → Type 0
Leads [] = Unit
Leads (c ∷ s) = c ≢ b'0'

digits-Leads : (f n : ℕ) (out : Bytes) → suc n < f → Leads (digits f (suc n) out)
unfolding digits
digits-Leads zero n out h = absurd (omega arith)
digits-Leads (suc f) n out h = elim (Nat-cases (suc n / 10)) [
  | inl e ↦ ground arith
  | inr (m, e) ↦ ground (arith, digits-Leads f m ((b'0' + suc n % 10) ∷ out))
]

pub itoa-Leads : (n : ℕ) → Leads (itoa (suc n))
unfolding itoa
itoa-Leads n = digits-Leads (suc (suc n)) n [] (omega arith)

-- A number that fits is read back from its print.
pub atoi-itoa : (n : ℕ) → n ≤ max_int → atoi (itoa n) ≡ some (pos n)
unfolding itoa scan
atoi-itoa n h =
    atoi_of_digits (itoa n) (itoa-ne-nil n) (itoa-IsDigit n) ∙ ap plus (scan-itoa max_int n h)

length-digits :
    (f n k : ℕ) (out : Bytes) → n < 10 ^ suc k → length (digits f n out) ≤ suc k + length out
unfolding digits
length-digits zero n k out h = omega arith
length-digits (suc f) n zero out h = ground arith
length-digits (suc f) n (suc k) out h =
    let tenth : n / 10 < 10 ^ suc k = omega (arith, pow-suc 10 (suc k)) in
    ground (arith, length-digits f (n / 10) k ((b'0' + n % 10) ∷ out) tenth)

-- A number below a power of ten has no more digits than the exponent says.
pub length-itoa : (n k : ℕ) → n < 10 ^ suc k → length (itoa n) ≤ suc k
unfolding itoa
length-itoa n k h = omega (arith, length-digits (suc n) n k [] h)
