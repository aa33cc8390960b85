-- ===== src/Text/Integer.antt =====
-- strconv.ParseUint and strconv.ParseInt with base 0 and 64 bits, strconv.ParseBool, and fmt's %d on
-- signed integers. `none` is an error.
use ovm.Base.{
  ℕ, zero, suc, ◌+◌, ◌-◌, ◌*◌, ◌^◌, ◌≤◌, Bytes, bytes, [], ◌∷◌, ◌≡◌, ◌≢◌, refl, ◌∙◌, arith, Bool,
  true, false, ◌==◌, ltb, leb, if◌then◌else◌, ◌&&◌, ◌||◌, same, Option, none, some, All,
}
use ovm.Base.Int.{ℤ, pos, negsuc}
use ovm.Text.Decimal.{
  digits, itoa, scan, scan-itoa, itoa-IsDigit, itoa-ne-nil, itoa-Leads, Leads, IsDigit, negated,
}

abbrev is_between : ℕ → ℕ → ℕ → Bool
is_between low high c = leb low c && leb c high

-- The value of a digit; 36 is no digit of any base.
unfoldable digit_value : ℕ → ℕ
digit_value c =
    if is_between b'0' b'9' c
    then c - b'0'
    else if is_between b'a' b'z' c
    then c - b'a' + 10
    else if is_between b'A' b'Z' c
    then c - b'A' + 10
    else 36

-- The value so far, and whether an underscore may follow.
record Scan : Type 0 where
  value : ℕ
  after_digit : Bool

step : ℕ → ℕ → ℕ → Scan → Option Scan
unfolding digit_value
step base limit c s =
    if c == b'_'
    then (if s.after_digit then some (record s { after_digit = false }) else none)
    else if leb base (digit_value c)
    then none
    else if ltb limit (s.value * base + digit_value c)
    then none
    else some (record { value = s.value * base + digit_value c; after_digit = true })

scan_base : ℕ → ℕ → Bytes → Scan → Option ℕ
unfolding step
scan_base base limit [] s = if s.after_digit then some s.value else none
scan_base base limit (c ∷ cs) s = elim (step base limit c s) [
  | none ↦ none
  | some t ↦ scan_base base limit cs t
]

abbrev from : Bool → Scan
from after = record { value = 0; after_digit = after }

-- `strconv.ParseUint(s, 0, 64)` below a limit: 0b, 0o and 0x name the base, and so does a 0 in front.
unfoldable pub parse_uint : ℕ → Bytes → Option ℕ
unfolding scan_base
parse_uint limit [] = none
parse_uint limit (c ∷ []) = if c == b'0' then some 0 else scan_base 10 limit (c ∷ []) (from false)
parse_uint limit (c ∷ d ∷ []) =
    if c == b'0'
    then scan_base 8 limit (d ∷ []) (from true)
    else scan_base 10 limit (c ∷ d ∷ []) (from false)
parse_uint limit (c ∷ d ∷ e ∷ s) =
    if c == b'0'
    then (if d == b'b' || d == b'B'
        then scan_base 2 limit (e ∷ s) (from true)
        else if d == b'o' || d == b'O'
        then scan_base 8 limit (e ∷ s) (from true)
        else if d == b'x' || d == b'X'
        then scan_base 16 limit (e ∷ s) (from true)
        else scan_base 8 limit (d ∷ e ∷ s) (from true))
    else scan_base 10 limit (c ∷ d ∷ e ∷ s) (from false)

-- The largest of each type.
abbrev pub max_uint : ℕ
max_uint = 2 ^ 64 - 1

abbrev max_int : ℕ
max_int = 2 ^ 63 - 1

-- `strconv.ParseInt(s, 0, 64)`
unfoldable pub parse_int : Bytes → Option ℤ
unfolding parse_uint
parse_int [] = none
parse_int (c ∷ s) =
    if c == b'-'
    then elim (parse_uint (2 ^ 63) s) [ none ↦ none | some n ↦ some (negated n) ]
    else if c == b'+'
    then elim (parse_uint max_int s) [ none ↦ none | some n ↦ some (pos n) ]
    else elim (parse_uint max_int (c ∷ s)) [ none ↦ none | some n ↦ some (pos n) ]

-- `strconv.ParseBool`
unfoldable pub parse_bool : Bytes → Option Bool
parse_bool s =
    if same s (bytes "1")
      || same s (bytes "t")
      || same s (bytes "T")
      || same s (bytes "TRUE")
      || same s (bytes "true")
      || same s (bytes "True")
    then some true
    else if same s (bytes "0")
        || same s (bytes "f")
        || same s (bytes "F")
        || same s (bytes "FALSE")
        || same s (bytes "false")
        || same s (bytes "False")
    then some false
    else none

-- fmt's %d
unfoldable pub print_int : ℤ → Bytes
print_int (pos n) = itoa n
print_int (negsuc n) = b'-' ∷ itoa (suc n)

digit_value_of_IsDigit : (c : ℕ) → IsDigit c → digit_value c ≡ c - b'0'
unfolding digit_value
digit_value_of_IsDigit c h = ground arith

-- On digits alone, base 10 is what `scan` of the decimals does.
scan_base-scan :
    (limit n : ℕ) (c : ℕ) (s : Bytes) (after : Bool)
    → All IsDigit (c ∷ s)
    → scan_base 10 limit (c ∷ s) (record { value = n; after_digit = after }) ≡ scan limit (c ∷ s) n
unfolding scan_base step scan
scan_base-scan limit n c [] after (h, _) = ground (arith, digit_value_of_IsDigit c h)
scan_base-scan limit n c (d ∷ s) after (h, hs) =
    ground
      (arith, digit_value_of_IsDigit c h, scan_base-scan limit (n * 10 + (c - b'0')) d s true hs)

parse_uint-scan :
    (limit : ℕ) (s : Bytes) → s ≢ [] → Leads s → All IsDigit s → parse_uint limit s ≡ scan limit s 0
unfolding parse_uint
parse_uint-scan limit [] n l h = absurd (n refl)
parse_uint-scan limit (c ∷ []) n l h = ground (arith, scan_base-scan limit 0 c [] false h)
parse_uint-scan limit (c ∷ d ∷ []) n l h = ground (arith, scan_base-scan limit 0 c (d ∷ []) false h)
parse_uint-scan limit (c ∷ d ∷ e ∷ s) n l h =
    ground (arith, scan_base-scan limit 0 c (d ∷ e ∷ s) false h)

-- A number that fits is read back from its print, in base 0 too.
pub parse_uint-itoa : (limit n : ℕ) → n ≤ limit → parse_uint limit (itoa n) ≡ some n
parse_uint-itoa limit zero h = unfold parse_uint itoa digits in refl
parse_uint-itoa limit (suc n) h =
    parse_uint-scan limit (itoa (suc n)) (itoa-ne-nil (suc n)) (itoa-Leads n) (itoa-IsDigit (suc n))
    ∙ scan-itoa limit (suc n) h

parse_int_of_digits :
    (s : Bytes) (n : ℕ)
    → s ≢ []
    → All IsDigit s
    → parse_uint max_int s ≡ some n
    → parse_int s ≡ some (pos n)
unfolding parse_int
parse_int_of_digits [] n k h p = absurd (k refl)
parse_int_of_digits (c ∷ s) n k (h, hs) p = ground arith

-- What an integer of 64 bits may be.
abbrev pub IsInt : ℤ → Type 0
IsInt (pos n) = n ≤ max_int
IsInt (negsuc n) = n ≤ max_int

pub parse_int-print_int : (z : ℤ) → IsInt z → parse_int (print_int z) ≡ some z
unfolding print_int
parse_int-print_int (pos n) h =
    parse_int_of_digits (itoa n) n (itoa-ne-nil n) (itoa-IsDigit n) (parse_uint-itoa max_int n h)
parse_int-print_int (negsuc n) h =
    unfold parse_int in ground (arith, parse_uint-itoa (2 ^ 63) (suc n) (omega arith))
