-- ===== src/Text/Decimal/Longer.antt =====
-- A number with more behind it is read as another number, or not at all.
use ovm.Base.{
  ℕ, zero, suc, ◌+◌, ◌-◌, ◌*◌, ◌/◌, ◌%◌, ◌≤◌, ◌<◌, Bytes, [], ◌∷◌, ◌++◌, ◌≡◌, ◌≢◌, refl, ◌∙◌, sym,
  arith, Option, some, All, length,
}
use ovm.Base.Int.{pos}
use ovm.Text.Decimal.{itoa, atoi, scan, digits, plus, max_int, IsDigit, itoa-IsDigit, itoa-ne-nil}

scan_grows : (limit : ℕ) (s : Bytes) (n m : ℕ) → scan limit s n ≡ some m → n ≤ m
unfolding scan
scan_grows limit [] n m h = ground arith
scan_grows limit (c ∷ s) n m h = ground (arith, scan_grows limit s (n * 10 + (c - b'0')) m)

scan_more :
    (limit : ℕ) (s : Bytes) (n m : ℕ) → 0 < length s → 0 < n → scan limit s n ≡ some m → n < m
unfolding scan
scan_more limit [] n m k p h = elim k [ ]
scan_more limit (c ∷ s) n m k p h = ground (arith, scan_grows limit s (n * 10 + (c - b'0')) m)

-- The digits of `n` read in front of a text, however large the limit.
scan_through :
    (limit f n : ℕ) (out r : Bytes) (m : ℕ)
    → n < f
    → scan limit (digits f n out ++ r) 0 ≡ some m
    → scan limit (out ++ r) n ≡ some m
unfolding scan digits
scan_through limit zero n out r m h e = elim h [ ]
scan_through limit (suc f) n out r m h e =
    ground (arith, scan_through limit f (n / 10) ((b'0' + n % 10) ∷ out) r m)

atoi_of_head :
    (s r : Bytes) → s ≢ [] → All IsDigit s → atoi (s ++ r) ≡ plus (scan max_int (s ++ r) 0)
unfolding atoi
atoi_of_head [] r h k = absurd (h refl)
atoi_of_head (c ∷ s) r h (kc, ks) = ground arith

plus_inv : (o : Option ℕ) (n : ℕ) → plus o ≡ some (pos n) → o ≡ some n
plus_inv o n e = ground arith

-- More text behind the print of a positive number do not read as that number.
pub atoi_longer : (n : ℕ) (r : Bytes) → 0 < n → 0 < length r → atoi (itoa n ++ r) ≢ some (pos n)
unfolding itoa
atoi_longer n r p k e =
    let read =
      plus_inv (scan max_int (itoa n ++ r) 0) n
        (sym (atoi_of_head (itoa n) r (itoa-ne-nil n) (itoa-IsDigit n)) ∙ e) in
    absurd (
      omega (
        arith,
        scan_more max_int r n n k p (scan_through max_int (suc n) n [] r n (omega arith) read),
      ))
