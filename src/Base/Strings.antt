-- ===== src/Base/Strings.antt =====
-- Go strings as lists of bytes. A split on `same s t` yields the equation or its negation.
use Prim.Native.Nat.{ℕ}
use Prim.Native.Char.{code}
use Prim.Native.String.{String}
use mathlib.Core.Path.{◌≡◌, refl, ap₂}
use mathlib.Core.Logic.{ite, dite}
use mathlib.Core.Bool.{Bool, true, false}
use mathlib.Core.List.{List, [], ◌∷◌}
use native.Mathlib.Omega.{arith}
use native.Mathlib.Decide.{ℕ_discrete}

abbrev pub Bytes : Type 0
Bytes = List ℕ

-- The bytes of an ASCII literal.
abbrev pub bytes : String → Bytes
bytes String.[] = []
bytes (String.◌∷◌ c s) = code c ∷ bytes s

pub cons_head : {x y : ℕ} {xs ys : Bytes} → (x ∷ xs) ≡ (y ∷ ys) → x ≡ y
cons_head h = cc

pub cons_tail : {x y : ℕ} {xs ys : Bytes} → (x ∷ xs) ≡ (y ∷ ys) → xs ≡ ys
cons_tail h = cc

unfoldable pub bytes_dec : Discrete Bytes
unfolding ℕ_discrete
bytes_dec [] [] = yes refl
bytes_dec [] (y ∷ ys) = no (λ h. cc)
bytes_dec (x ∷ xs) [] = no (λ h. cc)
bytes_dec (x ∷ xs) (y ∷ ys) =
    dite (ℕ_discrete x y)
      (λ p. dite (bytes_dec xs ys) (λ q. yes (ap₂ ◌∷◌ p q)) (λ n. no (λ h. n (cons_tail h))))
      (λ n. no (λ h. n (cons_head h)))

-- `s == t` on strings.
abbrev pub same : Bytes → Bytes → Bool
same s t = ite (bytes_dec s t) true false

pub same_self : (s : Bytes) → same s s ≡ true
same_self s = ground arith
