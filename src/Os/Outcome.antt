-- ===== src/Os/Outcome.antt =====
-- Results that may be errors, and calls that read and change a state. What was changed before an
-- error stays changed.
use ovm.Base.{String, Bytes, Bool, true, false, ◌⊎◌, inl, inr, ◌≡◌, refl, ap}

-- Go errors: one of the system's, one with a text in front of it, and one of the program's own.
pub data Error : Type 0 where
  errno : Error
  wrap : String → Error → Error
  about : String → Bytes → Error
  message : String → Error

pub data Result {ℓ} (A : Type ℓ) : Type ℓ where
  ok : A → Result A
  err : Error → Result A

abbrev pub is_ok {ℓ} : {A : Type ℓ} → Result A → Bool
is_ok (ok a) = true
is_ok (err e) = false

value_or : {A : Type 0} → A → Result A → A
value_or a (ok b) = b
value_or a (err e) = a

abbrev pub Action : Type 0 → Type 0 → Type 0
Action S A = S → Result A × S

module _ {S : Type 0} where
  abbrev pub pure : {A : Type 0} → A → Action S A
  pure a s = (ok a, s)

  abbrev pub raise : {A : Type 0} → Error → Action S A
  raise e s = (err e, s)

  -- The caller looks at the error itself.
  abbrev pub attempt : {A : Type 0} → Action S A → Action S (Result A)
  attempt m s = let (r, s') = m s in (ok r, s')

  abbrev pub rewrap : {A : Type 0} → String → Result A × S → Result A × S
  rewrap text (ok a, s) = (ok a, s)
  rewrap text (err e, s) = (err (wrap text e), s)

  abbrev pub wrapping : {A : Type 0} → String → Action S A → Action S A
  wrapping text m s = rewrap text (m s)

  -- The rest of a block runs if there was no error.
  abbrev pub resume : {A B : Type 0} → (A → Action S B) → Result A × S → Result B × S
  resume f (ok a, s) = f a s
  resume f (err e, s) = (err e, s)

  infixl 5 ◌>>=◌ ◌>>◌
  abbrev pub ◌>>=◌ : {A B : Type 0} → Action S A → (A → Action S B) → Action S B
  ◌>>=◌ m f s = resume f (m s)

  abbrev pub ◌>>◌ : {A B : Type 0} → Action S A → Action S B → Action S B
  ◌>>◌ m k = m >>= λ _. k

  pub bind_ok :
      {A B : Type 0} (m : Action S A) (f : A → Action S B) (s : S) {a : A} {s' : S}
      → m s ≡ (ok a, s')
      → (m >>= f) s ≡ f a s'
  bind_ok m f s h = ap (resume f) h

  pub bind_err :
      {A B : Type 0} (m : Action S A) (f : A → Action S B) (s : S) {e : Error} {s' : S}
      → m s ≡ (err e, s')
      → (m >>= f) s ≡ (err e, s')
  bind_err m f s h = ap (resume f) h

  resume_inv :
      {A B : Type 0} (f : A → Action S B) (r : Result A × S) {b : B} {s' : S}
      → resume f r ≡ (ok b, s')
      → (a : A) × (t : S) × (f a t ≡ (ok b, s'))
  resume_inv f (ok a, t) h = (a, t, h)
  resume_inv f (err e, t) h = let impossible = ap (λ r. r.0) h in cc

  -- A block that succeeded: its first step did, and so did the rest.
  pub bind_inv :
      {A B : Type 0} (m : Action S A) (f : A → Action S B) (s : S) {b : B} {s' : S}
      → (m >>= f) s ≡ (ok b, s')
      → (a : A) × (t : S) × (f a t ≡ (ok b, s'))
  bind_inv m f s h = resume_inv f (m s) h

  resume_steps :
      {A B : Type 0} (f : A → Action S B) (r : Result A × S) {b : B} {s' : S}
      → resume f r ≡ (ok b, s')
      → (a : A) × (t : S) × (r ≡ (ok a, t)) × (f a t ≡ (ok b, s'))
  resume_steps f (ok a, t) h = (a, t, refl, h)
  resume_steps f (err e, t) h = let impossible = ap (λ r. r.0) h in cc

  -- The two steps of a block that succeeded.
  pub bind_steps :
      {A B : Type 0} (m : Action S A) (f : A → Action S B) (s : S) {b : B} {s' : S}
      → (m >>= f) s ≡ (ok b, s')
      → (a : A) × (t : S) × (m s ≡ (ok a, t)) × (f a t ≡ (ok b, s'))
  bind_steps m f s h = resume_steps f (m s) h

  -- What a block returns is its value, in the state that it has.
  pub pure_inv :
      {A : Type 0} (a : A) (s : S) {b : A} {t : S} → pure a s ≡ (ok b, t) → (a ≡ b) × (s ≡ t)
  unfolding value_or
  pure_inv a s h = (ap (λ r. value_or a r.0) h, ap (λ r. r.1) h)

pub Result-cases :
    {A : Type 0} (r : Result A) → ((a : A) × (r ≡ ok a)) ⊎ ((e : Error) × (r ≡ err e))
Result-cases (ok a) = inl (a, refl)
Result-cases (err e) = inr (e, refl)
