-- ===== src/Logger/Spares.antt =====
-- pkg/logger/logger.go: opening a logger leaves all other files alone.
use ovm.Base.{◌≤◌, ℕ, zero, suc, Bytes, Bool, true, false, ◌≢◌, refl, ◌∙◌, arith, if◌then◌else◌}
use ovm.Os.Outcome.{pure, wrapping}
use ovm.Os.Spares.{
  Spares, bind-Spares, looking-Spares, wrapping-Spares, rename-Spares, open_truncated-Spares,
}
use ovm.Os.Disk.{rename}
use ovm.Text.FilePath.{path_join}
use ovm.Logger.{exists, shift, init_rounds, init, next_name, new_without_manage}
use ovm.Logger.Slots.{slot, next_slot}

-- The path is none of the logger's.
abbrev pub IsNoLog : Bytes → Bytes → Bytes → Type 0
IsNoLog p n q = (i : ℕ) → 1 ≤ i → i ≤ 5 → q ≢ slot p n i

module _ (q : Bytes) where
  exists-Spares : (p : Bytes) → Spares q (exists p)
  unfolding exists
  exists-Spares p = looking-Spares q (exists p) (λ d. ground arith)

  moved-Spares :
      (a b : Bytes) (found : Bool)
      → q ≢ a
      → q ≢ b
      → Spares q (if found then wrapping "cannot rename log file" (rename a b) else pure tt)
  moved-Spares a b true ha hb = wrapping-Spares q _ _ (rename-Spares q a b ha hb)
  moved-Spares a b false ha hb = looking-Spares q _ (λ d. refl)

  shift-Spares : (a b : Bytes) → q ≢ a → q ≢ b → Spares q (shift a b)
  unfolding shift
  shift-Spares a b ha hb =
      bind-Spares q (exists a) _ (exists-Spares a) (λ found. moved-Spares a b found ha hb)

  module _ (p n : Bytes) (h : IsNoLog p n q) where
    round-Spares :
        (i : ℕ)
        → suc i ≤ 4
        → Spares q (shift (slot p n (suc i)) (path_join p (next_name n (suc i))))
    round-Spares i k =
        shift-Spares _ _ (h (suc i) (omega arith) (omega arith))
          (λ e. h (suc (suc i)) (omega arith) (omega arith) (e ∙ next_slot p n i))

    init_rounds-Spares : (i : ℕ) → suc i ≤ 4 → Spares q (init_rounds p n (suc i))
    unfolding init_rounds
    init_rounds-Spares zero k = bind-Spares q _ _ (round-Spares 0 k) (λ _.
        wrapping-Spares q _ _
          (open_truncated-Spares q (slot p n 1) (h 1 (omega arith) (omega arith))))
    init_rounds-Spares (suc i) k =
        bind-Spares q _ _ (round-Spares (suc i) k) (λ _. init_rounds-Spares i (omega arith))

    init-Spares : Spares q (init p n)
    unfolding init
    init-Spares = init_rounds-Spares 3 (omega arith)

    pub new_without_manage-Spares : Spares q (new_without_manage p n)
    unfolding new_without_manage
    new_without_manage-Spares = bind-Spares q _ _ init-Spares (λ fd. looking-Spares q _ (λ d. refl))
