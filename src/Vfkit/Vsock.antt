-- ===== src/Vfkit/Vsock.antt =====
-- pkg/vfkit/vscok.go: `connectVsocks`. Whether the proxy of a port starts is what the library
-- answers.
pub mod Proxy
use ovm.Base.{
  sym, ℕ, Bool, true, false, if◌then◌else◌, Option, none, some, List, [], ◌∷◌, ◌++◌, ◌≡◌, refl, ap,
  ◌∙◌, All, append_assoc, append-nil,
}

-- The ports that are listened on, and those that the returned function releases, if there is one.
pub record Listeners : Type 0 where
  pub listening : List ℕ
  pub release : Option (List ℕ)

connect_from : (ℕ → Bool) → List ℕ → List ℕ → Listeners
connect_from starts [] releases = record { listening = releases; release = some releases }
connect_from starts (port ∷ ports) releases =
    let rest = connect_from starts ports (releases ++ (port ∷ [])) in
    if starts port then rest else record { listening = releases; release = none }

unfoldable pub connect_vsocks : (ℕ → Bool) → List ℕ → Listeners
unfolding connect_from
connect_vsocks starts ports = connect_from starts ports []

connect_from-append :
    (starts : ℕ → Bool) (before after releases : List ℕ)
    → All (λ p. starts p ≡ true) before
    → connect_from starts (before ++ after) releases
      ≡ connect_from starts after (releases ++ before)
unfolding connect_from
connect_from-append starts [] after releases h =
    ap (connect_from starts after) (sym (append-nil releases))
connect_from-append starts (p ∷ before) after releases (h, hs) = rw h (
    connect_from-append starts before after (releases ++ (p ∷ [])) hs
    ∙ ap (connect_from starts after) (append_assoc releases (p ∷ []) before))

-- If every port starts, the function that is returned releases all that is listened on. If one does
-- not, no function is returned, and those before it go on listening.
connect_vsocks_lem :
    (starts : ℕ → Bool) (before after : List ℕ) (port : ℕ)
    → All (λ p. starts p ≡ true) before
    → starts port ≡ false
    → (connect_vsocks starts before ≡ record { listening = before; release = some before })
      × (connect_vsocks starts (before ++ (port ∷ after))
          ≡ record { listening = before; release = none })
unfolding connect_vsocks connect_from
connect_vsocks_lem starts before after port h n = (
  ap (λ ports. connect_from starts ports []) (sym (append-nil before))
      ∙ connect_from-append starts before [] [] h,
  connect_from-append starts before (port ∷ after) [] h ∙ rw n refl,
)
