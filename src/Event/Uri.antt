-- ===== src/Event/Uri.antt =====
-- The address of a request: url.QueryEscape, and a server that reads the query back.
use ovm.Base.{
  sym, ◌≢◌, append_assoc, All-append, inl, inr, ◌∙◌, Bool-cases, ◌∙◌, ℕ, ◌+◌, ◌-◌, ◌*◌, ◌/◌, ◌%◌,
  ◌<◌, Bytes, bytes, Bool, true, false, ◌&&◌, ◌||◌, leb, ltb, ◌==◌, if◌then◌else◌, Option, none,
  some, List, [], ◌∷◌, ◌++◌, ◌≡◌, refl, ap, arith, All,
}
use ovm.Text.Split.{Lacks, split, split_part, split_of_Lacks, after_prefix}
use ovm.Event.{Key, k_app, k_error, k_exit, Datum}

between : ℕ → ℕ → ℕ → Bool
between a b c = leb a c && leb c b

-- Letters, digits, and four signs stay as they are.
unreserved : ℕ → Bool
unfolding between
unreserved c =
    (between 97 122 c || (between 65 90 c || between 48 57 c))
    || ((c == 45 || c == 46) || (c == 95 || c == 126))

hex : ℕ → ℕ
hex d = if ltb d 10 then 48 + d else 55 + d

escape_byte : ℕ → Bytes → Bytes
unfolding unreserved hex
escape_byte c rest =
    if unreserved c
    then c ∷ rest
    else if c == 32
    then 43 ∷ rest
    else 37 ∷ hex (c / 16) ∷ hex (c % 16) ∷ rest

unfoldable pub query_escape : Bytes → Bytes
unfolding escape_byte
query_escape [] = []
query_escape (c ∷ s) = escape_byte c (query_escape s)

key_name : Key → Bytes
key_name k_app = bytes "app"
key_name k_error = bytes "error"
key_name k_exit = bytes "exit"

-- The address that is requested for an event.
unfoldable pub uri : Datum → Bytes
unfolding query_escape key_name
uri d =
    bytes "http://ovm/notify?event="
    ++ (key_name d.name ++ (bytes "&message=" ++ query_escape d.message))

unhex : ℕ → ℕ
unhex c = if ltb c 58 then c - 48 else c - 55

-- What a server makes of a value of the query.
pub query_unescape : Bytes → Bytes
unfolding unhex
query_unescape [] = []
query_unescape (c ∷ []) = (if c == 43 then 32 else c) ∷ []
query_unescape (c ∷ h ∷ []) = (if c == 43 then 32 else c) ∷ query_unescape (h ∷ [])
query_unescape (c ∷ h ∷ l ∷ rest) =
    let plain = query_unescape (h ∷ l ∷ rest) in
    let escaped = query_unescape rest in
    if c == 37 then (unhex h * 16 + unhex l) ∷ escaped else (if c == 43 then 32 else c) ∷ plain

plain-unescape :
    (c : ℕ) (rest : Bytes)
    → (c == 37) ≡ false
    → query_unescape (c ∷ rest) ≡ (if c == 43 then 32 else c) ∷ query_unescape rest
unfolding query_unescape
plain-unescape c [] h = refl
plain-unescape c (x ∷ []) h = refl
plain-unescape c (x ∷ y ∷ rest) h = rw h refl

unreserved-plain : (c : ℕ) → unreserved c ≡ true → ((c == 37) ≡ false) × ((c == 43) ≡ false)
unfolding unreserved between
unreserved-plain c h = (ground arith, ground arith)

unhex-hex : (d : ℕ) → d < 16 → unhex (hex d) ≡ d
unfolding unhex hex
unhex-hex d h = ground arith

unescape-hex :
    (c : ℕ) (rest : Bytes)
    → c < 256
    → query_unescape (37 ∷ hex (c / 16) ∷ hex (c % 16) ∷ rest) ≡ c ∷ query_unescape rest
unfolding query_unescape
unescape-hex c rest h =
    rw (unhex-hex (c / 16) (omega arith), unhex-hex (c % 16) (omega arith))
      (ap (λ n. n ∷ query_unescape rest) (omega arith))

escape_byte-unescape :
    (c : ℕ) (rest : Bytes) → c < 256 → query_unescape (escape_byte c rest) ≡ c ∷ query_unescape rest
unfolding escape_byte
escape_byte-unescape c rest h = elim (Bool-cases (unreserved c)) [
  | inl e ↦
      let (not_percent, not_plus) = unreserved-plain c e in
      rw e (plain-unescape c rest not_percent ∙ rw not_plus refl)
  | inr e ↦ elim (Bool-cases (c == 32)) [
    | inl space ↦
        rw (e, space)
          (plain-unescape 43 rest refl ∙ ap (λ n. n ∷ query_unescape rest) (ground arith))
    | inr other ↦ rw (e, other) (unescape-hex c rest h)
  ]
]

-- A server reads the message back as it was, whatever bytes it has.
query_unescape-query_escape :
    (message : Bytes) → All (λ c. c < 256) message → query_unescape (query_escape message) ≡ message
unfolding query_escape query_unescape
query_unescape-query_escape [] h = refl
query_unescape-query_escape (c ∷ message) (h, hs) =
    escape_byte-unescape c (query_escape message) h
    ∙ ap (λ rest. c ∷ rest) (query_unescape-query_escape message hs)

hex-ne : (d : ℕ) → hex d ≢ b'&'
unfolding hex
hex-ne d = λ e. ground arith

unreserved-ne : (c : ℕ) → unreserved c ≡ true → c ≢ b'&'
unfolding unreserved between
unreserved-ne c h = λ e. ground arith

escape_byte-Lacks : (c : ℕ) (rest : Bytes) → Lacks b'&' rest → Lacks b'&' (escape_byte c rest)
unfolding escape_byte
escape_byte-Lacks c rest h = elim (Bool-cases (unreserved c)) [
  | inl e ↦ rw e (unreserved-ne c e, h)
  | inr e ↦ elim (Bool-cases (c == 32)) [
    | inl space ↦ rw (e, space) ((omega arith), h)
    | inr other ↦ rw (e, other) ((omega arith), (hex-ne (c / 16), (hex-ne (c % 16), h)))
  ]
]

query_escape-Lacks : (message : Bytes) → Lacks b'&' (query_escape message)
unfolding query_escape
query_escape-Lacks [] = tt
query_escape-Lacks (c ∷ message) =
    escape_byte-Lacks c (query_escape message) (query_escape-Lacks message)

-- The server cuts the address at the ampersand, and reads the value of the parameter `message`.
message_in : List Bytes → Option Bytes
message_in (front ∷ field ∷ []) = elim (after_prefix (bytes "message=") field) [
  | none ↦ none
  | some value ↦ some (query_unescape value)
]
message_in _ = none

pub message_of : Bytes → Option Bytes
unfolding message_in
message_of address = message_in (split b'&' address)

front-Lacks : (k : Key) → Lacks b'&' (bytes "http://ovm/notify?event=" ++ key_name k)
unfolding key_name
front-Lacks k_app = omega arith
front-Lacks k_error = omega arith
front-Lacks k_exit = omega arith

-- The server that is notified reads the message of the event as it was, whatever bytes it has.
message_of-uri : (d : Datum) → All (λ c. c < 256) d.message → message_of (uri d) ≡ some d.message
unfolding message_of uri after_prefix
message_of-uri d h =
    ap message_in (
      ap (split b'&') (sym (append_assoc (bytes "http://ovm/notify?event=") (key_name d.name) _))
      ∙ split_part b'&' (bytes "http://ovm/notify?event=" ++ key_name d.name) _ (front-Lacks d.name)
      ∙ ap (λ ps. (bytes "http://ovm/notify?event=" ++ key_name d.name) ∷ ps)
          (split_of_Lacks b'&' (bytes "message=" ++ query_escape d.message) (
            All-append (λ c. c ≢ b'&') (bytes "message=") (query_escape d.message) (omega arith)
              (query_escape-Lacks d.message))))
    ∙ ap some (query_unescape-query_escape d.message h)
