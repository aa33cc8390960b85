-- ===== src/Vfkit/Vsock/Proxy.antt =====
-- pkg/vfkit/vscok.go, `listenVsock`: the functions by which a proxy listens on a port of the guest and
-- dials a socket of the host. net/url.Parse is a parameter; the proxy itself is a library.
use Prim.Native.Nat.{◌^◌}
use ovm.Base.{
  same_self, ◌≢◌, ℕ, ◌-◌, ◌%◌, ◌<◌, Bytes, bytes, same, if◌then◌else◌, Option, none, some, List, [],
  ◌∷◌, ◌++◌, ◌≡◌, ap, arith, All,
}
use ovm.Base.Int.{ℤ, pos, negsuc}
use ovm.Os.Outcome.{errno, message, about, Result, ok, err}
use ovm.Text.Split.{Lacks}
use ovm.Text.Decimal.{atoi-itoa, itoa, atoi}

-- The parts of an address that the source looks at.
pub record Url : Type 0 where
  pub scheme : Bytes
  pub port : Bytes
  pub path : Bytes

-- A listener of the machine: which of its devices listens, and on which port.
pub record Listener : Type 0 where
  pub device : ℕ
  pub on_port : ℕ

-- `uint32(port)`
uint32 : ℤ → ℕ
uint32 (pos n) = n % 2 ^ 32
uint32 (negsuc n) = 2 ^ 32 - 1 - n % 2 ^ 32

on_device : List ℕ → ℤ → Result Listener
unfolding uint32
on_device (d ∷ []) port = ok (record { device = d; on_port = uint32 port })
on_device _ port = err (message "VM has too many/not enough virtio-vsock devices")

with_port : List ℕ → Option ℤ → Result Listener
unfolding on_device
with_port devices none = err errno
with_port devices (some port) = on_device devices port

listen_at : List ℕ → Option Url → Result Listener
unfolding with_port atoi
listen_at devices none = err errno
listen_at devices (some u) =
    if same u.scheme (bytes "vsock")
    then with_port devices (atoi u.port)
    else err (about "unexpected scheme" u.scheme)

dial_at : Option Url → Result Bytes
dial_at none = err errno
dial_at (some u) =
    if same u.scheme (bytes "unix") then ok u.path else err (about "unexpected scheme" u.scheme)

module _ (parse : Bytes → Option Url) where
  -- `proxy.ListenFunc`, by the socket devices of the machine.
  unfoldable pub listen_func : List ℕ → Bytes → Result Listener
  unfolding listen_at
  listen_func devices address = listen_at devices (parse address)

  -- `DialContext`: the socket that is dialled.
  unfoldable pub dial_context : Bytes → Result Bytes
  unfolding dial_at
  dial_context address = dial_at (parse address)

  -- The route that `listenVsock` adds: the address that the proxy listens on when it starts, and the
  -- one that it dials for each connection.
  unfoldable pub listen_vsock : List ℕ → ℕ → Bytes → Result Listener × Result Bytes
  unfolding listen_func dial_context itoa
  listen_vsock devices port vsock_path = (
    listen_func devices (bytes "vsock://:" ++ itoa port),
    dial_context (bytes "unix:" ++ vsock_path),
  )

abbrev pub NoSlash : Bytes → Type 0
NoSlash [] = Unit
NoSlash (c ∷ s) = c ≢ b'/'

-- What may stand behind the first slash of a path: no second slash, none of the bytes that mean
-- something in an address, and no control byte.
pub record IsPlain (path : Bytes) : Type 0 where
  pub no_slash : NoSlash path
  pub no_percent : Lacks b'%' path
  pub no_query : Lacks b'?' path
  pub no_fragment : Lacks b'#' path
  pub visible : All (λ c. (31 < c) × (c ≢ 127)) path

-- What net/url documents of the two kinds of address.
pub record IsUrlParser (parse : Bytes → Option Url) : Type 0 where
  pub of_port :
      (port : ℕ)
      → parse (bytes "vsock://:" ++ itoa port)
        ≡ some (record { scheme = bytes "vsock"; port = itoa port; path = [] })
  pub of_path :
      (rest : Bytes)
      → IsPlain rest
      → parse (bytes "unix:/" ++ rest)
        ≡ some (record { scheme = bytes "unix"; port = []; path = bytes "/" ++ rest })

-- On a machine with one socket device, the guest's connections to a port of 32 bits reach the socket
-- at an absolute path without such bytes.
listen_vsock_lem :
    (parse : Bytes → Option Url) (port device : ℕ) (rest : Bytes)
    → IsUrlParser parse
    → port < 2 ^ 32
    → IsPlain rest
    → listen_vsock parse (device ∷ []) port (bytes "/" ++ rest)
      ≡ (ok (record { device = device; on_port = port }), ok (bytes "/" ++ rest))
unfolding listen_vsock listen_func dial_context listen_at dial_at with_port on_device uint32
listen_vsock_lem parse port device rest h fits plain =
    let same_port : port % 2 ^ 32 ≡ port = omega arith in
    rw
      (
        h.of_port port,
        h.of_path rest plain,
        atoi-itoa port (omega arith),
        same_self (bytes "vsock"),
        same_self (bytes "unix"),
      )
      (ap (λ p. (ok (record { device = device; on_port = p }), ok (bytes "/" ++ rest))) same_port)
