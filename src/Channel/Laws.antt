-- ===== src/Channel/Laws.antt =====
-- What is sent on the channels and what is received.
use ovm.Base.{
  ◌<◌, ℕ, suc, ◌+◌, Bool, true, false, if◌then◌else◌, List, [], ◌∷◌, ◌++◌, ◌≡◌, refl, arith,
}
use ovm.Channel.{
  Name, gvproxy_ready, vm_ready, sync_time, Channels, Reply, done, given, panics, Call, notify,
  receive, close, same_name, start, put, send_open, notify_on, take_from, receive_from, call, run,
}

-- The sends on a channel that went through, and the receives from it that gave a value that was sent.
abbrev pub sends : Name → Call × Reply → ℕ
sends n (notify m, done) = if same_name m n then 1 else 0
sends n _ = 0

abbrev pub receives : Name → Call × Reply → ℕ
receives n (receive m, given true) = if same_name m n then 1 else 0
receives n _ = 0

unfoldable pub total : (Call × Reply → ℕ) → List (Call × Reply) → ℕ
total f [] = 0
total f (e ∷ es) = f e + total f es

-- Only `true` is ever held.
pub trues : List Bool → ℕ
trues [] = 0
trues (true ∷ vs) = suc (trues vs)
trues (false ∷ vs) = trues vs

trues-append : (xs ys : List Bool) → trues (xs ++ ys) ≡ trues xs + trues ys
unfolding trues
trues-append [] ys = omega arith
trues-append (true ∷ xs) ys = omega (arith, trues-append xs ys)
trues-append (false ∷ xs) ys = trues-append xs ys

-- What a call sends to a channel, what it takes from it, and what is held before and behind it.
abbrev Balanced : Name → Call → Channels → Reply × Channels → Type 0
Balanced n k c (r, d) = receives n (k, r) + trues (d.held n) ≡ sends n (k, r) + trues (c.held n)

send_open-Balanced :
    (n m : Name) (l : List Bool) (c : Channels)
    → c.held m ≡ l
    → Balanced n (notify m) c (send_open m l c)
unfolding send_open put trues
send_open-Balanced n sync_time l c h = ground (arith, trues-append (c.held sync_time) (true ∷ []))
send_open-Balanced n gvproxy_ready [] c h =
    ground (arith, trues-append (c.held gvproxy_ready) (true ∷ []))
send_open-Balanced n vm_ready [] c h = ground (arith, trues-append (c.held vm_ready) (true ∷ []))
send_open-Balanced n gvproxy_ready (v ∷ vs) c h = refl
send_open-Balanced n vm_ready (v ∷ vs) c h = refl

take_from-Balanced :
    (n m : Name) (l : List Bool) (c : Channels)
    → c.held m ≡ l
    → Balanced n (receive m) c (take_from m l c)
unfolding take_from trues
take_from-Balanced n m [] c h = ground arith
take_from-Balanced n m (true ∷ vs) c h = ground arith
take_from-Balanced n m (false ∷ vs) c h = ground arith

call-Balanced : (n : Name) (k : Call) (c : Channels) → Balanced n k c (call k c)
unfolding call notify_on receive_from
call-Balanced n (notify m) c = at c.closed
  where
    at : (b : Bool) → Balanced n (notify m) c (if b then (panics, c) else send_open m (c.held m) c)
    at true = refl
    at false = send_open-Balanced n m (c.held m) c refl
call-Balanced n (receive m) c = take_from-Balanced n m (c.held m) c refl
call-Balanced n close c = ground arith

-- In every sequence of calls, on every channel, as many values are received as were sent, but for
-- those that the channel still holds.
pub run-balance :
    (n : Name) (ks : List Call) (c : Channels)
    → let (es, d) = run ks c in
      total (receives n) es + trues (d.held n) ≡ total (sends n) es + trues (c.held n)
unfolding run total
run-balance n [] c = refl
run-balance n (k ∷ ks) c =
    let (r, d) = call k c in omega (arith, call-Balanced n k c, run-balance n ks d)

-- In particular there is no receive of a value before a send.
pub received_was_sent :
    (n : Name) (ks : List Call)
    → 0 < total (receives n) (run ks start).0
    → 0 < total (sends n) (run ks start).0
unfolding start trues
received_was_sent n ks h = omega (arith, run-balance n ks start)
