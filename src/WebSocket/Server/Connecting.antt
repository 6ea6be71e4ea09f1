-- ===== src/WebSocket/Server/Connecting.antt =====
-- The slots of server/src/websocket_server.c while every client in them is connecting.
use chatweb.Base.{
  ℕ, zero, suc, ◌≤◌, ◌≡◌, refl, ap, subst, Bool, false, List, [], ◌∷◌, Option, none, some, arith,
  ◌==◌, if◌then◌else◌, length, replicate, Bool-cases, Option-cases, inl, inr,
}
use chatweb.Libc.{Bytes}
use chatweb.WebSocket.Receive.{Client, ConnectionState, Stats}
use chatweb.WebSocket.Server.{has_room, place, is_open, find_client, clear_client}
use chatweb.WebSocket.Server.Rounds.{Env, slots, cons_slot, read_slots, any_timed_out, ping_slots}
use chatweb.WebSocket.Server.Sending.{broadcast_slots}

abbrev pub AllConnecting : List (Option Client) → Type 0
AllConnecting [] = Unit {0}
AllConnecting (none ∷ cs) = AllConnecting cs
AllConnecting (some c ∷ cs) = (c.state ≡ ConnectionState.connecting) × AllConnecting cs

abbrev pub count_used : List (Option Client) → ℕ
count_used [] = 0
count_used (none ∷ cs) = count_used cs
count_used (some c ∷ cs) = suc (count_used cs)

-- No socket of a connecting client is given to select.
pub read_slots-AllConnecting :
    (env : Env) (max : ℕ) (cs : List (Option Client)) (s : Stats)
    → AllConnecting cs
    → read_slots env max cs s ≡ slots cs s []
unfolding read_slots
read_slots-AllConnecting env max [] s a = refl
read_slots-AllConnecting env max (none ∷ cs) s a =
    ap (cons_slot none []) (read_slots-AllConnecting env max cs s a)
read_slots-AllConnecting env max (some c ∷ cs) s a =
    let o : is_open c.state ≡ false = ap is_open a.0 in
    rw (o, read_slots) (ap (cons_slot (some c) []) (read_slots-AllConnecting env max cs s a.1))

pub ping_slots-AllConnecting :
    (sends : ℕ → Bool) (now interval : ℕ) (cs : List (Option Client)) (s : Stats)
    → AllConnecting cs
    → ping_slots sends now interval cs s ≡ slots cs s []
unfolding ping_slots
ping_slots-AllConnecting sends now interval [] s a = refl
ping_slots-AllConnecting sends now interval (none ∷ cs) s a =
    ap (cons_slot none []) (ping_slots-AllConnecting sends now interval cs s a)
ping_slots-AllConnecting sends now interval (some c ∷ cs) s a =
    let o : is_open c.state ≡ false = ap is_open a.0 in
    rw (o, ping_slots)
      (ap (cons_slot (some c) []) (ping_slots-AllConnecting sends now interval cs s a.1))

pub broadcast_slots-AllConnecting :
    (sends : ℕ → Bool × Bool) (payload : Bytes) (cs : List (Option Client))
    → AllConnecting cs
    → broadcast_slots sends payload cs ≡ (0, cs)
unfolding broadcast_slots
broadcast_slots-AllConnecting sends payload [] a = refl
broadcast_slots-AllConnecting sends payload (none ∷ cs) a =
    rw (broadcast_slots-AllConnecting sends payload cs a, broadcast_slots) refl
broadcast_slots-AllConnecting sends payload (some c ∷ cs) a =
    let o : is_open c.state ≡ false = ap is_open a.0 in
    rw (o, broadcast_slots-AllConnecting sends payload cs a.1, broadcast_slots) refl

pub place-AllConnecting :
    (c : Client) (cs : List (Option Client))
    → c.state ≡ ConnectionState.connecting
    → AllConnecting cs
    → AllConnecting (place c cs)
      × (length (place c cs) ≡ length cs)
      × (count_used (place c cs) ≡ (if has_room cs then suc (count_used cs) else count_used cs))
      × (has_room cs ≡ false → count_used cs ≡ length cs)
unfolding place
place-AllConnecting c [] e a = (tt, refl, refl, (λ h. refl))
place-AllConnecting c (none ∷ cs) e a = ((e, a), refl, refl, (λ h. ground arith))
place-AllConnecting c (some d ∷ cs) e a =
    let (x, y, z, w) = place-AllConnecting c cs e a.1 in
    ((a.0, x), ap suc y, ground arith, (λ h. ap suc (w h)))

pub count_used-le : (cs : List (Option Client)) → count_used cs ≤ length cs
count_used-le [] = omega arith
count_used-le (none ∷ cs) = omega (arith, count_used-le cs)
count_used-le (some c ∷ cs) = omega (arith, count_used-le cs)

-- What clearing the client that was found leaves.
abbrev pub Cleared : ℕ → List (Option Client) → Option Client → Type 0
Cleared id cs none = Unit {0}
Cleared id cs (some c) =
    AllConnecting (clear_client id cs)
    × (length (clear_client id cs) ≡ length cs)
    × (suc (count_used (clear_client id cs)) ≡ count_used cs)
    × (is_open c.state ≡ false)

pub find_client-Cleared :
    (id : ℕ) (cs : List (Option Client)) → AllConnecting cs → Cleared id cs (find_client id cs)
unfolding clear_client find_client
find_client-Cleared id [] a = tt
find_client-Cleared id (none ∷ cs) a = elim (Option-cases (find_client id cs)) [
  | inl g ↦ rw (g, find_client) tt
  | inr (c, g) ↦
      let h = subst (Cleared id cs) g (find_client-Cleared id cs a) in
      rw (g, find_client) (h.0, ap suc h.1, h.2, h.3)
]
find_client-Cleared id (some d ∷ cs) a = elim (Bool-cases (d.client_id == id)) [
  | inl b ↦ rw (b, find_client) (rw (b, clear_client) (a.1, refl, refl, ap is_open a.0))
  | inr b ↦ elim (Option-cases (find_client id cs)) [
    | inl g ↦ rw (b, g, find_client) tt
    | inr (c, g) ↦
        let h = subst (Cleared id cs) g (find_client-Cleared id cs a.1) in
        rw (b, g, find_client) (rw (b, clear_client) ((a.0, h.0), ap suc h.1, ap suc h.2, h.3))
  ]
]

pub find_client-Connecting :
    (id : ℕ) (cs : List (Option Client)) (c : Client)
    → AllConnecting cs
    → find_client id cs ≡ some c
    → is_open c.state ≡ false
find_client-Connecting id cs c a e = (subst (Cleared id cs) e (find_client-Cleared id cs a)).3

abbrev pub no_client : Option Client
no_client = none

pub AllConnecting-replicate :
    (n : ℕ) → AllConnecting (replicate n none) × (count_used (replicate n none) ≡ 0)
AllConnecting-replicate zero = (tt, refl)
AllConnecting-replicate (suc n) = AllConnecting-replicate n

pub any_timed_out-AllConnecting :
    (now timeout : ℕ) (cs : List (Option Client))
    → AllConnecting cs
    → any_timed_out now timeout cs ≡ false
any_timed_out-AllConnecting now timeout [] a = refl
any_timed_out-AllConnecting now timeout (none ∷ cs) a = any_timed_out-AllConnecting now timeout cs a
any_timed_out-AllConnecting now timeout (some c ∷ cs) a =
    let o : is_open c.state ≡ false = ap is_open a.0 in
    rw (o, any_timed_out-AllConnecting now timeout cs a.1) refl
