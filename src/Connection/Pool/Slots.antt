-- ===== src/Connection/Pool/Slots.antt =====
-- The slots of the connection pool of server/src/connection.c, and the searches through them.
use chatweb.Base.{
  ℕ, suc, ◌<◌, ◌≡◌, refl, Bool, true, false, ◌&&◌, not, Option, none, some, List, [], ◌∷◌, ◌==◌,
  if◌then◌else◌, length, set, map, arith, Bool-cases, inl, inr,
}

-- connection_state_t
pub data ConnectionState : Type 0 where
  new authenticated closing closed error : ConnectionState

-- `fd` is `none` in a free slot (-1).
pub record Connection : Type 0 where
  pub id : ℕ
  pub fd : Option ℕ
  pub user_id : ℕ
  pub state : ConnectionState
  pub connected_at : ℕ
  pub last_activity : ℕ
  pub last_heartbeat : ℕ

abbrev pub has_some : Option ℕ → Bool
has_some none = false
has_some (some fd) = true

abbrev pub is_used : Connection → Bool
is_used conn = has_some conn.fd

abbrev pub is_free : Connection → Bool
is_free conn = not (is_used conn)

abbrev pub has_id : ℕ → Connection → Bool
has_id id conn = is_used conn && (conn.id == id)

abbrev is_fd : ℕ → Option ℕ → Bool
is_fd fd none = false
is_fd fd (some n) = n == fd

abbrev pub has_fd : ℕ → Connection → Bool
has_fd fd conn = is_fd fd conn.fd

abbrev is_authenticated : ConnectionState → Bool
is_authenticated authenticated = true
is_authenticated s = false

abbrev pub is_session_of : ℕ → Connection → Bool
is_session_of user_id conn =
    is_used conn && (conn.user_id == user_id) && is_authenticated conn.state

abbrev pub next_slot : Option ℕ → Option ℕ
next_slot none = none
next_slot (some i) = some (suc i)

-- The first slot that passes a test.
unfoldable pub find_slot : (Connection → Bool) → List Connection → Option ℕ
find_slot test [] = none
find_slot test (conn ∷ conns) = if test conn then some 0 else next_slot (find_slot test conns)

-- All slots that pass a test, in order.
unfoldable pub all_slots : (Connection → Bool) → List Connection → List ℕ
all_slots test [] = []
all_slots test (conn ∷ conns) =
    let rest = map suc (all_slots test conns) in if test conn then 0 ∷ rest else rest

abbrev pub count_used : List Connection → ℕ
count_used [] = 0
count_used (conn ∷ conns) = if is_used conn then suc (count_used conns) else count_used conns

-- The used slots have identifiers below `n`.
unfoldable pub AllBelow : ℕ → List Connection → Type 0
AllBelow n [] = Unit {0}
AllBelow n (conn ∷ conns) = (is_used conn ≡ true → conn.id < n) × AllBelow n conns

pub AllBelow-suc : (n : ℕ) (conns : List Connection) → AllBelow n conns → AllBelow (suc n) conns
unfolding AllBelow
AllBelow-suc n [] h = tt
AllBelow-suc n (conn ∷ conns) (h, k) = ((λ u. let b = h u in omega arith), AllBelow-suc n conns k)

behind_used :
    (conn new_conn : Connection) (i : ℕ) (conns conns' : List Connection) (id : ℕ)
    → is_used conn ≡ true
    → conn.id < new_conn.id
    → find_slot (has_id id) conns'
      ≡ (if new_conn.id == id then some i else find_slot (has_id id) conns)
    → find_slot (has_id id) (conn ∷ conns')
      ≡ (if new_conn.id == id then some (suc i) else find_slot (has_id id) (conn ∷ conns))
unfolding find_slot
behind_used conn new_conn i conns conns' id e l g = elim (Bool-cases (new_conn.id == id)) [
  | inl s ↦ let ne : (conn.id == id) ≡ false = ground arith in rw (e, ne, g, s, find_slot) refl
  | inr s ↦ rw (g, s, find_slot) refl
]

at_free :
    (conn new_conn : Connection) (conns : List Connection) (id : ℕ)
    → is_used conn ≡ false
    → is_used new_conn ≡ true
    → find_slot (has_id id) (new_conn ∷ conns)
      ≡ (if new_conn.id == id then some 0 else find_slot (has_id id) (conn ∷ conns))
unfolding find_slot
at_free conn new_conn conns id e u = elim (Bool-cases (new_conn.id == id)) [
  | inl s ↦ rw (e, u, s, find_slot) refl
  | inr s ↦ rw (e, u, s, find_slot) refl
]

-- With fewer used slots than there are, one is free, and a connection with a new identifier that
-- is put in the first of them is found there, while the others are found where they were.
pub find_slot-set :
    (conns : List Connection) (new_conn : Connection)
    → count_used conns < length conns
    → is_used new_conn ≡ true
    → AllBelow new_conn.id conns
    → (i : ℕ) × (find_slot is_free conns ≡ some i)
      × (count_used (set conns i new_conn) ≡ suc (count_used conns))
      × AllBelow (suc new_conn.id) (set conns i new_conn)
      × ((id : ℕ)
          → find_slot (has_id id) (set conns i new_conn)
            ≡ (if new_conn.id == id then some i else find_slot (has_id id) conns))
unfolding find_slot AllBelow
find_slot-set [] new_conn h u b = absurd (omega arith)
find_slot-set (conn ∷ conns) new_conn h u b = elim (Bool-cases (is_used conn)) [
  | inl e ↦
      let (i, f, c, a, g) = find_slot-set conns new_conn (ground arith) u b.1 in
      (
        suc i,
        rw (e, f, find_slot) refl,
        rw (e, c) refl,
        ((λ v. let x = b.0 v in omega arith), a),
        (λ id. behind_used conn new_conn i conns (set conns i new_conn) id e (b.0 e) (g id)),
      )
  | inr e ↦ (
    0,
    rw (e, find_slot) refl,
    rw (e, u) refl,
    ((λ v. omega arith), AllBelow-suc new_conn.id conns b.1),
    (λ id. at_free conn new_conn conns id e u),
  )
]
