-- ===== src/Database/Release.antt =====
-- What db_release_connection and db_close_all_connections of server/src/database.c leave.
use chatweb.Base.{
  ℕ, zero, suc, ◌≤◌, ◌≡◌, ◌≢◌, refl, sym, ap, ◌∙◌, Bool, true, false, not, ◌&&◌, Option, none, some,
  List, [], ◌∷◌, arith, length, set, replicate, map, length-set, length-replicate, ◌⊎◌, inl, inr,
}
use chatweb.Database.{
  success, connection, Slot, DbPool, max_connections, has_some, is_handle, is_idle, is_open, owns,
  release_slot, db_release_connection, db_init_pool, db_close_all_connections, close_slot,
}
use chatweb.Database.Counts.{
  IsValid, one_if, count, holds, is_lost, count-set, find_index-cases, count-get, count-holds,
}

is_handle-some : (h : ℕ) (c : Option ℕ) → is_handle h c ≡ true → c ≡ some h
is_handle-some h none e = absurd (ground (arith, e))
is_handle-some h (some k) e = ap some (ground arith)

not_owned : (u o : Bool) → o ≡ false → one_if (u && o) ≡ 0
not_owned false o e = refl
not_owned true false e = refl
not_owned true true e = absurd (ground (arith, e))

-- A connection of a valid pool that is given back has no holder afterwards, the others keep theirs, and
-- the pool stays valid with as many open connections; what is not in the pool is refused.
pub db_release_connection-IsValid :
    (handle : ℕ) (pool : DbPool)
    → IsValid pool
    → ((count (owns handle) pool.slots ≡ 0)
        × (db_release_connection handle pool ≡ (connection, pool)))
      ⊎ ((pool' : DbPool) × (db_release_connection handle pool ≡ (success, pool'))
          × IsValid pool'
          × (pool'.active_count ≡ pool.active_count)
          × (count (holds handle) pool'.slots ≡ 0)
          × ((k : ℕ) → k ≢ handle → count (holds k) pool'.slots ≡ count (holds k) pool.slots))
unfolding db_release_connection
db_release_connection-IsValid handle pool v = elim (find_index-cases (owns handle) pool.slots) [
  | inl (n, c) ↦ inl (c, rw (n, db_release_connection) refl)
  | inr (i, slot, n, g, t) ↦
      let e = is_handle-some handle slot.connection t in
      let new = release_slot slot in
      let own = λ (k : ℕ). count-set (owns k) pool.slots i slot new g in
      let valid : IsValid (record pool { slots = set pool.slots i new }) = record {
        unique = λ k. omega (arith, own k, v.unique k);
        present = omega (arith, v.present, count-set is_lost pool.slots i slot new g);
        counted = omega (arith, v.counted, count-set is_open pool.slots i slot new g);
        bounded = omega (arith, length-set pool.slots i new, v.bounded);
      } in
      let idle_owned = λ (x : Slot). is_idle x && owns handle x in
      let last : one_if (idle_owned new) ≡ 1 = ap one_if t in
      inr (
        record pool { slots = set pool.slots i new },
        rw (n, g, db_release_connection) refl,
        valid,
        refl,
        omega (
          arith,
          count-holds handle (set pool.slots i new),
          valid.unique handle,
          last,
          count-set idle_owned pool.slots i slot new g,
          count-get idle_owned pool.slots i slot g,
        ),
        λ k ne.
            let w : one_if (holds k slot) ≡ 0 =
              not_owned slot.in_use _ (ap (is_handle k) e ∙ ground (arith, ne)) in
            omega (arith, count-set (holds k) pool.slots i slot new g),
      )
]

count-replicate :
    (test : Slot → Bool) (n : ℕ) (slot : Slot)
    → test slot ≡ false
    → count test (replicate n slot) ≡ 0
count-replicate test zero slot e = refl
count-replicate test (suc n) slot e = rw e (omega (arith, count-replicate test n slot e))

-- A test that fails at every slot that is closed.
count-close :
    (test : Slot → Bool) (slots : List Slot)
    → ((slot : Slot) → test (close_slot slot) ≡ false)
    → count test (map close_slot slots) ≡ 0
count-close test [] h = refl
count-close test (s ∷ slots) h = rw (h s) (omega (arith, count-close test slots h))

close_slot-null : (slot : Slot) → (close_slot slot).connection ≡ none
close_slot-null slot = at slot.in_use slot.connection
  where
    at :
        (u : Bool) (c : Option ℕ)
        → (close_slot (record { connection = c; in_use = u })).connection ≡ none
    at u none = refl
    at u (some h) = refl

lost_at : (slot : Slot) → one_if (is_lost slot) ≡ 0 → is_lost (close_slot slot) ≡ false
lost_at slot e = at slot.in_use slot.connection e
  where
    at :
        (u : Bool) (c : Option ℕ)
        → one_if (u && not (has_some c)) ≡ 0
        → is_lost (close_slot (record { connection = c; in_use = u })) ≡ false
    at false none e = refl
    at true none e = absurd (omega arith)
    at u (some h) e = refl

lost_closed :
    (slots : List Slot) → count is_lost slots ≡ 0 → count is_lost (map close_slot slots) ≡ 0
lost_closed [] e = refl
lost_closed (s ∷ slots) e =
    rw (lost_at s (omega arith)) (omega (arith, lost_closed slots (omega arith)))

length-map : (slots : List Slot) → length (map close_slot slots) ≡ length slots
length-map [] = refl
length-map (s ∷ slots) = ap suc (length-map slots)

first_IsValid :
    (n : ℕ)
    → n ≤ max_connections
    → IsValid (record {
      slots = replicate n (record { connection = none; in_use = false });
      active_count = 0;
    })
first_IsValid n l =
    let empty : Slot = record { connection = none; in_use = false } in
    record {
      unique = λ h. omega (arith, count-replicate (owns h) n empty refl);
      present = count-replicate is_lost n empty refl;
      counted = sym (count-replicate is_open n empty refl);
      bounded = omega (arith, length-replicate n empty);
    }

-- The first pool has at most ten slots and is valid, whatever is configured. Closing all connections
-- of a valid pool leaves it valid, with none that is open, and none that is held.
db_close_all_connections-IsValid :
    (configured : Option ℕ) (pool : DbPool)
    → IsValid pool
    → ((first : DbPool) × (db_init_pool configured true true none ≡ (success, some first))
        × IsValid first)
      × IsValid (db_close_all_connections pool)
      × ((handle : ℕ) → count (owns handle) (db_close_all_connections pool).slots ≡ 0)
      × ((handle : ℕ) → count (holds handle) (db_close_all_connections pool).slots ≡ 0)
unfolding db_init_pool db_close_all_connections
db_close_all_connections-IsValid configured pool v =
    let owned =
      λ (h : ℕ). count-close (owns h) pool.slots (λ s. ap (is_handle h) (close_slot-null s)) in
    let opened = count-close is_open pool.slots (λ s. ap has_some (close_slot-null s)) in
    (
      (_, refl, first_IsValid _ (ground arith)),
      record {
        unique = λ h. omega (arith, owned h);
        present = lost_closed pool.slots v.present;
        counted = sym opened;
        bounded = omega (arith, length-map pool.slots, v.bounded);
      },
      owned,
      λ h. omega (arith, owned h, count-holds h (map close_slot pool.slots)),
    )
