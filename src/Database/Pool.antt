-- ===== src/Database/Pool.antt =====
-- What db_get_connection of server/src/database.c hands out.
use chatweb.Base.{
  ℕ, suc, ◌+◌, ◌≤◌, ◌≡◌, refl, sym, ap, ◌∙◌, Bool, true, false, not, ◌&&◌, Option, none, some, List,
  [], ◌∷◌, arith, ltb, ◌==◌, length, set, get_elem?, length-set, Bool-cases, ◌⊎◌, inl, inr,
}
use chatweb.Database.{
  connection, timeout, busy, Slot, DbPool, has_some, is_handle, is_idle, is_open, owns, Got,
  refused, got, open_slot, take_slot, search, search_again, db_get_connection,
}
use chatweb.Database.Counts.{
  IsValid, one_if, count, holds, is_lost, count-set, find_index-cases, count-get, count-holds,
}

-- What a pool hands out: a connection that nobody holds, whose holder is then the one that has it, and
-- the pool stays valid. A refusal leaves the pool as it was, and says why.
abbrev pub Answers : Option ℕ → (DbPool → Option DbPool) → DbPool → Got → Type 0
Answers opened wait pool (refused code pool') =
    (pool' ≡ pool)
    × (((code ≡ connection) × (opened ≡ none))
        ⊎ ((count is_idle pool.slots ≡ 0)
            × (((code ≡ timeout) × (wait pool ≡ none)) ⊎ (code ≡ busy))))
Answers opened wait pool (got handle pool') =
    IsValid pool'
    × (count (holds handle) pool.slots ≡ 0)
    × ((k : ℕ) → count (holds k) pool'.slots ≡ count (holds k) pool.slots + one_if (handle == k))

-- A handle that is opened is a new one.
abbrev pub IsFresh : Option ℕ → DbPool → Type 0
IsFresh opened pool = (handle : ℕ) → opened ≡ some handle → count (owns handle) pool.slots ≡ 0

-- The counts after a slot that is idle is taken for a handle.
taken :
    (pool : DbPool) (i handle : ℕ) (slot : Slot) (c : Option ℕ)
    → get_elem? pool.slots i ≡ some slot
    → is_idle slot ≡ true
    → slot.connection ≡ c
    → let new : Slot = record { connection = some handle; in_use = true } in
      ((k : ℕ)
        → count (owns k) (set pool.slots i new) + one_if (is_handle k c)
          ≡ count (owns k) pool.slots + one_if (handle == k))
      × (count is_lost (set pool.slots i new) ≡ count is_lost pool.slots)
      × (count is_open (set pool.slots i new) + one_if (has_some c)
          ≡ suc (count is_open pool.slots))
      × ((k : ℕ)
          → count (holds k) (set pool.slots i new)
            ≡ count (holds k) pool.slots + one_if (handle == k))
taken pool i handle slot c g t e =
    let new : Slot = record { connection = some handle; in_use = true } in
    let u : slot.in_use ≡ false = ground (arith, t) in
    let l : one_if (is_lost slot) ≡ 0 = rw u refl in
    let o : one_if (is_open slot) ≡ one_if (has_some c) = ap (λ x. one_if (has_some x)) e in
    (
      (λ k.
          let w : one_if (owns k slot) ≡ one_if (is_handle k c) =
            ap (λ x. one_if (is_handle k x)) e in
          omega (arith, count-set (owns k) pool.slots i slot new g)),
      omega (arith, count-set is_lost pool.slots i slot new g),
      omega (arith, count-set is_open pool.slots i slot new g),
      λ k.
          let w : one_if (holds k slot) ≡ 0 = rw u refl in
          omega (arith, count-set (holds k) pool.slots i slot new g),
    )

one_if_eq : (h k : ℕ) → ((h == k) ≡ true) × (h ≡ k) × (one_if (h == k) ≡ 1) ⊎ (one_if (h == k) ≡ 0)
one_if_eq h k = elim (Bool-cases (h == k)) [
  | inl t ↦ inl (t, ground arith, rw t refl)
  | inr t ↦ inr (rw t refl)
]

open_slot-Answers :
    (opened : Option ℕ) (wait : DbPool → Option DbPool) (pool : DbPool) (i : ℕ) (slot : Slot)
    (c : Option ℕ)
    → IsValid pool
    → IsFresh opened pool
    → get_elem? pool.slots i ≡ some slot
    → is_idle slot ≡ true
    → slot.connection ≡ c
    → Answers opened wait pool (open_slot opened i pool c)
open_slot-Answers opened wait pool i slot (some h) v f g t e =
    let (a, l, o, b) = taken pool i h slot (some h) g t e in
    let n : one_if (is_idle slot && owns h slot) ≡ 1 =
      let w : owns h slot ≡ true = ap (is_handle h) e ∙ ground arith in rw (t, w) refl in
    (
      record {
        unique = λ k. omega (arith, a k, v.unique k);
        present = l ∙ v.present;
        counted = omega (arith, o, v.counted);
        bounded = omega (
          arith,
          length-set pool.slots i (record { connection = some h; in_use = true }),
          v.bounded,
        );
      },
      omega (
        arith,
        count-holds h pool.slots,
        v.unique h,
        n,
        count-get (λ s. is_idle s && owns h s) pool.slots i slot g,
      ),
      b,
    )
open_slot-Answers none wait pool i slot none v f g t e = (refl, inl (refl, refl))
open_slot-Answers (some h) wait pool i slot none v f g t e =
    let (a, l, o, b) = taken pool i h slot none g t e in
    (
      record {
        unique = λ k. elim (one_if_eq h k) [
          | inl (_, q, r) ↦
              omega (arith, a k, r, ap (λ x. count (owns x) pool.slots) (sym q) ∙ f h refl)
          | inr r ↦ omega (arith, a k, r, v.unique k)
        ];
        present = l ∙ v.present;
        counted = omega (arith, o, v.counted);
        bounded = omega (
          arith,
          length-set pool.slots i (record { connection = some h; in_use = true }),
          v.bounded,
        );
      },
      omega (arith, count-holds h pool.slots, f h refl),
      b,
    )

take_slot-Answers :
    (opened : Option ℕ) (wait : DbPool → Option DbPool) (pool : DbPool) (i : ℕ) (slot : Slot)
    → IsValid pool
    → IsFresh opened pool
    → get_elem? pool.slots i ≡ some slot
    → is_idle slot ≡ true
    → Answers opened wait pool (take_slot opened pool i)
take_slot-Answers opened wait pool i slot v f g t =
    rw (g, take_slot) (open_slot-Answers opened wait pool i slot slot.connection v f g t refl)

-- A slot is idle, open, or in use without a connection.
length-count :
    (slots : List Slot)
    → length slots ≤ count is_idle slots + count is_lost slots + count is_open slots
length-count [] = omega arith
length-count (s ∷ slots) = omega (arith, kinds s.in_use s.connection, length-count slots)
  where
    kinds :
        (u : Bool) (c : Option ℕ)
        → 1 ≤ one_if (not u) + one_if (u && not (has_some c)) + one_if (has_some c)
    kinds false none = omega arith
    kinds false (some h) = omega arith
    kinds true none = omega arith
    kinds true (some h) = omega arith

-- In a valid pool the second search is never made.
search-idle :
    (pool : DbPool)
    → IsValid pool
    → count is_idle pool.slots ≡ 0
    → ltb pool.active_count (length pool.slots) ≡ false
search-idle pool v z =
    let l = length-count pool.slots in let p = v.present in let c = v.counted in ground arith

search_again-Answers :
    (opened : Option ℕ) (wait : DbPool → Option DbPool) (pool : DbPool) (woken : Option DbPool)
    → wait pool ≡ woken
    → count is_idle pool.slots ≡ 0
    → ((p : DbPool) → woken ≡ some p → IsValid p × IsFresh opened p)
    → (q : DbPool) × ((q ≡ pool) ⊎ (wait pool ≡ some q))
      × Answers opened wait q (search_again opened pool woken)
search_again-Answers opened wait pool none e z h = (pool, inl refl, (refl, inr (z, inl (refl, e))))
search_again-Answers opened wait pool (some q) e z h = (
  q,
  inr e,
  elim (find_index-cases is_idle q.slots) [
    | inl (n, c) ↦ rw (n, search_again) (refl, inr (c, inr refl))
    | inr (i, slot, n, g, t) ↦
        rw (n, search_again) (take_slot-Answers opened wait q i slot (h q refl).0 (h q refl).1 g t)
  ],
)

-- From a valid pool, with waits that leave it valid and handles that are new when they are opened,
-- a connection that is given out was held by nobody, and then has one holder more, while those of
-- the others stay the same; the pool is valid again. A refusal leaves the pool as it was: the
-- connection could not be opened, or each was in use, and the wait timed out or found none idle.
-- The pool that is meant is the one before the call, or the one after the wait.
pub db_get_connection-Answers :
    (opened : Option ℕ) (wait : DbPool → Option DbPool) (pool : DbPool)
    → IsValid pool
    → IsFresh opened pool
    → ((p : DbPool) → wait pool ≡ some p → IsValid p × IsFresh opened p)
    → (q : DbPool) × ((q ≡ pool) ⊎ (wait pool ≡ some q))
      × Answers opened wait q (db_get_connection opened wait pool)
unfolding db_get_connection
db_get_connection-Answers opened wait pool v f h = elim (find_index-cases is_idle pool.slots) [
  | inl (n, c) ↦
      let l = search-idle pool v c in
      rw (n, l, db_get_connection, search)
        (search_again-Answers opened wait pool (wait pool) refl c h)
  | inr (i, slot, n, g, t) ↦
      rw (n, db_get_connection, search)
        (pool, inl refl, take_slot-Answers opened wait pool i slot v f g t)
]
