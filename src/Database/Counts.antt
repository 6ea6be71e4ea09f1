-- ===== src/Database/Counts.antt =====
-- The slots of the pool of server/src/database.c, counted: what makes a pool valid.
use chatweb.Base.{
  ℕ, zero, suc, ◌+◌, ◌≤◌, ◌≡◌, refl, ap, Bool, true, false, ◌&&◌, none, some, List, [], ◌∷◌, arith,
  length, set, get_elem?, Bool-cases, ◌⊎◌, inl, inr,
}
use chatweb.Database.{Slot, DbPool, max_connections, is_idle, is_open, is_null, owns, find_index}

abbrev pub one_if : Bool → ℕ
one_if true = 1
one_if false = 0

-- How many slots pass a test.
abbrev pub count : (Slot → Bool) → List Slot → ℕ
count test [] = 0
count test (slot ∷ slots) = one_if (test slot) + count test slots

-- The slots that are in use with a handle, and without one.
abbrev pub holds : ℕ → Slot → Bool
holds handle slot = slot.in_use && owns handle slot

abbrev pub is_lost : Slot → Bool
is_lost slot = slot.in_use && is_null slot

-- Each handle stands in one slot, every slot in use has one, and the open slots are counted.
pub record IsValid (pool : DbPool) : Type 0 where
  pub unique : (handle : ℕ) → count (owns handle) pool.slots ≤ 1
  pub present : count is_lost pool.slots ≡ 0
  pub counted : pool.active_count ≡ count is_open pool.slots
  pub bounded : length pool.slots ≤ max_connections

pub count-set :
    (test : Slot → Bool) (slots : List Slot) (i : ℕ) (old slot : Slot)
    → get_elem? slots i ≡ some old
    → count test (set slots i slot) + one_if (test old) ≡ count test slots + one_if (test slot)
count-set test [] i old slot e = absurd (ground (arith, e))
count-set test (s ∷ slots) zero old slot e =
    let k : s ≡ old = ground (arith, e) in
    let t : one_if (test s) ≡ one_if (test old) = ap (λ x. one_if (test x)) k in omega arith
count-set test (s ∷ slots) (suc i) old slot e = omega (arith, count-set test slots i old slot e)

-- The first slot that passes a test, or none does.
pub find_index-cases :
    (test : Slot → Bool) (slots : List Slot)
    → ((find_index test slots ≡ none) × (count test slots ≡ 0))
      ⊎ ((i : ℕ) × (slot : Slot) × (find_index test slots ≡ some i)
          × (get_elem? slots i ≡ some slot)
          × (test slot ≡ true))
unfolding find_index
find_index-cases test [] = inl (refl, refl)
find_index-cases test (s ∷ slots) = elim (Bool-cases (test s)) [
  | inl t ↦ inr (0, s, rw t refl, refl, t)
  | inr t ↦ elim (find_index-cases test slots) [
    | inl (e, c) ↦ inl (rw (t, e, find_index) refl, rw t (omega (arith, c)))
    | inr (i, slot, e, g, u) ↦ inr (suc i, slot, rw (t, e, find_index) refl, g, u)
  ]
]

pub count-get :
    (test : Slot → Bool) (slots : List Slot) (i : ℕ) (slot : Slot)
    → get_elem? slots i ≡ some slot
    → one_if (test slot) ≤ count test slots
count-get test [] i slot e = absurd (ground (arith, e))
count-get test (s ∷ slots) zero slot e =
    let k : s ≡ slot = ground (arith, e) in
    let t : one_if (test s) ≡ one_if (test slot) = ap (λ x. one_if (test x)) k in omega arith
count-get test (s ∷ slots) (suc i) slot e = omega (arith, count-get test slots i slot e)

-- The slots of a handle are in use or idle.
pub count-holds :
    (handle : ℕ) (slots : List Slot)
    → count (holds handle) slots + count (λ s. is_idle s && owns handle s) slots
      ≡ count (owns handle) slots
count-holds handle [] = refl
count-holds handle (s ∷ slots) = elim (Bool-cases s.in_use) [
  | inl t ↦ rw t (omega (arith, count-holds handle slots))
  | inr t ↦ rw t (omega (arith, count-holds handle slots))
]
