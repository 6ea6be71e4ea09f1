-- ===== src/Transfer/Sessions/Chains.antt =====
-- The chains of the sessions' map in server/src/file_transfer.c, when sessions come and go.
use chatweb.Base.{
  ℕ, suc, ◌+◌, ◌%◌, ◌^◌, ◌≡◌, ◌≢◌, refl, ap, ◌∙◌, true, false, some, arith, ◌==◌, inl, inr,
  Bool-cases,
}
use chatweb.Base.Memory.{add_size, sub_size}
use chatweb.Transfer.Sessions.{
  Ptr, null, Node, Manager, Memory, update, write, write_if, with_next, with_prev, IsPtr,
  push_front, ft_hash_transfer_id, ft_add_to_session_map, ft_create_session, found, find_loop,
  ft_find_in_session_map, removed, put_removed, remove_found, unlink, ft_remove_from_session_map,
}

update_self {ℓ} : {A : Type ℓ} (f : ℕ → A) (i : ℕ) (v : A) → update f i v i ≡ v
update_self f i v = let t : (i == i) ≡ true = ground arith in rw t refl

update_ne {ℓ} : {A : Type ℓ} (f : ℕ → A) (i j : ℕ) (v : A) → i ≢ j → update f i v j ≡ f j
update_ne f i j v h = let t : (i == j) ≡ false = ground (arith, h) in rw t refl

IsPtr-update :
    (heap : Memory) (q r : Ptr) (n : Node) → IsPtr heap r → IsPtr (update heap q (some n)) r
IsPtr-update heap q r n (inl e) = inl e
IsPtr-update heap q r n (inr (k, e)) = elim (Bool-cases (q == r)) [
  | inl t ↦ inr (n, rw t refl)
  | inr t ↦ inr (k, rw t e)
]

-- A write through a pointer that is null or points to a session ends, and changes nothing else.
write_if_lem :
    (q : Ptr) (change : Node → Node) (heap : Memory)
    → IsPtr heap q
    → (heap' : Memory) × (write_if q change heap ≡ some heap')
      × ((r : Ptr) → q ≢ r → heap' r ≡ heap r)
      × ((r : Ptr) → IsPtr heap r → IsPtr heap' r)
write_if_lem q change heap (inl e) =
    let t : (q == null) ≡ true = ground (arith, e) in (heap, rw t refl, (λ r h. refl), λ r i. i)
write_if_lem q change heap (inr (n, e)) = elim (Bool-cases (q == null)) [
  | inl t ↦ (heap, rw t refl, (λ r h. refl), λ r i. i)
  | inr t ↦ (
    update heap q (some (change n)),
    rw (t, e, write) refl,
    (λ r h. update_ne heap q r (some (change n)) h),
    λ r i. IsPtr-update heap q r (change n) i,
  )
]

find_head :
    (fuel : ℕ) (heap : Memory) (id : ℕ) (a : Ptr) (n : Node)
    → a ≢ null
    → heap a ≡ some n
    → n.transfer_id ≡ id
    → find_loop (suc fuel) heap id a ≡ found a n
unfolding find_loop
find_head fuel heap id a n h e k =
    let t : (a == null) ≡ false = ground (arith, h) in
    let u : (n.transfer_id == id) ≡ true = ground (arith, k) in rw (t, e, u, find_loop) refl

-- A session that stands first in its bucket, but not in the list of active sessions, is not taken
-- out of the map by its removal: that says it has been, the count goes down, and the next search
-- finds the session again.
pub ft_remove_from_session_map-find :
    (fuel : ℕ) (m : Manager) (id : ℕ) (a : Ptr) (n before : Node)
    → m.table (ft_hash_transfer_id id) ≡ a
    → a ≢ null
    → m.heap a ≡ some n
    → n.transfer_id ≡ id
    → n.prev ≢ null
    → n.prev ≢ a
    → m.heap n.prev ≡ some before
    → IsPtr m.heap n.next
    → n.next ≢ a
    → (m' : Manager) × (ft_remove_from_session_map (suc fuel) m id ≡ removed m')
      × (m'.count ≡ sub_size m.count 1)
      × (ft_find_in_session_map (suc fuel) m' id ≡ found a n)
unfolding ft_remove_from_session_map ft_find_in_session_map unlink
ft_remove_from_session_map-find fuel m id a n before t z e k p q f i x =
    let s = find_head fuel m.heap id a n z e k in
    let b : (n.prev == null) ≡ false = ground (arith, p) in
    let heap₁ : Memory = update m.heap n.prev (some (with_next n.next before)) in
    let (heap₂, w, o, _) =
      write_if_lem n.next (with_prev n.prev) heap₁ (IsPtr-update m.heap n.prev n.next _ i) in
    let g : heap₂ a ≡ some n = o a x ∙ update_ne m.heap n.prev a _ q ∙ e in
    let m' : Manager = record m { heap = heap₂; count = sub_size m.count 1 } in
    let u : unlink m (ft_hash_transfer_id id) n ≡ some m' =
      rw (b, f, w, unlink, write) (rw b refl) in
    (
      m',
      ap (remove_found m (ft_hash_transfer_id id))
            (ap (λ c. find_loop (suc fuel) m.heap id c) t ∙ s)
          ∙ ap put_removed u,
      refl,
      ap (λ c. find_loop (suc fuel) heap₂ id c) t ∙ find_head fuel heap₂ id a n z g k,
    )

push_front_lem :
    (p first : Ptr) (heap : Memory) (n : Node)
    → heap p ≡ some n
    → first ≢ p
    → IsPtr heap first
    → (heap' : Memory) × (push_front p first heap ≡ some heap')
      × (heap' p ≡ some (record { transfer_id = n.transfer_id; next = first; prev = null }))
      × ((r : Ptr) → IsPtr heap r → IsPtr heap' r)
unfolding push_front
push_front_lem p first heap n e h i =
    let n' : Node = record { transfer_id = n.transfer_id; next = first; prev = null } in
    let heap₁ : Memory = update heap p (some n') in
    let (heap₂, w, o, k) =
      write_if_lem first (with_prev p) heap₁ (IsPtr-update heap p first n' i) in
    (
      heap₂,
      rw (e, w, push_front, write) refl,
      o p h ∙ update_self heap p (some n'),
      λ r j. k r (IsPtr-update heap p r n' j),
    )

-- A session that is created at an address of its own is found by its identifier. It stands first in
-- the list of active sessions, and behind it in its bucket stands the session that was first in that
-- list, not the one that was first in the bucket.
pub ft_create_session-find :
    (fuel : ℕ) (m : Manager) (p : Ptr) (id : ℕ)
    → p ≢ null
    → m.table (ft_hash_transfer_id id) ≢ p
    → m.active_sessions ≢ p
    → IsPtr m.heap (m.table (ft_hash_transfer_id id))
    → IsPtr m.heap m.active_sessions
    → (m' : Manager) × (ft_create_session p id m ≡ some m')
      × (ft_find_in_session_map (suc fuel) m' id
          ≡ found p (record { transfer_id = id; next = m.active_sessions; prev = null }))
      × (m'.active_sessions ≡ p)
      × (m'.count ≡ add_size m.count 1)
      × (m'.active_transfers ≡ (m.active_transfers + 1) % 2 ^ 32)
unfolding ft_create_session ft_add_to_session_map ft_find_in_session_map
ft_create_session-find fuel m p id z t a i j =
    let index = ft_hash_transfer_id id in
    let n : Node = record { transfer_id = id; next = null; prev = null } in
    let heap₀ : Memory = update m.heap p (some n) in
    let (heap₁, u, e, k) =
      push_front_lem p (m.table index) heap₀ n (update_self m.heap p (some n)) t
        (IsPtr-update m.heap p (m.table index) n i) in
    let (heap₂, v, f, _) =
      push_front_lem p m.active_sessions heap₁ _ e a
        (k m.active_sessions (IsPtr-update m.heap p m.active_sessions n j)) in
    let n' : Node = record { transfer_id = id; next = m.active_sessions; prev = null } in
    (
      record m {
        heap = heap₂;
        table = update m.table index p;
        count = add_size m.count 1;
        active_sessions = p;
        total_transfers = add_size m.total_transfers 1;
        active_transfers = (m.active_transfers + 1) % 2 ^ 32;
      },
      rw (u, v, ft_create_session, ft_add_to_session_map) refl,
      ap (λ c. find_loop (suc fuel) heap₂ id c) (update_self m.table index p)
          ∙ find_head fuel heap₂ id p n' z f refl,
      refl,
      refl,
      refl,
    )
