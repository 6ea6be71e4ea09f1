-- ===== src/Transfer/Sessions.antt =====
-- The lists of sessions in server/src/file_transfer.c. The chains of the map and the list of active
-- sessions go through the same two pointers of a session, so sessions stand at addresses.
pub mod Chains
use chatweb.Base.{
  ℕ, zero, suc, ◌+◌, ◌-◌, ◌%◌, ◌^◌, ◌≡◌, ◌≢◌, refl, sym, ap, ◌∙◌, Bool, true, false, Option, none,
  some, arith, ◌==◌, if◌then◌else◌, ◌⊎◌, inl, inr, Bool-cases,
}
use chatweb.Base.Memory.{add_size, sub_size}

abbrev pub Ptr : Type 0
Ptr = ℕ

abbrev pub null : Ptr
null = 0

abbrev pub hash_table_size : ℕ
hash_table_size = 101

-- What the lists use of ft_transfer_session_t.
pub record Node : Type 0 where
  pub transfer_id : ℕ
  pub next : Ptr
  pub prev : Ptr

-- ft_manager_t, as far as the lists go: the memory, the buckets and the heads.
pub record Manager : Type 0 where
  pub heap : Ptr → Option Node
  pub table : ℕ → Ptr
  pub count : ℕ
  pub active_sessions : Ptr
  pub total_transfers : ℕ
  pub active_transfers : ℕ

unfoldable pub ft_hash_transfer_id : ℕ → ℕ
ft_hash_transfer_id transfer_id = transfer_id % hash_table_size

abbrev pub update {ℓ} : {A : Type ℓ} → (ℕ → A) → ℕ → A → ℕ → A
update f i v j = if i == j then v else f j

abbrev pub Memory : Type 0
Memory = Ptr → Option Node

-- A write to a session; `none` where there is none at the address.
abbrev pub write : Ptr → (Node → Node) → Memory → Option Memory
write p change heap = elim (heap p) [
  | none ↦ none
  | some n ↦ some (update heap p (some (change n)))
]

-- A write that is made where the pointer is not null.
abbrev pub write_if : Ptr → (Node → Node) → Memory → Option Memory
write_if p change heap =
    let written = write p change heap in if p == null then some heap else written

abbrev pub with_next : Ptr → Node → Node
with_next p n = record n { next = p }

abbrev pub with_prev : Ptr → Node → Node
with_prev p n = record n { prev = p }

-- The session at `p` becomes the first of the list that starts at `first`.
unfoldable pub push_front : Ptr → Ptr → Memory → Option Memory
push_front p first heap = elim (write p (λ n. record n { next = first; prev = null }) heap) [
  | none ↦ none
  | some heap' ↦ write_if first (with_prev p) heap'
]

unfoldable pub ft_add_to_session_map : Ptr → ℕ → Manager → Option Manager
ft_add_to_session_map p transfer_id m =
    let index = ft_hash_transfer_id transfer_id in
    elim (push_front p (m.table index) m.heap) [
      | none ↦ none
      | some heap ↦
          some
            (record m { heap = heap; table = update m.table index p; count = add_size m.count 1 })
    ]

-- The lists and counters of ft_create_session, with the address and the identifier of the session.
unfoldable pub ft_create_session : Ptr → ℕ → Manager → Option Manager
ft_create_session p transfer_id m =
    let node : Node = record { transfer_id = transfer_id; next = null; prev = null } in
    elim (ft_add_to_session_map p transfer_id (record m { heap = update m.heap p (some node) })) [
      | none ↦ none
      | some m' ↦ elim (push_front p m'.active_sessions m'.heap) [
        | none ↦ none
        | some heap ↦ some (record m' {
          heap = heap;
          active_sessions = p;
          total_transfers = add_size m'.total_transfers 1;
          active_transfers = (m'.active_transfers + 1) % 2 ^ 32;
        })
      ]
    ]

pub data Found : Type 0 where
  found : Ptr → Node → Found
  absent faults endless : Found

-- The loop along a chain, on fuel.
unfoldable pub find_loop : ℕ → Memory → ℕ → Ptr → Found
find_loop zero heap transfer_id current = endless
find_loop (suc fuel) heap transfer_id current = elim (current == null) [
  | true ↦ absent
  | false ↦ elim (heap current) [
    | none ↦ faults
    | some n ↦ elim (n.transfer_id == transfer_id) [
      | true ↦ found current n
      | false ↦ find_loop fuel heap transfer_id n.next
    ]
  ]
]

unfoldable pub ft_find_in_session_map : ℕ → Manager → ℕ → Found
ft_find_in_session_map fuel m transfer_id =
    find_loop fuel m.heap transfer_id (m.table (ft_hash_transfer_id transfer_id))

pub data Removed : Type 0 where
  removed : Manager → Removed
  not_found faults endless : Removed

-- A session that was found is taken out: the bucket is changed only if nothing stands before it.
unfoldable pub unlink : Manager → ℕ → Node → Option Manager
unlink m index n =
    let before = write n.prev (with_next n.next) m.heap in
    elim (if n.prev == null then some m.heap else before) [
      | none ↦ none
      | some heap ↦ elim (write_if n.next (with_prev n.prev) heap) [
        | none ↦ none
        | some heap' ↦ some (record m {
          heap = heap';
          table = if n.prev == null then update m.table index n.next else m.table;
          count = sub_size m.count 1;
        })
      ]
    ]

abbrev pub put_removed : Option Manager → Removed
put_removed none = Removed.faults
put_removed (some m) = removed m

abbrev pub remove_found : Manager → ℕ → Found → Removed
remove_found m index (found p n) = put_removed (unlink m index n)
remove_found m index absent = not_found
remove_found m index Found.faults = Removed.faults
remove_found m index Found.endless = Removed.endless

unfoldable pub ft_remove_from_session_map : ℕ → Manager → ℕ → Removed
ft_remove_from_session_map fuel m transfer_id =
    remove_found m (ft_hash_transfer_id transfer_id) (ft_find_in_session_map fuel m transfer_id)

-- Null, or the address of a session.
abbrev pub IsPtr : Memory → Ptr → Type 0
IsPtr heap p = (p ≡ null) ⊎ ((n : Node) × (heap p ≡ some n))
