-- ===== src/Utils/LinkedList/Contents.antt =====
-- The list of server/src/utils.c as a sequence.
use chatweb.Base.{
  ℕ, zero, suc, ◌≤◌, ◌^◌, ◌<◌, ◌≡◌, ◌≢◌, refl, sym, ap, true, List, [], ◌∷◌, ◌++◌, some, arith, leb,
  length, Bool-cases, inl, inr,
}
use chatweb.Utils.LinkedList.{
  Node, Memory, LinkedList, null, list_append, list_prepend, walk, list_get,
}
use chatweb.Utils.LinkedList.Chain.{Cell, Apart, IsChain, Holds}
use chatweb.Utils.LinkedList.Insert.{list_append-Holds, list_prepend-Holds}

-- What stands at an index, 0 behind the end.
abbrev pub content_at : List Cell → ℕ → ℕ
content_at [] i = 0
content_at (c ∷ cells) zero = c.content
content_at (c ∷ cells) (suc i) = content_at cells i

walk_lem :
    (memory : Memory) (before p : ℕ) (cells : List Cell) (tail i : ℕ)
    → IsChain memory before p cells tail
    → i < length cells
    → (n : Node) × (walk memory i p ≡ some n) × (n.data_ptr ≡ content_at cells i)
unfolding walk
walk_lem memory before p [] tail i h l = absurd (omega arith)
walk_lem memory before p (c ∷ cells) tail zero (next, a, z, m, d, h) l = (_, m, refl)
walk_lem memory before p (c ∷ cells) tail (suc i) (next, a, z, m, d, h) l =
    let (n, w, k) = walk_lem memory p next cells tail i h (omega arith) in (n, rw (m, walk) w, k)

content_at_end : (cells : List Cell) (i : ℕ) → length cells ≤ i → content_at cells i ≡ 0
content_at_end [] i h = refl
content_at_end (c ∷ cells) zero h = absurd (omega arith)
content_at_end (c ∷ cells) (suc i) h = content_at_end cells i (omega arith)

list_get-content_at :
    (list : LinkedList) (cells : List Cell) (i : ℕ)
    → Holds list cells
    → list_get list i ≡ some (content_at cells i)
unfolding list_get
list_get-content_at list cells i h = elim (Bool-cases (leb list.size i)) [
  | inl t ↦
      let s = h.counted in rw (t, list_get) (ap some (sym (content_at_end cells i (ground arith))))
  | inr t ↦
      let s = h.counted in
      let (n, w, k) =
        walk_lem list.memory null list.head cells list.tail i h.chain (ground arith) in
      rw (t, w, list_get) (ap some k)
]

-- A list whose nodes hold a sequence gives it back by index, and NULL behind its end. An element that is
-- appended or put in front, in a node that malloc gives, which is not null and not in the list,
-- stands behind or before the others.
pub list_append-list_get :
    (list : LinkedList) (cells : List Cell) (q data_ptr : ℕ)
    → Holds list cells
    → q ≢ null
    → Apart q cells
    → suc (length cells) < 2 ^ 64
    → let cell : Cell = record { address = q; content = data_ptr } in
      ((i : ℕ) → list_get list i ≡ some (content_at cells i))
      × ((list' : LinkedList) × (list_append (some q) list data_ptr ≡ some (true, list'))
          × Holds list' (cells ++ cell ∷ [])
          × ((i : ℕ) → list_get list' i ≡ some (content_at (cells ++ cell ∷ []) i)))
      × ((list' : LinkedList) × (list_prepend (some q) list data_ptr ≡ some (true, list'))
          × Holds list' (cell ∷ cells)
          × ((i : ℕ) → list_get list' i ≡ some (content_at (cell ∷ cells) i)))
list_append-list_get list cells q data_ptr h z a l =
    let cell : Cell = record { address = q; content = data_ptr } in
    let (list', e, h') = list_append-Holds list cells q data_ptr h z a l in
    let (list'', e', h'') = list_prepend-Holds list cells q data_ptr h z a l in
    (
      (λ i. list_get-content_at list cells i h),
      (list', e, h', λ i. list_get-content_at list' (cells ++ cell ∷ []) i h'),
      (list'', e', h'', λ i. list_get-content_at list'' (cell ∷ cells) i h''),
    )
