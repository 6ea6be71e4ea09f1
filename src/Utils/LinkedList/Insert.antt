-- ===== src/Utils/LinkedList/Insert.antt =====
-- What list_append and list_prepend of server/src/utils.c do to a list.
use chatweb.Base.{
  ℕ, suc, ◌^◌, ◌<◌, ◌≡◌, ◌≢◌, refl, sym, ap, ◌∙◌, true, false, List, [], ◌∷◌, ◌++◌, some, arith,
  ◌==◌, length, length-append,
}
use chatweb.Base.Memory.{add_size}
use chatweb.Utils.LinkedList.{
  Node, Memory, LinkedList, null, put, write, set_next, set_prev, list_append, list_prepend,
}
use chatweb.Utils.LinkedList.Chain.{Cell, Apart, IsChain, Holds, put_ne, put_self, IsChain-put}

write-some :
    (change : Node → Node) (p : ℕ) (memory : Memory) (n : Node)
    → memory p ≡ some n
    → write change p memory ≡ some (put memory p (change n))
unfolding write
write-some change p memory n e = rw (e, write) refl

pub list_prepend-Holds :
    (list : LinkedList) (cells : List Cell) (q data_ptr : ℕ)
    → Holds list cells
    → q ≢ null
    → Apart q cells
    → suc (length cells) < 2 ^ 64
    → (list' : LinkedList) × (list_prepend (some q) list data_ptr ≡ some (true, list'))
      × Holds list' (record { address = q; content = data_ptr } ∷ cells)
unfolding list_prepend
list_prepend-Holds list [] q data_ptr h z a l =
    let t : (list.head == null) ≡ true = ground (arith, h.chain.0) in
    let new : Node = record { data_ptr = data_ptr; next = list.head; prev = null } in
    (
      record { memory = put list.memory q new; head = q; tail = q; size = add_size list.size 1 },
      rw (t, list_prepend) (rw t refl),
      record {
        chain = (list.head, refl, z, put_self list.memory q new, tt, (h.chain.0, refl));
        counted = omega (arith, h.counted);
      },
    )
list_prepend-Holds list (c ∷ cells) q data_ptr h z a l =
    let (next, e, nz, m, d, ch) = h.chain in
    let t : (list.head == null) ≡ false = ground (arith, nz) in
    let new : Node = record { data_ptr = data_ptr; next = list.head; prev = null } in
    let old : Node = record { data_ptr = c.content; next = next; prev = null } in
    let memory₁ = put list.memory q new in
    let ne : q ≢ list.head = λ k. a.0 (k ∙ e) in
    let g : memory₁ list.head ≡ some old = put_ne list.memory q list.head new ne ∙ m in
    let w = write-some (set_prev q) list.head memory₁ old g in
    let memory₂ = put memory₁ list.head (set_prev q old) in
    (
      record { memory = memory₂; head = q; tail = list.tail; size = add_size list.size 1 },
      rw (t, w, list_prepend) (rw t refl),
      record {
        chain = (
          list.head,
          refl,
          z,
          put_ne memory₁ list.head q (set_prev q old) (λ k. ne (sym k))
              ∙ put_self list.memory q new,
          a,
          (
            next,
            e,
            nz,
            put_self memory₁ list.head (set_prev q old),
            d,
            IsChain-put memory₁ list.head (set_prev q old) list.head next cells list.tail d
                (IsChain-put list.memory q new list.head next cells list.tail a.1 ch),
          ),
        );
        counted = omega (arith, h.counted);
      },
    )

Apart-append :
    (p : ℕ) (cells : List Cell) (c : Cell)
    → Apart p cells
    → p ≢ c.address
    → Apart p (cells ++ c ∷ [])
Apart-append p [] c h n = (n, tt)
Apart-append p (c' ∷ cells) c h n = (h.0, Apart-append p cells c h.1 n)

-- What is apart from the cells is not the tail.
Apart-tail :
    (memory : Memory) (before p : ℕ) (c : Cell) (cells : List Cell) (tail x : ℕ)
    → IsChain memory before p (c ∷ cells) tail
    → Apart x (c ∷ cells)
    → x ≢ tail
Apart-tail memory before p c [] tail x (next, e, z, m, d, (n, k)) a = λ w. a.0 (w ∙ k ∙ e)
Apart-tail memory before p c (c' ∷ cells) tail x (next, e, z, m, d, h) a =
    Apart-tail memory p next c' cells tail x h a.1

-- The last node of a chain, and the chain with one behind it.
append-IsChain :
    (memory : Memory) (before p : ℕ) (c : Cell) (cells : List Cell) (tail q data_ptr : ℕ)
    → IsChain memory before p (c ∷ cells) tail
    → q ≢ null
    → Apart q (c ∷ cells)
    → (n : Node) × (memory tail ≡ some n)
      × (tail ≢ null)
      × IsChain
          (put
            (put memory q (record { data_ptr = data_ptr; next = null; prev = tail }))
            tail
            (set_next q n))
          before
          p
          (c ∷ (cells ++ record { address = q; content = data_ptr } ∷ []))
          q
append-IsChain memory before p c [] tail q data_ptr (next, e, z, m, d, (n, k)) qz a =
    let new : Node = record { data_ptr = data_ptr; next = null; prev = tail } in
    let last : Node = record { data_ptr = c.content; next = next; prev = before } in
    let memory₁ = put memory q new in
    let memory₂ = put memory₁ tail (set_next q last) in
    let pq : p ≢ q = λ w. a.0 (sym w ∙ e) in
    let tq : tail ≢ q = λ w. pq (sym k ∙ w) in
    (
      last,
      ap memory k ∙ m,
      (λ w. z (sym k ∙ w)),
      (
        q,
        e,
        z,
        ap memory₂ (sym k) ∙ put_self memory₁ tail (set_next q last),
        (pq, tt),
        (
          null,
          refl,
          qz,
          put_ne memory₁ tail q (set_next q last) tq
              ∙ put_self memory q new
              ∙ ap (λ j. some (record { data_ptr = data_ptr; next = null; prev = j })) k,
          tt,
          (refl, refl),
        ),
      ),
    )
append-IsChain memory before p c (c' ∷ cells) tail q data_ptr (next, e, z, m, d, h) qz a =
    let new : Node = record { data_ptr = data_ptr; next = null; prev = tail } in
    let (n, mt, tz, ch) = append-IsChain memory p next c' cells tail q data_ptr h qz a.1 in
    let qp : q ≢ p = λ w. a.0 (w ∙ e) in
    let tp : tail ≢ p = λ w. Apart-tail memory p next c' cells tail p h d (sym w) in
    (
      n,
      mt,
      tz,
      (
        next,
        e,
        z,
        put_ne (put memory q new) tail p (set_next q n) tp ∙ put_ne memory q p new qp ∙ m,
        Apart-append p (c' ∷ cells) (record { address = q; content = data_ptr }) d
            (λ w. qp (sym w)),
        ch,
      ),
    )

pub list_append-Holds :
    (list : LinkedList) (cells : List Cell) (q data_ptr : ℕ)
    → Holds list cells
    → q ≢ null
    → Apart q cells
    → suc (length cells) < 2 ^ 64
    → (list' : LinkedList) × (list_append (some q) list data_ptr ≡ some (true, list'))
      × Holds list' (cells ++ record { address = q; content = data_ptr } ∷ [])
unfolding list_append
list_append-Holds list [] q data_ptr h z a l =
    let t : (list.tail == null) ≡ true = ground (arith, h.chain.1) in
    let new : Node = record { data_ptr = data_ptr; next = null; prev = list.tail } in
    (
      record { memory = put list.memory q new; head = q; tail = q; size = add_size list.size 1 },
      rw (t, list_append) (rw t refl),
      record {
        chain = (
          null,
          refl,
          z,
          put_self list.memory q new
              ∙ ap (λ j. some (record { data_ptr = data_ptr; next = null; prev = j })) h.chain.1,
          tt,
          (refl, refl),
        );
        counted = omega (arith, h.counted);
      },
    )
list_append-Holds list (c ∷ cells) q data_ptr h z a l =
    let new : Node = record { data_ptr = data_ptr; next = null; prev = list.tail } in
    let (n, mt, tz, ch) =
      append-IsChain list.memory null list.head c cells list.tail q data_ptr h.chain z a in
    let t : (list.tail == null) ≡ false = ground (arith, tz) in
    let memory₁ = put list.memory q new in
    let qt : q ≢ list.tail = Apart-tail list.memory null list.head c cells list.tail q h.chain a in
    let w =
      write-some (set_next q) list.tail memory₁ n (put_ne list.memory q list.tail new qt ∙ mt) in
    (
      record {
        memory = put memory₁ list.tail (set_next q n);
        head = list.head;
        tail = q;
        size = add_size list.size 1;
      },
      rw (t, w, list_append) (rw t refl),
      record {
        chain = ch;
        counted = omega (
          arith,
          h.counted,
          length-append cells (record { address = q; content = data_ptr } ∷ []),
        );
      },
    )
