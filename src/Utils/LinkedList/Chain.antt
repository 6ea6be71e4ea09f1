-- ===== src/Utils/LinkedList/Chain.antt =====
-- What the lists of server/src/utils.c hold.
use chatweb.Base.{ℕ, ◌≡◌, ◌≢◌, refl, ◌∙◌, true, false, List, [], ◌∷◌, some, arith, ◌==◌, length}
use chatweb.Utils.LinkedList.{Node, Memory, LinkedList, null, put}

-- Where a node stands, and its data.
pub record Cell : Type 0 where
  pub address : ℕ
  pub content : ℕ

-- An address that is none of the cells'.
abbrev pub Apart : ℕ → List Cell → Type 0
Apart p [] = Unit {0}
Apart p (c ∷ cells) = (p ≢ c.address) × Apart p cells

-- The nodes from an address on, one behind another, each with the address of the one before it.
abbrev pub IsChain : Memory → ℕ → ℕ → List Cell → ℕ → Type 0
IsChain memory before p [] tail = (p ≡ null) × (tail ≡ before)
IsChain memory before p (c ∷ cells) tail =
    (next : ℕ) × (p ≡ c.address)
    × (p ≢ null)
    × (memory p ≡ some (record { data_ptr = c.content; next = next; prev = before }))
    × Apart p cells
    × IsChain memory p next cells tail

-- A list holds the cells, in order.
pub record Holds (list : LinkedList) (cells : List Cell) : Type 0 where
  pub chain : IsChain list.memory null list.head cells list.tail
  pub counted : list.size ≡ length cells

pub put_ne : (memory : Memory) (p q : ℕ) (n : Node) → p ≢ q → put memory p n q ≡ memory q
put_ne memory p q n h = let t : (p == q) ≡ false = ground (arith, h) in rw t refl

pub put_self : (memory : Memory) (p : ℕ) (n : Node) → put memory p n p ≡ some n
put_self memory p n = let t : (p == p) ≡ true = ground arith in rw t refl

-- A write elsewhere leaves a chain.
pub IsChain-put :
    (memory : Memory) (q : ℕ) (n : Node) (before p : ℕ) (cells : List Cell) (tail : ℕ)
    → Apart q cells
    → IsChain memory before p cells tail
    → IsChain (put memory q n) before p cells tail
IsChain-put memory q n before p [] tail a h = h
IsChain-put memory q n before p (c ∷ cells) tail a (next, e, z, m, d, h) = (
  next,
  e,
  z,
  put_ne memory q p n (λ k. a.0 (k ∙ e)) ∙ m,
  d,
  IsChain-put memory q n p next cells tail a.1 h,
)
