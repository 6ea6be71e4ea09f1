-- ===== src/Utils/RingBuffer.antt =====
-- The ring buffer of server/src/utils.c (ring_buffer_t of server/include/utils.h). An operation is
-- `none` where the C code would leave an object or divide by zero, or where the fuel runs out.
pub mod Window
pub mod Write
pub mod Read
use chatweb.Base.{
  ℕ, zero, suc, ◌+◌, ◌-◌, ◌%◌, ◌≡◌, Bool, true, false, List, [], ◌∷◌, ◌++◌, Option, none, some, ltb,
  leb, ◌==◌, if◌then◌else◌, length, take, drop,
}
use chatweb.Base.Memory.{add_size, sub_size, memcpy_to, memcpy_from}

pub record RingBuffer : Type 0 where
  pub buffer : List ℕ
  pub capacity : ℕ
  pub head : ℕ
  pub tail : ℕ
  pub size : ℕ
  pub overwrite : Bool

infixl 5 ◌>>=◌
abbrev pub ◌>>=◌ {ℓ κ} : {A : Type ℓ} {B : Type κ} → Option A → (A → Option B) → Option B
none >>= f = none
some a >>= f = f a

-- `x % capacity`, undefined at 0
abbrev pub mod_capacity : ℕ → ℕ → Option ℕ
mod_capacity x cap = if cap == 0 then none else some (x % cap)

-- The first argument says whether the first utils_malloc succeeds, the second is the storage that
-- the second one gives.
unfoldable pub ring_buffer_create : Bool → Option (List ℕ) → ℕ → Bool → Option RingBuffer
ring_buffer_create false storage capacity overwrite = none
ring_buffer_create true none capacity overwrite = none
ring_buffer_create true (some storage) capacity overwrite = some (record {
  buffer = storage;
  capacity = capacity;
  head = 0;
  tail = 0;
  size = 0;
  overwrite = overwrite;
})

-- The update of tail and size after `n` bytes were put at the head.
unfoldable pub grow_size : RingBuffer → ℕ → Option RingBuffer
grow_size rb n =
    if ltb rb.capacity (add_size rb.size n)
    then (do
      tail ← mod_capacity (add_size rb.tail (sub_size (add_size rb.size n) rb.capacity)) rb.capacity
      some (record rb { tail = tail; size = rb.capacity }))
    else some (record rb { size = add_size rb.size n })

-- One round of the loop: `rest` is what stands at `src + bytes_written`, up to `size`.
unfoldable pub write_chunk : RingBuffer → List ℕ → Option (RingBuffer × List ℕ)
write_chunk rb rest =
    let space_to_end = sub_size rb.capacity rb.head in
    let write_size = if ltb (length rest) space_to_end then length rest else space_to_end in
    do
      buffer ← memcpy_to rb.buffer rb.head (take write_size rest)
      head ← mod_capacity (add_size rb.head write_size) rb.capacity
      rb' ← grow_size (record rb { buffer = buffer; head = head }) write_size
      some (rb', drop write_size rest)

-- The loop takes a round for each chunk, so never more than there are bytes.
unfoldable pub write_loop : ℕ → RingBuffer → List ℕ → Option RingBuffer
write_loop fuel rb [] = some rb
write_loop zero rb (x ∷ rest) = none
write_loop (suc fuel) rb (x ∷ rest) = do
  (rb', rest') ← write_chunk rb (x ∷ rest)
  write_loop fuel rb' rest'

-- The bytes that a write takes: without overwriting, at most the free space.
unfoldable pub clip : RingBuffer → List ℕ → List ℕ
clip rb src =
    let free_space = sub_size rb.capacity rb.size in
    if rb.overwrite then src else if ltb free_space (length src) then take free_space src else src

-- `none` for a null pointer in `data`
unfoldable pub ring_buffer_write : RingBuffer → Option (List ℕ) → Option (ℕ × RingBuffer)
ring_buffer_write rb none = some (0, rb)
ring_buffer_write rb (some src) =
    let bytes = clip rb src in do rb' ← write_loop (length bytes) rb bytes; some (length bytes, rb')

-- The loop of read and of peek: `n` bytes from `tail` on, and the tail after them.
unfoldable pub read_loop : ℕ → RingBuffer → ℕ → ℕ → Option (List ℕ × ℕ)
read_loop fuel rb tail zero = some ([], tail)
read_loop zero rb tail (suc n) = none
read_loop (suc fuel) rb tail (suc n) =
    let space_to_end =
      if ltb tail rb.head then sub_size rb.head tail else sub_size rb.capacity tail in
    let read_size = if ltb (suc n) space_to_end then suc n else space_to_end in
    do
      chunk ← memcpy_from rb.buffer tail read_size
      tail' ← mod_capacity (add_size tail read_size) rb.capacity
      (out, end) ← read_loop fuel rb tail' (suc n - read_size)
      some (chunk ++ out, end)

abbrev pub clip_size : RingBuffer → ℕ → ℕ
clip_size rb size = if ltb rb.size size then rb.size else size

-- The bytes that go through `data`, whose pointer is not null, their number, and the new state.
unfoldable pub ring_buffer_read : RingBuffer → ℕ → Option (List ℕ × RingBuffer)
ring_buffer_read rb size = do
  let n = clip_size rb size
  (out, tail) ← read_loop n rb rb.tail n
  some (out, record rb { tail = tail; size = sub_size rb.size n })

unfoldable pub ring_buffer_peek : RingBuffer → ℕ → Option (List ℕ)
ring_buffer_peek rb size = do
  let n = clip_size rb size
  (out, _) ← read_loop n rb rb.tail n
  some out

unfoldable pub ring_buffer_available : RingBuffer → ℕ
ring_buffer_available rb = rb.size

unfoldable pub ring_buffer_free_space : RingBuffer → ℕ
ring_buffer_free_space rb = sub_size rb.capacity rb.size

unfoldable pub ring_buffer_empty : RingBuffer → Bool
ring_buffer_empty rb = rb.size == 0

unfoldable pub ring_buffer_full : RingBuffer → Bool
ring_buffer_full rb = rb.size == rb.capacity

unfoldable pub ring_buffer_clear : RingBuffer → RingBuffer
ring_buffer_clear rb = record rb { head = 0; tail = 0; size = 0 }
