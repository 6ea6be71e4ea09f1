-- ===== src/Utils/RingBuffer/Read.antt =====
-- ring_buffer_read and ring_buffer_peek against the bytes that the buffer holds.
use native.Mathlib.Nat.{mod-eq_of_lt, mod-add-mod, mod-lt}
use chatweb.Base.{
  ℕ, zero, suc, ◌+◌, ◌-◌, ◌%◌, ◌≤◌, ◌<◌, ◌≡◌, sym, ap, ◌∙◌, inl, inr, List, [], ◌++◌, subst, some,
  arith, take, drop, min, ltb, ◌==◌, if◌then◌else◌, false, ltb→lt, Bool-cases, drop-append_length,
  take-append_length,
}
use chatweb.Base.Memory.{memcpy_from-in_bounds, size_mod, sub_size}
use chatweb.Utils.RingBuffer.{RingBuffer, read_loop, clip_size, ring_buffer_read, ring_buffer_peek}
use chatweb.Utils.RingBuffer.Window.{
  window, IsValid, contents, window-add, window_contiguous, length-window,
}

-- The size of a chunk that is read at `tail`, with `n` bytes to go.
abbrev read_size : RingBuffer → ℕ → ℕ → ℕ
read_size rb tail n =
    let space_to_end =
      if ltb tail rb.head then sub_size rb.head tail else sub_size rb.capacity tail in
    if ltb n space_to_end then n else space_to_end

module _ (rb : RingBuffer) (v : IsValid rb) where
  read_size_bounds :
      (tail n : ℕ)
      → tail < rb.capacity
      → let k = read_size rb tail (suc n) in (0 < k) × (k ≤ suc n) × (tail + k ≤ rb.capacity)
  read_size_bounds tail n h =
      let hd : rb.head < rb.capacity = rw v.head_at (mod-lt (rb.tail + rb.size) v.nonempty) in
      elim (Bool-cases (ltb tail rb.head)) [
        | inl e ↦
            let l = ltb→lt _ _ e in
            let s : sub_size rb.head tail ≡ rb.head - tail = omega arith in rw (e, s) (ground arith)
        | inr e ↦
            let s : sub_size rb.capacity tail ≡ rb.capacity - tail = omega arith in
            rw (e, s) (ground arith)
      ]

  read_loop_lem :
      (fuel tail n : ℕ)
      → tail < rb.capacity
      → n ≤ fuel
      → read_loop fuel rb tail n
        ≡ some (window rb.buffer rb.capacity tail n, (tail + n) % rb.capacity)
  unfolding read_loop
  read_loop_lem fuel tail zero ht h =
      ap (λ t. some ([], t))
        (sym (ap (λ k. k % rb.capacity) {y = tail} (omega arith) ∙ mod-eq_of_lt ht))
  read_loop_lem zero tail (suc n) ht h = absurd (omega arith)
  read_loop_lem (suc fuel) tail (suc n) ht h =
      let k = read_size rb tail (suc n) in
      let (b0, b1, b2) = read_size_bounds tail n ht in
      let st = v.storage in
      let c : (tail + k) % size_mod ≡ tail + k = omega arith in
      let nz : (rb.capacity == 0) ≡ false = let z = v.nonempty in ground arith in
      let split : window rb.buffer rb.capacity tail (suc n)
          ≡ take k (drop tail rb.buffer)
            ++ window rb.buffer rb.capacity ((tail + k) % rb.capacity) (suc n - k) =
        ap (window rb.buffer rb.capacity tail) {x = suc n} {y = k + (suc n - k)} (omega arith)
        ∙ window-add rb.buffer rb.capacity tail k (suc n - k) ht
        ∙ ap (λ xs. xs ++ window rb.buffer rb.capacity ((tail + k) % rb.capacity) (suc n - k))
            (window_contiguous rb.buffer rb.capacity tail k v.storage b2) in
      let end : ((tail + k) % rb.capacity + (suc n - k)) % rb.capacity
          ≡ (tail + suc n) % rb.capacity =
        mod-add-mod (tail + k) rb.capacity (suc n - k)
        ∙ ap (λ i. i % rb.capacity) {x = tail + k + (suc n - k)} (omega arith) in
      rw (
        memcpy_from-in_bounds rb.buffer tail k (omega arith),
        c,
        nz,
        read_loop_lem fuel ((tail + k) % rb.capacity) (suc n - k) (mod-lt (tail + k) v.nonempty)
            (omega arith),
        end,
        sym split,
      )

  -- A window is what is read first, and then the rest.
  contents-split :
      (n : ℕ)
      → n ≤ rb.size
      → contents rb
        ≡ window rb.buffer rb.capacity rb.tail n
          ++ window rb.buffer rb.capacity ((rb.tail + n) % rb.capacity) (rb.size - n)
  contents-split n h =
      ap (window rb.buffer rb.capacity rb.tail) {x = rb.size} {y = n + (rb.size - n)} (omega arith)
      ∙ window-add rb.buffer rb.capacity rb.tail n (rb.size - n) v.tail_in

  window-take :
      (n : ℕ) → n ≤ rb.size → window rb.buffer rb.capacity rb.tail n ≡ take n (contents rb)
  window-take n h =
      let w = window rb.buffer rb.capacity rb.tail n in
      let rest = window rb.buffer rb.capacity ((rb.tail + n) % rb.capacity) (rb.size - n) in
      sym (
        ap (take n) (contents-split n h)
        ∙ subst (λ k. take k (w ++ rest) ≡ w) (length-window rb.buffer rb.capacity rb.tail n)
            (take-append_length w rest))

  window-drop :
      (n : ℕ)
      → n ≤ rb.size
      → window rb.buffer rb.capacity ((rb.tail + n) % rb.capacity) (rb.size - n)
        ≡ drop n (contents rb)
  window-drop n h =
      let w = window rb.buffer rb.capacity rb.tail n in
      let rest = window rb.buffer rb.capacity ((rb.tail + n) % rb.capacity) (rb.size - n) in
      sym (
        ap (drop n) (contents-split n h)
        ∙ subst (λ k. drop k (w ++ rest) ≡ rest) (length-window rb.buffer rb.capacity rb.tail n)
            (drop-append_length w rest))

  clip_size-min : (n : ℕ) → clip_size rb n ≡ min n rb.size
  clip_size-min n = ground arith

  -- The state after `n` bytes are consumed is valid.
  consume-IsValid :
      (n : ℕ)
      → n ≤ rb.size
      → IsValid (record rb { tail = (rb.tail + n) % rb.capacity; size = rb.size - n })
  consume-IsValid n h = record {
    storage = v.storage;
    nonempty = v.nonempty;
    small = v.small;
    tail_in = mod-lt (rb.tail + n) v.nonempty;
    size_in = let s = v.size_in in omega arith;
    head_at =
        v.head_at
        ∙ ap (λ k. k % rb.capacity) {y = rb.tail + n + (rb.size - n)} (omega arith)
        ∙ sym (mod-add-mod (rb.tail + n) rb.capacity (rb.size - n));
  }

-- ring_buffer_read of at most `n` bytes from a valid buffer ends, stays within the storage and
-- returns the oldest min(n, size) bytes held, in order. The buffer is valid again and holds the rest.
pub ring_buffer_read-contents :
    (rb : RingBuffer) (n : ℕ)
    → IsValid rb
    → (rb' : RingBuffer) × (ring_buffer_read rb n ≡ some (take (min n rb.size) (contents rb), rb'))
      × IsValid rb'
      × (contents rb' ≡ drop (min n rb.size) (contents rb))
unfolding ring_buffer_read
ring_buffer_read-contents rb n v =
    let k = min n rb.size in
    let s = v.size_in in
    let left : sub_size rb.size k ≡ rb.size - k = omega arith in
    (
      record rb { tail = (rb.tail + k) % rb.capacity; size = rb.size - k },
      rw (
        clip_size-min rb v n,
        read_loop_lem rb v k rb.tail k v.tail_in (omega arith),
        left,
        window-take rb v k (omega arith),
      ),
      consume-IsValid rb v k (omega arith),
      window-drop rb v k (omega arith),
    )

-- ring_buffer_peek of a valid buffer returns the bytes that ring_buffer_read would, and as a
-- function of the buffer alone it changes nothing.
ring_buffer_peek-read :
    (rb : RingBuffer) (n : ℕ)
    → IsValid rb
    → (rb' : RingBuffer) × (out : List ℕ) × (ring_buffer_peek rb n ≡ some out)
      × (ring_buffer_read rb n ≡ some (out, rb'))
unfolding ring_buffer_peek ring_buffer_read
ring_buffer_peek-read rb n v =
    let k = min n rb.size in
    let e = read_loop_lem rb v k rb.tail k v.tail_in (omega arith) in
    let c = clip_size-min rb v n in
    (
      record rb { tail = (rb.tail + k) % rb.capacity; size = sub_size rb.size k },
      window rb.buffer rb.capacity rb.tail k,
      rw (c, e),
      rw (c, e),
    )
