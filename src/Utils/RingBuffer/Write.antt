-- ===== src/Utils/RingBuffer/Write.antt =====
-- ring_buffer_write against the bytes that the buffer holds.
use native.Mathlib.Nat.{mod-eq_of_lt, mod-add-mod, mod-lt}
use chatweb.Base.{
  ℕ, zero, suc, ◌+◌, ◌-◌, ◌%◌, ◌^◌, ◌≤◌, ◌<◌, ◌≡◌, refl, sym, ap, ap₂, ◌∙◌, inl, inr, List, [], ◌∷◌,
  ◌++◌, subst, take_all, append-nil, some, arith, length, take, drop, length-take, length-drop, min,
  ltb, ◌==◌, if◌then◌else◌, false, ltb→lt, ltb→le, Bool-cases, append_assoc, take-append-drop,
  drop-append, drop-drop, length-append, drop-append_length,
}
use chatweb.Base.Memory.{splice, memcpy_to-in_bounds, length-splice, size_mod}
use chatweb.Utils.RingBuffer.{
  RingBuffer, grow_size, write_chunk, write_loop, clip, ring_buffer_write,
}
use chatweb.Utils.RingBuffer.Window.{
  window, IsValid, contents, window-add, window-splice_before, window-splice_self, length-window,
}

-- The state after the chunk `src` was put at the head, without the wrap of size_t.
abbrev put_chunk : RingBuffer → List ℕ → RingBuffer
put_chunk rb src =
    let n = length src in
    if ltb rb.capacity (rb.size + n)
    then record rb {
      buffer = splice rb.buffer rb.head src;
      head = (rb.head + n) % rb.capacity;
      tail = (rb.tail + (rb.size + n - rb.capacity)) % rb.capacity;
      size = rb.capacity;
    }
    else record rb {
      buffer = splice rb.buffer rb.head src;
      head = (rb.head + n) % rb.capacity;
      size = rb.size + n;
    }

abbrev chunk_size : RingBuffer → List ℕ → ℕ
chunk_size rb rest = min (length rest) (rb.capacity - rb.head)

grow_size_lem :
    (rb : RingBuffer) (n : ℕ)
    → rb.tail < rb.capacity
    → rb.size ≤ rb.capacity
    → rb.capacity < 2 ^ 63
    → n ≤ rb.capacity
    → grow_size rb n
      ≡ some (
          if ltb rb.capacity (rb.size + n)
          then record rb {
            tail = (rb.tail + (rb.size + n - rb.capacity)) % rb.capacity;
            size = rb.capacity;
          }
          else record rb { size = rb.size + n })
unfolding grow_size
grow_size_lem rb n ht hs hc h =
    let a : (rb.size + n) % size_mod ≡ rb.size + n = omega arith in
    rw a (elim (Bool-cases (ltb rb.capacity (rb.size + n))) [
      | inl over ↦
          let b : (rb.size + n + size_mod - rb.capacity % size_mod) % size_mod
              ≡ rb.size + n - rb.capacity =
            omega (arith, ltb→lt _ _ over) in
          let c : (rb.tail + (rb.size + n - rb.capacity)) % size_mod
              ≡ rb.tail + (rb.size + n - rb.capacity) =
            omega arith in
          rw (over, b, c) (ground arith)
      | inr fits ↦ rw fits
    ])

if-min : (a b : ℕ) → (if ltb a b then a else b) ≡ min a b
if-min a b = ground arith

module _ (rb : RingBuffer) (v : IsValid rb) where
  head_in : rb.head < rb.capacity
  head_in = rw v.head_at (mod-lt (rb.tail + rb.size) v.nonempty)

  -- The size of the chunk of a round, and what it does not exceed.
  chunk_bounds :
      (rest : List ℕ)
      → let n = length (take (chunk_size rb rest) rest) in
        (n ≡ chunk_size rb rest) × (rb.head + n ≤ rb.capacity) × (n ≤ length rest)
  chunk_bounds rest =
      let l = length-take (chunk_size rb rest) rest in
      let h = head_in in (omega arith, omega arith, omega arith)

  write_chunk_lem :
      (rest : List ℕ)
      → write_chunk rb rest
        ≡ some (put_chunk rb (take (chunk_size rb rest) rest), drop (chunk_size rb rest) rest)
  unfolding write_chunk
  write_chunk_lem rest =
      let h = head_in in
      let n = chunk_size rb rest in
      let (b0, b1, b2) = chunk_bounds rest in
      let a : (rb.capacity + size_mod - rb.head % size_mod) % size_mod ≡ rb.capacity - rb.head =
        omega arith in
      let c : (rb.head + n) % size_mod ≡ rb.head + n = omega arith in
      let rb' : RingBuffer = record rb {
        buffer = splice rb.buffer rb.head (take n rest);
        head = (rb.head + n) % rb.capacity;
      } in
      let nz : (rb.capacity == 0) ≡ false = let z = v.nonempty in ground arith in
      rw
        (
          a,
          if-min,
          memcpy_to-in_bounds rb.buffer rb.head (take n rest) (omega arith),
          c,
          nz,
          grow_size_lem rb' n v.tail_in v.size_in v.small (omega arith),
          b0,
        )
        (elim (Bool-cases (ltb rb.capacity (rb.size + n))) [
          | inl over ↦ rw over
          | inr fits ↦ rw fits
        ])

  -- Dropping the `a` oldest bytes makes room for the chunk.
  window-put :
      (src : List ℕ) (a : ℕ)
      → rb.head + length src ≤ rb.capacity
      → a ≤ rb.size
      → rb.size - a + length src ≤ rb.capacity
      → window
          (splice rb.buffer rb.head src)
          rb.capacity
          ((rb.tail + a) % rb.capacity)
          (rb.size - a + length src)
        ≡ drop a (contents rb ++ src)
  window-put src a h ha hr =
      let buf = splice rb.buffer rb.head src in
      let t = (rb.tail + a) % rb.capacity in
      let ht : t < rb.capacity = mod-lt (rb.tail + a) v.nonempty in
      let at_head : (t + (rb.size - a)) % rb.capacity ≡ rb.head =
        mod-add-mod (rb.tail + a) rb.capacity (rb.size - a)
        ∙ ap (λ k. k % rb.capacity) {x = rb.tail + a + (rb.size - a)} (omega arith)
        ∙ sym v.head_at in
      let old : contents rb
          ≡ window rb.buffer rb.capacity rb.tail a ++ window rb.buffer rb.capacity t (rb.size - a) =
        ap (window rb.buffer rb.capacity rb.tail) {y = a + (rb.size - a)} (omega arith)
        ∙ window-add rb.buffer rb.capacity rb.tail a (rb.size - a) v.tail_in in
      let dropped : drop a (contents rb ++ src)
          ≡ window rb.buffer rb.capacity t (rb.size - a) ++ src =
        drop-append a (contents rb) src
          (omega (arith, length-window rb.buffer rb.capacity rb.tail rb.size))
        ∙ ap (λ xs. drop a xs ++ src) old
        ∙ ap (λ xs. xs ++ src) (drop_window a (window rb.buffer rb.capacity t (rb.size - a))) in
      window-add buf rb.capacity t (rb.size - a) (length src) ht
      ∙ ap₂ ◌++◌
          (window-splice_before rb.buffer rb.capacity src rb.head t (rb.size - a) v.storage ht h hr
            (sym at_head))
          (ap (λ i. window buf rb.capacity i (length src)) at_head
            ∙ window-splice_self rb.buffer rb.capacity src rb.head v.storage h)
      ∙ sym dropped
    where
      drop_window :
          (a : ℕ) (rest : List ℕ) → drop a (window rb.buffer rb.capacity rb.tail a ++ rest) ≡ rest
      drop_window a rest =
          subst (λ k. drop k (window rb.buffer rb.capacity rb.tail a ++ rest) ≡ rest)
            (length-window rb.buffer rb.capacity rb.tail a)
            (drop-append_length (window rb.buffer rb.capacity rb.tail a) rest)

  contents-put :
      (src : List ℕ)
      → rb.head + length src ≤ rb.capacity
      → contents (put_chunk rb src) ≡ drop (rb.size + length src - rb.capacity) (contents rb ++ src)
  contents-put src h = elim (Bool-cases (ltb rb.capacity (rb.size + length src))) [
    | inl over ↦
        let o = ltb→lt _ _ over in
        let a : ℕ = rb.size + length src - rb.capacity in
        rw over (
          ap (window (splice rb.buffer rb.head src) rb.capacity ((rb.tail + a) % rb.capacity))
            {y = rb.size - a + length src} (omega arith)
          ∙ window-put src a h (omega arith) (omega arith))
    | inr fits ↦
        let f = ltb→le _ _ fits in
        let z : (rb.tail + 0) % rb.capacity ≡ rb.tail =
          ap (λ k. k % rb.capacity) {x = rb.tail + 0} (omega arith) ∙ mod-eq_of_lt v.tail_in in
        let nothing : rb.size + length src - rb.capacity ≡ 0 = omega arith in
        rw (fits, nothing)
          (ap₂ (window (splice rb.buffer rb.head src) rb.capacity) {u = rb.size + length src}
              (sym z) (omega arith)
            ∙ window-put src 0 h (omega arith) (omega arith))
  ]

  put-IsValid : (src : List ℕ) → rb.head + length src ≤ rb.capacity → IsValid (put_chunk rb src)
  put-IsValid src h =
      let n = length src in
      let cap = rb.capacity in
      let stored : length (splice rb.buffer rb.head src) ≡ cap =
        length-splice rb.buffer rb.head src (rw v.storage h) ∙ v.storage in
      let moved : (rb.head + n) % cap ≡ (rb.tail + rb.size + n) % cap =
        ap (λ k. (k + n) % cap) v.head_at ∙ mod-add-mod (rb.tail + rb.size) cap n in
      elim (Bool-cases (ltb cap (rb.size + n))) [
        | inl over ↦
            let o = ltb→lt _ _ over in
            rw over (record {
              storage = stored;
              nonempty = v.nonempty;
              small = v.small;
              tail_in = mod-lt (rb.tail + (rb.size + n - cap)) v.nonempty;
              size_in = omega arith;
              head_at =
                  moved
                  ∙ ap (λ k. k % cap) {y = rb.tail + (rb.size + n - cap) + cap} (omega arith)
                  ∙ sym (mod-add-mod (rb.tail + (rb.size + n - cap)) cap cap);
            })
        | inr fits ↦
            let f = ltb→le _ _ fits in
            rw fits (record {
              storage = stored;
              nonempty = v.nonempty;
              small = v.small;
              tail_in = v.tail_in;
              size_in = f;
              head_at = moved ∙ ap (λ k. k % cap) {y = rb.tail + (rb.size + n)} (omega arith);
            })
      ]

put_chunk-capacity : (rb : RingBuffer) (src : List ℕ) → (put_chunk rb src).capacity ≡ rb.capacity
put_chunk-capacity rb src = ground arith

put_chunk-size :
    (rb : RingBuffer) (src : List ℕ)
    → (put_chunk rb src).size ≡ min rb.capacity (rb.size + length src)
put_chunk-size rb src = ground arith

put_chunk-overwrite : (rb : RingBuffer) (src : List ℕ) → (put_chunk rb src).overwrite ≡ rb.overwrite
put_chunk-overwrite rb src = ground arith

-- What the loop leaves: it ends, and the bytes it was given follow those held, less the oldest
-- that do not fit.
record Written (rb : RingBuffer) (src : List ℕ) (rb' : RingBuffer) : Type 0 where
  valid : IsValid rb'
  capacity : rb'.capacity ≡ rb.capacity
  overwrite : rb'.overwrite ≡ rb.overwrite
  held : contents rb' ≡ drop (rb.size + length src - rb.capacity) (contents rb ++ src)

-- Two drops of the oldest bytes, one for each chunk, are one for both.
drop_twice :
    (held c rest : List ℕ) (cap : ℕ)
    → length c ≤ cap
    → let n = length held in
      drop
        (min cap (n + length c) + length rest - cap)
        (drop (n + length c - cap) (held ++ c) ++ rest)
      ≡ drop (n + length (c ++ rest) - cap) (held ++ (c ++ rest))
drop_twice held c rest cap h =
    let n = length held in
    let a = n + length c - cap in
    let b = min cap (n + length c) + length rest - cap in
    ap (drop b) (
      sym (drop-append a (held ++ c) rest (omega (arith, length-append held c)))
      ∙ ap (drop a) (append_assoc held c rest))
    ∙ drop-drop b a (held ++ (c ++ rest))
    ∙ ap (λ k. drop k (held ++ (c ++ rest))) {y = n + length (c ++ rest) - cap}
        (omega (arith, length-append c rest))

-- A first chunk, and the rest.
Written-chunk :
    (rb : RingBuffer) (c rest : List ℕ) (rb' : RingBuffer)
    → IsValid rb
    → rb.head + length c ≤ rb.capacity
    → Written (put_chunk rb c) rest rb'
    → Written rb (c ++ rest) rb'
Written-chunk rb c rest rb' v h w =
    let n = length-window rb.buffer rb.capacity rb.tail rb.size in
    record {
      valid = w.valid;
      capacity = w.capacity ∙ put_chunk-capacity rb c;
      overwrite = w.overwrite ∙ put_chunk-overwrite rb c;
      held =
          w.held
          ∙ rw (contents-put rb v c h, put_chunk-size rb c, put_chunk-capacity rb c)
              (subst
                (λ k.
                  drop (min rb.capacity (k + length c) + length rest - rb.capacity)
                    (drop (k + length c - rb.capacity) (contents rb ++ c) ++ rest)
                  ≡ drop (k + length (c ++ rest) - rb.capacity) (contents rb ++ (c ++ rest)))
                n (drop_twice (contents rb) c rest rb.capacity (omega arith)));
    }

write_loop-Written :
    (fuel : ℕ) (rb : RingBuffer) (src : List ℕ)
    → IsValid rb
    → length src ≤ fuel
    → (rb' : RingBuffer) × (write_loop fuel rb src ≡ some rb') × Written rb src rb'
unfolding write_loop
write_loop-Written fuel rb [] v h =
    let none_lost : rb.size + 0 - rb.capacity ≡ 0 = let s = v.size_in in omega arith in
    (
      rb,
      refl,
      record {
        valid = v;
        capacity = refl;
        overwrite = refl;
        held = rw none_lost (sym (append-nil (contents rb)));
      },
    )
write_loop-Written zero rb (x ∷ rest) v h = absurd (omega arith)
write_loop-Written (suc fuel) rb (x ∷ rest) v h =
    let src : List ℕ = x ∷ rest in
    let k = chunk_size rb src in
    let (b0, b1, b2) = chunk_bounds rb v src in
    let hd = head_in rb v in
    let l = length-drop k src in
    let (rb', e, w) =
      write_loop-Written fuel (put_chunk rb (take k src)) (drop k src)
        (put-IsValid rb v (take k src) b1) (omega arith) in
    (
      rb',
      rw (write_chunk_lem rb v src) e,
      subst (λ xs. Written rb xs rb') (take-append-drop k src)
          (Written-chunk rb (take k src) (drop k src) rb' v b1 w),
    )

clip_lem :
    (rb : RingBuffer) (src : List ℕ)
    → IsValid rb
    → clip rb src ≡ (if rb.overwrite then src else take (rb.capacity - rb.size) src)
unfolding clip
clip_lem rb src v =
    let free : (rb.capacity + size_mod - rb.size % size_mod) % size_mod ≡ rb.capacity - rb.size =
      omega arith in
    rw free (ground (arith, take_all (rb.capacity - rb.size) src))

-- ring_buffer_write of any bytes into a valid buffer stays within the storage, ends, and reports
-- how many bytes it took: all of them when overwriting, and otherwise those that fit. The buffer
-- is valid again and holds the old bytes and then those taken, less the oldest beyond its capacity.
pub ring_buffer_write-contents :
    (rb : RingBuffer) (src : List ℕ)
    → IsValid rb
    → let taken = if rb.overwrite then src else take (rb.capacity - rb.size) src in
      (rb' : RingBuffer) × (ring_buffer_write rb (some src) ≡ some (length taken, rb'))
      × IsValid rb'
      × (contents rb' ≡ drop (rb.size + length taken - rb.capacity) (contents rb ++ taken))
unfolding ring_buffer_write
ring_buffer_write-contents rb src v = rw (sym (clip_lem rb src v)) (
    let (rb', e, w) = write_loop-Written (length (clip rb src)) rb (clip rb src) v (omega arith) in
    (rb', rw e, w.valid, w.held))
