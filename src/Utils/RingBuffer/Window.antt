-- ===== src/Utils/RingBuffer/Window.antt =====
-- The bytes that a ring buffer holds, oldest first, and how chunks of the storage make them up.
use native.Mathlib.Nat.{mod-eq_of_lt, mod-add-mod, mod-lt}
use chatweb.Base.{
  ℕ, zero, suc, ◌+◌, ◌%◌, ◌^◌, ◌≤◌, ◌<◌, ◌≡◌, refl, sym, ap, ap₂, ◌∙◌, ◌⊎◌, inl, inr, List, [], ◌∷◌,
  ◌++◌, arith, length, get_or, take, drop, mod_cases, drop-cons,
}
use chatweb.Base.Memory.{splice, get_or-splice_out, slice-splice, length-splice}
use chatweb.Utils.RingBuffer.{RingBuffer}

module _ (buf : List ℕ) (cap : ℕ) where
  -- `n` bytes from index `t` on, going round at `cap`
  abbrev pub window : ℕ → ℕ → List ℕ
  window t zero = []
  window t (suc n) = get_or buf t 0 ∷ window ((t + 1) % cap) n

  pub length-window : (t n : ℕ) → length (window t n) ≡ n
  length-window t zero = refl
  length-window t (suc n) = ap suc (length-window ((t + 1) % cap) n)

  pub window-add : (t k m : ℕ) → t < cap → window t (k + m) ≡ window t k ++ window ((t + k) % cap) m
  window-add t zero m h =
      let e : (t + 0) % cap ≡ t = ap (λ k. k % cap) {y = t} (omega arith) ∙ mod-eq_of_lt h in
      let f : 0 + m ≡ m = omega arith in rw (e, f)
  window-add t (suc k) m h =
      let f : suc k + m ≡ suc (k + m) = omega arith in
      let g : (t + 1 + k) % cap ≡ (t + suc k) % cap = ap (λ k. k % cap) (omega arith) in
      rw f (
        ap (◌∷◌ (get_or buf t 0)) (
          window-add ((t + 1) % cap) k m (mod-lt (t + 1) (omega arith))
          ∙ ap (λ i. window ((t + 1) % cap) k ++ window i m) (mod-add-mod (t + 1) cap k ∙ g)))

  pub window_contiguous :
      (t n : ℕ) → length buf ≡ cap → t + n ≤ cap → window t n ≡ take n (drop t buf)
  window_contiguous t zero e h = refl
  window_contiguous t (suc zero) e h = rw (drop-cons t buf 0 (omega arith))
  window_contiguous t (suc (suc n)) e h =
      let m : (t + 1) % cap ≡ suc t = mod-eq_of_lt (omega arith) ∙ omega arith in
      rw (drop-cons t buf 0 (omega arith), m)
        (ap (◌∷◌ (get_or buf t 0)) (window_contiguous (suc t) (suc n) e (omega arith)))

-- A chunk that is written where a window ends, with room for both, leaves the window as it was.
outside :
    (cap t n p m : ℕ) → t < cap → suc n + m ≤ cap → p ≡ (t + suc n) % cap → (t < p) ⊎ (p + m ≤ t)
outside cap t n p m h k e = elim (mod_cases (t + suc n) cap (omega arith)) [
  | inl (a, b) ↦ inl (omega arith)
  | inr (a, b, c) ↦ inr (omega arith)
]

pub window-splice_before :
    (buf : List ℕ) (cap : ℕ) (src : List ℕ) (p t n : ℕ)
    → length buf ≡ cap
    → t < cap
    → p + length src ≤ cap
    → n + length src ≤ cap
    → p ≡ (t + n) % cap
    → window (splice buf p src) cap t n ≡ window buf cap t n
window-splice_before buf cap src p t zero e h i j k = refl
window-splice_before buf cap src p t (suc n) e h i j k =
    let shift : ((t + 1) % cap + n) % cap ≡ (t + suc n) % cap =
      mod-add-mod (t + 1) cap n ∙ ap (λ k. k % cap) {x = t + 1 + n} (omega arith) in
    ap₂ ◌∷◌ (get_or-splice_out buf p src t 0 (omega arith) (outside cap t n p (length src) h j k)) (
      window-splice_before buf cap src p ((t + 1) % cap) n e (mod-lt (t + 1) (omega arith)) i
        (omega arith) (k ∙ sym shift))

-- The chunk itself is the window at the place where it was written.
pub window-splice_self :
    (buf : List ℕ) (cap : ℕ) (src : List ℕ) (p : ℕ)
    → length buf ≡ cap
    → p + length src ≤ cap
    → window (splice buf p src) cap p (length src) ≡ src
window-splice_self buf cap src p e h =
    window_contiguous (splice buf p src) cap p (length src)
      (length-splice buf p src (omega arith) ∙ e) h
    ∙ slice-splice buf p src (omega arith)

pub record IsValid (rb : RingBuffer) : Type 0 where
  pub storage : length rb.buffer ≡ rb.capacity
  pub nonempty : 0 < rb.capacity
  pub small : rb.capacity < 2 ^ 63
  pub tail_in : rb.tail < rb.capacity
  pub size_in : rb.size ≤ rb.capacity
  pub head_at : rb.head ≡ (rb.tail + rb.size) % rb.capacity

abbrev pub contents : RingBuffer → List ℕ
contents rb = window rb.buffer rb.capacity rb.tail rb.size
