-- ===== src/Base/Memory.antt =====
-- C objects as lists: size_t arithmetic, and memcpy into and out of an object, which is `none`
-- where it would leave the object.
use Prim.Native.Nat.{ℕ, zero, suc, ◌+◌, ◌-◌, ◌%◌, ◌^◌, ◌≤◌, ◌<◌}
use mathlib.Core.Path.{◌≡◌, refl, ap, ◌∙◌}
use mathlib.Core.Logic.{◌⊎◌, inl, inr}
use mathlib.Core.List.{List, [], ◌∷◌, ◌++◌}
use mathlib.Core.Option.{Option, none, some}
use native.Mathlib.Omega.{arith}
use chatweb.Base.Tests.{leb, if◌then◌else◌}
use chatweb.Base.Lists.{
  length, get_or, set, take, drop, length-append, length-take, length-drop, take-append_length,
  get_or-append_lt, get_or-append_le, get_or-take, get_or-drop,
}

abbrev pub size_mod : ℕ
size_mod = 2 ^ 64

-- size_t and uint64_t addition and subtraction
abbrev pub add_size : ℕ → ℕ → ℕ
add_size a b = (a + b) % size_mod

abbrev pub sub_size : ℕ → ℕ → ℕ
sub_size a b = (a + size_mod - b % size_mod) % size_mod

module _ {ℓ} {A : Type ℓ} where
  unfoldable pub splice : List A → ℕ → List A → List A
  splice dst p src = take p dst ++ (src ++ drop (p + length src) dst)

  -- memcpy(dst + p, src, length src)
  unfoldable pub memcpy_to : List A → ℕ → List A → Option (List A)
  memcpy_to dst p src = if leb (p + length src) (length dst) then some (splice dst p src) else none

  -- memcpy(out, src + p, n)
  unfoldable pub memcpy_from : List A → ℕ → ℕ → Option (List A)
  memcpy_from src p n = if leb (p + n) (length src) then some (take n (drop p src)) else none

  pub memcpy_to-in_bounds :
      (dst : List A) (p : ℕ) (src : List A)
      → p + length src ≤ length dst
      → memcpy_to dst p src ≡ some (splice dst p src)
  unfolding memcpy_to
  memcpy_to-in_bounds dst p src h = ground arith

  pub memcpy_from-in_bounds :
      (src : List A) (p n : ℕ)
      → p + n ≤ length src
      → memcpy_from src p n ≡ some (take n (drop p src))
  unfolding memcpy_from
  memcpy_from-in_bounds src p n h = ground arith

  pub length-splice :
      (dst : List A) (p : ℕ) (src : List A)
      → p + length src ≤ length dst
      → length (splice dst p src) ≡ length dst
  unfolding splice
  length-splice dst p src h = omega (
    arith,
    length-append (take p dst) (src ++ drop (p + length src) dst),
    length-append src (drop (p + length src) dst),
    length-take p dst,
    length-drop (p + length src) dst,
  )

  drop-take_append :
      (p : ℕ) (dst rest : List A) → p ≤ length dst → drop p (take p dst ++ rest) ≡ rest
  drop-take_append zero dst rest h = refl
  drop-take_append (suc p) [] rest h = absurd (omega arith)
  drop-take_append (suc p) (x ∷ dst) rest h = drop-take_append p dst rest (omega arith)

  -- What was written is read back.
  pub slice-splice :
      (dst : List A) (p : ℕ) (src : List A)
      → p + length src ≤ length dst
      → take (length src) (drop p (splice dst p src)) ≡ src
  unfolding splice
  slice-splice dst p src h =
      ap (take (length src)) (drop-take_append p dst _ (omega arith)) ∙ take-append_length src _

  -- Nothing else is changed.
  pub get_or-splice_out :
      (dst : List A) (p : ℕ) (src : List A) (i : ℕ) (d : A)
      → p + length src ≤ length dst
      → (i < p) ⊎ (p + length src ≤ i)
      → get_or (splice dst p src) i d ≡ get_or dst i d
  unfolding splice
  get_or-splice_out dst p src i d h (inl q) =
      get_or-append_lt (take p dst) _ i d (omega (arith, length-take p dst))
      ∙ get_or-take p i dst d q
  get_or-splice_out dst p src i d h (inr q) =
      get_or-append_le (take p dst) _ i d (omega (arith, length-take p dst))
      ∙ get_or-append_le src _ (i - length (take p dst)) d (omega (arith, length-take p dst))
      ∙ get_or-drop (p + length src) (i - length (take p dst) - length src) dst d
      ∙ ap (λ k. get_or dst k d) {x = p + length src + (i - length (take p dst) - length src)}
          {y = i} (omega (arith, length-take p dst))

  -- p[i] = v, in bounds, is a chunk of one element.
  pub set-splice :
      (dst : List A) (i : ℕ) (v : A) → i < length dst → set dst i v ≡ splice dst i (v ∷ [])
  unfolding splice
  set-splice [] i v h = absurd (omega arith)
  set-splice (x ∷ dst) zero v h = refl
  set-splice (x ∷ dst) (suc i) v h =
      ap (◌∷◌ x) (set-splice dst i v (omega arith))
      ∙ ap (λ k. x ∷ (take i dst ++ (v ∷ drop k (x ∷ dst)))) {x = suc (i + 1)} {y = suc i + 1}
          (omega arith)
