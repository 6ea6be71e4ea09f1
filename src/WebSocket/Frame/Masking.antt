-- ===== src/WebSocket/Frame/Masking.antt =====
-- The masking of payloads in server/src/websocket_server.c.
use Prim.Native.Nat.{bit_xor}
use chatweb.Base.{
  ℕ, zero, suc, ◌%◌, ◌<◌, ◌≡◌, refl, ap₂, true, [], ◌∷◌, arith, ◌==◌, ==_iff, length, get_or, ap,
}
use chatweb.Libc.{Bytes, IsBytes, passes_below, test_passes}

-- The bytes of the uint32_t masking key as they stand in memory.
pub record Key : Type 0 where
  pub k₀ : ℕ
  pub k₁ : ℕ
  pub k₂ : ℕ
  pub k₃ : ℕ

abbrev pub key_bytes : Key → Bytes
key_bytes key = key.k₀ ∷ key.k₁ ∷ key.k₂ ∷ key.k₃ ∷ []

-- payload[i] ^= key[i % 4], from the index `i` on
unfoldable pub apply_key : Bytes → ℕ → Bytes → Bytes
apply_key key i [] = []
apply_key key i (b ∷ payload) = bit_xor b (get_or key (i % 4) 0) ∷ apply_key key (suc i) payload

pub length-apply_key :
    (key : Bytes) (i : ℕ) (payload : Bytes) → length (apply_key key i payload) ≡ length payload
unfolding apply_key
length-apply_key key i [] = refl
length-apply_key key i (b ∷ payload) = ap suc (length-apply_key key (suc i) payload)

xor_table : passes_below 256 (λ b. passes_below 256 (λ k. bit_xor (bit_xor b k) k == b)) ≡ true
unfolding passes_below
xor_table = refl

xor_twice : (b k : ℕ) → b < 256 → k < 256 → bit_xor (bit_xor b k) k ≡ b
xor_twice b k h l = (==_iff (bit_xor (bit_xor b k) k) b).0 (
    test_passes (λ k. bit_xor (bit_xor b k) k == b) 256 k
      (test_passes (λ b. passes_below 256 (λ k. bit_xor (bit_xor b k) k == b)) 256 b xor_table h) l)

get_or-below : (key : Bytes) (i : ℕ) → IsBytes key → get_or key i 0 < 256
get_or-below [] i h = omega arith
get_or-below (k ∷ key) zero h = h.0
get_or-below (k ∷ key) (suc i) h = get_or-below key i h.1

-- Masking a payload twice with one key gives it back.
pub apply_key-apply_key :
    (key : Bytes) (i : ℕ) (payload : Bytes)
    → IsBytes key
    → IsBytes payload
    → apply_key key i (apply_key key i payload) ≡ payload
unfolding apply_key
apply_key-apply_key key i [] k h = refl
apply_key-apply_key key i (b ∷ payload) k h =
    ap₂ (λ x xs. x ∷ xs) (xor_twice b (get_or key (i % 4) 0) h.0 (get_or-below key (i % 4) k))
      (apply_key-apply_key key (suc i) payload k h.1)
