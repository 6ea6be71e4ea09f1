-- ===== src/Utils/HashTable/Hash.antt =====
-- The hash functions of server/src/utils.c. A char is signed, and is widened to size_t.
use Prim.Native.Nat.{bit_xor}
use chatweb.Base.{ℕ, ◌+◌, ◌-◌, ◌*◌, ◌%◌, ◌^◌, ◌≡◌, [], ◌∷◌, arith, ltb, if◌then◌else◌}
use chatweb.Base.Memory.{size_mod}
use chatweb.Libc.{Bytes}

-- (size_t)c for a char with the bit pattern `c`
abbrev pub widen : ℕ → ℕ
widen c = if ltb c 128 then c else size_mod - 256 + c

djb2_loop : ℕ → Bytes → ℕ
djb2_loop hash [] = hash
djb2_loop hash (c ∷ s) =
    djb2_loop ((((hash * 2 ^ 5) % size_mod + hash) % size_mod + widen c) % size_mod) s

unfoldable pub hash_string_djb2 : Bytes → ℕ
unfolding djb2_loop
hash_string_djb2 key = djb2_loop 5381 key

sdbm_loop : ℕ → Bytes → ℕ
sdbm_loop hash [] = hash
sdbm_loop hash (c ∷ s) =
    sdbm_loop
      ((((widen c + (hash * 2 ^ 6) % size_mod) % size_mod + (hash * 2 ^ 16) % size_mod) % size_mod
          + size_mod
          - hash)
        % size_mod)
      s

unfoldable pub hash_string_sdbm : Bytes → ℕ
unfolding sdbm_loop
hash_string_sdbm key = sdbm_loop 0 key

fnv1a_loop : ℕ → Bytes → ℕ
fnv1a_loop hash [] = hash
fnv1a_loop hash (c ∷ s) = fnv1a_loop (bit_xor hash (widen c) * 1099511628211 % size_mod) s

unfoldable pub hash_string_fnv1a : Bytes → ℕ
unfolding fnv1a_loop
hash_string_fnv1a key = fnv1a_loop 14695981039346656037 key

-- The value of a string in base `m`, starting from `acc`, without any wrap.
abbrev pub polynomial : ℕ → ℕ → Bytes → ℕ
polynomial m acc [] = acc
polynomial m acc (c ∷ s) = polynomial m (acc * m + widen c) s

djb2_loop_lem :
    (s : Bytes) (hash acc : ℕ)
    → hash ≡ acc % size_mod
    → djb2_loop hash s ≡ polynomial 33 acc s % size_mod
unfolding djb2_loop
djb2_loop_lem [] hash acc e = e
djb2_loop_lem (c ∷ s) hash acc e =
    djb2_loop_lem s _ (acc * 33 + widen c) (let w : ℕ = widen c in omega arith)

sdbm_loop_lem :
    (s : Bytes) (hash acc : ℕ)
    → hash ≡ acc % size_mod
    → sdbm_loop hash s ≡ polynomial 65599 acc s % size_mod
unfolding sdbm_loop
sdbm_loop_lem [] hash acc e = e
sdbm_loop_lem (c ∷ s) hash acc e =
    sdbm_loop_lem s _ (acc * 65599 + widen c) (let w : ℕ = widen c in omega arith)

-- The shifts and wraps of the two loops compute the polynomials of the string in bases 33 and
-- 65599, from 5381 and from 0, modulo 2^64.
hash_string-polynomial :
    (key : Bytes)
    → (hash_string_djb2 key ≡ polynomial 33 5381 key % size_mod)
      × (hash_string_sdbm key ≡ polynomial 65599 0 key % size_mod)
unfolding hash_string_djb2 hash_string_sdbm
hash_string-polynomial key =
    (djb2_loop_lem key 5381 5381 (omega arith), sdbm_loop_lem key 0 0 (omega arith))
