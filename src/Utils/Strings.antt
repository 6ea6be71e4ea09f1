-- ===== src/Utils/Strings.antt =====
-- The string helpers of server/src/utils.c that change a string in place or test it, on strings
-- that are not null. A count stays below the range of int.
use chatweb.Base.{
  ℕ, suc, ◌+◌, ◌-◌, ◌≡◌, ◌↔◌, refl, sym, ap, ap₂, ◌∙◌, Bool, true, false, ◌&&◌, [], ◌∷◌, ◌++◌,
  arith, ltb, ◌==◌, if◌then◌else◌, length, take, drop, Bool-cases, inl, inr, take-append-drop,
  take-append_length, length-append,
}
use chatweb.Libc.{Bytes, bytes_eq, bytes_eq_iff, bytes_eq_refl, is_space, is_upper, is_lower}

unfoldable pub strltrim : Bytes → Bytes
strltrim [] = []
strltrim (c ∷ s) = let rest = strltrim s in if is_space c then rest else c ∷ s

-- The scan from the end, as a recursion from the start.
unfoldable pub strrtrim : Bytes → Bytes
strrtrim [] = []
strrtrim (c ∷ s) = let rest = strrtrim s in if is_space c && length rest == 0 then [] else c ∷ rest

-- The character behind the leading spaces is not looked at again.
unfoldable pub trim_end : Bytes → Bytes
trim_end [] = []
trim_end (c ∷ s) = c ∷ strrtrim s

unfoldable pub strtrim : Bytes → Bytes
strtrim s = trim_end (strltrim s)

abbrev pub tolower : ℕ → ℕ
tolower c = if is_upper c then c + 32 else c

abbrev pub toupper : ℕ → ℕ
toupper c = if is_lower c then c - 32 else c

unfoldable pub strlower : Bytes → Bytes
strlower [] = []
strlower (c ∷ s) = tolower c ∷ strlower s

unfoldable pub strupper : Bytes → Bytes
strupper [] = []
strupper (c ∷ s) = toupper c ∷ strupper s

unfoldable pub strstartswith : Bytes → Bytes → Bool
strstartswith s prefix =
    if ltb (length s) (length prefix) then false else bytes_eq (take (length prefix) s) prefix

unfoldable pub strendswith : Bytes → Bytes → Bool
strendswith s suffix =
    if ltb (length s) (length suffix)
    then false
    else bytes_eq (drop (length s - length suffix) s) suffix

unfoldable strcount : Bytes → ℕ → ℕ
strcount [] ch = 0
strcount (c ∷ s) ch = (if c == ch then 1 else 0) + strcount s ch

-- Trimming both ends is trimming the start and then the end.
strtrim-strrtrim : (s : Bytes) → strtrim s ≡ strrtrim (strltrim s)
unfolding strtrim strltrim strrtrim trim_end
strtrim-strrtrim [] = refl
strtrim-strrtrim (c ∷ s) = elim (Bool-cases (is_space c)) [
  | inl e ↦ rw (e, strtrim, strltrim) (strtrim-strrtrim s)
  | inr e ↦ rw (e, strtrim, strltrim) (rw (e, strrtrim) refl)
]

-- Lowering the case forgets a raised case, keeps the length, and does nothing the second time.
strlower-strupper :
    (s : Bytes)
    → (strlower (strupper s) ≡ strlower s)
      × (length (strlower s) ≡ length s)
      × (strlower (strlower s) ≡ strlower s)
unfolding strlower strupper is_upper is_lower
strlower-strupper [] = (refl, refl, refl)
strlower-strupper (c ∷ s) =
    let (a, b, d) = strlower-strupper s in
    (ap₂ (λ x y. x ∷ y) (ground arith) a, ap suc b, ap₂ (λ x y. x ∷ y) (ground arith) d)

-- A string starts with another exactly if it is that string and a rest.
strstartswith_iff :
    (s prefix : Bytes) → (strstartswith s prefix ≡ true) ↔ ((rest : Bytes) × (s ≡ prefix ++ rest))
unfolding strstartswith
strstartswith_iff s prefix = (there, back)
  where
    there : strstartswith s prefix ≡ true → (rest : Bytes) × (s ≡ prefix ++ rest)
    there h =
        let e : bytes_eq (take (length prefix) s) prefix ≡ true = ground arith in
        (
          drop (length prefix) s,
          sym (take-append-drop (length prefix) s)
              ∙ ap (λ p. p ++ drop (length prefix) s)
                  ((bytes_eq_iff (take (length prefix) s) prefix).0 e),
        )

    back : ((rest : Bytes) × (s ≡ prefix ++ rest)) → strstartswith s prefix ≡ true
    back (rest, e) =
        let l : ltb (length (prefix ++ rest)) (length prefix) ≡ false =
          ground (arith, length-append prefix rest) in
        rw (e, l, take-append_length prefix rest, strstartswith) (bytes_eq_refl prefix)

-- The occurrences in two strings are those in the strings joined.
strcount-append : (s t : Bytes) (ch : ℕ) → strcount (s ++ t) ch ≡ strcount s ch + strcount t ch
unfolding strcount
strcount-append [] t ch = omega arith
strcount-append (c ∷ s) t ch = omega (arith, strcount-append s t ch)
