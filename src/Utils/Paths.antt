-- ===== src/Utils/Paths.antt =====
-- The path functions of server/src/utils.c, on paths that are not null and with memory at hand.
-- utils_path_dirname and utils_path_normalize are left out.
use chatweb.Base.{
  ℕ, suc, ◌<◌, ◌≡◌, ◌≢◌, refl, Bool, true, false, not, ◌&&◌, [], ◌∷◌, ◌++◌, Option, none, some,
  arith, ltb, ◌==◌, if◌then◌else◌, length, take, drop, Bool-cases, Option-cases, inl, inr,
  take-append-drop, append-nil, ==_iff, get_or, subst, sym,
}
use chatweb.Libc.{Bytes}

-- strrchr, as an index
unfoldable pub last_index : ℕ → Bytes → Option ℕ
last_index c [] = none
last_index c (x ∷ s) = elim (last_index c s) [
  | some i ↦ some (suc i)
  | none ↦ if x == c then some 0 else none
]

-- The last character, or the terminator.
unfoldable pub last_of : Bytes → ℕ
last_of [] = 0
last_of (x ∷ []) = x
last_of (x ∷ y ∷ s) = last_of (y ∷ s)

unfoldable pub first_of : Bytes → ℕ
first_of [] = 0
first_of (x ∷ s) = x

-- The separator is put where neither side has one, and neither is empty.
unfoldable pub path_join : Bytes → Bytes → Bytes
path_join dir file =
    if ltb 0 (length dir)
      && not (last_of dir == b'/')
      && ltb 0 (length file)
      && not (first_of file == b'/')
    then dir ++ (b'/' ∷ []) ++ file
    else dir ++ file

unfoldable pub path_basename : Bytes → Bytes
path_basename path = elim (last_index b'/' path) [
  | none ↦ path
  | some slash ↦ drop (suc slash) path
]

-- Whether the last dot stands behind the last separator.
unfoldable pub path_extension : Bytes → Bytes
path_extension path = elim (last_index b'.' path) [
  | none ↦ []
  | some dot ↦ elim (last_index b'/' path) [
    | none ↦ drop dot path
    | some slash ↦ if ltb dot slash then [] else drop dot path
  ]
]

unfoldable pub path_without_extension : Bytes → Bytes
path_without_extension path = elim (last_index b'.' path) [
  | none ↦ path
  | some dot ↦ elim (last_index b'/' path) [
    | none ↦ take dot path
    | some slash ↦ if ltb slash dot then take dot path else path
  ]
]

unfoldable pub path_is_absolute : Bytes → Bool
path_is_absolute path = first_of path == b'/'

-- The character stands at the index.
abbrev AtLast : ℕ → Bytes → Option ℕ → Type 0
AtLast c s none = Unit {0}
AtLast c s (some i) = get_or s i 0 ≡ c

last_index-AtLast : (c : ℕ) (s : Bytes) → AtLast c s (last_index c s)
unfolding last_index
last_index-AtLast c [] = tt
last_index-AtLast c (x ∷ s) = elim (Option-cases (last_index c s)) [
  | inl g ↦ elim (Bool-cases (x == c)) [
    | inl b ↦ rw (g, b, last_index) ((==_iff x c).0 b)
    | inr b ↦ rw (g, b, last_index) tt
  ]
  | inr (j, g) ↦ let h = subst (AtLast c s) g (last_index-AtLast c s) in rw (g, last_index) h
]

dot_is_no_slash :
    (path : Bytes) (dot slash : ℕ)
    → last_index b'.' path ≡ some dot
    → last_index b'/' path ≡ some slash
    → dot ≢ slash
dot_is_no_slash path dot slash e f q =
    let at_dot = subst (AtLast b'.' path) e (last_index-AtLast b'.' path) in
    let at_slash = subst (AtLast b'/' path) f (last_index-AtLast b'/' path) in
    let both : get_or path dot 0 ≡ b'/' = subst (λ k. get_or path k 0 ≡ b'/') (sym q) at_slash in
    absurd (omega arith)

-- The path without its extension, and the extension, make up the path.
path_without_extension-path_extension :
    (path : Bytes) → path_without_extension path ++ path_extension path ≡ path
unfolding path_without_extension path_extension
path_without_extension-path_extension path = elim (Option-cases (last_index b'.' path)) [
  | inl e ↦ rw (e, path_without_extension, path_extension) (append-nil path)
  | inr (dot, e) ↦ elim (Option-cases (last_index b'/' path)) [
    | inl f ↦ rw (e, f, path_without_extension, path_extension) (take-append-drop dot path)
    | inr (slash, f) ↦
        let ne = dot_is_no_slash path dot slash e f in
        elim (Bool-cases (ltb slash dot)) [
          | inl l ↦
              let g : ltb dot slash ≡ false = ground arith in
              rw (e, f, l, g, path_without_extension, path_extension) (take-append-drop dot path)
          | inr l ↦
              let g : ltb dot slash ≡ true = ground arith in
              rw (e, f, l, g, path_without_extension, path_extension) (append-nil path)
        ]
  ]
]

last_of-append : (dir : Bytes) (c : ℕ) → last_of (dir ++ (c ∷ [])) ≡ c
unfolding last_of
last_of-append [] c = refl
last_of-append (x ∷ []) c = refl
last_of-append (x ∷ y ∷ dir) c = last_of-append (y ∷ dir) c

-- Behind a directory that ends in a separator, a name without one is the base name.
last_index-append :
    (x : ℕ) (dir file : Bytes)
    → last_of (x ∷ dir) ≡ b'/'
    → last_index b'/' file ≡ none
    → last_index b'/' (x ∷ dir ++ file) ≡ some (length dir)
unfolding last_index last_of
last_index-append x [] file e n = rw (n, e) refl
last_index-append x (y ∷ dir) file e n = rw (last_index-append y dir file e n) refl

drop-append_length : (dir file : Bytes) → drop (length dir) (dir ++ file) ≡ file
drop-append_length [] file = refl
drop-append_length (x ∷ dir) file = drop-append_length dir file

basename_behind :
    (x : ℕ) (dir file : Bytes)
    → last_of (x ∷ dir) ≡ b'/'
    → last_index b'/' file ≡ none
    → path_basename (x ∷ dir ++ file) ≡ file
unfolding path_basename
basename_behind x dir file e n =
    rw (last_index-append x dir file e n, path_basename) (drop-append_length dir file)

first_of-last_index :
    (y : ℕ) (file : Bytes)
    → last_index b'/' (y ∷ file) ≡ none
    → (first_of (y ∷ file) == b'/') ≡ false
unfolding last_index first_of
first_of-last_index y file n = ground arith

-- The base name of a file joined to a directory is the file, if neither is empty and the file has no
-- separator.
path_basename-path_join :
    (dir file : Bytes)
    → 0 < length dir
    → 0 < length file
    → last_index b'/' file ≡ none
    → path_basename (path_join dir file) ≡ file
unfolding path_join
path_basename-path_join [] file h k n = absurd (omega arith)
path_basename-path_join (x ∷ dir) [] h k n = absurd (omega arith)
path_basename-path_join (x ∷ dir) (y ∷ file) h k n =
    let d : ltb 0 (length (x ∷ dir)) ≡ true = ground arith in
    let f : ltb 0 (length (y ∷ file)) ≡ true = ground arith in
    elim (Bool-cases (last_of (x ∷ dir) == b'/')) [
      | inl e ↦
          rw (d, e, path_join)
            (basename_behind x dir (y ∷ file) ((==_iff (last_of (x ∷ dir)) b'/').0 e) n)
      | inr e ↦
          let first = first_of-last_index y file n in
          rw (d, f, e, first, path_join)
            (basename_behind x (dir ++ (b'/' ∷ [])) (y ∷ file) (last_of-append (x ∷ dir) b'/') n)
    ]
