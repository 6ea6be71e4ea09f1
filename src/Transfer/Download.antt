-- ===== src/Transfer/Download.antt =====
-- A whole download through ft_download_chunk of server/src/file_transfer.c.
use native.Mathlib.Nat.{suc-mul, zero-mul, le-div_iff_mul-le, div-lt_iff_lt-mul}
use chatweb.Base.{
  ℕ, zero, suc, ◌+◌, ◌-◌, ◌*◌, ◌/◌, ◌^◌, ◌≤◌, ◌<◌, ◌≡◌, refl, sym, ap, subst, ◌∙◌, true, List, [],
  ◌∷◌, ◌++◌, Option, none, some, arith, length, take, drop, take_all, append-nil, length-append,
  append_assoc, length-take, length-drop, drop-drop, take-append-drop,
}
use chatweb.Libc.{Bytes}
use chatweb.Transfer.{Status, success, Config, Session, Files, Codec, Disk}
use chatweb.Transfer.Chunks.{
  Coded, coded, refused, chunk_length, ft_download_chunk, count_chunk, accepts_chunks,
}
use chatweb.Transfer.Process.{chunks_for, prepared, ft_prepare_download}
use chatweb.Transfer.Upload.{
  sound, three_files, IsPlain, IsSplit, concat, count_kept, count_middle, count_last,
}
use chatweb.Transfer.Reading.{download_step}

abbrev pub add_chunk :
    Bytes → Option (List Bytes × Session × Files) → Option (List Bytes × Session × Files)
add_chunk x none = none
add_chunk x (some (xs, s, files)) = some (x ∷ xs, s, files)

abbrev pub receive :
    (Session → Files → Option (List Bytes × Session × Files))
    → Coded × Session × Files
    → Option (List Bytes × Session × Files)
receive next (refused code, s, files) = none
receive next (coded x, s, files) = add_chunk x (next s files)

-- A number of chunks one after another, from an index on; `none` where one of them is refused.
abbrev pub download_all :
    Codec → Config → Disk → ℕ → ℕ → ℕ → Session → Files → Option (List Bytes × Session × Files)
download_all codec config disk now zero i s files = some ([], s, files)
download_all codec config disk now (suc n) i s files =
    receive (λ s' files'. download_all codec config disk now n (suc i) s' files')
      (ft_download_chunk codec config disk now s files i)

-- What is received: the rest of the source, in chunks, which the temporary file holds too.
unfoldable pub Received :
    ℕ → Bytes → Bytes → Bytes → Option Bytes → Option (List Bytes × Session × Files) → Type 0
Received c rest temp source local r =
    (chunks : List Bytes) × (s : Session) × (r
      ≡ some (chunks, s, three_files (temp ++ rest) local (some source)))
    × IsSplit c chunks
    × (concat chunks ≡ rest)
    × (s.status ≡ Status.verifying)
    × (s.bytes_transferred ≡ length source)

chunk_length_last :
    (config : Config) (s : Session) (i : ℕ)
    → suc i ≡ s.total_chunks
    → chunk_length config s i ≡ s.total_bytes - i * config.chunk_size
unfolding chunk_length
chunk_length_last config s i e = ground arith

chunk_length_middle :
    (config : Config) (s : Session) (i : ℕ)
    → suc i < s.total_chunks
    → chunk_length config s i ≡ config.chunk_size
unfolding chunk_length
chunk_length_middle config s i e = ground arith

IsSplit-cons :
    (c : ℕ) (x : Bytes) (chunks : List Bytes)
    → length x ≡ c
    → IsSplit c chunks
    → IsSplit c (x ∷ chunks)
IsSplit-cons c x [] e h = absurd (ground (arith, h))
IsSplit-cons c x (y ∷ chunks) e h = (e, h)

Received-cons :
    (c : ℕ) (x rest whole temp source : Bytes) (local : Option Bytes)
    (r : Option (List Bytes × Session × Files))
    → length x ≡ c
    → x ++ rest ≡ whole
    → Received c rest (temp ++ x) source local r
    → Received c whole temp source local (add_chunk x r)
unfolding Received
Received-cons c x rest whole temp source local r d e (chunks, s, f, p, q, t, b) = (
  x ∷ chunks,
  s,
  ap (add_chunk x) f
      ∙ ap (λ ys. some (x ∷ chunks, s, three_files ys local (some source)))
          (append_assoc temp x rest ∙ ap (λ ys. temp ++ ys) e),
  IsSplit-cons c x chunks d p,
  ap (λ ys. x ++ ys) q ∙ e,
  t,
  b,
)

-- `o` is where the chunk `i` starts.
download_all-Received :
    (codec : Codec) (config : Config) (room now n i o : ℕ) (s : Session) (temp source : Bytes)
    (local : Option Bytes)
    → 0 < config.chunk_size
    → config.chunk_size ≤ room
    → IsPlain s
    → accepts_chunks s.status ≡ true
    → i + suc n ≡ s.total_chunks
    → o ≡ i * config.chunk_size
    → o + n * config.chunk_size < length source
    → length source ≤ o + suc n * config.chunk_size
    → length temp ≡ o
    → s.bytes_transferred ≡ o
    → s.total_bytes ≡ length source
    → length source < 2 ^ 64
    → Received config.chunk_size (drop o source) temp source local (
        download_all codec config
          (sound room)
          now
          (suc n)
          i
          s
          (three_files temp local (some source)))
unfolding Received
download_all-Received codec config room now zero i o s temp source local z r p a t e u v k b w l =
    let x = drop o source in
    let d : length x ≡ length source - o = length-drop o source in
    let c : suc 0 * config.chunk_size ≡ config.chunk_size =
      omega (arith, suc-mul 0 config.chunk_size, zero-mul config.chunk_size) in
    let m : o < length source = omega arith in
    let j : i * config.chunk_size ≡ o = sym e in
    let f : chunk_length config s i ≡ length source - o =
      chunk_length_last config s i (omega arith) ∙ omega (arith, j) in
    let step =
      download_step codec config room now s i (length source - o) x temp source local p a
        (omega arith) f
        (ap (λ k. take (length source - o) (drop k source)) j ∙ take_all _ x (omega arith)) d
        (omega arith) (k ∙ e) in
    let (y, g) = count_last now s i (length source - o) (omega arith) (omega arith) in
    (
      x ∷ [],
      count_chunk now s i (length source - o),
      ap (receive (λ s' files'. some ([], s', files'))) step,
      (omega arith, omega arith),
      append-nil x,
      y,
      g ∙ w,
    )
download_all-Received codec config room now (suc n) i o s temp source local z r p a t e u v k b w
      l =
    let c = config.chunk_size in
    let x = take c (drop o source) in
    let rest = drop (o + c) source in
    let c' : suc (suc n) * c ≡ suc n * c + c = suc-mul (suc n) c in
    let c'' : suc n * c ≡ n * c + c = suc-mul n c in
    let d : length x ≡ c = omega (arith, length-take c (drop o source), length-drop o source) in
    let j : i * c ≡ o = sym e in
    let step =
      download_step codec config room now s i c x temp source local p a (omega arith)
        (chunk_length_middle config s i (omega arith)) (ap (λ k. take c (drop k source)) j) d r
        (k ∙ e) in
    let s' = count_chunk now s i c in
    let (y, g) = count_middle now s i c (omega arith) (omega arith) in
    let (w', _, t', p') = count_kept now s i c p in
    let ih =
      download_all-Received codec config room now n (suc i) (o + c) s' (temp ++ x) source local z r
        p' (ap accepts_chunks y ∙ a) (omega arith) (omega (arith, suc-mul i c)) (omega arith)
        (omega arith) (omega (arith, length-append temp x)) (omega arith) (w' ∙ w) l in
    let join : x ++ rest ≡ drop o source =
      ap (λ ys. x ++ ys) (sym (drop-drop c o source)) ∙ take-append-drop c (drop o source) in
    subst (Received c (drop o source) temp source local)
      (sym (
        ap
          (receive
            (λ s'' files'. download_all codec config (sound room) now (suc n) (suc i) s'' files'))
          step))
      (Received-cons c x rest (drop o source) temp source local _ d join ih)

-- How many chunks there are.
chunks_for_lem :
    (config : Config) (l : ℕ)
    → 0 < config.chunk_size
    → 0 < l
    → (l + config.chunk_size - 1) / config.chunk_size < 2 ^ 32
    → (n : ℕ) × (chunks_for config l ≡ suc n)
      × (n * config.chunk_size < l)
      × (l ≤ suc n * config.chunk_size)
chunks_for_lem config l z p h =
    let c = config.chunk_size in
    let t = (l + c - 1) / c in
    let a : t * c ≤ l + c - 1 = (le-div_iff_mul-le {x = t} {y = l + c - 1} z).0 (omega arith) in
    let b : l + c - 1 < suc t * c =
      (div-lt_iff_lt-mul {x = l + c - 1} {y = suc t} z).0 (omega arith) in
    let q : suc t * c ≡ t * c + c = suc-mul t c in
    let d : 0 < t =
      (le-div_iff_mul-le {x = 1} {y = l + c - 1} z).1 (omega (arith, suc-mul 0 c, zero-mul c)) in
    let e : t ≡ suc (t - 1) = omega arith in
    let f : suc (t - 1) * c ≡ (t - 1) * c + c = suc-mul (t - 1) c in
    let g : t * c ≡ suc (t - 1) * c = ap (λ k. k * c) e in
    (t - 1, omega arith, omega arith, omega arith)

-- A download of a file that is not empty, into a session that is neither encrypted nor compressed,
-- on a disk that takes what is written: after its preparation as many chunks are read as the session
-- counts. They are the file, cut into chunks of the configured size, the last of which may be
-- shorter; the temporary file is a copy, every byte is counted, and the session waits for its check.
pub ft_download_chunk_completes :
    (codec : Codec) (config : Config) (room now : ℕ) (s : Session) (source : Bytes)
    (temp local : Option Bytes)
    → 0 < config.chunk_size
    → config.chunk_size ≤ room
    → IsPlain s
    → s.bytes_transferred ≡ 0
    → 0 < length source
    → length source < 2 ^ 63
    → (length source + config.chunk_size - 1) / config.chunk_size < 2 ^ 32
    → (s₀ : Session) × (ft_prepare_download config
          (sound room)
          now
          s
          (record { temp_file = temp; local_file = local; remote_file = some source })
        ≡ (success, s₀, three_files [] local (some source)))
      × Received config.chunk_size source [] source local (
          download_all codec config
            (sound room)
            now
            s₀.total_chunks
            0
            s₀
            (three_files [] local (some source)))
unfolding ft_prepare_download
ft_download_chunk_completes codec config room now s source temp local z r p b l u h =
    let s₀ = prepared config now s (length source) in
    let (n, t, v, w) = chunks_for_lem config (length source) z l h in
    (
      s₀,
      refl,
      subst
          (λ k. Received config.chunk_size source [] source local (
            download_all codec config (sound room) now k 0 s₀ (three_files [] local (some source))))
          (sym t)
          (download_all-Received codec config room now n 0 0 s₀ [] source local z r
            (record { open_text = p.open_text; full_length = p.full_length }) refl
            (omega (arith, t)) (omega (arith, zero-mul config.chunk_size)) (omega arith)
            (omega arith) refl b refl (omega arith)),
    )
