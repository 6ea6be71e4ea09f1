-- ===== src/Transfer/Retries.antt =====
-- What ft_upload_chunk of server/src/file_transfer.c does when a chunk cannot be written, and when one
-- comes twice.
use chatweb.Base.{
  ℕ, zero, suc, ◌+◌, ◌-◌, ◌*◌, ◌^◌, ◌≤◌, ◌<◌, ◌≡◌, refl, sym, ap, ◌∙◌, true, false, [], ◌∷◌, ◌++◌,
  Option, arith, leb, ◌==◌, length, min, drop, take_all, drop_all, append-nil, length-append,
  take-append_length,
}
use chatweb.Base.Memory.{splice}
use chatweb.Libc.{Bytes}
use chatweb.Transfer.{Status, ErrorCode, success, io, Config, Session, Files, Codec, Disk}
use chatweb.Transfer.Chunks.{
  write_at, ft_write_chunk, ft_upload_chunk, count_chunk, fail_chunk, accepts_chunks,
}
use chatweb.Transfer.Upload.{sound, three_files, IsPlain, decode_chunk-plain}

-- A disk on which no file opens.
abbrev pub broken : Disk
broken = record { opens = false; seeks = true; memory = true; room = 0 }

-- The session after a number of tries to upload a chunk to it.
abbrev pub try_times : Codec → Config → ℕ → Files → ℕ → Bytes → ℕ → Session → Session
try_times codec config now files i x zero s = s
try_times codec config now files i x (suc n) s =
    try_times codec config now files i x n (ft_upload_chunk codec config broken now s files i x).1

broken_step :
    (codec : Codec) (config : Config) (now : ℕ) (files : Files) (i : ℕ) (x : Bytes) (s : Session)
    → accepts_chunks s.status ≡ true
    → i < s.total_chunks
    → 0 < length x
    → ft_upload_chunk codec config broken now s files i x ≡ (io, fail_chunk config s i, files)
unfolding ft_upload_chunk ft_write_chunk
broken_step codec config now files i x s a t l =
    let z : (length x == 0) ≡ false = ground arith in
    let b : leb s.total_chunks i ≡ false = ground arith in
    rw (z, a, b, ft_upload_chunk, ft_write_chunk) refl

fail_chunk_retry :
    (config : Config) (s : Session) (i : ℕ)
    → s.retry_count < config.max_retries
    → config.max_retries < 2 ^ 32
    → ((fail_chunk config s i).status ≡ s.status)
      × ((fail_chunk config s i).retry_count ≡ s.retry_count + 1)
      × ((fail_chunk config s i).total_chunks ≡ s.total_chunks)
unfolding fail_chunk
fail_chunk_retry config s i h l = (ground arith, ground arith, ground arith)

fail_chunk_last :
    (config : Config) (s : Session) (i : ℕ)
    → config.max_retries ≤ s.retry_count
    → (fail_chunk config s i).status ≡ Status.failed
unfolding fail_chunk
fail_chunk_last config s i h = ground arith

-- While no file opens, a session that takes chunks goes on taking them for as many tries as it has
-- retries left, and one try more makes it failed: no session is tried for ever.
pub ft_upload_chunk_ends :
    (codec : Codec) (config : Config) (now : ℕ) (files : Files) (i : ℕ) (x : Bytes) (n : ℕ)
    (s : Session)
    → config.max_retries < 2 ^ 32
    → accepts_chunks s.status ≡ true
    → i < s.total_chunks
    → 0 < length x
    → s.retry_count + n ≡ config.max_retries
    → ((try_times codec config now files i x n s).status ≡ s.status)
      × ((try_times codec config now files i x (suc n) s).status ≡ Status.failed)
ft_upload_chunk_ends codec config now files i x zero s m a t l e = (
  refl,
  ap (λ (r : ErrorCode × Session × Files). r.1.status)
        (broken_step codec config now files i x s a t l)
      ∙ fail_chunk_last config s i (omega arith),
)
ft_upload_chunk_ends codec config now files i x (suc n) s m a t l e =
    let b = broken_step codec config now files i x s a t l in
    let (f, g, h) = fail_chunk_retry config s i (omega arith) m in
    let ih =
      ft_upload_chunk_ends codec config now files i x n (fail_chunk config s i) m
        (ap accepts_chunks f ∙ a) (omega arith) l (omega arith) in
    let u = λ (k : ℕ).
      ap (λ (r : ErrorCode × Session × Files). (try_times codec config now files i x k r.1).status)
        b in
    (u n ∙ ih.0 ∙ f, u (suc n) ∙ ih.1)

write_at_again :
    (front : Bytes) (b : ℕ) (x : Bytes)
    → write_at (front ++ (b ∷ x)) (length front) (b ∷ x) ≡ front ++ (b ∷ x)
unfolding write_at splice
write_at_again front b x =
    let l = length-append front (b ∷ x) in
    let z : length front - length (front ++ (b ∷ x)) ≡ 0 = omega arith in
    let d : drop (length front + suc (length x)) (front ++ (b ∷ x)) ≡ [] =
      drop_all _ (front ++ (b ∷ x)) (omega arith) in
    rw (z, append-nil (front ++ (b ∷ x)), take-append_length front (b ∷ x), d, append-nil x) refl

ft_write_chunk_again :
    (codec : Codec) (config : Config) (room : ℕ) (s : Session) (i b : ℕ) (x front : Bytes)
    (local remote : Option Bytes)
    → IsPlain s
    → length (b ∷ x) ≤ room
    → length front ≡ i * config.chunk_size
    → ft_write_chunk codec config
        (sound room)
        s
        (three_files (front ++ (b ∷ x)) local remote)
        i
        (b ∷ x)
      ≡ (success, three_files (front ++ (b ∷ x)) local remote)
unfolding ft_write_chunk
ft_write_chunk_again codec config room s i b x front local remote p r o =
    let d = decode_chunk-plain codec (sound room) s (b ∷ x) p in
    let m : min room (suc (length x)) ≡ suc (length x) = omega arith in
    let t : (suc (length x) == suc (length x)) ≡ true = ground arith in
    rw
      (
        d,
        m,
        t,
        take_all (length x) x (omega arith),
        sym o,
        write_at_again front b x,
        ft_write_chunk,
      )
      refl

-- Bytes are counted, not chunks: when the last chunk that was written comes a second time, the file
-- stays as it is, and if its length makes up for what is missing in the count, the session goes to
-- its check with a file that is too short.
ft_upload_chunk_again :
    (codec : Codec) (config : Config) (room now : ℕ) (s : Session) (i b : ℕ) (x front : Bytes)
    (local remote : Option Bytes)
    → IsPlain s
    → accepts_chunks s.status ≡ true
    → i < s.total_chunks
    → length (b ∷ x) ≤ room
    → length front ≡ i * config.chunk_size
    → s.bytes_transferred + length (b ∷ x) < 2 ^ 64
    → length (front ++ (b ∷ x)) < s.total_bytes
    → s.total_bytes ≤ s.bytes_transferred + length (b ∷ x)
    → (s' : Session) × (ft_upload_chunk codec config
          (sound room)
          now
          s
          (three_files (front ++ (b ∷ x)) local remote)
          i
          (b ∷ x)
        ≡ (success, s', three_files (front ++ (b ∷ x)) local remote))
      × (s'.status ≡ Status.verifying)
      × (length (front ++ (b ∷ x)) < s'.total_bytes)
unfolding ft_upload_chunk count_chunk
ft_upload_chunk_again codec config room now s i b x front local remote p a t r o l u v =
    let w = ft_write_chunk_again codec config room s i b x front local remote p r o in
    let c : leb s.total_chunks i ≡ false = ground arith in
    let z : (suc (length x) == 0) ≡ false = ground arith in
    (
      count_chunk now s i (length (b ∷ x)),
      rw (w, z, a, c, ft_upload_chunk)
          (ap (λ r. (success, count_chunk now s i (length (b ∷ x)), r.1)) w),
      ground arith,
      u,
    )
