-- ===== src/Transfer/Upload.antt =====
-- A whole upload through ft_upload_chunk of server/src/file_transfer.c, chunk by chunk, and what the
-- manager's thread makes of it.
use native.Mathlib.Nat.{suc-mul}
use chatweb.Base.{
  ℕ, suc, ◌+◌, ◌-◌, ◌*◌, ◌^◌, ◌≤◌, ◌<◌, ◌≡◌, min, refl, sym, ap, ◌∙◌, true, false, List, [], ◌∷◌,
  ◌++◌, Option, none, some, arith, leb, ◌==◌, length, drop, take_all, drop_all, append-nil,
  length-append, append_assoc,
}
use chatweb.Base.Memory.{splice}
use chatweb.Libc.{Bytes}
use chatweb.Transfer.{Status, ErrorCode, success, Config, Session, Files, Codec, Disk}
use chatweb.Transfer.Chunks.{
  write_at, decode_chunk, coded, ft_write_chunk, ft_upload_chunk, count_chunk, accepts_chunks,
}

-- A disk on which everything goes well, for writes of up to a number of bytes.
abbrev pub sound : ℕ → Disk
sound room = record { opens = true; seeks = true; memory = true; room = room }

abbrev pub three_files : Bytes → Option Bytes → Option Bytes → Files
three_files temp local remote = record {
  temp_file = some temp;
  local_file = local;
  remote_file = remote;
}

-- Neither encrypted nor compressed.
pub record IsPlain (s : Session) : Type 0 where
  pub open_text : s.encryption_enabled ≡ false
  pub full_length : s.compression_enabled ≡ false

-- A file in chunks: all of the configured size, but for the last one.
abbrev pub IsSplit : ℕ → List Bytes → Type 0
IsSplit c [] = false ≡ true
IsSplit c (x ∷ []) = (0 < length x) × (length x ≤ c)
IsSplit c (x ∷ (y ∷ chunks)) = (length x ≡ c) × IsSplit c (y ∷ chunks)

abbrev pub concat : List Bytes → Bytes
concat [] = []
concat (x ∷ chunks) = x ++ concat chunks

pub write_at-append : (file bytes : Bytes) → write_at file (length file) bytes ≡ file ++ bytes
unfolding write_at splice
write_at-append file [] = sym (append-nil file)
write_at-append file (b ∷ bytes) =
    let z : length file - length file ≡ 0 = omega arith in
    let d : drop (length file + suc (length bytes)) file ≡ [] = drop_all _ file (omega arith) in
    rw (z, append-nil file, take_all (length file) file (omega arith), d, append-nil (b ∷ bytes))
      refl

pub decode_chunk-plain :
    (codec : Codec) (disk : Disk) (s : Session) (x : Bytes)
    → IsPlain s
    → decode_chunk codec disk s x ≡ coded x
unfolding decode_chunk
decode_chunk-plain codec disk s x p = ground (arith, p.open_text, p.full_length)

ft_write_chunk-append :
    (codec : Codec) (config : Config) (room : ℕ) (s : Session) (i : ℕ) (x temp : Bytes)
    (local remote : Option Bytes)
    → IsPlain s
    → length x ≤ room
    → length temp ≡ i * config.chunk_size
    → ft_write_chunk codec config (sound room) s (three_files temp local remote) i x
      ≡ (success, three_files (temp ++ x) local remote)
unfolding ft_write_chunk
ft_write_chunk-append codec config room s i x temp local remote p r o =
    let d = decode_chunk-plain codec (sound room) s x p in
    let m : min room (length x) ≡ length x = omega arith in
    let t : (length x == length x) ≡ true = ground arith in
    rw (d, m, t, take_all (length x) x (omega arith), sym o, write_at-append temp x, ft_write_chunk)
      refl

upload_step :
    (codec : Codec) (config : Config) (room now : ℕ) (s : Session) (i : ℕ) (x temp : Bytes)
    (local remote : Option Bytes)
    → IsPlain s
    → accepts_chunks s.status ≡ true
    → i < s.total_chunks
    → 0 < length x
    → length x ≤ room
    → length temp ≡ i * config.chunk_size
    → ft_upload_chunk codec config (sound room) now s (three_files temp local remote) i x
      ≡ (success, count_chunk now s i (length x), three_files (temp ++ x) local remote)
unfolding ft_upload_chunk
upload_step codec config room now s i x temp local remote p a n q r o =
    let w = ft_write_chunk-append codec config room s i x temp local remote p r o in
    let t : (length x == 0) ≡ false = ground arith in
    let b : leb s.total_chunks i ≡ false = ground arith in
    rw (w, t, a, b, ft_upload_chunk) (ap (λ r. (success, count_chunk now s i (length x), r.1)) w)

abbrev pub proceed :
    (Session → Files → Option (Session × Files))
    → ErrorCode × Session × Files
    → Option (Session × Files)
proceed next (success, s, files) = next s files
proceed next (code, s, files) = none

-- The chunks one after another, from an index on; `none` where one of them is refused.
abbrev pub upload_all :
    Codec → Config → Disk → ℕ → Session → Files → ℕ → List Bytes → Option (Session × Files)
upload_all codec config disk now s files i [] = some (s, files)
upload_all codec config disk now s files i (x ∷ chunks) =
    proceed (λ s' files'. upload_all codec config disk now s' files' (suc i) chunks)
      (ft_upload_chunk codec config disk now s files i x)

-- What a loop over chunks ends with: the session waits for its check, every byte is counted, and
-- the temporary file holds what was there and the chunks.
unfoldable pub Done :
    Session → Bytes → Option Bytes → Option Bytes → Option (Session × Files) → Type 0
Done s content local remote r =
    (s' : Session) × (r ≡ some (s', three_files content local remote))
    × (s'.status ≡ Status.verifying)
    × (s'.bytes_transferred ≡ length content)
    × (s'.total_bytes ≡ s.total_bytes)
    × (s'.expected_checksum ≡ s.expected_checksum)

-- A chunk that does not end the file leaves the session as it was but for its counters.
pub count_middle :
    (now : ℕ) (s : Session) (i n : ℕ)
    → s.bytes_transferred + n < s.total_bytes
    → s.total_bytes < 2 ^ 64
    → ((count_chunk now s i n).status ≡ s.status)
      × ((count_chunk now s i n).bytes_transferred ≡ s.bytes_transferred + n)
unfolding count_chunk
count_middle now s i n h l = (ground arith, ground arith)

pub count_last :
    (now : ℕ) (s : Session) (i n : ℕ)
    → s.bytes_transferred + n ≡ s.total_bytes
    → s.total_bytes < 2 ^ 64
    → ((count_chunk now s i n).status ≡ Status.verifying)
      × ((count_chunk now s i n).bytes_transferred ≡ s.total_bytes)
unfolding count_chunk
count_last now s i n h l = (ground arith, ground arith)

pub count_kept :
    (now : ℕ) (s : Session) (i n : ℕ)
    → IsPlain s
    → ((count_chunk now s i n).total_bytes ≡ s.total_bytes)
      × ((count_chunk now s i n).expected_checksum ≡ s.expected_checksum)
      × ((count_chunk now s i n).total_chunks ≡ s.total_chunks)
      × IsPlain (count_chunk now s i n)
unfolding count_chunk
count_kept now s i n p =
    (refl, refl, refl, record { open_text = p.open_text; full_length = p.full_length })

length-split : (c : ℕ) (chunks : List Bytes) → 0 < c → IsSplit c chunks → 0 < length (concat chunks)
length-split c [] p h = absurd (ground (arith, h))
length-split c (x ∷ []) p h = omega (arith, length-append x [], h.0)
length-split c (x ∷ (y ∷ chunks)) p h = omega (arith, length-append x (concat (y ∷ chunks)), h.0)

pub upload_all-Done :
    (codec : Codec) (config : Config) (room now : ℕ) (s : Session) (i : ℕ) (chunks : List Bytes)
    (temp : Bytes) (local remote : Option Bytes)
    → 0 < config.chunk_size
    → config.chunk_size ≤ room
    → IsSplit config.chunk_size chunks
    → IsPlain s
    → accepts_chunks s.status ≡ true
    → i + length chunks ≤ s.total_chunks
    → length temp ≡ i * config.chunk_size
    → s.bytes_transferred ≡ length temp
    → s.total_bytes ≡ length temp + length (concat chunks)
    → s.total_bytes < 2 ^ 64
    → Done s
        (temp ++ concat chunks)
        local
        remote
        (upload_all codec config (sound room) now s (three_files temp local remote) i chunks)
unfolding Done
upload_all-Done codec config room now s i [] temp local remote z r q p a t o b n l =
    absurd (ground (arith, q))
upload_all-Done codec config room now s i (x ∷ []) temp local remote z r q p a t o b n l =
    let k = length-append x [] in
    let m = length-append temp (x ++ []) in
    let (u, v) = count_last now s i (length x) (omega arith) l in
    let (w, y, w', p') = count_kept now s i (length x) p in
    let e =
      upload_step codec config room now s i x temp local remote p a (omega arith) q.0
        (omega (arith, q.1)) o in
    (
      count_chunk now s i (length x),
      ap (proceed (λ s' files'. some (s', files'))) e
          ∙ ap
              (λ (xs : Bytes).
                some (count_chunk now s i (length x), three_files (temp ++ xs) local remote))
              (sym (append-nil x)),
      u,
      omega arith,
      w,
      y,
    )
upload_all-Done codec config room now s i (x ∷ (y ∷ chunks)) temp local remote z r q p a t o b n l =
    let rest = concat (y ∷ chunks) in
    let k = length-append x rest in
    let m = length-append temp x in
    let c = length-split config.chunk_size (y ∷ chunks) z q.1 in
    let s' = count_chunk now s i (length x) in
    let (u, v) = count_middle now s i (length x) (omega arith) l in
    let (w, e', w', p') = count_kept now s i (length x) p in
    let e =
      upload_step codec config room now s i x temp local remote p a (omega arith)
        (omega (arith, q.0)) (omega (arith, q.0)) o in
    let ih =
      upload_all-Done codec config room now s' (suc i) (y ∷ chunks) (temp ++ x) local remote z r q.1
        p' (ap accepts_chunks u ∙ a) (omega (arith, w'))
        (omega (arith, suc-mul i config.chunk_size, q.0)) (omega (arith, v)) (omega (arith, w))
        (omega (arith, w)) in
    (
      ih.0,
      ap
            (proceed (λ s'' files'.
              upload_all codec config (sound room) now s'' files' (suc i) (y ∷ chunks)))
            e
          ∙ ih.1
          ∙ ap (λ (xs : Bytes). some (ih.0, three_files xs local remote))
              (append_assoc temp x rest),
      ih.2,
      ih.3 ∙ ap (λ (xs : Bytes). length xs) (append_assoc temp x rest),
      ih.4 ∙ w,
      ih.5 ∙ e',
    )
