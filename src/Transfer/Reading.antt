-- ===== src/Transfer/Reading.antt =====
-- One chunk through ft_read_chunk and ft_download_chunk of server/src/file_transfer.c.
use chatweb.Base.{
  ℕ, ◌*◌, ◌≤◌, ◌<◌, ◌≡◌, min, refl, sym, ap, ◌∙◌, true, false, ◌++◌, Option, some, arith, ltb, leb,
  length, take, drop, take_all,
}
use chatweb.Libc.{Bytes}
use chatweb.Transfer.{Config, Session, Codec, Disk}
use chatweb.Transfer.Chunks.{
  encode_chunk, coded, chunk_length, ft_read_chunk, ft_download_chunk, count_chunk, accepts_chunks,
}
use chatweb.Transfer.Upload.{sound, three_files, IsPlain, write_at-append}

encode_chunk-plain :
    (codec : Codec) (disk : Disk) (s : Session) (x : Bytes)
    → IsPlain s
    → encode_chunk codec disk s x ≡ coded x
unfolding encode_chunk
encode_chunk-plain codec disk s x p = ground (arith, p.open_text, p.full_length)

ft_read_chunk-append :
    (codec : Codec) (config : Config) (room : ℕ) (s : Session) (i n : ℕ) (x temp source : Bytes)
    (local : Option Bytes)
    → IsPlain s
    → chunk_length config s i ≡ n
    → take n (drop (i * config.chunk_size) source) ≡ x
    → length x ≡ n
    → n ≤ room
    → length temp ≡ i * config.chunk_size
    → ft_read_chunk codec config (sound room) s (three_files temp local (some source)) i
      ≡ (coded x, three_files (temp ++ x) local (some source))
unfolding ft_read_chunk
ft_read_chunk-append codec config room s i n x temp source local p k d l r o =
    let e = encode_chunk-plain codec (sound room) s x p in
    let f : ltb (length x) n ≡ false = ground arith in
    let m : min room (length x) ≡ length x = omega arith in
    rw
      (
        k,
        d,
        f,
        e,
        m,
        take_all (length x) x (omega arith),
        sym o,
        write_at-append temp x,
        ft_read_chunk,
      )
      refl

-- One chunk of a source, which goes behind what the temporary file holds.
pub download_step :
    (codec : Codec) (config : Config) (room now : ℕ) (s : Session) (i n : ℕ) (x temp source : Bytes)
    (local : Option Bytes)
    → IsPlain s
    → accepts_chunks s.status ≡ true
    → i < s.total_chunks
    → chunk_length config s i ≡ n
    → take n (drop (i * config.chunk_size) source) ≡ x
    → length x ≡ n
    → n ≤ room
    → length temp ≡ i * config.chunk_size
    → ft_download_chunk codec config (sound room) now s (three_files temp local (some source)) i
      ≡ (coded x, count_chunk now s i n, three_files (temp ++ x) local (some source))
unfolding ft_download_chunk
download_step codec config room now s i n x temp source local p a t k d l r o =
    let w = ft_read_chunk-append codec config room s i n x temp source local p k d l r o in
    let b : leb s.total_chunks i ≡ false = ground arith in
    rw (w, a, b, ft_download_chunk)
      (ap (λ r. (coded x, count_chunk now s i (length x), r.1)) w
        ∙ ap (λ j. (coded x, count_chunk now s i j, three_files (temp ++ x) local (some source))) l)
