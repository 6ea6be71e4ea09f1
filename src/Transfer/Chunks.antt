-- ===== src/Transfer/Chunks.antt =====
-- The chunks of a file in server/src/file_transfer.c: ft_write_chunk and ft_read_chunk, and
-- ft_upload_chunk and ft_download_chunk, which call them under the session's mutex.
use chatweb.Base.{
  ℕ, suc, ◌+◌, ◌-◌, ◌*◌, ◌%◌, ◌^◌, min, Bool, true, false, not, [], ◌∷◌, ◌++◌, Option, none, some,
  ltb, leb, ◌==◌, if◌then◌else◌, length, take, drop, replicate,
}
use chatweb.Base.Memory.{add_size, splice}
use chatweb.Libc.{Bytes}
use chatweb.Transfer.{
  Status, ErrorCode, success, invalid_params, file_not_found, encryption, decryption, compression,
  decompression, invalid_state, memory, io, invalid_chunk, Config, Session, Files, Codec, Disk,
}

-- fseek and fwrite: a gap behind the end of the file is filled with zeros.
unfoldable pub write_at : Bytes → ℕ → Bytes → Bytes
write_at file offset [] = file
write_at file offset (b ∷ bytes) =
    splice (file ++ replicate (offset - length file) 0) offset (b ∷ bytes)

pub data Coded : Type 0 where
  refused : ErrorCode → Coded
  coded : Bytes → Coded

abbrev pub or_refused : ErrorCode → Option Bytes → Coded
or_refused code none = refused code
or_refused code (some bytes) = coded bytes

-- What is written for the bytes of a chunk. The room for what is decompressed is given as the
-- length of what is compressed.
unfoldable pub decode_chunk : Codec → Disk → Session → Bytes → Coded
decode_chunk codec disk session bytes =
    if session.encryption_enabled
    then (if disk.memory then or_refused decryption (codec.decrypt bytes) else refused memory)
    else if session.compression_enabled
    then (if disk.memory
        then or_refused decompression (codec.inflate (length bytes) bytes)
        else refused memory)
    else coded bytes

unfoldable pub encode_chunk : Codec → Disk → Session → Bytes → Coded
encode_chunk codec disk session bytes =
    if session.encryption_enabled
    then (if disk.memory then or_refused encryption (codec.encrypt bytes) else refused memory)
    else if session.compression_enabled
    then (if disk.memory
        then or_refused compression (codec.deflate (length bytes) bytes)
        else refused memory)
    else coded bytes

abbrev pub opened : Option Bytes → Bytes
opened none = []
opened (some file) = file

-- A file that is not there is created. The offset is below 2^64, since both factors are below 2^32.
unfoldable pub ft_write_chunk :
    Codec → Config → Disk → Session → Files → ℕ → Bytes → ErrorCode × Files
ft_write_chunk codec config disk session files chunk_index bytes =
    let file = opened files.temp_file in
    let created = record files { temp_file = some file } in
    if not disk.opens
    then (io, files)
    else if not disk.seeks
    then (io, created)
    else elim (decode_chunk codec disk session bytes) [
      | refused code ↦ (code, created)
      | coded processed ↦
          let written = min disk.room (length processed) in
          (
            if written == length processed then success else io,
            record files {
              temp_file =
                  some (write_at file (chunk_index * config.chunk_size) (take written processed));
            },
          )
    ]

abbrev pub accepts_chunks : Status → Bool
accepts_chunks Status.transferring = true
accepts_chunks Status.preparing = true
accepts_chunks status = false

-- A chunk that went through: the bytes are counted as they came.
unfoldable pub count_chunk : ℕ → Session → ℕ → ℕ → Session
count_chunk now session chunk_index n =
    let bytes = add_size session.bytes_transferred n in
    record session {
      bytes_transferred = bytes;
      current_chunk = (chunk_index + 1) % 2 ^ 32;
      status = if leb session.total_bytes bytes then Status.verifying else session.status;
      last_activity_time = now;
    }

-- A chunk that failed: it is noted, and retries are counted until there are too many.
unfoldable pub fail_chunk : Config → Session → ℕ → Session
fail_chunk config session chunk_index =
    let noted = record session {
      error_chunks =
          if ltb (length session.error_chunks) 30
          then session.error_chunks ++ chunk_index ∷ []
          else session.error_chunks;
    } in
    if ltb session.retry_count config.max_retries
    then record noted { retry_count = (session.retry_count + 1) % 2 ^ 32 }
    else record noted { status = Status.failed }

unfoldable pub ft_upload_chunk :
    Codec → Config → Disk → ℕ → Session → Files → ℕ → Bytes → ErrorCode × Session × Files
ft_upload_chunk codec config disk now session files chunk_index bytes =
    let (result, files') = ft_write_chunk codec config disk session files chunk_index bytes in
    if length bytes == 0
    then (invalid_params, session, files)
    else if not (accepts_chunks session.status)
    then (invalid_state, session, files)
    else if leb session.total_chunks chunk_index
    then (invalid_chunk, session, files)
    else elim result [
      | success ↦ (success, count_chunk now session chunk_index (length bytes), files')
      | code ↦ (code, fail_chunk config session chunk_index, files')
    ]

-- The length of a chunk of the source; the last one may be shorter.
unfoldable pub chunk_length : Config → Session → ℕ → ℕ
chunk_length config session chunk_index =
    if suc chunk_index == session.total_chunks
    then session.total_bytes - chunk_index * config.chunk_size
    else config.chunk_size

-- What is read is also written to the temporary file, and errors of that are passed over. One flag
-- says whether both files can be opened.
unfoldable pub ft_read_chunk : Codec → Config → Disk → Session → Files → ℕ → Coded × Files
ft_read_chunk codec config disk session files chunk_index =
    let offset = chunk_index * config.chunk_size in
    let n = chunk_length config session chunk_index in
    elim files.remote_file [
      | none ↦ (refused file_not_found, files)
      | some source ↦
          let chunk = take n (drop offset source) in
          if not disk.opens
          then (refused file_not_found, files)
          else if not disk.seeks
          then (refused io, files)
          else if not disk.memory
          then (refused memory, files)
          else if ltb (length chunk) n
          then (refused io, files)
          else elim (encode_chunk codec disk session chunk) [
            | refused code ↦ (refused code, files)
            | coded processed ↦ (
              coded processed,
              record files {
                temp_file = some (
                    write_at (opened files.temp_file) offset
                      (take (min disk.room (length processed)) processed));
              },
            )
          ]
    ]

unfoldable pub ft_download_chunk :
    Codec → Config → Disk → ℕ → Session → Files → ℕ → Coded × Session × Files
ft_download_chunk codec config disk now session files chunk_index =
    let (result, files') = ft_read_chunk codec config disk session files chunk_index in
    if not (accepts_chunks session.status)
    then (refused invalid_state, session, files)
    else if leb session.total_chunks chunk_index
    then (refused invalid_chunk, session, files)
    else elim result [
      | refused code ↦ (refused code, session, files')
      | coded bytes ↦ (coded bytes, count_chunk now session chunk_index (length bytes), files')
    ]
