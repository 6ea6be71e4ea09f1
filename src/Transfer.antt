-- ===== src/Transfer.antt =====
-- File transfers, of server/src/file_transfer.c and server/include/file_transfer.h: a session, the
-- configuration and the files that a transfer reads and writes. OpenSSL, zlib and SHA-256 are
-- functions of the bytes; the three paths of a session name different files.
pub mod Chunks
pub mod Process
pub mod Upload
pub mod Completion
pub mod Reading
pub mod Download
pub mod Retries
pub mod Sessions
use chatweb.Base.{
  ℕ, ◌*◌, Bool, true, false, ◌||◌, List, [], ◌∷◌, Option, none, some, ltb, leb, ◌==◌, if◌then◌else◌,
}
use chatweb.Libc.{Bytes}

-- ft_transfer_status_t
pub data Status : Type 0 where
  pending preparing transferring paused completed failed cancelled verifying cleanup : Status

-- ft_error_code_t
pub data ErrorCode : Type 0 where
  success invalid_params file_not_found file_too_large permission_denied disk_full : ErrorCode
  network timeout checksum_mismatch encryption decryption interrupted : ErrorCode
  concurrent_limit invalid_state memory io invalid_chunk transfer_not_found : ErrorCode
  resume_failed compression decompression : ErrorCode

-- ft_config_t
pub record Config : Type 0 where
  pub chunk_size : ℕ
  pub max_retries : ℕ
  pub timeout_ms : ℕ
  pub max_concurrent_transfers : ℕ
  pub verify_checksum : Bool
  pub max_file_size : ℕ

-- ft_transfer_session_t. error_chunk_count is the length of error_chunks; a checksum that is not
-- there is empty.
pub record Session : Type 0 where
  pub transfer_id : ℕ
  pub status : Status
  pub encryption_enabled : Bool
  pub compression_enabled : Bool
  pub current_chunk : ℕ
  pub total_chunks : ℕ
  pub bytes_transferred : ℕ
  pub total_bytes : ℕ
  pub retry_count : ℕ
  pub error_chunks : List ℕ
  pub last_activity_time : ℕ
  pub expected_checksum : Bytes

-- What stands at temp_path, local_path and remote_path.
pub record Files : Type 0 where
  pub temp_file : Option Bytes
  pub local_file : Option Bytes
  pub remote_file : Option Bytes

-- The libraries: `inflate` and `deflate` are also given the room for what they write.
pub record Codec : Type 0 where
  pub encrypt : Bytes → Option Bytes
  pub decrypt : Bytes → Option Bytes
  pub deflate : ℕ → Bytes → Option Bytes
  pub inflate : ℕ → Bytes → Option Bytes
  pub digest : Bytes → Bytes

-- Whether files open, positions are set and memory can be had, and how many bytes a write takes.
pub record Disk : Type 0 where
  pub opens : Bool
  pub seeks : Bool
  pub memory : Bool
  pub room : ℕ

unfoldable pub ft_validate_config : Config → ErrorCode
ft_validate_config config =
    if config.chunk_size == 0 || ltb (1024 * 1024 * 100) config.chunk_size
    then invalid_params
    else if ltb 10 config.max_retries
    then invalid_params
    else if config.timeout_ms == 0 || ltb 300000 config.timeout_ms
    then invalid_params
    else if config.max_concurrent_transfers == 0 || ltb 1000 config.max_concurrent_transfers
    then invalid_params
    else if config.max_file_size == 0 || ltb (10 * 1024 * 1024 * 1024 * 1024) config.max_file_size
    then invalid_params
    else success
