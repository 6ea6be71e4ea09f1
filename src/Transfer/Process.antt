-- ===== src/Transfer/Process.antt =====
-- What the manager's thread does with a session in server/src/file_transfer.c: ft_process_session and
-- its parts, ft_check_timeout and ft_complete_upload.
use chatweb.Base.{
  ℕ, ◌+◌, ◌-◌, ◌/◌, ◌%◌, ◌^◌, Bool, true, false, not, ◌&&◌, [], Option, none, some, ltb, ◌==◌,
  if◌then◌else◌, length,
}
use chatweb.Base.Memory.{add_size}
use chatweb.Libc.{Bytes, bytes_eq}
use chatweb.Transfer.{
  Status, ErrorCode, success, file_not_found, timeout, checksum_mismatch, io, Config, Session,
  Files, Codec, Disk,
}

-- The chunks of a file, as both preparations count them.
abbrev pub chunks_for : Config → ℕ → ℕ
chunks_for config n = (n + config.chunk_size - 1) / config.chunk_size % 2 ^ 32

abbrev pub prepared : Config → ℕ → Session → ℕ → Session
prepared config now session n = record session {
  total_bytes = n;
  total_chunks = chunks_for config n;
  status = Status.preparing;
  last_activity_time = now;
}

unfoldable pub ft_prepare_upload : Config → Disk → ℕ → Session → Files → ErrorCode × Session × Files
ft_prepare_upload config disk now session files =
    let created = record files { temp_file = some [] } in
    if not disk.opens then (io, session, files) else elim files.local_file [
      | none ↦ (file_not_found, session, created)
      | some source ↦ (success, prepared config now session (length source), created)
    ]

unfoldable pub ft_prepare_download :
    Config → Disk → ℕ → Session → Files → ErrorCode × Session × Files
ft_prepare_download config disk now session files = elim files.remote_file [
  | none ↦ (file_not_found, session, files)
  | some source ↦
      if disk.opens
      then (
        success,
        prepared config now session (length source),
        record files { temp_file = some [] },
      )
      else (io, session, files)
]

-- What strcmp of the file's checksum with the one that is expected comes to.
unfoldable pub ft_verify_file_checksum : Codec → Option Bytes → Bytes → ErrorCode
ft_verify_file_checksum codec none expected = file_not_found
ft_verify_file_checksum codec (some file) expected =
    if bytes_eq (codec.digest file) expected then success else checksum_mismatch

-- Whether a checksum is compared at all.
abbrev pub is_verified : Config → Session → Bool
is_verified config session = config.verify_checksum && not (length session.expected_checksum == 0)

-- rename(temp_path, local_path)
unfoldable pub rename_temp : Files → Option Files
rename_temp files = elim files.temp_file [
  | none ↦ none
  | some file ↦ some (record files { temp_file = none; local_file = some file })
]

unfoldable pub ft_update_progress : Config → Session → Files → Session
ft_update_progress config session files = elim files.temp_file [
  | none ↦ session
  | some file ↦ record session {
    bytes_transferred = length file;
    current_chunk = length file / config.chunk_size % 2 ^ 32;
  }
]

-- ft_stats_t, without the speeds
pub record Stats : Type 0 where
  pub total_transfers : ℕ
  pub successful_transfers : ℕ
  pub failed_transfers : ℕ
  pub bytes_transferred : ℕ
  pub active_transfers : ℕ

-- How ft_process_session ends: the session's mutex is locked by the thread that holds it, or it
-- returns.
pub data Outcome : Type 0 where
  deadlocks : Outcome
  returns : ErrorCode → Session → Files → Stats → Outcome

unfoldable pub verify_session : Codec → Config → Session → Files → ErrorCode × Session
verify_session codec config session files =
    let result = ft_verify_file_checksum codec files.temp_file session.expected_checksum in
    if is_verified config session
    then elim result [
      | success ↦ (success, record session { status = Status.completed })
      | code ↦ (code, record session { status = Status.failed })
    ]
    else (success, record session { status = Status.completed })

abbrev pub count_success : Session → Stats → Stats
count_success session stats = record stats {
  successful_transfers = add_size stats.successful_transfers 1;
  bytes_transferred = add_size stats.bytes_transferred session.total_bytes;
}

abbrev pub touch : ℕ → Session → Session
touch now session = record session { last_activity_time = now }

-- The switch on the status. A session that waits is prepared by a function that locks the mutex
-- again.
abbrev pub process_at : Status → Codec → Config → ℕ → Session → Files → Stats → Outcome
process_at Status.pending codec config now session files stats = deadlocks
process_at Status.transferring codec config now session files stats =
    returns success (touch now (ft_update_progress config session files)) files stats
process_at Status.verifying codec config now session files stats =
    let (code, session') = verify_session codec config session files in
    returns code (touch now session') files stats
process_at Status.completed codec config now session files stats = elim (rename_temp files) [
  | none ↦ returns io (touch now (record session { status = Status.failed })) files stats
  | some files' ↦ returns success (touch now session) files' (count_success session stats)
]
process_at status codec config now session files stats =
    returns success (touch now session) files stats

unfoldable pub ft_process_session : Codec → Config → ℕ → Session → Files → Stats → Outcome
ft_process_session codec config now session files stats =
    process_at session.status codec config now session files stats

-- A round of ft_manager_thread_func at one active session: what fails is marked and leaves the list of
-- active sessions; the flag says whether it stays there.
pub data Visit : Type 0 where
  stuck : Visit
  visited : Bool → Session → Files → Stats → Visit

abbrev pub settle : Outcome → Visit
settle deadlocks = stuck
settle (returns success s f t) = visited true s f t
settle (returns code s f t) =
    visited false (record s { status = Status.failed }) f
      (record t {
        failed_transfers = add_size t.failed_transfers 1;
        active_transfers = (t.active_transfers + (2 ^ 32 - 1)) % 2 ^ 32;
      })

unfoldable pub visit_session : Codec → Config → ℕ → Session → Files → Stats → Visit
visit_session codec config now session files stats =
    settle (ft_process_session codec config now session files stats)

abbrev pub may_time_out : Status → Bool
may_time_out Status.transferring = true
may_time_out Status.pending = true
may_time_out status = false

unfoldable pub ft_check_timeout : Config → ℕ → Session → ErrorCode × Session
ft_check_timeout config now session =
    if ltb (config.timeout_ms / 1000) (now - session.last_activity_time)
    then (
      timeout,
      if may_time_out session.status then record session { status = Status.failed } else session,
    )
    else (success, session)

unfoldable pub ft_complete_upload :
    Codec → Config → ℕ → Session → Files → ErrorCode × Session × Files
ft_complete_upload codec config now session files =
    let result =
      if is_verified config session
      then ft_verify_file_checksum codec files.temp_file session.expected_checksum
      else success in
    elim result [
      | success ↦ elim (rename_temp files) [
        | none ↦ (io, session, files)
        | some files' ↦ (
          success,
          record session { status = Status.completed; last_activity_time = now },
          files',
        )
      ]
      | code ↦ (code, session, files)
    ]
