-- ===== src/Tests/Transfer.antt =====
-- The theorems on server/src/file_transfer.c at concrete inputs.
use chatweb.Base.{
  ◌+◌, ◌%◌, ◌^◌, ◌≡◌, refl, true, false, List, [], ◌∷◌, some, none, arith, inl, inr, ◌==◌,
  if◌then◌else◌,
}
use chatweb.Base.Memory.{add_size, sub_size}
use chatweb.Libc.{Bytes, bytes}
use chatweb.Transfer.{Status, success, Config, Session, Files, Codec}
use chatweb.Transfer.Process.{
  Stats, visited, ft_prepare_upload, ft_prepare_download, visit_session, count_success,
}
use chatweb.Transfer.Upload.{sound, three_files, IsPlain, upload_all}
use chatweb.Transfer.Completion.{visit_session-completed, ft_upload_chunk_completes}
use chatweb.Transfer.Download.{download_all, Received, ft_download_chunk_completes}
use chatweb.Transfer.Retries.{try_times, ft_upload_chunk_ends}
use chatweb.Transfer.Sessions.{
  null, Node, Manager, ft_hash_transfer_id, ft_create_session, found, ft_find_in_session_map,
  removed, ft_remove_from_session_map,
}
use chatweb.Transfer.Sessions.Chains.{ft_create_session-find, ft_remove_from_session_map-find}

-- A file's digest is the file; nothing is ever encrypted or compressed.
abbrev codec : Codec
codec = record {
  encrypt = λ x. none;
  decrypt = λ x. none;
  deflate = λ n x. none;
  inflate = λ n x. none;
  digest = λ x. x;
}

abbrev config : Config
config = record {
  chunk_size = 4;
  max_retries = 3;
  timeout_ms = 30000;
  max_concurrent_transfers = 10;
  verify_checksum = true;
  max_file_size = 1000;
}

abbrev text : Bytes
text = bytes "hello world"

abbrev chunks : List Bytes
chunks = bytes "hell" ∷ bytes "o wo" ∷ bytes "rld" ∷ []

abbrev session : Session
session = record {
  transfer_id = 9;
  status = Status.pending;
  encryption_enabled = false;
  compression_enabled = false;
  current_chunk = 0;
  total_chunks = 0;
  bytes_transferred = 0;
  total_bytes = 0;
  retry_count = 0;
  error_chunks = [];
  last_activity_time = 100;
  expected_checksum = text;
}

session-IsPlain : IsPlain session
session-IsPlain = record { open_text = refl; full_length = refl }

abbrev stats : Stats
stats = record {
  total_transfers = 8;
  successful_transfers = 5;
  failed_transfers = 2;
  bytes_transferred = 700;
  active_transfers = 1;
}

ft_upload_chunk_completes_example :
    (s₀ : Session) × (s₁ : Session) × (s₂ : Session) × (ft_prepare_upload config
        (sound 4096)
        200
        session
        (record { temp_file = none; local_file = some text; remote_file = none })
      ≡ (success, s₀, three_files [] (some text) none))
    × (upload_all codec config (sound 4096) 200 s₀ (three_files [] (some text) none) 0 chunks
        ≡ some (s₁, three_files text (some text) none))
    × (visit_session codec config 200 s₁ (three_files text (some text) none) stats
        ≡ visited true s₂ (three_files text (some text) none) stats)
    × (s₂.status ≡ Status.completed)
    × (visit_session codec config 200 s₂ (three_files text (some text) none) stats
        ≡ visited true s₂
            (record { temp_file = none; local_file = some text; remote_file = none })
            (count_success s₂ stats))
ft_upload_chunk_completes_example =
    ft_upload_chunk_completes codec config 4096 200 session chunks none none stats (omega arith)
      (omega arith) session-IsPlain refl (refl, (refl, (omega arith, omega arith))) (omega arith)
      (omega arith) (λ v. refl)

abbrev complete : Session
complete = record session { status = Status.completed; total_bytes = 11 }

visit_session-completed_example :
    (s' : Session) × (s'' : Session) × (files : Files) × (stats' : Stats) × (visit_session codec
        config 200 complete
        (three_files text none none)
        stats
      ≡ visited true s' files (count_success complete stats))
    × (files.local_file ≡ some text)
    × (visit_session codec config 201 s' files (count_success complete stats)
        ≡ visited false s'' files stats')
    × (s''.status ≡ Status.failed)
    × (stats'.successful_transfers ≡ add_size stats.successful_transfers 1)
    × (stats'.failed_transfers ≡ add_size stats.failed_transfers 1)
visit_session-completed_example =
    visit_session-completed codec config 200 201 complete text none none stats refl

ft_download_chunk_completes_example :
    (s₀ : Session) × (ft_prepare_download config
        (sound 4096)
        200
        session
        (record { temp_file = none; local_file = none; remote_file = some text })
      ≡ (success, s₀, three_files [] none (some text)))
    × Received 4 text [] text none (
        download_all codec config
          (sound 4096)
          200
          s₀.total_chunks
          0
          s₀
          (three_files [] none (some text)))
ft_download_chunk_completes_example =
    ft_download_chunk_completes codec config 4096 200 session text none none (omega arith)
      (omega arith) session-IsPlain refl (omega arith) (omega arith) (omega arith)

abbrev running : Session
running = record session {
  status = Status.transferring;
  total_chunks = 3;
  total_bytes = 11;
  bytes_transferred = 8;
}

abbrev no_files : Files
no_files = record { temp_file = none; local_file = none; remote_file = none }

ft_upload_chunk_ends_example :
    ((try_times codec config 200 no_files 2 (bytes "rld") 3 running).status ≡ Status.transferring)
    × ((try_times codec config 200 no_files 2 (bytes "rld") 4 running).status ≡ Status.failed)
ft_upload_chunk_ends_example =
    ft_upload_chunk_ends codec config 200 no_files 2 (bytes "rld") 3 running (omega arith) refl
      (omega arith) (omega arith) refl

abbrev front : Bytes
front = bytes "hell"

abbrev second : Bytes
second = bytes "o wo"

-- Two active sessions: 9 is the older one, and each is alone in its bucket.
abbrev two_sessions : Manager
two_sessions = record {
  heap = λ p.
      if p == 16
      then some (record { transfer_id = 9; next = null; prev = 32 })
      else if p == 32
      then some (record { transfer_id = 10; next = 16; prev = null })
      else none;
  table = λ i. if i == 9 then 16 else if i == 10 then 32 else null;
  count = 2;
  active_sessions = 32;
  total_transfers = 2;
  active_transfers = 2;
}

abbrev older : Node
older = record { transfer_id = 9; next = null; prev = 32 }

abbrev newer : Node
newer = record { transfer_id = 10; next = 16; prev = null }

in_bucket : two_sessions.table (ft_hash_transfer_id 9) ≡ 16
unfolding ft_hash_transfer_id
in_bucket = refl

no_bucket : two_sessions.table (ft_hash_transfer_id 11) ≡ null
unfolding ft_hash_transfer_id
no_bucket = refl

ft_create_session-find_example :
    (m' : Manager) × (ft_create_session 48 11 two_sessions ≡ some m')
    × (ft_find_in_session_map 1 m' 11
        ≡ found 48 (record { transfer_id = 11; next = 32; prev = null }))
    × (m'.active_sessions ≡ 48)
    × (m'.count ≡ add_size two_sessions.count 1)
    × (m'.active_transfers ≡ (two_sessions.active_transfers + 1) % 2 ^ 32)
ft_create_session-find_example =
    ft_create_session-find 0 two_sessions 48 11 (omega arith) (omega (arith, no_bucket))
      (omega arith) (inl no_bucket) (inr (newer, refl))

ft_remove_from_session_map-find_example :
    (m' : Manager) × (ft_remove_from_session_map 1 two_sessions 9 ≡ removed m')
    × (m'.count ≡ sub_size two_sessions.count 1)
    × (ft_find_in_session_map 1 m' 9 ≡ found 16 older)
ft_remove_from_session_map-find_example =
    ft_remove_from_session_map-find 0 two_sessions 9 16 older newer in_bucket (omega arith) refl
      refl (omega arith) (omega arith) refl (inl refl) (omega arith)
