-- ===== src/Transfer/Completion.antt =====
-- How a transfer of server/src/file_transfer.c comes to its end: from the preparation of an upload to
-- the rounds of ft_manager_thread_func that follow.
use native.Mathlib.Nat.{suc-mul, zero-mul, le-div_iff_mul-le}
use chatweb.Base.{
  ℕ, ◌+◌, ◌-◌, ◌*◌, ◌/◌, ◌^◌, ◌≤◌, ◌<◌, ◌≡◌, refl, ap, ◌∙◌, true, false, List, [], ◌∷◌, Option,
  none, some, arith, length, Bool-cases, inl, inr, length-append,
}
use chatweb.Base.Memory.{add_size}
use chatweb.Libc.{Bytes, bytes_eq, bytes_eq_refl}
use chatweb.Transfer.{Status, success, Config, Session, Files, Codec}
use chatweb.Transfer.Process.{
  Stats, visited, chunks_for, prepared, ft_prepare_upload, ft_verify_file_checksum, is_verified,
  rename_temp, verify_session, ft_process_session, visit_session, count_success, settle, process_at,
  touch,
}
use chatweb.Transfer.Upload.{
  sound, three_files, IsPlain, IsSplit, concat, Done, upload_all, upload_all-Done,
}

length-IsSplit :
    (c : ℕ) (chunks : List Bytes)
    → 0 < c
    → IsSplit c chunks
    → length chunks * c < length (concat chunks) + c
length-IsSplit c [] p h = absurd (ground (arith, h))
length-IsSplit c (x ∷ []) p h = omega (arith, suc-mul 0 c, length-append x [], h.0, h.1)
length-IsSplit c (x ∷ (y ∷ chunks)) p h = omega (
  arith,
  suc-mul (length (y ∷ chunks)) c,
  length-append x (concat (y ∷ chunks)),
  h.0,
  length-IsSplit c (y ∷ chunks) p h.1,
)

chunks_for-IsSplit :
    (config : Config) (chunks : List Bytes)
    → 0 < config.chunk_size
    → IsSplit config.chunk_size chunks
    → (length (concat chunks) + config.chunk_size - 1) / config.chunk_size < 2 ^ 32
    → length chunks ≤ chunks_for config (length (concat chunks))
chunks_for-IsSplit config chunks p h l =
    let k =
      (le-div_iff_mul-le {x = length chunks} {y = length (concat chunks) + config.chunk_size - 1}
          p).1
        (omega (arith, length-IsSplit config.chunk_size chunks p h)) in
    omega (arith, k)

verify_session-completed :
    (codec : Codec) (config : Config) (s : Session) (content : Bytes) (local remote : Option Bytes)
    → (is_verified config s ≡ true → s.expected_checksum ≡ codec.digest content)
    → verify_session codec config s (three_files content local remote)
      ≡ (success, record s { status = Status.completed })
unfolding verify_session ft_verify_file_checksum
verify_session-completed codec config s content local remote h =
    elim (Bool-cases (is_verified config s)) [
      | inl v ↦
          let e : bytes_eq (codec.digest content) s.expected_checksum ≡ true =
            ap (bytes_eq (codec.digest content)) (h v) ∙ bytes_eq_refl (codec.digest content) in
          rw (v, e, verify_session, ft_verify_file_checksum) refl
      | inr v ↦ rw (v, verify_session) refl
    ]

visit-verifying :
    (codec : Codec) (config : Config) (now : ℕ) (s : Session) (content : Bytes)
    (local remote : Option Bytes) (stats : Stats)
    → s.status ≡ Status.verifying
    → (is_verified config s ≡ true → s.expected_checksum ≡ codec.digest content)
    → visit_session codec config now s (three_files content local remote) stats
      ≡ visited true
          (record s { status = Status.completed; last_activity_time = now })
          (three_files content local remote)
          stats
unfolding visit_session ft_process_session
visit-verifying codec config now s content local remote stats e h =
    ap (λ st. settle (process_at st codec config now s (three_files content local remote) stats)) e
    ∙ rw (verify_session-completed codec config s content local remote h) refl

-- What the next rounds make of a session that is completed.
pub visit-completed :
    (codec : Codec) (config : Config) (now : ℕ) (s : Session) (content : Bytes)
    (local remote : Option Bytes) (stats : Stats)
    → s.status ≡ Status.completed
    → visit_session codec config now s (three_files content local remote) stats
      ≡ visited true
          (touch now s)
          (record { temp_file = none; local_file = some content; remote_file = remote })
          (count_success s stats)
unfolding visit_session ft_process_session rename_temp
visit-completed codec config now s content local remote stats e =
    ap (λ st. settle (process_at st codec config now s (three_files content local remote) stats)) e

-- A session that is completed, with its file at hand, is counted as a success in the next round of
-- the manager, which moves the file to its place; in the round after that, at whatever time, it is
-- counted as a failure, marked as failed and taken from the list of active sessions.
pub visit_session-completed :
    (codec : Codec) (config : Config) (now later : ℕ) (s : Session) (content : Bytes)
    (local remote : Option Bytes) (stats : Stats)
    → s.status ≡ Status.completed
    → (s' : Session) × (s'' : Session) × (files : Files) × (stats' : Stats) × (visit_session codec
          config now s
          (three_files content local remote)
          stats
        ≡ visited true s' files (count_success s stats))
      × (files.local_file ≡ some content)
      × (visit_session codec config later s' files (count_success s stats)
          ≡ visited false s'' files stats')
      × (s''.status ≡ Status.failed)
      × (stats'.successful_transfers ≡ add_size stats.successful_transfers 1)
      × (stats'.failed_transfers ≡ add_size stats.failed_transfers 1)
unfolding visit_session ft_process_session rename_temp
visit_session-completed codec config now later s content local remote stats e =
    let files : Files = record {
      temp_file = none;
      local_file = some content;
      remote_file = remote;
    } in
    (
      touch now s,
      touch later (record s { status = Status.failed }),
      files,
      _,
      visit-completed codec config now s content local remote stats e,
      refl,
      ap
          (λ st.
            settle (process_at st codec config later (touch now s) files (count_success s stats)))
          e,
      refl,
      refl,
      refl,
    )

-- An upload of a file that is cut into chunks of the configured size, the last of which may be
-- shorter, into a session that is neither encrypted nor compressed, on a disk that takes what is
-- written, with the file's own checksum if one is compared: after its preparation every chunk is
-- taken in turn, the temporary file is then the file, the manager's next round checks it and marks
-- the session as completed, and the round after that moves it to its place and counts a success.
pub ft_upload_chunk_completes :
    (codec : Codec) (config : Config) (room now : ℕ) (s : Session) (chunks : List Bytes)
    (temp remote : Option Bytes) (stats : Stats)
    → 0 < config.chunk_size
    → config.chunk_size ≤ room
    → IsPlain s
    → s.bytes_transferred ≡ 0
    → IsSplit config.chunk_size chunks
    → length (concat chunks) < 2 ^ 63
    → (length (concat chunks) + config.chunk_size - 1) / config.chunk_size < 2 ^ 32
    → (config.verify_checksum ≡ true → s.expected_checksum ≡ codec.digest (concat chunks))
    → let content = concat chunks in
      (s₀ : Session) × (s₁ : Session) × (s₂ : Session) × (ft_prepare_upload config
          (sound room)
          now
          s
          (record { temp_file = temp; local_file = some content; remote_file = remote })
        ≡ (success, s₀, three_files [] (some content) remote))
      × (upload_all codec config (sound room) now s₀ (three_files [] (some content) remote) 0 chunks
          ≡ some (s₁, three_files content (some content) remote))
      × (visit_session codec config now s₁ (three_files content (some content) remote) stats
          ≡ visited true s₂ (three_files content (some content) remote) stats)
      × (s₂.status ≡ Status.completed)
      × (visit_session codec config now s₂ (three_files content (some content) remote) stats
          ≡ visited true s₂
              (record { temp_file = none; local_file = some content; remote_file = remote })
              (count_success s₂ stats))
unfolding ft_prepare_upload Done
ft_upload_chunk_completes codec config room now s chunks temp remote stats z r p b h l n v =
    let content = concat chunks in
    let s₀ = prepared config now s (length content) in
    let d =
      upload_all-Done codec config room now s₀ 0 chunks [] (some content) remote z r h
        (record { open_text = p.open_text; full_length = p.full_length }) refl
        (omega (arith, chunks_for-IsSplit config chunks z h n))
        (omega (arith, zero-mul config.chunk_size)) b (omega arith) (omega arith) in
    let s₁ = d.0 in
    let s₂ : Session = record s₁ { status = Status.completed; last_activity_time = now } in
    (
      s₀,
      s₁,
      s₂,
      refl,
      d.1,
      visit-verifying codec config now s₁ content (some content) remote stats d.2
          (λ k. d.5 ∙ v (ground (arith, k))),
      refl,
      visit-completed codec config now s₂ content (some content) remote stats refl,
    )
