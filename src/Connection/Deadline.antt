-- ===== src/Connection/Deadline.antt =====
-- The deadlines of pthread_cond_timedwait, as message_queue_push and message_queue_pop of
-- server/src/connection.c compute them and as threadpool_wait of server/src/threadpool.c does.
use chatweb.Base.{ℕ, ◌+◌, ◌-◌, ◌*◌, ◌/◌, ◌%◌, ◌<◌, ◌≡◌, arith, leb, if◌then◌else◌}

pub record Timespec : Type 0 where
  pub tv_sec : ℕ
  pub tv_nsec : ℕ

abbrev pub billion : ℕ
billion = 1000000000

-- message_queue_push and message_queue_pop, for a positive timeout
unfoldable pub queue_deadline : Timespec → ℕ → Timespec
queue_deadline now timeout_ms =
    let nsec = now.tv_nsec + timeout_ms % 1000 * 1000000 in
    record { tv_sec = now.tv_sec + (timeout_ms / 1000 + nsec / billion); tv_nsec = nsec % billion }

-- threadpool_wait
unfoldable pub wait_deadline : Timespec → ℕ → Timespec
wait_deadline now timeout_ms =
    let sec = now.tv_sec + timeout_ms / 1000 in
    let nsec = now.tv_nsec + timeout_ms % 1000 * 1000000 in
    if leb billion nsec
    then record { tv_sec = sec + 1; tv_nsec = nsec - billion }
    else record { tv_sec = sec; tv_nsec = nsec }

abbrev pub nanoseconds : Timespec → ℕ
nanoseconds t = t.tv_sec * billion + t.tv_nsec

-- From a normal reading of the clock both computations give the same deadline: exactly the timeout
-- later, and normal.
queue_deadline-wait_deadline :
    (now : Timespec) (timeout_ms : ℕ)
    → now.tv_nsec < billion
    → (queue_deadline now timeout_ms ≡ wait_deadline now timeout_ms)
      × (nanoseconds (queue_deadline now timeout_ms) ≡ nanoseconds now + timeout_ms * 1000000)
      × ((queue_deadline now timeout_ms).tv_nsec < billion)
unfolding queue_deadline wait_deadline
queue_deadline-wait_deadline now timeout_ms h = (ground arith, omega arith, omega arith)
