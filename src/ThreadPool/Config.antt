-- ===== src/ThreadPool/Config.antt =====
-- The numbers of threads: the configuration that threadpool_create checks, and threadpool_resize,
-- of server/src/threadpool.c.
use chatweb.Base.{
  ℕ, ◌+◌, ◌-◌, ◌≤◌, ◌<◌, ◌≡◌, Bool, true, ◌||◌, arith, ltb, ◌==◌, min, if◌then◌else◌,
}
use chatweb.ThreadPool.{State, is_running, Status, success, invalid_arg, memory, shutdown}

abbrev min_threads_limit : ℕ
min_threads_limit = 1

abbrev max_threads_limit : ℕ
max_threads_limit = 128

pub record Threads : Type 0 where
  pub min_threads : ℕ
  pub max_threads : ℕ
  pub default_threads : ℕ

-- The four tests of threadpool_create, in order.
unfoldable pub check_config : Threads → Threads
check_config c =
    let lo = if ltb c.min_threads min_threads_limit then min_threads_limit else c.min_threads in
    let hi = if ltb max_threads_limit c.max_threads then max_threads_limit else c.max_threads in
    let d = if ltb c.default_threads lo then lo else c.default_threads in
    record { min_threads = lo; max_threads = hi; default_threads = if ltb hi d then hi else d }

-- Any configuration comes out with at least one and at most 128 threads as its ends, and with no
-- more threads at the start than its maximum; if its ends are in order, with no fewer than its
-- minimum. A configuration that meets all this is kept.
check_config-bounds :
    (c : Threads)
    → let c' = check_config c in
      (1 ≤ c'.min_threads)
      × (c'.max_threads ≤ 128)
      × (c'.default_threads ≤ c'.max_threads)
      × (c'.min_threads ≤ c'.max_threads → c'.min_threads ≤ c'.default_threads)
      × (check_config c' ≡ c')
unfolding check_config
check_config-bounds c = (ground arith, ground arith, ground arith, ground arith, ground arith)

-- What threadpool_resize reads and writes.
pub record Sizing : Type 0 where
  pub state : State
  pub min_threads : ℕ
  pub max_threads : ℕ
  pub thread_count : ℕ

-- The flag says whether both arrays can be reallocated; `started` is how many pthread_create calls
-- succeed before the first that fails.
unfoldable pub threadpool_resize : Bool → ℕ → Sizing → ℕ → Status × Sizing
threadpool_resize realloc_ok started pool num_threads =
    if ltb num_threads pool.min_threads || ltb pool.max_threads num_threads
    then (invalid_arg, pool)
    else if is_running pool.state
    then (if num_threads == pool.thread_count
        then (success, pool)
        else if ltb pool.thread_count num_threads
        then (if realloc_ok
            then (let threads_to_add = num_threads - pool.thread_count in
                let left = threads_to_add - min started threads_to_add in
                (success, record pool { thread_count = num_threads - left }))
            else (memory, pool))
        else (success, record pool { max_threads = num_threads }))
    else (shutdown, pool)

-- Growing to an allowed size in a running pool starts as many threads as can be started, up to
-- that size; asking for fewer threads than there are starts and ends none, and lowers the maximum.
threadpool_resize-running :
    (pool : Sizing) (started n : ℕ)
    → pool.state ≡ State.running
    → pool.min_threads ≤ n
    → n ≤ pool.max_threads
    → let (status, pool') = threadpool_resize true started pool n in
      (status ≡ success)
      × (pool.thread_count ≤ n → pool'.thread_count ≡ min n (pool.thread_count + started))
      × (n < pool.thread_count → (pool'.thread_count ≡ pool.thread_count) × (pool'.max_threads ≡ n))
unfolding threadpool_resize
threadpool_resize-running pool started n s h k = (ground arith, ground arith, ground arith)

-- Once a running pool was asked to shrink to `n` threads, no later request for more than `n` is
-- accepted, though it was within the maximum of the configuration.
threadpool_resize-shrink :
    (pool : Sizing) (started n m : ℕ)
    → pool.state ≡ State.running
    → pool.min_threads ≤ n
    → n < pool.thread_count
    → n ≤ pool.max_threads
    → n < m
    → (threadpool_resize true started (threadpool_resize true started pool n).1 m).0 ≡ invalid_arg
unfolding threadpool_resize
threadpool_resize-shrink pool started n m s h k l g = ground arith
