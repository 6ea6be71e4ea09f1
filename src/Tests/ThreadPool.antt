-- ===== src/Tests/ThreadPool.antt =====
-- The theorems on server/src/threadpool.c at concrete inputs.
use chatweb.Base.{refl, true, none}
use chatweb.ThreadPool.{Pool, State, threadpool_add_urgent_task, threadpool_pause}
use chatweb.ThreadPool.Accounting.{Balanced, done, and_then, add_urgent, pause, Steps-Balanced}

abbrev empty_pool : Pool
empty_pool = record {
  state = State.running;
  heap = λ p. none;
  task_queue_high = none;
  task_queue_normal = none;
  task_queue_low = none;
  task_queue_tail = none;
  queue_size = 100;
  queue_length = 0;
  max_queue_length = 0;
  total_tasks_submitted = 0;
  total_tasks_completed = 0;
  total_execution_time = 0;
  average_wait_time = 0;
  task_counter = 1;
}

abbrev one_urgent : Pool
one_urgent = (threadpool_add_urgent_task true empty_pool 500).1

Steps-Balanced_example : Balanced (threadpool_pause one_urgent)
Steps-Balanced_example =
    Steps-Balanced {pool = empty_pool} refl (and_then (and_then done (add_urgent true 500)) pause)
