-- ===== src/Pool.antt =====
-- atb_sak/src/thread/threadpool.cpp: the pool of threads, its queue of tasks, and its stop. A step is
-- what a thread does while it holds the lock, or the end of a task.
use vm.Prelude.{
  ℕ, zero, suc, ◌+◌, ◌≡◌, Bool, true, false, ◌&&◌, Option, none, some, List, [], ◌∷◌, ◌++◌, arith,
  if◌then◌else◌, length, ltb,
}
use vm.Prelude.Int.{ℤ, pos, minus_one}
pub mod Order
pub mod Ending
pub mod Threads
mod Tests

-- `limit` is `m_task_size_limit`, with 0 for no limit; `stopped` is `m_pool_state == STOPPED`.
pub record ThreadPool (T : Type 0) : Type 0 where
  pub tasks : List T
  pub limit : ℕ
  pub stopped : Bool

-- What a thread that holds the lock finds: nothing to do yet, the stop, or a task.
pub data Found (T : Type 0) : Type 0 where
  wait : Found T
  quit : Found T
  task : T → Found T

module _ {T : Type 0} where
  unfoldable pub add_task : T → ThreadPool T → ThreadPool T × ℤ
  add_task t pool =
      if ltb 0 pool.limit && ltb pool.limit (length pool.tasks)
      then (pool, minus_one)
      else (record pool { tasks = pool.tasks ++ t ∷ [] }, pos 0)

  -- One turn of `execute_thread`'s loop, up to the run of the task.
  unfoldable pub execute_thread : ThreadPool T → ThreadPool T × Found T
  execute_thread pool =
      if pool.stopped
      then (pool, quit)
      else elim pool.tasks [ [] ↦ (pool, wait) | t ∷ ts ↦ (record pool { tasks = ts }, task t) ]

  -- `destroy_threadpool`, before it joins the threads.
  unfoldable pub destroy : ThreadPool T → ThreadPool T
  destroy pool = record pool { stopped = true }

-- The pool with its threads: those that go for the lock, those that wait for the condition variable, those
-- that have exited, and the tasks that are run. `accepted` and `begun` record the tasks that `add_task`
-- took and that a thread has picked. `signals` counts the calls of `add_task` that have let go of the lock
-- and have yet to signal, and `called` says that `destroy_threadpool` has set the state: from then on it
-- wakes the threads, once before it joins them and once after each that it has joined.
pub record System (T : Type 0) : Type 0 where
  pub pool : ThreadPool T
  pub idle : ℕ
  pub asleep : ℕ
  pub exited : ℕ
  pub running : List T
  pub accepted : List T
  pub begun : List T
  pub signals : ℕ
  pub called : Bool

-- `signal`: one thread that waits is woken, if there is one.
abbrev pub signal : {T : Type 0} → System T → System T
signal s = elim s.asleep [ zero ↦ s | suc n ↦ record s { asleep = n; idle = suc s.idle } ]

-- `broadcast`: all threads that wait are woken.
unfoldable pub broadcast : {T : Type 0} → System T → System T
broadcast s = record s { asleep = 0; idle = s.idle + s.asleep }

-- `accept` and `notify` are the two halves of an `add_task` that is let in, and `stop` and `wake_all` those
-- of `destroy_threadpool`; `wake` is a thread that the system wakes for no reason.
pub data Step {T : Type 0} : System T → System T → Type 0 where
  accept :
      (s : System T) (t : T) (pool : ThreadPool T)
      → add_task t s.pool ≡ (pool, pos 0)
      → Step s (record s { pool = pool; accepted = s.accepted ++ t ∷ []; signals = suc s.signals })
  notify : (s : System T) (n : ℕ) → s.signals ≡ suc n → Step s (record (signal s) { signals = n })
  refuse :
      (s : System T) (t : T) (pool : ThreadPool T)
      → add_task t s.pool ≡ (pool, minus_one)
      → Step s (record s { pool = pool })
  pick :
      (s : System T) (n : ℕ) (t : T) (pool : ThreadPool T)
      → s.idle ≡ suc n
      → execute_thread s.pool ≡ (pool, task t)
      → Step s
          (record s { pool = pool; idle = n; running = t ∷ s.running; begun = s.begun ++ t ∷ [] })
  sleep :
      (s : System T) (n : ℕ) (pool : ThreadPool T)
      → s.idle ≡ suc n
      → execute_thread s.pool ≡ (pool, wait)
      → Step s (record s { pool = pool; idle = n; asleep = suc s.asleep })
  wake : (s : System T) (n : ℕ) → s.asleep ≡ suc n → Step s (signal s)
  leave :
      (s : System T) (n : ℕ) (pool : ThreadPool T)
      → s.idle ≡ suc n
      → execute_thread s.pool ≡ (pool, quit)
      → Step s (record s { pool = pool; idle = n; exited = suc s.exited })
  finish :
      (s : System T) (before : List T) (t : T) (after : List T)
      → s.running ≡ before ++ t ∷ after
      → Step s (record s { idle = suc s.idle; running = before ++ after })
  stop : (s : System T) → Step s (record s { pool = destroy s.pool; called = true })
  wake_all : (s : System T) → s.called ≡ true → Step s (broadcast s)

pub data Reach {T : Type 0} (s : System T) : System T → Type 0 where
  here : Reach s s
  next : {u v : System T} → Reach s u → Step u v → Reach s v
