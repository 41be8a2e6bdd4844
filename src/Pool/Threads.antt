-- ===== src/Pool/Threads.antt =====
-- atb_sak/src/thread/threadpool.cpp: the creation of the threads, and the end of the pool.
use vm.Prelude.{ℕ, ◌+◌, if◌then◌else◌, leb, nat_beq}
use vm.Prelude.Exec.{Exec, ok, crash}
use vm.Prelude.Int.{ℤ, pos, minus_one}

-- `m_pool_state`, which is -1 at first.
pub data PoolState : Type 0 where
  unset : PoolState
  started : PoolState
  stopped : PoolState

-- `m_pool_size`, the size of `m_threads`, and the state.
pub record Workers : Type 0 where
  pub pool_size : ℕ
  pub threads : ℕ
  pub pool_state : PoolState

-- The constructor and `set_pool_size`.
abbrev pub new_workers : ℕ → Workers
new_workers size = record { pool_size = size; threads = 0; pool_state = unset }

abbrev create_threads : ℕ → Workers → Workers × ℤ
create_threads created p =
    if leb p.pool_size created
    then (record p { threads = p.threads + p.pool_size; pool_state = started }, pos 0)
    else (record p { threads = p.threads + created; pool_state = started }, minus_one)

-- `start`; `created` says how many calls of `pthread_create` succeed before one fails.
unfoldable pub start_workers : ℕ → Workers → Workers × ℤ
start_workers created p = if nat_beq p.pool_size 0 then (p, minus_one) else elim p.pool_state [
  | unset ↦ create_threads created p
  | started ↦ (p, pos 0)
  | stopped ↦ create_threads created p
]

-- `destroy_threadpool` joins `m_threads[i]` for each `i` below `m_pool_size`.
unfoldable pub destroy_workers : Workers → Exec Workers
destroy_workers p =
    if leb p.pool_size p.threads then ok (record p { pool_state = stopped }) else crash

-- The destructor.
unfoldable pub delete_workers : Workers → Exec Workers
unfolding destroy_workers
delete_workers p = elim p.pool_state [
  | unset ↦ destroy_workers p
  | started ↦ destroy_workers p
  | stopped ↦ ok p
]
