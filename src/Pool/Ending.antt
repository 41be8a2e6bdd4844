-- ===== src/Pool/Ending.antt =====
-- atb_sak/src/thread/threadpool.cpp: how the threads end after `destroy_threadpool`.
use vm.Prelude.{
  ℕ, zero, suc, ◌+◌, ◌*◌, ◌≤◌, ◌≡◌, ◌⊎◌, inl, inr, refl, ap, true, List, [], ◌∷◌, arith, length,
  length-append,
}
use vm.Pool.{
  execute_thread, quit, broadcast, System, Step, accept, refuse, notify, pick, sleep, wake, leave,
  finish, stop, wake_all,
}

-- A step that a thread of the pool takes.
abbrev pub IsThread : {T : Type 0} {s u : System T} → Step s u → Type 0
IsThread (accept s t pool e) = ⊥
IsThread (refuse s t pool e) = ⊥
IsThread (notify s n e) = ⊥
IsThread (wake s n e) = ⊥
IsThread (pick s n t pool i e) = Unit
IsThread (sleep s n pool i e) = Unit
IsThread (leave s n pool i e) = Unit
IsThread (finish s before t after e) = Unit
IsThread (stop s) = ⊥
IsThread (wake_all s called) = ⊥

-- A number of steps of threads, in any order.
pub data Threads {T : Type 0} (s : System T) : ℕ → System T → Type 0 where
  none : Threads s 0 s
  more :
      {n : ℕ} {u v : System T} → Threads s n u → (e : Step u v) → IsThread e → Threads s (suc n) v

-- What is left to do: each thread that goes for the lock leaves, and each task that is run ends before.
unfoldable pub left : {T : Type 0} → System T → ℕ
left s = s.idle + 2 * length s.running

module _ {T : Type 0} where
  Step-left :
      {s u : System T} (e : Step s u)
      → IsThread e
      → s.pool.stopped ≡ true
      → (suc (left u) ≡ left s)
        × (u.pool.stopped ≡ true)
        × (u.begun ≡ s.begun)
        × (u.asleep ≡ s.asleep)
  unfolding left execute_thread
  Step-left (accept s t pool e) by stopped = absurd by
  Step-left (refuse s t pool e) by stopped = absurd by
  Step-left (notify s n e) by stopped = absurd by
  Step-left (wake s n e) by stopped = absurd by
  Step-left (pick s n t pool i e) by stopped = grind arith
  Step-left (sleep s n pool i e) by stopped = grind arith
  Step-left (leave s n pool i e) by stopped = grind arith
  Step-left (finish s before t after e) by stopped =
      let lengths = length-append before (t ∷ after) in
      let lengths' = length-append before after in
      let same = ap length e in (omega arith, stopped, refl, refl)
  Step-left (stop s) by stopped = absurd by
  Step-left (wake_all s called) by stopped = absurd by

  -- While no thread waits and something is left to do, a thread can take a step.
  progress_of :
      (s : System T) (idle : ℕ) (running : List T)
      → s.pool.stopped ≡ true
      → s.asleep ≡ 0
      → s.idle ≡ idle
      → s.running ≡ running
      → ((s.idle ≡ 0) × (s.asleep ≡ 0) × (s.running ≡ []))
        ⊎ ((u : System T) × ((e : Step s u) × IsThread e))
  unfolding execute_thread
  progress_of s zero [] stopped awake i r = inl (i, awake, r)
  progress_of s zero (t ∷ ts) stopped awake i r = inr (_, (finish s [] t ts r, tt))
  progress_of s (suc n) running stopped awake i r =
      let quits : execute_thread s.pool ≡ (s.pool, quit) = rw (stopped, execute_thread) refl in
      inr (_, (leave s n s.pool i quits, tt))

  Threads-left :
      {s : System T} {n : ℕ} {u : System T}
      → Threads s n u
      → s.pool.stopped ≡ true
      → (n + left u ≡ left s)
        × (u.pool.stopped ≡ true)
        × (u.begun ≡ s.begun)
        × (u.asleep ≡ s.asleep)
  Threads-left none stopped = (omega arith, stopped, refl, refl)
  Threads-left (more ts e by) stopped =
      let (count, stopped', same, asleep) = Threads-left ts stopped in
      let (one, stopped'', same', asleep') = Step-left e by stopped' in
      (omega arith, stopped'', cc, cc)

  -- A pool is stopped, with threads that go for the lock, that wait for the condition variable and that
  -- run tasks, and its threads are woken. Then, however the threads take turns: they take no more steps
  -- than two for each task that is run and one for each thread else; no task is begun; and until every
  -- thread has exited, also those that waited, some thread can take a step.
  pub stopped_pool_ends :
      (s : System T) {n : ℕ} {u : System T}
      → s.pool.stopped ≡ true
      → Threads (broadcast s) n u
      → (n ≤ (s.idle + s.asleep) + 2 * length s.running)
        × (u.begun ≡ s.begun)
        × ((((u.idle ≡ 0) × (u.asleep ≡ 0) × (u.running ≡ [])))
            ⊎ ((v : System T) × ((e : Step u v) × IsThread e)))
  unfolding broadcast left
  stopped_pool_ends s {n} {u} stopped ts =
      let (count, stopped', same, asleep) = Threads-left ts stopped in
      (omega (arith, count), same, progress_of u u.idle u.running stopped' asleep refl refl)
