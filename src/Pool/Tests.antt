-- ===== src/Pool/Tests.antt =====
-- The thread pool at a concrete input.
use vm.Prelude.{ℕ, ◌+◌, ◌*◌, ◌≤◌, length, ◌≡◌, ◌⊎◌, refl, true, false, [], ◌∷◌, arith}
use vm.Pool.Ending.{IsThread, none, more, stopped_pool_ends}
use vm.Pool.{
  System, Step, accept, pick, leave, finish, broadcast, here, next, add_task, execute_thread,
}
use vm.Pool.Order.{Orderly, Reach-Orderly}

-- Two threads, and a limit of one task.
abbrev start : System ℕ
start = record {
  pool = record { tasks = []; limit = 1; stopped = false };
  idle = 2;
  asleep = 0;
  exited = 0;
  running = [];
  accepted = [];
  begun = [];
  signals = 0;
  called = false;
}

start-Orderly : Orderly 2 start
start-Orderly = record { fifo = refl; room = λ h. omega arith; threads = refl }

abbrev queued : System ℕ
queued = record start {
  pool = record start.pool { tasks = 5 ∷ [] };
  accepted = 5 ∷ [];
  signals = 1;
}

abbrev picked : System ℕ
picked = record queued {
  pool = record queued.pool { tasks = [] };
  idle = 1;
  running = 5 ∷ [];
  begun = 5 ∷ [];
}

-- One task is accepted and picked.
Reach-Orderly_example : Orderly 2 picked
unfolding add_task execute_thread
Reach-Orderly_example =
    Reach-Orderly 2
      (next (next here (accept start 5 queued.pool refl)) (pick queued 1 5 picked.pool refl refl))
      start-Orderly

-- The pool is stopped while a task is run and the other thread waits: that thread is woken and leaves, the
-- task ends, and its thread leaves.
abbrev stopped : System ℕ
stopped = record picked {
  pool = record picked.pool { stopped = true };
  idle = 0;
  asleep = 1;
  signals = 0;
  called = true;
}

abbrev waiting : System ℕ
waiting = record stopped { asleep = 0; exited = 1 }

abbrev ended : System ℕ
ended = record waiting { idle = 1; running = [] }

abbrev joined : System ℕ
joined = record ended { idle = 0; exited = 2 }

stopped_pool_ends_example :
    (3 ≤ (stopped.idle + stopped.asleep) + 2 * length stopped.running)
    × (joined.begun ≡ stopped.begun)
    × (((joined.idle ≡ 0) × (joined.asleep ≡ 0) × (joined.running ≡ []))
        ⊎ ((v : System ℕ) × ((e : Step joined v) × IsThread e)))
unfolding execute_thread broadcast
stopped_pool_ends_example = stopped_pool_ends stopped refl (
    more
      (more (more none (leave (broadcast stopped) 0 stopped.pool refl refl) tt)
        (finish waiting [] 5 [] refl) tt)
      (leave ended 0 ended.pool refl refl) tt)
