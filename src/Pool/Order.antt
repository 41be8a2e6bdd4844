-- ===== src/Pool/Order.antt =====
-- atb_sak/src/thread/threadpool.cpp: the order of the tasks, and the bounds of the pool.
use vm.Prelude.{
  ℕ, zero, suc, ◌+◌, ◌≤◌, ◌<◌, ◌≡◌, refl, ap, List, [], ◌∷◌, ◌++◌, arith, length, length-append,
}
use vm.Pool.{
  add_task, execute_thread, destroy, signal, broadcast, System, Step, accept, refuse, notify, pick,
  sleep, wake, leave, finish, stop, wake_all, Reach, here, next,
}

-- The tasks that were begun, then those in the queue, are the tasks that were accepted, in order; the
-- queue is within its limit and one more; and there are as many threads as there were.
pub record Orderly {T : Type 0} (size : ℕ) (s : System T) : Type 0 where
  pub fifo : s.begun ++ s.pool.tasks ≡ s.accepted
  pub room : 0 < s.pool.limit → length s.pool.tasks ≤ suc s.pool.limit
  pub threads : ((s.idle + s.asleep) + s.exited) + length s.running ≡ size

module _ {T : Type 0} (size : ℕ) where
  ++_snoc : (xs ys : List T) (t : T) → xs ++ (ys ++ t ∷ []) ≡ (xs ++ ys) ++ t ∷ []
  ++_snoc [] ys t = refl
  ++_snoc (x ∷ xs) ys t = ap (◌∷◌ x) (++_snoc xs ys t)

  ++_move : (xs ys : List T) (t : T) → (xs ++ t ∷ []) ++ ys ≡ xs ++ t ∷ ys
  ++_move [] ys t = refl
  ++_move (x ∷ xs) ys t = ap (◌∷◌ x) (++_move xs ys t)

  woken-Orderly :
      (n : ℕ) {s : System T}
      → s.asleep ≡ n
      → Orderly size s
      → Orderly size (elim n [ zero ↦ s | suc m ↦ record s { asleep = m; idle = suc s.idle } ])
  woken-Orderly zero e o = o
  woken-Orderly (suc n) e o = record {
    fifo = o.fifo;
    room = o.room;
    threads = omega (arith, o.threads, e);
  }

  signal-Orderly : {s : System T} → Orderly size s → Orderly size (signal s)
  signal-Orderly {s} o = woken-Orderly s.asleep refl o

  Step-Orderly : {s u : System T} → Step s u → Orderly size s → Orderly size u
  unfolding add_task execute_thread destroy broadcast
  Step-Orderly (accept s t pool e) o = record {
    fifo = grind (arith, ++_snoc s.begun s.pool.tasks t, o.fifo);
    room = λ h. grind (arith, length-append s.pool.tasks (t ∷ []), o.room);
    threads = o.threads;
  }
  Step-Orderly (notify s n e) o =
      let o' = signal-Orderly o in record { fifo = o'.fifo; room = o'.room; threads = o'.threads }
  Step-Orderly (wake s n e) o = signal-Orderly o
  Step-Orderly (refuse s t pool e) o = record {
    fifo = grind (arith, o.fifo);
    room = λ h. grind (arith, o.room);
    threads = o.threads;
  }
  Step-Orderly (pick s n t pool i e) o = record {
    fifo = grind (arith, ++_move s.begun pool.tasks t, o.fifo);
    room = λ h. grind (arith, o.room);
    threads = omega (arith, o.threads, i);
  }
  Step-Orderly (leave s n pool i e) o = record {
    fifo = grind (arith, o.fifo);
    room = λ h. grind (arith, o.room);
    threads = omega (arith, o.threads, i);
  }
  Step-Orderly (finish s before t after e) o = record {
    fifo = o.fifo;
    room = o.room;
    threads = omega (
      arith,
      o.threads,
      length-append before (t ∷ after),
      length-append before after,
      ap length e,
    );
  }
  Step-Orderly (sleep s n pool i e) o = record {
    fifo = grind (arith, o.fifo);
    room = λ h. grind (arith, o.room);
    threads = omega (arith, o.threads, i);
  }
  Step-Orderly (stop s) o = record { fifo = o.fifo; room = o.room; threads = o.threads }
  Step-Orderly (wake_all s called) o = record {
    fifo = o.fifo;
    room = o.room;
    threads = omega (arith, o.threads);
  }

  -- However the threads take turns, every accepted task is begun at most once and in the order of
  -- acceptance, none is lost from the queue, the queue holds at most one task more than its limit, and
  -- no thread is lost.
  pub Reach-Orderly : {s u : System T} → Reach s u → Orderly size s → Orderly size u
  Reach-Orderly here o = o
  Reach-Orderly (next r st) o = Step-Orderly st (Reach-Orderly r o)
