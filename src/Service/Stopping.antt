-- ===== src/Service/Stopping.antt =====
-- AdapterService.cpp and main.cpp: what a start leaves behind, and how the process ends.
use vm.Prelude.{Bool, none, leb, true, false, ◌≡◌, if◌then◌else◌, arith}
use vm.Prelude.Exec.{ok}
use vm.Prelude.Int.{pos, minus_one}
use vm.Pool.Threads.{start_workers, delete_workers, destroy_workers}
use vm.Service.Lifecycle.{
  get_instance, init_helper, delete_helper, absent, present, Parts, Outcome, new_service,
  adapter_stop, adapter_start, stop, start_parts, start,
}

-- All threads of the pool can be created.
abbrev pub all_threads : Outcome → Bool
all_threads o = leb 8 o.threads_created

-- Every pointer is null, and the service may be started again.
abbrev pub Released : Parts → Type 0
Released s =
    (s.exit ≡ true)
    × (s.mysql ≡ false)
    × (s.threads ≡ none)
    × (s.http ≡ false)
    × (s.adapter ≡ absent)
    × (s.play ≡ false)

-- A start that fails, if it returns at all, has released everything.
pub start-Released :
    (o : Outcome) (s : Parts) → start o new_service ≡ ok (s, minus_one) → Released s
unfolding start start_parts stop adapter_start adapter_stop init_helper delete_helper get_instance
    start_workers delete_workers destroy_workers
start-Released o s e = grind arith

-- A start of a new service that gives 0 has set all parts, if the thread pool starts; if it does not,
-- the start gives 0 all the same, and neither the HTTP server, the adapter server nor the play manager
-- is there.
pub start_parts_set :
    (o : Outcome) (s : Parts)
    → start o new_service ≡ ok (s, pos 0)
    → (s.exit ≡ false)
      × (s.mysql ≡ true)
      × (s.http ≡ all_threads o)
      × (s.play ≡ all_threads o)
      × (s.adapter ≡ (if all_threads o then present false true else absent))
unfolding start start_parts stop adapter_start adapter_stop init_helper delete_helper get_instance
    start_workers delete_workers destroy_workers
start_parts_set o s e = grind arith
