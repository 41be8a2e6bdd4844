-- ===== src/Process/Entry.antt =====
-- main.cpp: the process from its log to its end, which a signal brings where the console loop does not.
use vm.Prelude.{ℕ, ◌≡◌, refl, true, false, none, some, List, [], ◌∷◌, arith, ◌&&◌, if◌then◌else◌}
use vm.Prelude.Exec.{Exec, ok, crash, ◌>>=◌}
use vm.Prelude.Int.{ℤ, pos, negsuc, minus_one, int_beq}
use vm.Prelude.Text.{codes}
use vm.Log.Host.{Host}
use vm.Log.Logging.{Log, new_log, log_init}
use vm.Service.Console.{console, console_goes_on}
use vm.Pool.Threads.{started, start_workers}
use vm.Service.Stopping.{all_threads}
use vm.Service.Lifecycle.{
  made, present, get_instance, init_helper, Parts, Outcome, new_service, adapter_start, stop,
  start_parts, start, delete_service,
}

-- The process has ended with a status, or it is in the console loop with its service.
pub data Stage : Type 0 where
  ended : ℤ → Stage
  waiting : Parts → Stage

-- `main`, with the array of the console loop as it is found, and all that is typed.
unfoldable pub process :
    {W : Type 0} → Host W → Outcome → (ℕ → ℕ) → List ℕ → W → Exec (W × Log × Stage)
process host o quit typed w =
    let (w', l, log_ret) = log_init host (codes "./") (codes "atb.conf") new_log w in
    if int_beq log_ret (pos 0)
    then (do
      (s, ret) ← start o new_service
      elim ret [
        | negsuc n ↦ do s' ← delete_service s; ok (w', l, ended minus_one)
        | pos n ↦ elim (console quit 0 typed) [
          | none ↦ ok (w', l, waiting s)
          | some rest ↦ do s' ← delete_service s; ok (w', l, ended (pos 0))
        ]
      ])
    else ok (host.print (codes "log init error!") w', l, ended (pos 0))

-- `sig_handler` and `sig_term_handler`: the service, where it is there, is stopped and deleted.
unfoldable pub interrupt : Stage → Exec Stage
interrupt (ended status) = ok (ended status)
interrupt (waiting s) = do s' ← delete_service s; ok (ended (pos 0))

-- All parts are there.
abbrev running : Parts
running = record {
  exit = false;
  mysql = true;
  threads = some (record { pool_size = 8; threads = 8; pool_state = started });
  http = true;
  adapter = present false true;
  play = true;
  play_runs = true;
  helper = made true;
}

start-running :
    (o : Outcome)
    → (o.mysql_init && (o.mysql_open && (all_threads o && o.http_start))) ≡ true
    → (o.tcp_connect && (o.thread_create && o.play_start)) ≡ true
    → start o new_service ≡ ok (running, pos 0)
unfolding start start_parts adapter_start init_helper get_instance start_workers
start-running o database parts = grind arith

-- The log is set up and all parts start. Whatever is typed, if three characters have not ended the
-- console loop, the process waits, with all parts started; a SIGINT or SIGTERM then deletes the play
-- manager and the TCP server under their running threads, which is a fault.
pub process-interrupt :
    {W : Type 0} (host : Host W) (quit : ℕ → ℕ) (a b c : ℕ) (cs : List ℕ) (o : Outcome) (w : W)
    → let (w', l, ret) = log_init host (codes "./") (codes "atb.conf") new_log w in
      ret ≡ pos 0
      → (o.mysql_init && (o.mysql_open && (all_threads o && o.http_start))) ≡ true
      → (o.tcp_connect && (o.thread_create && o.play_start)) ≡ true
      → console quit 0 (a ∷ b ∷ c ∷ []) ≡ none
      → (s : Parts) × (process host o quit (a ∷ b ∷ c ∷ cs) w ≡ ok (w', l, waiting s))
        × (s.exit ≡ false)
        × (interrupt (waiting s) ≡ crash)
unfolding process interrupt delete_service stop
process-interrupt host quit a b c cs o w set database parts typed =
    let all = start-running o database parts in
    let on = console_goes_on quit a b c cs typed in
    (running, grind (arith, set, all, on), refl, refl)
