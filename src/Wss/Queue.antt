-- ===== src/Wss/Queue.antt =====
-- atb_wss/PlayMngr.cc over atb_sak/src/thread/threadpool.cpp: the messages of the viewers, which
-- `onMessage` puts in the queue of the pool and a worker takes from it.
use vm.Prelude.{ℕ, ◌≡◌, ◌∙◌, refl, sym, ap, false, List, [], ◌∷◌, ◌++◌, if◌then◌else◌, map}
use vm.Prelude.Exec.{Exec, ok, crash, no_fuel, ◌>>=◌}
use vm.Prelude.Int.{ℤ, pos, int_beq}
use vm.Prelude.Text.{Text}
use vm.Wss.Server.{remove_connection}
use vm.Wss.PlayMngr.{Formats, PlayctrlHandler, PlayMngr}
use vm.Wss.Requests.{handle_request}
use vm.Wss.Events.{Event, request, Service, step, run}
use vm.Pool.{ThreadPool, wait, quit, task, add_task, execute_thread}

-- `PMTaskData`: the socket and the line.
abbrev pub Message : Type 0
Message = ℕ × Text

-- The play manager and the pool with its messages.
pub record Desk (W : Type 0) : Type 0 where
  pub pm : PlayMngr W
  pub pool : ThreadPool Message

module _ {W : Type 0} where
  -- `onMessage`: where the pool refuses the task, the connection is dropped.
  unfoldable pub on_message : Message → Desk W → Desk W
  on_message m d =
      let (pool, ret) = add_task m d.pool in
      if int_beq ret (pos 0) then record d { pool = pool } else record {
        pm = record d.pm { connections = remove_connection m.0 d.pm.connections };
        pool = pool;
      }

  unfoldable pub on_messages : List Message → Desk W → Desk W
  on_messages [] d = d
  on_messages (m ∷ ms) d = on_messages ms (on_message m d)

append_nil : (xs : List Message) → xs ++ [] ≡ xs
append_nil [] = refl
append_nil (x ∷ xs) = ap (◌∷◌ x) (append_nil xs)

append_snoc :
    (xs : List Message) (m : Message) (ys : List Message) → (xs ++ m ∷ []) ++ ys ≡ xs ++ m ∷ ys
append_snoc [] m ys = refl
append_snoc (x ∷ xs) m ys = ap (◌∷◌ x) (append_snoc xs m ys)

module _ {V W : Type 0} (formats : Formats V) (handler : PlayctrlHandler W) where
  -- One turn of a worker, at a time: `handle_func` runs the request.
  unfoldable pub work : ℕ → Desk W → Exec (Desk W)
  work now d =
      let (pool, found) = execute_thread d.pool in
      elim found [
        | wait ↦ ok (record d { pool = pool })
        | quit ↦ ok (record d { pool = pool })
        | task m ↦ do
          (pm, ret) ← handle_request formats handler now m.0 m.1 d.pm
          ok (record { pm = pm; pool = pool })
      ]

  -- The turns of one worker, at these times.
  unfoldable pub work_all : List ℕ → Desk W → Exec (Desk W)
  work_all [] d = ok d
  work_all (now ∷ times) d = do d' ← work now d; work_all times d'

  -- A message with the time at which it is handled, as an event of the play manager.
  abbrev pub as_request : ℕ × Message → Event
  as_request (now, (socket, line)) = request now socket line

  -- A pool that runs, has no limit, as the service leaves it, and holds these messages.
  abbrev pub holding : PlayMngr W → List Message → Desk W
  holding pm ms = record { pm = pm; pool = record { tasks = ms; limit = 0; stopped = false } }

  on_messages-holding :
      (ms queued : List Message) (pm : PlayMngr W)
      → on_messages ms (holding pm queued) ≡ holding pm (queued ++ ms)
  unfolding on_messages on_message add_task
  on_messages-holding [] queued pm = ap (holding pm) (sym (append_nil queued))
  on_messages-holding (m ∷ ms) queued pm =
      on_messages-holding ms (queued ++ m ∷ []) pm ∙ ap (holding pm) (append_snoc queued m ms)

  -- One request, then the rest, on both sides.
  work_step :
      (e : Exec (PlayMngr W × ℤ)) (times : List ℕ) (ms : List Message) (es : List Event)
      (s : Service W)
      → ((pm : PlayMngr W)
          → work_all times (holding pm ms)
            ≡ (run formats handler es (record s { pm = pm }) >>= λ s'. ok (holding s'.pm [])))
      → ((e >>= λ r. ok (holding r.0 ms)) >>= work_all times) ≡ (
          ((e >>= λ r. ok (record s { pm = r.0 })) >>= run formats handler es) >>= λ s'.
          ok (holding s'.pm []))
  work_step (ok r) times ms es s rest = rest r.0
  work_step crash times ms es s rest = refl
  work_step no_fuel times ms es s rest = refl

  work_all-run :
      (ms : List (ℕ × Message)) (s : Service W)
      → work_all (map (λ m. m.0) ms) (holding s.pm (map (λ m. m.1) ms))
        ≡ (run formats handler (map as_request ms) s >>= λ s'. ok (holding s'.pm []))
  unfolding work_all work run step execute_thread
  work_all-run [] s = refl
  work_all-run ((now, (socket, line)) ∷ ms) s =
      work_step (handle_request formats handler now socket line s.pm) (map (λ m. m.0) ms)
        (map (λ m. m.1) ms) (map as_request ms) s λ pm. work_all-run ms (record s { pm = pm })

  -- Messages that arrive while one worker is busy, and that it takes one after another at these times:
  -- the play manager is as if each request had been handled in the order of arrival, and the queue is
  -- empty.
  pub work_all-on_messages :
      (ms : List (ℕ × Message)) (s : Service W)
      → work_all (map (λ m. m.0) ms) (on_messages (map (λ m. m.1) ms) (holding s.pm []))
        ≡ (run formats handler (map as_request ms) s >>= λ s'. ok (holding s'.pm []))
  work_all-on_messages ms s =
      ap (work_all (map (λ m. m.0) ms)) (on_messages-holding (map (λ m. m.1) ms) [] s.pm)
      ∙ work_all-run ms s
