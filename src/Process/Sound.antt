-- ===== src/Process/Sound.antt =====
-- The whole process: what is true of its state after anything that may happen.
use vm.Adapter.Unique.{LogsNobodyIn}
use vm.Prelude.{All, ℕ, ◌≡◌, ◌∙◌, Option, some, List, [], ◌∷◌, arith}
use vm.Prelude.Exec.{ok, ◌>>=◌, Yields, ok-Yields, bind-Yields}
use vm.Prelude.Text.{Text}
use vm.Adapter.Refresh.{refresh}
use vm.Adapter.Unique.{IsValid, del_client-IsValid}
use vm.Adapter.Lasting.{refresh-IsValid}
use vm.Db.Query.{Mysql}
use vm.Db.Balance.{Pool}
use vm.Pool.{Found, wait, quit, task, execute_thread}
use vm.Process.Jobs.{
  Job, line, read, Process, Work, Event, viewer_came, viewer_left, viewer_writable, viewer_wrote,
  readable, asked, state_turn, server_turn, worked, ground_of, put_pm, receive, on_readable,
  run_job, found_job, handle, handle_all,
}
use vm.Service.Admin.{WebReply, Given}
use vm.Service.Grounds.{Fine, db_handler-Keeps, db_read_task-Fine}
use vm.Service.Handler.{both, db_handler}
use vm.Service.Http.{Request}
use vm.Service.Keeping.{serve_route-Kept}
use vm.Process.Rooms.{serve_route-Rooms}
use vm.Service.Reading.{db_read_task}
use vm.Service.Routes.{Route, serve_route}
use vm.Wss.Events
use vm.Wss.Events.{Service, step, connected, closed, writable, request, round}
use vm.Wss.Invariant.{step-IsValid}
use vm.Wss.Keeping.{step-Keeps}
use vm.Wss.PlayMngr.{Formats}
use vm.Wss.Queue.{Message}
use vm.Wss.Rooms

module _ (styled : WebReply → Text) (seconds : Text → Option ℕ) {V : Type 0} (formats : Formats V)
    {W : Type 0} (m : Mysql W) (idle : W → ℕ) (pool : Pool m idle) where
  -- The pool of connections has `n` idle ones, the connected clients differ in socket and in id, and
  -- no viewer stands twice in a room.
  pub record Sound (n : ℕ) (p : Process W) : Type 0 where
    pub connections : idle (ground_of p).db ≡ n
    pub clients : IsValid (ground_of p).server
    pub rooms : Rooms.IsValid p.service.pm

  step-Sound :
      (e : Events.Event) (p : Process W) (n : ℕ)
      → Sound n p
      → Yields
          (λ s. Sound n (record p { service = s }))
          (step formats (db_handler seconds (some m)) e p.service)
  step-Sound e p n v s stepped =
      let fine =
        step-Keeps formats (db_handler seconds (some m)) (λ g. Fine m idle pool n (both g))
          (db_handler-Keeps m idle pool seconds n) e p.service s stepped
          (v.connections, v.clients) in
      record {
        connections = fine.0;
        clients = fine.1;
        rooms = step-IsValid formats (db_handler seconds (some m)) e p.service stepped v.rooms;
      }

  stepped-Sound :
      (e : Events.Event) (p : Process W) (n : ℕ)
      → Sound n p
      → Yields (Sound n) (do
        s ← step formats (db_handler seconds (some m)) e p.service
        ok (record p { service = s }))
  stepped-Sound e p n v =
      bind-Yields _ _ _ λ s stepped. ok-Yields _ _ (step-Sound e p n v s stepped)

  asked-Sound :
      (route : Route) (g : Given) (req : Request) (p : Process W) (n : ℕ)
      → Sound n p
      → Yields
          (λ r. Sound n (put_pm r.0 p))
          (serve_route styled seconds formats (some m) route g req p.service.pm)
  asked-Sound route g req p n v r served =
      let kept =
        serve_route-Kept styled seconds m idle pool formats route g req p.service.pm served
          v.clients in
      record {
        connections = kept.0 ∙ v.connections;
        clients = kept.1;
        rooms =
            serve_route-Rooms styled seconds formats (some m) route g req p.service.pm v.rooms r
              served;
      }

  receive-Sound :
      (message : Message) (p : Process W) (n : ℕ) → Sound n p → Sound n (receive message p)
  unfolding receive
  receive-Sound message p n v = ground arith

  on_readable-Sound : (fd : ℕ) (p : Process W) (n : ℕ) → Sound n p → Sound n (on_readable fd p)
  unfolding on_readable
  on_readable-Sound fd p n v = ground (arith, del_client-IsValid fd (ground_of p).server)

  run_job-Sound :
      (w : Work) (j : Job) (p : Process W) (n : ℕ)
      → LogsNobodyIn w.others
      → Sound n p
      → Yields (Sound n) (run_job styled seconds formats (some m) w j p)
  unfolding run_job
  run_job-Sound w (line message) p n alone v =
      stepped-Sound (request w.now message.0 message.1) p n v
  run_job-Sound w (read fd) p n alone v =
      bind-Yields _
        (db_read_task w.others (some m) w.net w.now fd w.header_cuts w.body_cuts w.stream
          (both (ground_of p)))
        _
        λ b done.
          let f =
            db_read_task-Fine m idle pool w.others alone w.net w.now fd w.header_cuts w.body_cuts
              w.stream (both (ground_of p)) n (v.connections, v.clients) b done in
          ok-Yields _ _ (record { connections = f.0; clients = f.1; rooms = v.rooms })

  found_job-Sound :
      (w : Work) (found : Found Job) (p : Process W) (n : ℕ)
      → LogsNobodyIn w.others
      → Sound n p
      → Yields (Sound n) (found_job styled seconds formats (some m) w found p)
  unfolding found_job
  found_job-Sound w wait p n alone v = ok-Yields _ _ v
  found_job-Sound w quit p n alone v = ok-Yields _ _ v
  found_job-Sound w (task j) p n alone v = run_job-Sound w j p n alone v

  -- A login is served while no other is.
  abbrev pub Alone : Event → Type 0
  Alone (worked w) = LogsNobodyIn w.others
  Alone e = Unit

  handle-Sound :
      (e : Event) (p : Process W) (n : ℕ)
      → Alone e
      → Sound n p
      → Yields (Sound n) (handle styled seconds formats (some m) e p)
  unfolding handle
  handle-Sound (viewer_came time raw now socket) p n alone v =
      stepped-Sound (connected time raw now socket) p n v
  handle-Sound (viewer_left now socket) p n alone v = stepped-Sound (closed now socket) p n v
  handle-Sound (viewer_writable socket) p n alone v = stepped-Sound (writable socket) p n v
  handle-Sound (viewer_wrote message) p n alone v = ok-Yields _ _ (receive-Sound message p n v)
  handle-Sound (readable fd) p n alone v = ok-Yields _ _ (on_readable-Sound fd p n v)
  handle-Sound (asked route g req) p n alone v =
      bind-Yields _ (serve_route styled seconds formats (some m) route g req p.service.pm) _
        λ r served. ok-Yields _ _ (asked-Sound route g req p n v r served)
  handle-Sound (state_turn now) p n alone v = stepped-Sound (round now) p n v
  handle-Sound (server_turn net now time) p n alone v =
      bind-Yields _ (refresh seconds net now time (ground_of p).server) _ λ srv looked.
        ok-Yields _ _ (record {
          connections = v.connections;
          clients = refresh-IsValid seconds net now time (ground_of p).server looked v.clients;
          rooms = v.rooms;
        })
  handle-Sound (worked w) p n alone v =
      let r = execute_thread p.pool in
      found_job-Sound w r.1 (record p { pool = r.0 }) n alone
        (record { connections = v.connections; clients = v.clients; rooms = v.rooms })

  -- After any events of the viewers, the web, the adapter clients and the threads, in any order, each served
  -- to its end before the next, but for a login, during which the other threads may change the list of
  -- clients in any way that keeps these apart and adds no socket and no id: the pool has as many idle
  -- connections as before, the connected clients differ in socket and in id, and no viewer stands twice in
  -- a room, if so they did before.
  pub handle_all-Sound :
      (es : List Event) (p : Process W) (n : ℕ) {p' : Process W}
      → All Alone es
      → handle_all styled seconds formats (some m) es p ≡ ok p'
      → Sound n p
      → Sound n p'
  unfolding handle_all
  handle_all-Sound [] p n alone e v = ok-Yields (Sound n) p v _ e
  handle_all-Sound (event ∷ es) p n {p'} alone e v =
      bind-Yields (Sound n) (handle styled seconds formats (some m) event p) _
        (λ p1 first p2 later.
          handle_all-Sound es p1 n alone.1 later (handle-Sound event p n alone.0 v p1 first))
        p' e
