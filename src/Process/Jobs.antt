-- ===== src/Process/Jobs.antt =====
-- The whole process: atb_sak/src/thread/threadpool.cpp is one pool for the messages of the viewers and
-- for the sockets of the adapter clients. One step is what one thread does in one go.
use vm.Prelude.{ℕ, Bool, Option, List, [], ◌∷◌, if◌then◌else◌}
use vm.Prelude.Exec.{Exec, ok, ◌>>=◌}
use vm.Prelude.Int.{pos, int_beq}
use vm.Prelude.Text.{Text}
use vm.Adapter.Server.{TcpServer, del_client}
use vm.Adapter.Refresh.{refresh}
use vm.Db.Query.{Mysql}
use vm.Pool.{ThreadPool, Found, wait, quit, task, add_task, execute_thread}
use vm.Service.Admin.{WebReply, Given}
use vm.Service.Handler.{Ground, both, with_both, db_handler}
use vm.Service.Http.{Request}
use vm.Service.Reading.{db_read_task}
use vm.Service.Routes.{Route, serve_route}
use vm.Wss.Events.{Service, step, connected, closed, writable, request, round}
use vm.Wss.PlayMngr.{Formats, PlayMngr}
use vm.Wss.Queue.{Message}
use vm.Wss.Server.{remove_connection}

-- A task of the pool: a viewer's message, or a socket that has something to read.
pub data Job : Type 0 where
  line : Message → Job
  read : (fd : ℕ) → Job

pub record Process (W : Type 0) : Type 0 where
  pub service : Service (Ground W)
  pub pool : ThreadPool Job

-- What a worker meets: the time, the parts in which the socket gives what it has, whether the answer can
-- be sent, and what the other threads do to the list of clients while a login asks the database.
pub record Work : Type 0 where
  pub net : Bool
  pub now : ℕ
  pub header_cuts : List ℕ
  pub body_cuts : List ℕ
  pub stream : Text
  pub others : TcpServer → TcpServer

pub data Event : Type 0 where
  viewer_came : (time raw now socket : ℕ) → Event
  viewer_left : (now socket : ℕ) → Event
  viewer_writable : (socket : ℕ) → Event
  viewer_wrote : Message → Event
  readable : (fd : ℕ) → Event
  asked : (route : Route) (g : Given) (req : Request) → Event
  state_turn : (now : ℕ) → Event
  server_turn : (net : ℕ → Bool) (now : ℕ) (time : Text) → Event
  worked : Work → Event

abbrev pub ground_of : {W : Type 0} → Process W → Ground W
ground_of p = p.service.pm.adapter

abbrev pub put_pm : {W : Type 0} → PlayMngr (Ground W) → Process W → Process W
put_pm pm p = record p { service = record p.service { pm = pm } }

abbrev pub put_ground : {W : Type 0} → Ground W → Process W → Process W
put_ground g p = put_pm (record p.service.pm { adapter = g }) p

-- `onMessage`: where the pool refuses the task, the connection is dropped.
unfoldable pub receive : {W : Type 0} → Message → Process W → Process W
receive m p =
    let (pool, ret) = add_task (line m) p.pool in
    let pm = p.service.pm in
    if int_beq ret (pos 0)
    then record p { pool = pool }
    else record (put_pm (record pm { connections = remove_connection m.0 pm.connections }) p) {
      pool = pool;
    }

-- The branch of `Run` for a socket that can be read: where the pool refuses the task, the client is
-- deleted.
unfoldable pub on_readable : {W : Type 0} → ℕ → Process W → Process W
on_readable fd p =
    let (pool, ret) = add_task (read fd) p.pool in
    let g = ground_of p in
    if int_beq ret (pos 0)
    then record p { pool = pool }
    else record (put_ground (record g { server = del_client fd g.server }) p) { pool = pool }

module _ (styled : WebReply → Text) (seconds : Text → Option ℕ) {V : Type 0} (formats : Formats V)
    {W : Type 0} (mysql : Option (Mysql W)) where
  -- A task is run.
  unfoldable pub run_job : Work → Job → Process W → Exec (Process W)
  run_job w (line m) p = do
    s ← step formats (db_handler seconds mysql) (request w.now m.0 m.1) p.service
    ok (record p { service = s })
  run_job w (read fd) p = do
    b ←
        db_read_task w.others mysql w.net w.now fd w.header_cuts w.body_cuts w.stream
          (both (ground_of p))
    ok (put_ground (with_both b (ground_of p)) p)

  -- A thread of the pool takes what it finds.
  unfoldable pub found_job : Work → Found Job → Process W → Exec (Process W)
  found_job w wait p = ok p
  found_job w quit p = ok p
  found_job w (task j) p = run_job w j p

  unfoldable pub handle : Event → Process W → Exec (Process W)
  handle (viewer_came time raw now socket) p = do
    s ← step formats (db_handler seconds mysql) (connected time raw now socket) p.service
    ok (record p { service = s })
  handle (viewer_left now socket) p = do
    s ← step formats (db_handler seconds mysql) (closed now socket) p.service
    ok (record p { service = s })
  handle (viewer_writable socket) p = do
    s ← step formats (db_handler seconds mysql) (writable socket) p.service
    ok (record p { service = s })
  handle (viewer_wrote m) p = ok (receive m p)
  handle (readable fd) p = ok (on_readable fd p)
  handle (asked route g req) p = do
    (pm, res) ← serve_route styled seconds formats mysql route g req p.service.pm
    ok (put_pm pm p)
  handle (state_turn now) p = do
    s ← step formats (db_handler seconds mysql) (round now) p.service
    ok (record p { service = s })
  handle (server_turn net now time) p = do
    srv ← refresh seconds net now time (ground_of p).server
    ok (put_ground (record (ground_of p) { server = srv }) p)
  handle (worked w) p =
      let (pool, found) = execute_thread p.pool in found_job w found (record p { pool = pool })

  -- Whatever happens, one thing after another.
  unfoldable pub handle_all : List Event → Process W → Exec (Process W)
  handle_all [] p = ok p
  handle_all (e ∷ es) p = do p' ← handle e p; handle_all es p'
