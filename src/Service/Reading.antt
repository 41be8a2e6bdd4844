-- ===== src/Service/Reading.antt =====
-- atb_adapter/task_tcpreadmsg.cpp and server_tcpsrv.cpp over db_helper.cpp: what a message from a socket
-- does, the login with what the database answers included.
use vm.Prelude.{ℕ, ◌||◌, not, Option, none, some, List, if◌then◌else◌, length, nat_beq}
use vm.Prelude.Exec.{Exec, ok, ◌>>=◌}
use vm.Prelude.Text.{Text}
use vm.Prelude.{Bool}
use vm.Adapter.Wire.{Incoming, bad, empty, message, req_login, req_login_size, read_message}
use vm.Adapter.Server.{TcpServer, find_client, has_fd, close_fd, del_client}
use vm.Adapter.Session.{serve_client}
use vm.Db.Query.{Mysql}
use vm.Service.Admin.{Both}
use vm.Service.Login.{db_login}

module _ {W : Type 0} (others : TcpServer → TcpServer) (db : Option (Mysql W)) where
  -- `HandlerRead` for a socket that has not logged in.
  unfoldable pub db_stranger : Bool → ℕ → ℕ → ℕ → ℕ → Option Text → Both W → Exec (Both W)
  db_stranger net now fd cmd seq none (w, srv) = ok (w, close_fd fd srv)
  db_stranger net now fd cmd seq (some body) (w, srv) =
      if not (nat_beq cmd req_login) || not (nat_beq (length body) req_login_size)
      then ok (w, close_fd fd srv)
      else db_login others net now db fd seq body (w, srv)

  -- `HandlerRead`.
  unfoldable pub db_handler_read : Bool → ℕ → ℕ → ℕ → ℕ → Option Text → Both W → Exec (Both W)
  db_handler_read net now fd cmd seq body (w, srv) = elim (find_client (has_fd fd) srv.clients) [
    | none ↦ db_stranger net now fd cmd seq body (w, srv)
    | some c ↦ do srv' ← serve_client net now cmd seq body c srv; ok (w, srv')
  ]

  -- The end of `TaskTcpReadMsg::run`.
  unfoldable pub db_incoming : Bool → ℕ → ℕ → Incoming → Both W → Exec (Both W)
  db_incoming net now fd bad (w, srv) = ok (w, del_client fd srv)
  db_incoming net now fd (empty cmd) b = db_handler_read net now fd cmd 0 none b
  db_incoming net now fd (message cmd seq body) b = db_handler_read net now fd cmd seq (some body) b

  -- `TaskTcpReadMsg::run`: `header_cuts` and `body_cuts` are how the socket cuts what it has.
  unfoldable pub db_read_task : Bool → ℕ → ℕ → List ℕ → List ℕ → Text → Both W → Exec (Both W)
  db_read_task net now fd header_cuts body_cuts stream b = do
    incoming ← read_message header_cuts body_cuts stream
    db_incoming net now fd incoming b
