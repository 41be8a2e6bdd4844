-- ===== src/Adapter/Session.antt =====
-- atb_adapter/server_tcpsrv.cpp: what the server does with a message that it has read, the login of an
-- adapter client, and the look at all clients in each turn of its loop.
use vm.Prelude.{
  ℕ, ◌+◌, ◌-◌, ◌*◌, Bool, not, ◌||◌, Option, none, some, List, [], ◌∷◌, ◌++◌, if◌then◌else◌, length,
  take, drop, ltb, nat_beq, replicate,
}
use vm.Prelude.Exec.{Exec, ok, crash, ◌>>=◌}
use vm.Prelude.Text.{Text}
use vm.Adapter.Wire.{
  Incoming, bad, empty, message, int_bytes, char_array, c_string, req_login, resp_login, keep_alive,
  update_change, req_login_size, read_message, data_size, header_size,
}
use vm.Adapter.Client.{
  DeviceNode, CmsClient, new_client, new_device, enter_device, insert_msg, handle_update_change,
}
use vm.Adapter.Server.{
  TcpServer, find_client, has_fd, get_client, close_fd, del_client, put_client, transmit,
  update_livecount,
}

-- The rows of `get_group_info_ex`.
pub record DeviceRow : Type 0 where
  pub pid : Text
  pub name : Text
  pub allday : ℕ
  pub s0 : Text
  pub e0 : Text
  pub s1 : Text
  pub e1 : Text

-- What the login asks of the database helper: 0 and the user's id, or an error; and the cameras of
-- the client, where `none` is a failure. `others` is what the other threads do to the clients meanwhile:
-- the lock of the list is held for the look at its clients, and again for the new client, but not between.
pub record Accounts : Type 0 where
  pub check_login : Text → Text → ℕ × Text
  pub devices : Text → Option (List DeviceRow)
  pub others : TcpServer → TcpServer

-- `memcpy(buf + i, s, s.size())` into a buffer; a write past its end is a fault.
unfoldable pub write_at : ℕ → Text → Text → Exec Text
write_at i s buf =
    if ltb (length buf) (i + length s)
    then crash
    else ok (take i buf ++ (s ++ drop (i + length s) buf))

-- The ids of some cameras, each copied to its slot of 20 bytes.
unfoldable pub write_ids : ℕ → List Text → Text → Exec Text
write_ids i [] buf = ok buf
write_ids i (pid ∷ pids) buf = do buf' ← write_at i pid buf; write_ids (i + 20) pids buf'

unfoldable pub row_device : DeviceRow → DeviceNode
unfolding new_device
row_device r = new_device r.pid r.name r.allday r.s0 r.e0 r.s1 r.e1

-- The cameras of the database, entered in the new client.
unfoldable pub enter_rows : List DeviceRow → CmsClient → CmsClient
enter_rows [] c = c
enter_rows (r ∷ rows) c = enter_rows rows (enter_device (row_device r) c)

unfoldable pub row_ids : List DeviceRow → List Text
row_ids [] = []
row_ids (r ∷ rows) = r.pid ∷ row_ids rows

-- The client with its cameras, in the list.
unfoldable pub log_in : ℕ → ℕ → Text → List DeviceRow → TcpServer → TcpServer
log_in now fd cmsid rows srv = record srv {
  clients = srv.clients ++ enter_rows rows (new_client fd cmsid now) ∷ [];
}

-- The answer `RESP_LOGIN`, of 72 bytes and the ids. The source builds it in 10 KB after the header.
unfoldable pub login_answer : Bool → ℕ → ℕ → ℕ → Text → List Text → TcpServer → Exec TcpServer
login_answer net fd seq ret kid pids srv = do
  buf ← write_ids 72 pids (replicate (data_size - header_size) 0)
  resv ← char_array 64 kid
  ok
      (transmit net fd
        (record {
          cmd = resp_login;
          seq = seq;
          body =
              int_bytes ret
              ++ (int_bytes (length pids) ++ (resv ++ drop 72 (take (72 + 20 * length pids) buf)));
        })
        srv).0

-- `HandleLoginEx`: a client id that is logged in already is refused with 4.
unfoldable pub handle_login : Bool → ℕ → Accounts → ℕ → ℕ → Text → TcpServer → Exec TcpServer
handle_login net now db fd seq body srv = do
  cmsid ← c_string body
  password ← c_string (drop 20 body)
  elim (get_client cmsid srv) [
    | some c ↦ login_answer net fd seq 4 [] [] srv
    | none ↦
        let (ret, kid) = db.check_login cmsid password in
        let srv' = db.others srv in
        if nat_beq ret 0
        then elim (db.devices cmsid) [
          | none ↦ login_answer net fd seq 0 kid [] srv'
          | some rows ↦ login_answer net fd seq 0 kid (row_ids rows) (log_in now fd cmsid rows srv')
        ]
        else login_answer net fd seq ret [] [] srv'
  ]

-- `HandlerRead` for a socket that has logged in. `body` is `none` for a null buffer.
unfoldable pub serve_client :
    Bool → ℕ → ℕ → ℕ → Option Text → CmsClient → TcpServer → Exec TcpServer
serve_client net now cmd seq body c srv =
    if nat_beq cmd keep_alive
    then ok (update_livecount net now seq c srv)
    else (if nat_beq cmd update_change
        then (do c' ← handle_update_change body c; ok (put_client c' srv))
        else (do
          (c', _) ← insert_msg now cmd seq (elim body [ none ↦ [] | some b ↦ b ]) c
          ok (put_client c' srv)))

-- `HandlerRead` for a socket that has not: only a login of the right size is listened to.
unfoldable pub serve_stranger :
    Bool → ℕ → Accounts → ℕ → ℕ → ℕ → Option Text → TcpServer → Exec TcpServer
serve_stranger net now db fd cmd seq none srv = ok (close_fd fd srv)
serve_stranger net now db fd cmd seq (some body) srv =
    if not (nat_beq cmd req_login) || not (nat_beq (length body) req_login_size)
    then ok (close_fd fd srv)
    else handle_login net now db fd seq body srv

unfoldable pub handler_read :
    Bool → ℕ → Accounts → ℕ → ℕ → ℕ → Option Text → TcpServer → Exec TcpServer
handler_read net now db fd cmd seq body srv = elim (find_client (has_fd fd) srv.clients) [
  | none ↦ serve_stranger net now db fd cmd seq body srv
  | some c ↦ serve_client net now cmd seq body c srv
]

-- The end of `TaskTcpReadMsg::run`, after its reads.
unfoldable pub handle_incoming : Bool → ℕ → Accounts → ℕ → Incoming → TcpServer → Exec TcpServer
handle_incoming net now db fd bad srv = ok (del_client fd srv)
handle_incoming net now db fd (empty cmd) srv = handler_read net now db fd cmd 0 none srv
handle_incoming net now db fd (message cmd seq body) srv =
    handler_read net now db fd cmd seq (some body) srv

unfoldable pub read_task :
    Bool → ℕ → Accounts → ℕ → List ℕ → List ℕ → Text → TcpServer → Exec TcpServer
read_task net now db fd header_cuts body_cuts stream srv = do
  incoming ← read_message header_cuts body_cuts stream
  handle_incoming net now db fd incoming srv
