-- ===== src/Adapter/Events.antt =====
-- atb_adapter: everything that happens to the list of clients, in any order: what the sockets send,
-- the turns of `Run`, and the calls of the play manager and of the web.
use vm.Prelude.{ℕ, Bool, Option, List, [], ◌∷◌}
use vm.Prelude.Exec.{Exec, ok, ◌>>=◌}
use vm.Prelude.Text.{Text, text_key}
use vm.Adapter.Wire.{Incoming}
use vm.Adapter.Server.{TcpServer, del_client_id}
use vm.Adapter.Session.{Accounts, handle_incoming}
use vm.Adapter.Refresh.{refresh}
use vm.Adapter.Control.{
  Turn, notify_start_push, server_notify_stop_push, server_add_camera, server_modify_camera,
  server_del_camera,
}

pub data Event : Type 0 where
  incoming : (t : Turn) (others : TcpServer → TcpServer) (fd : ℕ) (i : Incoming) → Event
  round : (net : ℕ → Bool) (now : ℕ) (time : Text) → Event
  start : (t : Turn) (cmsid devid : Text) → Event
  stop : (t : Turn) (cmsid devid : Text) → Event
  add : (t : Turn) (cmsid pid name : Text) (allday : ℕ) (sec0 sec1 : Text) → Event
  change : (cmsid pid : Text) (allday : ℕ) (sec0 sec1 : Text) → Event
  delete : (t : Turn) (cmsid pid : Text) → Event
  write_off : (cmsid : Text) → Event

module _ (seconds : Text → Option ℕ) (db : Accounts) (check_start_push : Text → Text → ℕ) where
  -- One event.
  unfoldable pub serve : Event → TcpServer → Exec TcpServer
  serve (incoming t others fd i) srv =
      handle_incoming t.net t.now (record db { others = others }) fd i srv
  serve (round net now time) srv = refresh seconds net now time srv
  serve (start t cmsid devid) srv = do
    (srv', p) ← notify_start_push check_start_push t cmsid devid srv
    ok srv'
  serve (stop t cmsid devid) srv = do (srv', p) ← server_notify_stop_push t cmsid devid srv; ok srv'
  serve (add t cmsid pid name allday sec0 sec1) srv =
      server_add_camera seconds t.net t.seq cmsid pid name allday sec0 sec1 srv
  serve (change cmsid pid allday sec0 sec1) srv =
      server_modify_camera seconds cmsid pid allday sec0 sec1 srv
  serve (delete t cmsid pid) srv = server_del_camera t.net t.seq cmsid pid srv
  serve (write_off cmsid) srv = ok (del_client_id cmsid srv)

  unfoldable pub serve_all : List Event → TcpServer → Exec TcpServer
  serve_all [] srv = ok srv
  serve_all (e ∷ es) srv = do srv' ← serve e srv; serve_all es srv'
