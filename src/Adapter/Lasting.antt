-- ===== src/Adapter/Lasting.antt =====
-- atb_adapter: whatever happens, and in whatever order, two clients differ in socket and in id.
use vm.Prelude.{ℕ, ◌≡◌, refl, Bool, Option, some, List, [], ◌∷◌, arith, All}
use vm.Prelude.Exec.{ok}
use vm.Prelude.Int.{ℤ}
use vm.Prelude.Text.{Text, text_key}
use vm.Adapter.Wire.{Frame}
use vm.Adapter.Client.{DeviceNode, MessageNode, CmsClient, set_device, enter_device, modify_camera}
use vm.Adapter.Server.{
  TcpServer, find_client, has_fd, has_cmsid, put_client, del_client_id, Push, start_answer,
  notify_push, notify_stop_push, notify_change, add_camera, del_camera, close_fd,
}
use vm.Adapter.Session.{Accounts}
use vm.Adapter.Refresh.{Checked, check_state, refresh_clients, refresh}
use vm.Adapter.Control.{
  notify_start_push, server_notify_stop_push, server_add_camera, server_modify_camera,
  server_del_camera,
}
use vm.Adapter.Unique.{
  keys, Apart, Unique, IsValid, transmit-IsValid, put_client-IsValid, erase_client-Unique,
  handle_incoming-IsValid, LogsNobodyIn,
}
use vm.Adapter.Playing.{transmit-clients, wait_for_response-fd, find_client-put_client}
use vm.Adapter.Play.{find_client-by_fd}
use vm.Adapter.Events.{
  Event, incoming, round, start, stop, add, change, delete, write_off, serve, serve_all,
}

-- A write through the pointer to a client of the list.
put-IsValid :
    (c c' : CmsClient) (srv : TcpServer)
    → IsValid srv
    → find_client (has_fd c.fd) srv.clients ≡ some c
    → c'.fd ≡ c.fd
    → c'.cmsid ≡ c.cmsid
    → IsValid (put_client c' srv)
put-IsValid c c' srv v e f g = put_client-IsValid c.fd c c' srv e f g v

set_device-IsValid :
    (devid : Text) (d : DeviceNode) (c : CmsClient) (srv : TcpServer)
    → IsValid srv
    → find_client (has_fd c.fd) srv.clients ≡ some c
    → IsValid (put_client (set_device devid d c) srv)
unfolding set_device
set_device-IsValid devid d c srv v e = put-IsValid c (set_device devid d c) srv v e refl refl

start_answer-IsValid :
    (push_key devid : Text) (d : DeviceNode) (resp : Text) (c : CmsClient) (srv : TcpServer)
    {r : TcpServer × Push}
    → start_answer push_key devid d resp c srv ≡ ok r
    → IsValid srv
    → find_client (has_fd c.fd) srv.clients ≡ some c
    → IsValid r.0
unfolding start_answer
start_answer-IsValid push_key devid d resp c srv e v f = grind (arith, set_device-IsValid devid)

notify_push-IsValid :
    (net : Bool) (now seq : ℕ) (push_key : Text) (rounds : List (List MessageNode)) (devid : Text)
    (c : CmsClient) (srv : TcpServer) {r : TcpServer × Push}
    → notify_push net now seq push_key rounds devid c srv ≡ ok r
    → IsValid srv
    → find_client (has_fd c.fd) srv.clients ≡ some c
    → IsValid r.0
unfolding notify_push
notify_push-IsValid net now seq push_key rounds devid c srv e v here = grind (
  arith,
  start_answer-IsValid,
  put-IsValid c,
  transmit-IsValid,
  wait_for_response-fd,
  transmit-clients,
  find_client-put_client c,
)

notify_stop_push-IsValid :
    (net : Bool) (now seq : ℕ) (rounds : List (List MessageNode)) (devid : Text) (c : CmsClient)
    (srv : TcpServer) {r : TcpServer × Push}
    → notify_stop_push net now seq rounds devid c srv ≡ ok r
    → IsValid srv
    → find_client (has_fd c.fd) srv.clients ≡ some c
    → IsValid r.0
unfolding notify_stop_push
notify_stop_push-IsValid net now seq rounds devid c srv e v here = grind (
  arith,
  set_device-IsValid devid,
  put-IsValid c,
  transmit-IsValid,
  wait_for_response-fd,
  transmit-clients,
  find_client-put_client c,
)

notify_change-IsValid :
    (net : Bool) (fd seq kind : ℕ) (pid : Text) (srv : TcpServer) {r : TcpServer × ℤ}
    → notify_change net fd seq kind pid srv ≡ ok r
    → IsValid srv
    → IsValid r.0
unfolding notify_change
notify_change-IsValid net fd seq kind pid srv e v = grind (arith, transmit-IsValid)

add_camera-IsValid :
    (net : Bool) (seq : ℕ) (running : Bool) (d : DeviceNode) (c : CmsClient) (srv : TcpServer)
    {r : TcpServer × ℤ}
    → add_camera net seq running d c srv ≡ ok r
    → IsValid srv
    → find_client (has_fd c.fd) srv.clients ≡ some c
    → IsValid r.0
unfolding add_camera enter_device
add_camera-IsValid net seq running d c srv e v here =
    grind (arith, notify_change-IsValid, put-IsValid c)

del_camera-IsValid :
    (net : Bool) (seq : ℕ) (pid : Text) (c : CmsClient) (srv : TcpServer) {r : TcpServer × ℤ}
    → del_camera net seq pid c srv ≡ ok r
    → IsValid srv
    → find_client (has_fd c.fd) srv.clients ≡ some c
    → IsValid r.0
unfolding del_camera
del_camera-IsValid net seq pid c srv e v here = grind (arith, notify_change-IsValid, put-IsValid c)

modify_camera-IsValid :
    (pid : Text) (allday : ℕ) (s0 e0 s1 e1 : Text) (c : CmsClient) (srv : TcpServer)
    → IsValid srv
    → find_client (has_fd c.fd) srv.clients ≡ some c
    → IsValid (put_client (modify_camera pid allday s0 e0 s1 e1 c) srv)
unfolding modify_camera
modify_camera-IsValid pid allday s0 e0 s1 e1 c srv v here =
    put-IsValid c (modify_camera pid allday s0 e0 s1 e1 c) srv v here refl refl

module _ (seconds : Text → Option ℕ) where
  check_state-key :
      (net : Bool) (now : ℕ) (time : Text) (c : CmsClient) {r : Checked}
      → check_state seconds net now time c ≡ ok r
      → (r.client.fd ≡ c.fd) × (r.client.cmsid ≡ c.cmsid)
  unfolding check_state
  check_state-key net now time c e = ground arith

  refresh_clients-Apart :
      (net : ℕ → Bool) (now : ℕ) (time : Text) (fd : ℕ) (cmsid : Text) (cs : List CmsClient)
      {r : List CmsClient × List ℕ × List (ℕ × Frame)}
      → refresh_clients seconds net now time cs ≡ ok r
      → Apart fd cmsid (keys cs)
      → Apart fd cmsid (keys r.0)
  unfolding refresh_clients
  refresh_clients-Apart net now time fd cmsid [] e a = ground arith
  refresh_clients-Apart net now time fd cmsid (c ∷ cs) e a =
      grind (arith, check_state-key, refresh_clients-Apart net now time fd cmsid cs)

  refresh_clients-Unique :
      (net : ℕ → Bool) (now : ℕ) (time : Text) (cs : List CmsClient)
      {r : List CmsClient × List ℕ × List (ℕ × Frame)}
      → refresh_clients seconds net now time cs ≡ ok r
      → Unique (keys cs)
      → Unique (keys r.0)
  unfolding refresh_clients
  refresh_clients-Unique net now time [] e u = ground arith
  refresh_clients-Unique net now time (c ∷ cs) e u = grind (
    arith,
    check_state-key,
    refresh_clients-Unique net now time cs,
    refresh_clients-Apart net now time c.fd c.cmsid cs,
  )

  pub refresh-IsValid :
      (net : ℕ → Bool) (now : ℕ) (time : Text) (srv : TcpServer) {srv' : TcpServer}
      → refresh seconds net now time srv ≡ ok srv'
      → IsValid srv
      → IsValid srv'
  unfolding refresh
  refresh-IsValid net now time srv e v =
      grind (arith, refresh_clients-Unique net now time srv.clients)

del_client_id-IsValid :
    (cmsid : Text) (srv : TcpServer) → IsValid srv → IsValid (del_client_id cmsid srv)
unfolding del_client_id close_fd
del_client_id-IsValid cmsid srv v =
    grind (arith, erase_client-Unique (has_cmsid cmsid) srv.clients v)

-- A login is served while no other is.
abbrev pub Alone : Event → Type 0
Alone (incoming t others fd i) = LogsNobodyIn others
Alone e = Unit

module _ (seconds : Text → Option ℕ) (db : Accounts) (check_start_push : Text → Text → ℕ) where
  pub serve-IsValid :
      (e : Event) (srv : TcpServer) {srv' : TcpServer}
      → Alone e
      → serve seconds db check_start_push e srv ≡ ok srv'
      → IsValid srv
      → IsValid srv'
  unfolding serve notify_start_push server_notify_stop_push server_add_camera server_modify_camera
      server_del_camera
  serve-IsValid (incoming t others fd i) srv alone e v =
      handle_incoming-IsValid t.net t.now (record db { others = others }) fd i srv alone e v
  serve-IsValid (round net now time) srv alone e v = refresh-IsValid seconds net now time srv e v
  serve-IsValid (start t cmsid devid) srv alone e v =
      grind (arith, notify_push-IsValid, find_client-by_fd cmsid)
  serve-IsValid (stop t cmsid devid) srv alone e v =
      grind (arith, notify_stop_push-IsValid, find_client-by_fd cmsid)
  serve-IsValid (add t cmsid pid name allday sec0 sec1) srv alone e v =
      grind (arith, add_camera-IsValid, find_client-by_fd cmsid)
  serve-IsValid (change cmsid pid allday sec0 sec1) srv alone e v =
      grind (arith, modify_camera-IsValid pid, find_client-by_fd cmsid)
  serve-IsValid (delete t cmsid pid) srv alone e v =
      grind (arith, del_camera-IsValid, find_client-by_fd cmsid)
  serve-IsValid (write_off cmsid) srv alone e v = grind (arith, del_client_id-IsValid cmsid srv)

  -- After any events, in any order, each served to its end before the next, but for a login, between whose
  -- look at the clients and entry of the new one the other threads may change the list in any way that keeps
  -- the clients apart and adds no socket and no id: no two clients of the list share a socket or an id, if
  -- none did before.
  pub serve_all-IsValid :
      (es : List Event) (srv : TcpServer) {srv' : TcpServer}
      → All Alone es
      → serve_all seconds db check_start_push es srv ≡ ok srv'
      → IsValid srv
      → IsValid srv'
  unfolding serve_all
  serve_all-IsValid [] srv alone e v = ground arith
  serve_all-IsValid (event ∷ es) srv alone e v =
      grind (arith, serve-IsValid event srv alone.0, serve_all-IsValid es, alone)
