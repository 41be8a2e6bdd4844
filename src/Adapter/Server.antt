-- ===== src/Adapter/Server.antt =====
-- atb_adapter/server_tcpsrv.h and server_tcpsrv.cpp, with the parts of cms_client.cpp that send: the
-- list of connected adapter clients. `net` says whether `ETSend` writes the whole message; if it does
-- not, the client is deleted. `sent` and `closed` record what the server did to its sockets.
use vm.Prelude.{
  ℕ, Bool, true, false, not, Option, none, some, List, [], ◌∷◌, ◌++◌, if◌then◌else◌, drop, nat_beq,
  find, erase,
}
use vm.Prelude.Exec.{Exec, ok, ◌>>=◌}
use vm.Prelude.Int.{ℤ, pos, negsuc, minus_one}
use vm.Prelude.Text.{Text, codes, text_beq, text_key}
use vm.Adapter.Wire.{
  Frame, int_bytes, int_at, padded, char_array, c_string, keep_alive_re, req_push, resp_push,
  req_stop_push, resp_stop_push, notify_device_change, resp_push_size, resp_stop_push_size,
}
use vm.Adapter.Client.{
  DeviceNode, MessageNode, CmsClient, pushing, new_client, enter_device, set_device,
  wait_for_response,
}

pub record TcpServer : Type 0 where
  pub clients : List CmsClient
  pub closed : List ℕ
  pub sent : List (ℕ × Frame)

-- The first client that passes a test.
unfoldable pub find_client : (CmsClient → Bool) → List CmsClient → Option CmsClient
find_client p [] = none
find_client p (c ∷ cs) = if p c then some c else find_client p cs

-- The list without the first client that passes the test.
unfoldable pub erase_client : (CmsClient → Bool) → List CmsClient → List CmsClient
erase_client p [] = []
erase_client p (c ∷ cs) = if p c then cs else c ∷ erase_client p cs

-- A write through the pointer to the first client that passes the test.
unfoldable pub set_client : (CmsClient → Bool) → CmsClient → List CmsClient → List CmsClient
set_client p c' [] = []
set_client p c' (c ∷ cs) = if p c then c' ∷ cs else c ∷ set_client p c' cs

abbrev pub has_fd : ℕ → CmsClient → Bool
has_fd fd c = nat_beq c.fd fd

abbrev pub has_cmsid : Text → CmsClient → Bool
has_cmsid cmsid c = text_beq c.cmsid cmsid

-- `GetClient`.
abbrev pub get_client : Text → TcpServer → Option CmsClient
get_client cmsid srv = find_client (has_cmsid cmsid) srv.clients

unfoldable pub close_fd : ℕ → TcpServer → TcpServer
close_fd fd srv = record srv { closed = fd ∷ srv.closed }

-- `DelClient(int)`: the socket is closed, known or not.
unfoldable pub del_client : ℕ → TcpServer → TcpServer
unfolding close_fd
del_client fd srv = close_fd fd (record srv { clients = erase_client (has_fd fd) srv.clients })

-- `DelClient(std::string)`.
unfoldable pub del_client_id : Text → TcpServer → TcpServer
unfolding close_fd
del_client_id cmsid srv = elim (find_client (has_cmsid cmsid) srv.clients) [
  | none ↦ srv
  | some c ↦ close_fd c.fd (record srv { clients = erase_client (has_cmsid cmsid) srv.clients })
]

unfoldable pub add_client : ℕ → Text → ℕ → TcpServer → TcpServer
add_client fd cmsid now srv = record srv { clients = srv.clients ++ new_client fd cmsid now ∷ [] }

unfoldable pub put_client : CmsClient → TcpServer → TcpServer
put_client c srv = record srv { clients = set_client (has_fd c.fd) c srv.clients }

-- A send and the deletion that follows its failure. The result says whether all was written.
unfoldable pub transmit : Bool → ℕ → Frame → TcpServer → TcpServer × Bool
transmit true fd f srv = (record srv { sent = srv.sent ++ (fd, f) ∷ [] }, true)
transmit false fd f srv = (del_client fd srv, false)

-- `update_livecount`.
unfoldable pub update_livecount : Bool → ℕ → ℕ → CmsClient → TcpServer → TcpServer
update_livecount net now seq c srv =
    (transmit net c.fd (record { cmd = keep_alive_re; seq = seq; body = [] })
      (put_client (record c { livecount = now }) srv)).0

-- The message `NOTIFY_DEVICE_CHANGE`, of type 1 to add and 0 to delete.
unfoldable pub notify_change : Bool → ℕ → ℕ → ℕ → Text → TcpServer → Exec (TcpServer × ℤ)
notify_change net fd seq change pid srv = do
  id ← char_array 20 pid
  let (srv', all) =
      transmit net fd
        (record { cmd = notify_device_change; seq = seq; body = int_bytes change ++ id }) srv
  ok (srv', if all then pos 0 else minus_one)

-- `CMSClient::AddCamera`; `running` is its last argument.
unfoldable pub add_camera :
    Bool → ℕ → Bool → DeviceNode → CmsClient → TcpServer → Exec (TcpServer × ℤ)
add_camera net seq running d c srv =
    let srv' = put_client (enter_device d c) srv in
    if running then notify_change net c.fd seq 1 d.pid srv' else ok (srv', pos 0)

-- `CMSClient::DelCamera`. The source returns no value where the message was sent; 0 stands for it.
unfoldable pub del_camera : Bool → ℕ → Text → CmsClient → TcpServer → Exec (TcpServer × ℤ)
del_camera net seq pid c srv = elim (find pid c.devlist) [
  | none ↦ ok (srv, minus_one)
  | some d ↦
      notify_change net c.fd seq 0 pid (put_client (record c { devlist = erase pid c.devlist }) srv)
]

-- A result with its message and, for a start, the token.
pub record Push : Type 0 where
  pub ret : ℤ
  pub result : Text
  pub token : Text

abbrev pub push_fail : Text → Push
push_fail result = record { ret = minus_one; result = result; token = [] }

-- What `NotifyPush` makes of the answer `RespPush`: 100 is success.
unfoldable pub start_answer :
    Text → Text → DeviceNode → Text → CmsClient → TcpServer → Exec (TcpServer × Push)
start_answer push_key devid d resp c srv =
    let code = int_at resp in
    if nat_beq code 100
    then (do
      token ← c_string (drop 264 resp)
      let d' = record d { token = token; key = push_key; state = pushing }
      ok (
        put_client (set_device devid d' c) srv,
        record { ret = pos 0; result = codes "success!"; token = token },
      ))
    else ok (
      srv,
      push_fail (
          if nat_beq code 200
          then codes "camera id invalid!"
          else (if nat_beq code 300
              then codes "camera offline!"
              else (if nat_beq code 400
                  then codes "adapter client rtsp module error!"
                  else codes "unknow error!"))),
    )

-- `CMSClient::NotifyPush`. `seq` and `push_key` are the random numbers; `rounds` are the messages
-- that arrive while it waits.
unfoldable pub notify_push :
    Bool
    → ℕ
    → ℕ
    → Text
    → List (List MessageNode)
    → Text
    → CmsClient
    → TcpServer
    → Exec (TcpServer × Push)
notify_push net now seq push_key rounds devid c srv = elim (find devid c.devlist) [
  | none ↦ ok (srv, push_fail (codes "camera id invalid!"))
  | some d ↦
      if nat_beq d.state pushing
      then ok (srv, record { ret = pos 0; result = codes "success!"; token = d.token })
      else (do
        id ← char_array 20 devid
        key ← char_array 20 push_key
        let (srv', all) =
            transmit net c.fd
              (record { cmd = req_push; seq = seq; body = id ++ key ++ padded 64 [] }) srv
        if not all then ok (srv', push_fail (codes "network error!")) else (do
          (c', answer) ← wait_for_response now resp_push_size resp_push seq rounds c
          let srv'' = put_client c' srv'
          elim answer [
            | none ↦ ok (srv'', push_fail (codes "notify to start push time out!"))
            | some resp ↦ start_answer push_key devid d resp c' srv''
          ]))
]

abbrev pub late : ℤ
late = negsuc 2

-- `CMSClient::NotifyStopPush`; the answer's content is not looked at.
unfoldable pub notify_stop_push :
    Bool → ℕ → ℕ → List (List MessageNode) → Text → CmsClient → TcpServer → Exec (TcpServer × Push)
notify_stop_push net now seq rounds devid c srv = elim (find devid c.devlist) [
  | none ↦ ok (srv, push_fail (codes "camera id invalid!"))
  | some d ↦
      if not (nat_beq d.state pushing)
      then ok (srv, push_fail (codes "camera is  not in pushing state!"))
      else (do
        id ← char_array 20 devid
        let (srv', all) =
            transmit net c.fd (record { cmd = req_stop_push; seq = seq; body = id ++ padded 64 [] })
              srv
        if not all then ok (srv', push_fail (codes "adapter client network error!")) else (do
          (c', answer) ← wait_for_response now resp_stop_push_size resp_stop_push seq rounds c
          let srv'' = put_client c' srv'
          elim answer [
            | none ↦ ok (
              srv'',
              record { ret = late; result = codes "adapter client time out!"; token = [] },
            )
            | some resp ↦ ok (
              put_client (set_device devid (record d { state = 1 }) c') srv'',
              record { ret = pos 0; result = codes "success!"; token = [] },
            )
          ]))
]
