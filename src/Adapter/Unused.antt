-- ===== src/Adapter/Unused.antt =====
-- atb_adapter/cms_client.cpp and server_tcpsrv.cpp: `HandleUploadDevs` and `HandleLogin`, which nothing
-- calls, and the end of a client.
use vm.Prelude.{
  ℕ, zero, suc, ◌^◌, Bool, true, ◌≡◌, refl, List, [], ◌∷◌, ◌++◌, if◌then◌else◌, length, take, drop,
  ltb, leb, Map, insert,
}
use vm.Prelude.Exec.{Exec, ok, crash, ◌>>=◌}
use vm.Prelude.Text.{Text, text_key}
use vm.Adapter.Wire.{Frame, int_at, int_bytes, padded, c_string, data_size, resp_login}
use vm.Adapter.Client.{DeviceNode, CmsClient, new_client}
use vm.Adapter.Server.{TcpServer, add_client, transmit}
use vm.Adapter.Unique.{keys}

-- `ClearMsglist`.
unfoldable pub clear_msglist : CmsClient → CmsClient
clear_msglist c = record c { msglist = [] }

-- `ClearDevlist`: the loop erases the node of its iterator, and then moves that iterator on.
unfoldable pub clear_devlist : CmsClient → Exec CmsClient
clear_devlist c = elim c.devlist [ [] ↦ ok c | d ∷ ds ↦ crash ]

-- The destructor.
unfoldable pub delete_client : CmsClient → Exec CmsClient
unfolding clear_devlist clear_msglist
delete_client c = do c' ← clear_devlist c; ok (clear_msglist c')

-- `DeviceNode()`.
abbrev pub blank_device : DeviceNode
blank_device = record {
  pid = [];
  name = [];
  token = [];
  state = 1;
  allday = 1;
  s0 = [];
  e0 = [];
  s1 = [];
  e1 = [];
  key = [];
}

-- The loop of `HandleUploadDevs`: `n` items of a 20-byte id, an 8-byte token and a state.
unfoldable pub upload_devs : ℕ → Text → Map Text DeviceNode → Exec (Map Text DeviceNode)
upload_devs zero items devs = ok devs
upload_devs (suc n) items devs = if ltb (length items) 32 then crash else (do
  pid ← c_string (take 32 items)
  token ← c_string (drop 20 (take 32 items))
  let d = record blank_device { pid = pid; token = token; state = int_at (drop 28 items) }
  upload_devs n (drop 32 items) (insert pid d devs))

-- The count is an `int`, and no item is read for a negative one.
unfoldable pub handle_upload_devs : Text → CmsClient → Exec CmsClient
unfolding clear_devlist upload_devs
handle_upload_devs body c = do
  c' ← clear_devlist c
  let buf = padded data_size body
  let n = if leb (2 ^ 31) (int_at buf) then 0 else int_at buf
  devs ← upload_devs n (drop 4 buf) c'.devlist
  ok (record c' { devlist = devs })

-- `HandleLogin`: every login is answered with 0 and entered, also where its answer is not sent.
unfoldable pub handle_plain_login : Bool → ℕ → ℕ → ℕ → Text → TcpServer → Exec TcpServer
unfolding transmit add_client
handle_plain_login net now fd seq body srv = do
  cmsid ← c_string body
  password ← c_string (drop 20 body)
  let frame : Frame = record { cmd = resp_login; seq = seq; body = int_bytes 0 ++ padded 68 [] }
  ok (add_client fd cmsid now (transmit net fd frame srv).0)

keys-append :
    (fd : ℕ) (cmsid : Text) (now : ℕ) (cs : List CmsClient)
    → keys (cs ++ new_client fd cmsid now ∷ []) ≡ keys cs ++ (fd, cmsid) ∷ []
unfolding new_client
keys-append fd cmsid now [] = refl
keys-append fd cmsid now (c ∷ cs) = rw (keys-append fd cmsid now cs) refl

-- A login that is answered enters the client once more, whether or not its id is logged in already.
pub handle_plain_login-keys :
    (now fd seq : ℕ) (cmsid password body : Text) (srv : TcpServer)
    → c_string body ≡ ok cmsid
    → c_string (drop 20 body) ≡ ok password
    → (srv' : TcpServer) × (handle_plain_login true now fd seq body srv ≡ ok srv')
      × (keys srv'.clients ≡ keys srv.clients ++ (fd, cmsid) ∷ [])
unfolding handle_plain_login transmit add_client
handle_plain_login-keys now fd seq cmsid password body srv id word =
    let frame : Frame = record {
      cmd = resp_login;
      seq = seq;
      body = int_bytes 0 ++ padded 68 [];
    } in
    (
      add_client fd cmsid now (transmit true fd frame srv).0,
      rw (id, handle_plain_login, word) refl,
      entered frame,
    )
  where
    entered :
        (frame : Frame)
        → keys (add_client fd cmsid now (transmit true fd frame srv).0).clients
          ≡ keys srv.clients ++ (fd, cmsid) ∷ []
    entered frame = keys-append fd cmsid now srv.clients
