-- ===== src/Adapter/Play.antt =====
-- atb_adapter/AdapterServer.cpp: the play control that the play manager uses.
use vm.Prelude.{
  ℕ, ◌≡◌, ◌≢◌, ◌↔◌, refl, inl, inr, Bool, true, none, some, List, [], ◌∷◌, nat_beq, if◌then◌else◌,
  find, arith, Bool-cases, Option-cases,
}
use mathlib.Core.Path.{subst}
use vm.Prelude.Exec.{ok}
use vm.Prelude.Int.{ℤ, pos}
use vm.Prelude.Text.{Text, codes, text_key, text_beq, text_beq_iff}
use vm.Adapter.Client.{
  DeviceNode, MessageNode, CmsClient, pushing, get_state, check_push, set_device,
}
use vm.Adapter.Server.{
  TcpServer, find_client, has_fd, has_cmsid, get_client, put_client, Push, notify_push,
  start_answer,
}
use vm.Adapter.Unique.{keys, Apart, Unique, IsValid, keys-set_client}
use vm.Adapter.Playing.{
  camera, find_client-put_client, wait_for_response-fd, transmit-clients, notify_push-camera,
}
use vm.Adapter.Control.{Turn, check_status, notify_start_push, server_check_push}
use vm.Wss.PlayMngr.{adapter_offline, device_offline, device_idle, device_playing}

-- The status is one of four; it is "adapter offline" exactly when no client has the id.
pub check_status_offline :
    (cmsid devid : Text) (srv : TcpServer) {ret : ℤ}
    → check_status cmsid devid srv ≡ ok ret
    → (ret ≡ adapter_offline) ↔ (get_client cmsid srv ≡ none)
unfolding check_status get_state
check_status_offline cmsid devid srv e = grind arith

Apart-find_client :
    (p : CmsClient → Bool) (fd : ℕ) (cmsid : Text) (c : CmsClient) (cs : List CmsClient)
    → Apart fd cmsid (keys cs)
    → find_client p cs ≡ some c
    → (fd ≢ c.fd) × (cmsid ≢ c.cmsid)
unfolding find_client
Apart-find_client p fd cmsid c [] a e = absurd (cc)
Apart-find_client p fd cmsid c (d ∷ cs) a e = grind (arith, Apart-find_client p fd cmsid c cs)

-- A client found by its id is the one found by its socket.
pub find_client-by_fd :
    (cmsid : Text) (c : CmsClient) (cs : List CmsClient)
    → Unique (keys cs)
    → find_client (has_cmsid cmsid) cs ≡ some c
    → find_client (has_fd c.fd) cs ≡ some c
unfolding find_client
find_client-by_fd cmsid c [] u e = absurd (cc)
find_client-by_fd cmsid c (d ∷ cs) u e =
    grind
      (arith, find_client-by_fd cmsid c cs, Apart-find_client (has_cmsid cmsid) d.fd d.cmsid c cs)

-- A client found by its socket is the one found by its id.
find_client-by_id :
    (fd : ℕ) (c : CmsClient) (cs : List CmsClient)
    → Unique (keys cs)
    → find_client (has_fd fd) cs ≡ some c
    → find_client (has_cmsid c.cmsid) cs ≡ some c
unfolding find_client
find_client-by_id fd c [] u e = absurd (cc)
find_client-by_id fd c (d ∷ cs) u e = grind (
  arith,
  find_client-by_id fd c cs,
  text_beq_iff,
  Apart-find_client (has_fd fd) d.fd d.cmsid c cs,
)

-- With the same keys, the same socket has the same id.
same_owner :
    (fd : ℕ) (c c' : CmsClient) (cs cs' : List CmsClient)
    → keys cs' ≡ keys cs
    → find_client (has_fd fd) cs ≡ some c
    → find_client (has_fd fd) cs' ≡ some c'
    → c'.cmsid ≡ c.cmsid
unfolding find_client
same_owner fd c c' [] cs' k e f = absurd (cc)
same_owner fd c c' (d ∷ cs) [] k e f = absurd (cc)
same_owner fd c c' (d ∷ cs) (d' ∷ cs') k e f = grind (arith, same_owner fd c c' cs cs')

pub find_client-has_cmsid :
    (cmsid : Text) (c : CmsClient) (cs : List CmsClient)
    → find_client (has_cmsid cmsid) cs ≡ some c
    → c.cmsid ≡ cmsid
unfolding find_client
find_client-has_cmsid cmsid c [] e = absurd (cc)
find_client-has_cmsid cmsid c (d ∷ cs) e =
    grind (arith, find_client-has_cmsid cmsid c cs, text_beq_iff)

pub keys-put_client :
    (c c' : CmsClient) (srv : TcpServer)
    → find_client (has_fd c.fd) srv.clients ≡ some c
    → c'.fd ≡ c.fd
    → c'.cmsid ≡ c.cmsid
    → keys (put_client c' srv).clients ≡ keys srv.clients
unfolding put_client
keys-put_client c c' srv e f g = keys-set_client c.fd c c' srv.clients e f g

pub keys-set_device :
    (devid : Text) (d : DeviceNode) (c : CmsClient) (srv : TcpServer)
    → find_client (has_fd c.fd) srv.clients ≡ some c
    → keys (put_client (set_device devid d c) srv).clients ≡ keys srv.clients
unfolding set_device
keys-set_device devid d c srv e = keys-put_client c (set_device devid d c) srv e refl refl

start_answer-keys :
    (push_key devid : Text) (d : DeviceNode) (resp : Text) (c : CmsClient) (srv : TcpServer)
    {srv' : TcpServer} {p : Push}
    → start_answer push_key devid d resp c srv ≡ ok (srv', p)
    → find_client (has_fd c.fd) srv.clients ≡ some c
    → keys srv'.clients ≡ keys srv.clients
unfolding start_answer
start_answer-keys push_key devid d resp c srv e f = grind (arith, keys-set_device devid)

-- A start that succeeds keeps the clients' sockets and ids.
notify_push-keys :
    (net : Bool) (now seq : ℕ) (push_key : Text) (rounds : List (List MessageNode)) (devid : Text)
    (c : CmsClient) (srv : TcpServer) {srv' : TcpServer} {p : Push}
    → find_client (has_fd c.fd) srv.clients ≡ some c
    → notify_push net now seq push_key rounds devid c srv ≡ ok (srv', p)
    → p.ret ≡ pos 0
    → keys srv'.clients ≡ keys srv.clients
unfolding notify_push
notify_push-keys net now seq push_key rounds devid c srv here e s = grind (
  arith,
  start_answer-keys,
  keys-put_client c,
  wait_for_response-fd,
  transmit-clients,
  find_client-put_client,
)

-- A camera of a client that the list had under the same keys before is found by the client's id.
pub camera-get_client :
    (c : CmsClient) (devid : Text) (d : DeviceNode) (srv srv' : TcpServer)
    → IsValid srv
    → keys srv'.clients ≡ keys srv.clients
    → find_client (has_fd c.fd) srv.clients ≡ some c
    → camera c.fd devid srv' ≡ some d
    → (c' : CmsClient) × (get_client c.cmsid srv' ≡ some c') × (find devid c'.devlist ≡ some d)
camera-get_client c devid d srv srv' v k here found =
    elim (Option-cases (find_client (has_fd c.fd) srv'.clients)) [
      | inl e ↦ absurd (let f = rw (e, camera) at found in cc)
      | inr (c', e) ↦
          let same = same_owner c.fd c c' srv.clients srv'.clients k here e in
          let u : Unique (keys srv'.clients) = rw k v in
          (
            c',
            subst (λ id. get_client id srv' ≡ some c') same
                (find_client-by_id c.fd c' srv'.clients u e),
            rw (e, camera) at found,
          )
    ]

-- Its status.
pub camera_status :
    (c : CmsClient) (devid : Text) (d : DeviceNode) (srv srv' : TcpServer)
    → IsValid srv
    → keys srv'.clients ≡ keys srv.clients
    → find_client (has_fd c.fd) srv.clients ≡ some c
    → camera c.fd devid srv' ≡ some d
    → check_status c.cmsid devid srv'
      ≡ ok (
          if nat_beq d.state 0
          then device_offline
          else (if nat_beq d.state 1 then device_idle else device_playing))
unfolding check_status get_state
camera_status c devid d srv srv' v k here found =
    let (c', by_id, known) = camera-get_client c devid d srv srv' v k here found in
    rw (by_id, check_status) (rw (known, get_state) refl)

playing_status :
    (c : CmsClient) (devid : Text) (d : DeviceNode) (srv srv' : TcpServer)
    → IsValid srv
    → keys srv'.clients ≡ keys srv.clients
    → find_client (has_fd c.fd) srv.clients ≡ some c
    → camera c.fd devid srv' ≡ some d
    → d.state ≡ pushing
    → check_status c.cmsid devid srv' ≡ ok device_playing
playing_status c devid d srv srv' v k here found s =
    rw s at (camera_status c devid d srv srv' v k here found)

notify_push-idle :
    (net : Bool) (now seq : ℕ) (push_key : Text) (rounds : List (List MessageNode)) (devid : Text)
    (c : CmsClient) (d : DeviceNode) (srv : TcpServer) {srv' : TcpServer} {p : Push}
    → IsValid srv
    → find_client (has_fd c.fd) srv.clients ≡ some c
    → notify_push net now seq push_key rounds devid c srv ≡ ok (srv', p)
    → p.ret ≡ pos 0
    → find devid c.devlist ≡ some d
    → d.state ≢ pushing
    → check_status c.cmsid devid srv' ≡ ok device_playing
notify_push-idle net now seq push_key rounds devid c d srv {srv' = srv'} {p = p} v here e s known
      idle =
    playing_status c devid (record d { token = p.token; key = push_key; state = pushing }) srv srv'
      v (notify_push-keys net now seq push_key rounds devid c srv here e s) here
      (notify_push-camera net now seq push_key rounds devid c d srv here known idle e s) refl

playing_now :
    (c : CmsClient) (devid : Text) (d : DeviceNode) (srv : TcpServer)
    → IsValid srv
    → find_client (has_fd c.fd) srv.clients ≡ some c
    → find devid c.devlist ≡ some d
    → d.state ≡ pushing
    → check_status c.cmsid devid srv ≡ ok device_playing
playing_now c devid d srv v here known s =
    playing_status c devid d srv srv v refl here (rw (here, camera) known) s

notify_push_status :
    (net : Bool) (now seq : ℕ) (push_key : Text) (rounds : List (List MessageNode)) (devid : Text)
    (c : CmsClient) (srv : TcpServer) {srv' : TcpServer} {p : Push}
    → IsValid srv
    → find_client (has_fd c.fd) srv.clients ≡ some c
    → notify_push net now seq push_key rounds devid c srv ≡ ok (srv', p)
    → p.ret ≡ pos 0
    → check_status c.cmsid devid srv' ≡ ok device_playing
unfolding notify_push
notify_push_status net now seq push_key rounds devid c srv v here e s =
    elim (Option-cases (find devid c.devlist)) [
      | inl n ↦ absurd (grind (arith, n))
      | inr (d, known) ↦ elim (Bool-cases (nat_beq d.state pushing)) [
        | inl b ↦ grind (arith, playing_now c devid d srv, known, b)
        | inr b ↦
            notify_push-idle net now seq push_key rounds devid c d srv v here e s known
              (ground arith)
      ]
    ]

-- When a start succeeds, the next check of the camera says that it plays.
pub check_status-notify_start_push :
    (check_start_push : Text → Text → ℕ) (t : Turn) (cmsid devid : Text) (srv : TcpServer)
    {srv' : TcpServer} {p : Push}
    → IsValid srv
    → notify_start_push check_start_push t cmsid devid srv ≡ ok (srv', p)
    → p.ret ≡ pos 0
    → check_status cmsid devid srv' ≡ ok device_playing
unfolding notify_start_push
check_status-notify_start_push check_start_push t cmsid devid srv v e s =
    grind (arith, notify_push_status, find_client-by_fd cmsid, find_client-has_cmsid cmsid)

accepted :
    (c : CmsClient) (devid key : Text) (d : DeviceNode) (srv srv' : TcpServer)
    → IsValid srv
    → keys srv'.clients ≡ keys srv.clients
    → find_client (has_fd c.fd) srv.clients ≡ some c
    → camera c.fd devid srv' ≡ some d
    → d.key ≡ key
    → server_check_push c.cmsid devid key srv' ≡ codes "0"
unfolding server_check_push check_push
accepted c devid key d srv srv' v k here found s =
    let (c', by_id, known) = camera-get_client c devid d srv srv' v k here found in
    let right : text_beq d.key key ≡ true = (text_beq_iff d.key key).1 s in
    rw (by_id, server_check_push) (rw (known, check_push) (rw right refl))

-- When a camera that did not play is started with success, the stream server's question whether a
-- push with the key of that start is allowed is answered with "0".
pub server_check_push-notify_push :
    (t : Turn) (cmsid devid : Text) (c : CmsClient) (d : DeviceNode) (srv : TcpServer)
    {srv' : TcpServer} {p : Push}
    → IsValid srv
    → get_client cmsid srv ≡ some c
    → find devid c.devlist ≡ some d
    → d.state ≢ pushing
    → notify_push t.net t.now t.seq t.push_key t.rounds devid c srv ≡ ok (srv', p)
    → p.ret ≡ pos 0
    → server_check_push cmsid devid t.push_key srv' ≡ codes "0"
server_check_push-notify_push t cmsid devid c d srv {srv' = srv'} {p = p} v at_id known idle e s =
    let here = find_client-by_fd cmsid c srv.clients v at_id in
    rw (← find_client-has_cmsid cmsid c srv.clients at_id) (
      accepted c devid t.push_key (record d { token = p.token; key = t.push_key; state = pushing })
        srv srv' v (notify_push-keys t.net t.now t.seq t.push_key t.rounds devid c srv here e s)
        here
        (notify_push-camera t.net t.now t.seq t.push_key t.rounds devid c d srv here known idle e s)
        refl)
