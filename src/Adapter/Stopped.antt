-- ===== src/Adapter/Stopped.antt =====
-- atb_adapter/AdapterServer.cpp and cms_client.cpp: what a stop leaves of a camera that plays.
use vm.Prelude.{
  ℕ, ◌≡◌, ◌≢◌, refl, true, false, Bool, Option, some, List, arith, nat_beq, find, Option-cases, inl,
  inr, ◌⊎◌, ◌||◌, Bool-cases,
}
use vm.Prelude.Exec.{ok}
use vm.Prelude.Int.{pos}
use vm.Prelude.Text.{Text, text_key, is_empty}
use vm.Adapter.Client.{DeviceNode, MessageNode, CmsClient, pushing, get_state, wait_for_response}
use vm.Adapter.Server.{TcpServer, find_client, has_fd, get_client, transmit, Push, notify_stop_push}
use vm.Adapter.Unique.{keys, IsValid}
use vm.Adapter.Playing.{
  camera, find_client-put_client, wait_for_response-fd, notify_stop_push-camera,
}
use vm.Adapter.Play.{
  camera_status, find_client-by_fd, find_client-has_cmsid, keys-put_client, keys-set_device,
}
use vm.Adapter.Control.{Turn, check_status, server_notify_stop_push}
use vm.Wss.PlayMngr.{device_idle, device_playing}

pub wait_for_response-devlist :
    (now room kind seqnum : ℕ) (rounds : List (List MessageNode)) (c : CmsClient)
    {r : CmsClient × Option Text}
    → wait_for_response now room kind seqnum rounds c ≡ ok r
    → r.0.devlist ≡ c.devlist
unfolding wait_for_response
wait_for_response-devlist now room kind seqnum rounds c e = ground arith

-- A stop whose message is sent keeps the clients' sockets and ids.
pub notify_stop_push-keys :
    (now seq : ℕ) (rounds : List (List MessageNode)) (devid : Text) (c : CmsClient)
    (srv : TcpServer) {r : TcpServer × Push}
    → find_client (has_fd c.fd) srv.clients ≡ some c
    → notify_stop_push true now seq rounds devid c srv ≡ ok r
    → keys r.0.clients ≡ keys srv.clients
unfolding notify_stop_push transmit
notify_stop_push-keys now seq rounds devid c srv here e =
    grind (
      arith,
      keys-set_device devid,
      keys-put_client c,
      wait_for_response-fd,
      find_client-put_client,
    )

-- A stop whose message is sent and that fails leaves a camera that plays as it was.
pub notify_stop_push_late :
    (now seq : ℕ) (rounds : List (List MessageNode)) (devid : Text) (c : CmsClient) (d : DeviceNode)
    (srv : TcpServer) {r : TcpServer × Push}
    → find_client (has_fd c.fd) srv.clients ≡ some c
    → find devid c.devlist ≡ some d
    → d.state ≡ pushing
    → notify_stop_push true now seq rounds devid c srv ≡ ok r
    → r.1.ret ≢ pos 0
    → camera c.fd devid r.0 ≡ some d
unfolding notify_stop_push transmit
notify_stop_push_late now seq rounds devid c d srv here known plays e late =
    grind (arith, wait_for_response-fd, wait_for_response-devlist, find_client-put_client)

-- A stop that succeeds has sent its message.
notify_stop_push-sent :
    (net : Bool) (now seq : ℕ) (rounds : List (List MessageNode)) (devid : Text) (c : CmsClient)
    (d : DeviceNode) (srv : TcpServer) {r : TcpServer × Push}
    → find devid c.devlist ≡ some d
    → notify_stop_push net now seq rounds devid c srv ≡ ok r
    → r.1.ret ≡ pos 0
    → net ≡ true
unfolding notify_stop_push transmit
notify_stop_push-sent true now seq rounds devid c d srv known e s = refl
notify_stop_push-sent false now seq rounds devid c d srv known e s = absurd (grind arith)

notify_stop_push_idle :
    (t : Turn) (devid : Text) (c : CmsClient) (d : DeviceNode) (srv : TcpServer)
    {r : TcpServer × Push}
    → IsValid srv
    → find_client (has_fd c.fd) srv.clients ≡ some c
    → find devid c.devlist ≡ some d
    → notify_stop_push t.net t.now t.seq t.rounds devid c srv ≡ ok r
    → r.1.ret ≡ pos 0
    → check_status c.cmsid devid r.0 ≡ ok device_idle
notify_stop_push_idle t devid c d srv {r} v here known e s =
    let sent = notify_stop_push-sent t.net t.now t.seq t.rounds devid c d srv known e s in
    camera_status c devid (record d { state = 1 }) srv r.0 v
      (notify_stop_push-keys t.now t.seq t.rounds devid c srv here (rw sent at e)) here
      (notify_stop_push-camera t.net t.now t.seq t.rounds devid c d srv here known e s)

notify_stop_push_playing :
    (t : Turn) (devid : Text) (c : CmsClient) (d : DeviceNode) (srv : TcpServer)
    {r : TcpServer × Push}
    → IsValid srv
    → find_client (has_fd c.fd) srv.clients ≡ some c
    → find devid c.devlist ≡ some d
    → d.state ≡ pushing
    → t.net ≡ true
    → notify_stop_push t.net t.now t.seq t.rounds devid c srv ≡ ok r
    → r.1.ret ≢ pos 0
    → check_status c.cmsid devid r.0 ≡ ok device_playing
notify_stop_push_playing t devid c d srv {r} v here known plays sent e late =
    let e' = rw sent at e in
    let status =
      camera_status c devid d srv r.0 v
        (notify_stop_push-keys t.now t.seq t.rounds devid c srv here e') here
        (notify_stop_push_late t.now t.seq t.rounds devid c d srv here known plays e' late) in
    rw plays at status

-- A camera that plays is one of a connected client.
check_status_playing :
    (cmsid devid : Text) (srv : TcpServer)
    → check_status cmsid devid srv ≡ ok device_playing
    → (c : CmsClient) × (d : DeviceNode) × (get_client cmsid srv ≡ some c)
      × (find devid c.devlist ≡ some d)
unfolding check_status get_state
check_status_playing cmsid devid srv e = elim (Option-cases (get_client cmsid srv)) [
  | inl absent ↦ absurd (grind (arith, absent))
  | inr (c, known) ↦ elim (Option-cases (find devid c.devlist)) [
    | inl absent ↦ absurd (grind (arith, absent, known))
    | inr (d, here) ↦ (c, d, known, here)
  ]
]

-- A stop is refused and changes nothing, or the camera is started and its client is told.
pub stop_cases :
    (t : Turn) (cmsid devid : Text) (c : CmsClient) (d : DeviceNode) (srv : TcpServer)
    {r : TcpServer × Push}
    → get_client cmsid srv ≡ some c
    → find devid c.devlist ≡ some d
    → server_notify_stop_push t cmsid devid srv ≡ ok r
    → ((r.0 ≡ srv) × (r.1.ret ≢ pos 0))
      ⊎ ((d.state ≡ pushing) × (notify_stop_push t.net t.now t.seq t.rounds devid c srv ≡ ok r))
unfolding server_notify_stop_push notify_stop_push
stop_cases t cmsid devid c d srv {r} known here e =
    elim (Bool-cases (is_empty cmsid || is_empty devid)) [
      | inl missing ↦ inl (grind (arith, missing))
      | inr given ↦ elim (Bool-cases (nat_beq d.state pushing)) [
        | inl started ↦ inr (grind (arith, started), grind (arith, given, known))
        | inr other ↦ inl (grind (arith, given, known, here, other))
      ]
    ]

-- A camera is stopped: if the stop succeeds, the next check of the camera says that it is idle; if its
-- message was sent and it fails, the check says that it plays, as before.
pub check_status-server_notify_stop_push :
    (t : Turn) (cmsid devid : Text) (srv : TcpServer) {r : TcpServer × Push}
    → IsValid srv
    → check_status cmsid devid srv ≡ ok device_playing
    → t.net ≡ true
    → server_notify_stop_push t cmsid devid srv ≡ ok r
    → (r.1.ret ≡ pos 0 → check_status cmsid devid r.0 ≡ ok device_idle)
      × (r.1.ret ≢ pos 0 → check_status cmsid devid r.0 ≡ ok device_playing)
check_status-server_notify_stop_push t cmsid devid srv {r} v plays sent e =
    let (c, d, known, here) = check_status_playing cmsid devid srv plays in
    let at_fd = find_client-by_fd cmsid c srv.clients v known in
    let own = find_client-has_cmsid cmsid c srv.clients known in
    elim (stop_cases t cmsid devid c d srv known here e) [
      | inl (same, failed) ↦ ((λ s. absurd (failed s)), (λ f. rw same plays))
      | inr (started, done) ↦ rw (← own) (
        (λ s. notify_stop_push_idle t devid c d srv v at_fd here done s),
        (λ f. notify_stop_push_playing t devid c d srv v at_fd here started sent done f),
      )
    ]
