-- ===== src/Adapter/Starts.antt =====
-- atb_adapter/AdapterServer.cpp and cms_client.cpp: what a start does on each of its ways.
use vm.Prelude.{
  ℕ, ◌≡◌, ◌≢◌, refl, true, some, List, arith, nat_beq, find, Bool-cases, inl, inr, ◌⊎◌, ◌||◌,
}
use vm.Prelude.Exec.{ok}
use vm.Prelude.Int.{pos, int_beq}
use vm.Prelude.Text.{Text, is_empty, text_key}
use vm.Adapter.Client.{DeviceNode, MessageNode, CmsClient, pushing}
use vm.Adapter.Control.{Turn, notify_start_push}
use vm.Adapter.Play.{keys-put_client, keys-set_device}
use vm.Adapter.Playing.{camera, find_client-put_client, wait_for_response-fd, notify_push-camera}
use vm.Adapter.Server.{
  TcpServer, find_client, has_fd, get_client, transmit, Push, start_answer, notify_push,
}
use vm.Adapter.Stopped.{wait_for_response-devlist}
use vm.Adapter.Unique.{keys}

start_answer-keys :
    (push_key devid : Text) (d : DeviceNode) (resp : Text) (c : CmsClient) (srv : TcpServer)
    {r : TcpServer × Push}
    → start_answer push_key devid d resp c srv ≡ ok r
    → find_client (has_fd c.fd) srv.clients ≡ some c
    → keys r.0.clients ≡ keys srv.clients
unfolding start_answer
start_answer-keys push_key devid d resp c srv e f = grind (arith, keys-set_device devid)

-- A start whose message is sent keeps the clients' sockets and ids.
notify_push-keys :
    (now seq : ℕ) (push_key : Text) (rounds : List (List MessageNode)) (devid : Text)
    (c : CmsClient) (srv : TcpServer) {r : TcpServer × Push}
    → find_client (has_fd c.fd) srv.clients ≡ some c
    → notify_push true now seq push_key rounds devid c srv ≡ ok r
    → keys r.0.clients ≡ keys srv.clients
unfolding notify_push transmit
notify_push-keys now seq push_key rounds devid c srv here e =
    grind
      (arith, start_answer-keys, keys-put_client c, wait_for_response-fd, find_client-put_client)

start_answer_failed :
    (push_key devid : Text) (d : DeviceNode) (resp : Text) (c : CmsClient) (srv : TcpServer)
    {r : TcpServer × Push}
    → start_answer push_key devid d resp c srv ≡ ok r
    → r.1.ret ≢ pos 0
    → r.0 ≡ srv
unfolding start_answer
start_answer_failed push_key devid d resp c srv e bad = grind arith

-- A start whose message is sent and that fails leaves the camera as it was.
notify_push_failed :
    (now seq : ℕ) (push_key : Text) (rounds : List (List MessageNode)) (devid : Text)
    (c : CmsClient) (d : DeviceNode) (srv : TcpServer) {r : TcpServer × Push}
    → find_client (has_fd c.fd) srv.clients ≡ some c
    → find devid c.devlist ≡ some d
    → notify_push true now seq push_key rounds devid c srv ≡ ok r
    → r.1.ret ≢ pos 0
    → camera c.fd devid r.0 ≡ some d
unfolding notify_push transmit
notify_push_failed now seq push_key rounds devid c d srv here known e bad = grind (
  arith, start_answer_failed, wait_for_response-fd, wait_for_response-devlist,
  find_client-put_client,
)

already :
    (t : Turn) (devid : Text) (c : CmsClient) (d : DeviceNode) (srv : TcpServer)
    {r : TcpServer × Push}
    → find devid c.devlist ≡ some d
    → nat_beq d.state pushing ≡ true
    → notify_push t.net t.now t.seq t.push_key t.rounds devid c srv ≡ ok r
    → (r.0 ≡ srv) × (r.1.ret ≡ pos 0)
unfolding notify_push
already t devid c d srv known plays e = grind (arith, known, plays)

-- What a start does, where the client of the camera is asked.
pub notify_push_cases :
    (t : Turn) (devid : Text) (c : CmsClient) (d : DeviceNode) (srv : TcpServer)
    {r : TcpServer × Push}
    → find_client (has_fd c.fd) srv.clients ≡ some c
    → find devid c.devlist ≡ some d
    → t.net ≡ true
    → notify_push t.net t.now t.seq t.push_key t.rounds devid c srv ≡ ok r
    → ((r.0 ≡ srv) × (d.state ≡ pushing) × (r.1.ret ≡ pos 0))
      ⊎ ((d' : DeviceNode) × (keys r.0.clients ≡ keys srv.clients)
          × (camera c.fd devid r.0 ≡ some d')
          × (((r.1.ret ≡ pos 0) × (d'.state ≡ pushing)) ⊎ ((r.1.ret ≢ pos 0) × (d' ≡ d))))
notify_push_cases t devid c d srv {r} here known sent e =
    elim (Bool-cases (nat_beq d.state pushing)) [
      | inl plays ↦ inl (grind (arith, already t devid c d srv known plays e))
      | inr idle ↦
          let e' = rw sent at e in
          let same = notify_push-keys t.now t.seq t.push_key t.rounds devid c srv here e' in
          elim (Bool-cases (int_beq r.1.ret (pos 0))) [
            | inl good ↦
                let fine : r.1.ret ≡ pos 0 = grind arith in
                inr (
                  record d { token = r.1.token; key = t.push_key; state = pushing },
                  same,
                  notify_push-camera t.net t.now t.seq t.push_key t.rounds devid c d srv here known
                      (ground arith) e fine,
                  inl (fine, refl),
                )
            | inr bad ↦
                let wrong : r.1.ret ≢ pos 0 = grind arith in
                inr (
                  d,
                  same,
                  notify_push_failed t.now t.seq t.push_key t.rounds devid c d srv here known e'
                      wrong,
                  inr (wrong, refl),
                )
          ]
    ]

pub start_cases :
    (check_start_push : Text → Text → ℕ) (t : Turn) (cmsid devid : Text) (c : CmsClient)
    (srv : TcpServer) {r : TcpServer × Push}
    → get_client cmsid srv ≡ some c
    → notify_start_push check_start_push t cmsid devid srv ≡ ok r
    → ((r.0 ≡ srv) × (r.1.ret ≢ pos 0))
      ⊎ (notify_push t.net t.now t.seq t.push_key t.rounds devid c srv ≡ ok r)
unfolding notify_start_push
start_cases check_start_push t cmsid devid c srv known e =
    elim (Bool-cases (is_empty cmsid || is_empty devid)) [
      | inl missing ↦ inl (grind (arith, missing))
      | inr named ↦ elim (Bool-cases (nat_beq (check_start_push cmsid devid) 0)) [
        | inl free ↦ inr (grind (arith, named, free, known))
        | inr refused ↦ inl (grind (arith, named, refused))
      ]
    ]
