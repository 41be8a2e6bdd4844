-- ===== src/Adapter/Playing.antt =====
-- atb_adapter/cms_client.cpp: what a start or a stop of a camera leaves of it.
use vm.Prelude.{
  ℕ, ◌≡◌, ◌≢◌, refl, Bool, true, false, Option, none, some, List, [], ◌∷◌, find, arith,
  find-insert_self,
}
use vm.Prelude.Exec.{ok}
use vm.Prelude.Int.{pos}
use vm.Prelude.Text.{Text, text_key}
use vm.Adapter.Wire.{Frame}
use vm.Adapter.Client.{DeviceNode, MessageNode, CmsClient, pushing, set_device, wait_for_response}
use vm.Adapter.Server.{
  TcpServer, find_client, set_client, has_fd, put_client, transmit, Push, start_answer, notify_push,
  notify_stop_push,
}

-- The camera of the client at this socket.
abbrev pub camera : ℕ → Text → TcpServer → Option DeviceNode
camera fd devid srv = elim (find_client (has_fd fd) srv.clients) [
  | none ↦ none
  | some c ↦ find devid c.devlist
]

find_client-set_client :
    (fd : ℕ) (c c' : CmsClient) (cs : List CmsClient)
    → find_client (has_fd fd) cs ≡ some c
    → c'.fd ≡ fd
    → find_client (has_fd fd) (set_client (has_fd c'.fd) c' cs) ≡ some c'
unfolding find_client set_client
find_client-set_client fd c c' [] e f = absurd (cc)
find_client-set_client fd c c' (d ∷ cs) e f = grind (arith, find_client-set_client fd c c' cs)

pub find_client-put_client :
    (c c' : CmsClient) (srv : TcpServer)
    → find_client (has_fd c.fd) srv.clients ≡ some c
    → c'.fd ≡ c.fd
    → find_client (has_fd c.fd) (put_client c' srv).clients ≡ some c'
unfolding put_client
find_client-put_client c c' srv e f = find_client-set_client c.fd c c' srv.clients e f

pub wait_for_response-fd :
    (now room kind seqnum : ℕ) (rounds : List (List MessageNode)) (c : CmsClient)
    {r : CmsClient × Option Text}
    → wait_for_response now room kind seqnum rounds c ≡ ok r
    → (r.0.fd ≡ c.fd) × (r.0.cmsid ≡ c.cmsid)
unfolding wait_for_response
wait_for_response-fd now room kind seqnum rounds c e = ground arith

pub transmit-clients :
    (net : Bool) (fd : ℕ) (f : Frame) (srv : TcpServer)
    → (transmit net fd f srv).1 ≡ true
    → (transmit net fd f srv).0.clients ≡ srv.clients
unfolding transmit
transmit-clients true fd f srv e = refl
transmit-clients false fd f srv e = absurd (cc)

pub camera-put_client :
    (devid : Text) (d : DeviceNode) (c : CmsClient) (srv : TcpServer)
    → find_client (has_fd c.fd) srv.clients ≡ some c
    → camera c.fd devid (put_client (set_device devid d c) srv) ≡ some d
unfolding set_device
camera-put_client devid d c srv f =
    rw (find_client-put_client c (set_device devid d c) srv f refl, camera)
      (find-insert_self devid d c.devlist)

start_answer-camera :
    (push_key devid : Text) (d : DeviceNode) (resp : Text) (c : CmsClient) (srv : TcpServer)
    {srv' : TcpServer} {p : Push}
    → start_answer push_key devid d resp c srv ≡ ok (srv', p)
    → p.ret ≡ pos 0
    → find_client (has_fd c.fd) srv.clients ≡ some c
    → camera c.fd devid srv' ≡ some (record d { token = p.token; key = push_key; state = pushing })
unfolding start_answer
start_answer-camera push_key devid d resp c srv e s f = grind (arith, camera-put_client devid)

-- A start that succeeds on a camera that did not play leaves it playing, with the token of the
-- answer and the key that went with the request.
pub notify_push-camera :
    (net : Bool) (now seq : ℕ) (push_key : Text) (rounds : List (List MessageNode)) (devid : Text)
    (c : CmsClient) (d : DeviceNode) (srv : TcpServer) {srv' : TcpServer} {p : Push}
    → find_client (has_fd c.fd) srv.clients ≡ some c
    → find devid c.devlist ≡ some d
    → d.state ≢ pushing
    → notify_push net now seq push_key rounds devid c srv ≡ ok (srv', p)
    → p.ret ≡ pos 0
    → camera c.fd devid srv' ≡ some (record d { token = p.token; key = push_key; state = pushing })
unfolding notify_push
notify_push-camera net now seq push_key rounds devid c d srv here known idle e s =
    grind
      (arith, start_answer-camera, wait_for_response-fd, transmit-clients, find_client-put_client)

-- A stop that succeeds leaves the camera online, with all else that was known of it.
pub notify_stop_push-camera :
    (net : Bool) (now seq : ℕ) (rounds : List (List MessageNode)) (devid : Text) (c : CmsClient)
    (d : DeviceNode) (srv : TcpServer) {srv' : TcpServer} {p : Push}
    → find_client (has_fd c.fd) srv.clients ≡ some c
    → find devid c.devlist ≡ some d
    → notify_stop_push net now seq rounds devid c srv ≡ ok (srv', p)
    → p.ret ≡ pos 0
    → camera c.fd devid srv' ≡ some (record d { state = 1 })
unfolding notify_stop_push
notify_stop_push-camera net now seq rounds devid c d srv here known e s =
    grind (arith, camera-put_client, wait_for_response-fd, transmit-clients, find_client-put_client)
