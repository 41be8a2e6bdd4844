-- ===== src/Service/Cameras.antt =====
-- atb_adapter/AdapterServer.cpp: a camera that the database takes is one that the connected client has.
use vm.Prelude.{ℕ, ◌≡◌, ◌∙◌, true, false, Option, some, arith}
use vm.Prelude.Exec.{ok}
use vm.Prelude.Int.{ℤ}
use vm.Prelude.Text.{Text, codes, is_empty}
use vm.Adapter.Clock.{Sections}
use vm.Adapter.Client.{DeviceNode, CmsClient, new_device, enter_device, set_device}
use vm.Adapter.Server.{
  TcpServer, get_client, find_client, has_fd, put_client, notify_change, add_camera, transmit,
}
use vm.Adapter.Control.{sections_of, server_add_camera}
use vm.Adapter.Unique.{IsValid}
use vm.Adapter.Playing.{camera, camera-put_client}
use vm.Adapter.Play.{find_client-by_fd}
use vm.Db.Query.{Mysql}
use vm.Db.Camera.{Device, add_device}
use vm.Service.Admin.{
  WebReply, nothing, Both, Given, reply_to, describe, reply_and_tell, web_add_camera,
}

-- A message that is sent changes no client.
notify_change-camera :
    (fd seq change fd' : ℕ) (pid devid : Text) (srv : TcpServer) {r : TcpServer × ℤ}
    → notify_change true fd seq change pid srv ≡ ok r
    → camera fd' devid r.0 ≡ camera fd' devid srv
unfolding notify_change transmit
notify_change-camera fd seq change fd' pid devid srv e = grind arith

-- The camera stands in the client as it was entered.
enter_device-camera :
    (d : DeviceNode) (c : CmsClient) (srv : TcpServer)
    → find_client (has_fd c.fd) srv.clients ≡ some c
    → camera c.fd d.pid (put_client (enter_device d c) srv) ≡ some d
unfolding enter_device set_device
enter_device-camera d c srv f = camera-put_client d.pid d c srv f

add_camera-camera :
    (seq : ℕ) (d : DeviceNode) (c : CmsClient) (srv : TcpServer) {r : TcpServer × ℤ}
    → find_client (has_fd c.fd) srv.clients ≡ some c
    → add_camera true seq true d c srv ≡ ok r
    → camera c.fd d.pid r.0 ≡ some d
unfolding add_camera
add_camera-camera seq d c srv f e =
    notify_change-camera c.fd seq 1 c.fd d.pid d.pid (put_client (enter_device d c) srv) e
    ∙ enter_device-camera d c srv f

module _ (seconds : Text → Option ℕ) where
  server_add_camera-camera :
      (seq : ℕ) (cmsid pid name : Text) (allday : ℕ) (sec0 sec1 : Text) (t : Sections)
      (c : CmsClient) (srv : TcpServer) {srv' : TcpServer}
      → IsValid srv
      → get_client cmsid srv ≡ some c
      → sections_of seconds allday sec0 sec1 ≡ ok t
      → server_add_camera seconds true seq cmsid pid name allday sec0 sec1 srv ≡ ok srv'
      → camera c.fd pid srv' ≡ some (new_device pid name allday t.s0 t.e0 t.s1 t.e1)
  unfolding server_add_camera new_device
  server_add_camera-camera seq cmsid pid name allday sec0 sec1 t c srv v here parsed e =
      let at_fd = find_client-by_fd cmsid c srv.clients v here in
      grind (arith, add_camera-camera seq (new_device pid name allday t.s0 t.e0 t.s1 t.e1) c srv)

  -- A user's client adds a camera to an adapter client that is connected, and gives all names. If the
  -- database takes the camera, its schedule can be read, and the notice is sent, then the connected
  -- client has the camera, not playing, with this schedule, and the answer is 100.
  pub web_add_camera-camera :
      (styled : WebReply → Text) {W : Type 0} (db : Option (Mysql W)) (g : Given) (userid : Text)
      (d : Device) (t : Sections) (c : CmsClient) (w w' : W) (srv : TcpServer) {s : Both W × Text}
      → IsValid srv
      → get_client d.groupid srv ≡ some c
      → is_empty userid ≡ false
      → is_empty d.groupid ≡ false
      → is_empty d.pid ≡ false
      → is_empty d.name ≡ false
      → add_device seconds db g.time d w ≡ ok (w', 0)
      → sections_of seconds d.allday d.time_sec0 d.time_sec1 ≡ ok t
      → g.net ≡ true
      → web_add_camera styled db seconds g false userid d (w, srv) ≡ ok s
      → (camera c.fd d.pid s.0.1 ≡ some (new_device d.pid d.name d.allday t.s0 t.e0 t.s1 t.e1))
        × (s.1 ≡ styled (record { code = 100; result = codes "success!"; extra = nothing }))
  unfolding web_add_camera reply_and_tell reply_to describe
  web_add_camera-camera styled db g userid d t c w w' srv v here u i p n taken parsed sent e =
      grind (
        arith,
        server_add_camera-camera g.seq d.groupid d.pid d.name d.allday d.time_sec0 d.time_sec1 t c
            srv,
      )
