-- ===== src/Process/Starting.antt =====
-- AdapterService.cpp over AdapterServer.cpp and db_helper.cpp: a start that succeeds, of a camera that did
-- not play.
use vm.Prelude.{ℕ, ◌≡◌, ◌||◌, Option, some, arith, find, Option-cases, Bool-cases, inl, inr}
use vm.Prelude.Exec.{ok, >>=-eq-ok}
use vm.Prelude.Int.{pos}
use vm.Prelude.Text.{Text, codes, is_empty, text_key}
use vm.Adapter.Client.{DeviceNode, CmsClient, get_state}
use vm.Adapter.Server.{TcpServer, Push, get_client, notify_push}
use vm.Adapter.Control.{Turn, check_status, notify_start_push, server_check_push}
use vm.Adapter.Unique.{IsValid}
use vm.Adapter.Play.{check_status-notify_start_push, server_check_push-notify_push}
use vm.Db.Query.{Mysql}
use vm.Db.Camera.{check_start_push}
use vm.Service.Admin.{Both, Given}
use vm.Service.Http.{start_push}
use vm.Wss.PlayMngr.{device_idle, device_playing}

-- A camera that is idle is one of a connected client, and online.
check_status_idle :
    (cmsid devid : Text) (srv : TcpServer)
    → check_status cmsid devid srv ≡ ok device_idle
    → (c : CmsClient) × (d : DeviceNode) × (get_client cmsid srv ≡ some c)
      × (find devid c.devlist ≡ some d)
      × (d.state ≡ 1)
unfolding check_status get_state
check_status_idle cmsid devid srv e = elim (Option-cases (get_client cmsid srv)) [
  | inl absent ↦ absurd (grind (arith, absent))
  | inr (c, known) ↦ elim (Option-cases (find devid c.devlist)) [
    | inl absent ↦ absurd (grind (arith, absent, known))
    | inr (d, here) ↦ (c, d, known, here, grind (arith, here, known))
  ]
]

-- A start that succeeds was let through, and is a start of the connected client.
notify_start_push-notify_push :
    (ret : ℕ) (t : Turn) (cmsid devid : Text) (c : CmsClient) (srv : TcpServer)
    {r : TcpServer × Push}
    → get_client cmsid srv ≡ some c
    → notify_start_push (λ c d. ret) t cmsid devid srv ≡ ok r
    → r.1.ret ≡ pos 0
    → notify_push t.net t.now t.seq t.push_key t.rounds devid c srv ≡ ok r
unfolding notify_start_push
notify_start_push-notify_push ret t cmsid devid c srv known e s = grind (arith, known)

module _ (seconds : Text → Option ℕ) {W : Type 0} (db : Option (Mysql W)) where
  start_push-notify_start_push :
      (g : Given) (t : Turn) (cmsid devid : Text) (b : Both W) {r : Both W × Push}
      → start_push seconds db g t cmsid devid b ≡ ok r
      → r.1.ret ≡ pos 0
      → (ret : ℕ) × (notify_start_push (λ c d. ret) t cmsid devid b.1 ≡ ok (r.0.1, r.1))
  unfolding start_push
  start_push-notify_start_push g t cmsid devid (w, srv) {r} e s =
      elim (Bool-cases (is_empty cmsid || is_empty devid)) [
        | inl empty ↦ absurd (let refused = rw (empty, start_push) at e in grind arith)
        | inr given ↦
            let ((w', ret), asked, e1) =
              >>=-eq-ok (check_start_push seconds db g.time cmsid devid w) _
                (rw (given, start_push) at e) in
            let (r', told, e2) =
              >>=-eq-ok (notify_start_push (λ c d. ret) t cmsid devid srv) _ e1 in
            let same : r' ≡ (r.0.1, r.1) = grind arith in (ret, rw (← same) told)
      ]

  -- A camera that was idle plays after a start that succeeds, and a push with the key of the start is
  -- let through.
  pub start_push-playing :
      (g : Given) (t : Turn) (cmsid devid : Text) (b : Both W) {r : Both W × Push}
      → IsValid b.1
      → check_status cmsid devid b.1 ≡ ok device_idle
      → start_push seconds db g t cmsid devid b ≡ ok r
      → r.1.ret ≡ pos 0
      → (check_status cmsid devid r.0.1 ≡ ok device_playing)
        × (server_check_push cmsid devid t.push_key r.0.1 ≡ codes "0")
  start_push-playing g t cmsid devid b {r} v idle e s =
      let (c, d, known, here, online) = check_status_idle cmsid devid b.1 idle in
      let (ret, told) = start_push-notify_start_push g t cmsid devid b e s in
      (
        check_status-notify_start_push (λ c d. ret) t cmsid devid b.1 v told s,
        server_check_push-notify_push t cmsid devid c d b.1 v known here (omega arith)
            (notify_start_push-notify_push ret t cmsid devid c b.1 known told s) s,
      )
