-- ===== src/Service/PushCheck.antt =====
-- AdapterService.cpp: which pushes a stream server lets through.
use vm.Prelude.{◌≡◌, ◌↔◌, some, arith, find}
use vm.Prelude.Text.{Text, codes, text_key, text_beq_iff}
use vm.Adapter.Client.{DeviceNode, CmsClient, check_push}
use vm.Adapter.Server.{TcpServer, get_client}
use vm.Adapter.Control.{server_check_push}
use vm.Adapter.PushUrl.{Without, push_url, handle_push_check, check_push_parser-push_url}

server_check_push_iff :
    (cmsid devid key : Text) (srv : TcpServer)
    → (server_check_push cmsid devid key srv ≡ codes "0") ↔ (
        (c : CmsClient) × ((d : DeviceNode) × ((get_client cmsid srv ≡ some c)
            × ((find devid c.devlist ≡ some d) × (d.key ≡ key)))))
unfolding server_check_push check_push
server_check_push_iff cmsid devid key srv =
    (λ e. grind (arith, text_beq_iff), λ h. grind (arith, text_beq_iff))

-- A URL of a push, whose beginning has no '=' and whose ids have no '&', is answered with "0", which
-- lets the push through, exactly when the client is connected, has the camera, and the key is the
-- camera's.
pub handle_push_check_iff :
    (base cmsid devid key : Text) (srv : TcpServer)
    → Without b'=' base
    → Without b'&' cmsid
    → Without b'&' devid
    → (handle_push_check (some (push_url base cmsid devid key)) srv ≡ codes "0") ↔ (
        (c : CmsClient) × ((d : DeviceNode) × ((get_client cmsid srv ≡ some c)
            × ((find devid c.devlist ≡ some d) × (d.key ≡ key)))))
unfolding handle_push_check
handle_push_check_iff base cmsid devid key srv b c d =
    rw (check_push_parser-push_url base cmsid devid key b c d, handle_push_check)
      (server_check_push_iff cmsid devid key srv)
