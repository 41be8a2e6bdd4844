-- ===== src/Adapter/Listing.antt =====
-- atb_adapter/cms_client.cpp, AdapterServer.cpp and server_tcpsrv.cpp: the list of a client's cameras,
-- and the stop of the TCP server. `styled` is jsoncpp's `toStyledString`.
use vm.Prelude.{ℕ, Bool, Option, none, some, List, [], ◌∷◌, length, Map}
use vm.Prelude.Exec.{Exec}
use vm.Prelude.Int.{ℤ, pos, minus_one}
use vm.Prelude.Text.{Text, text_key}
use vm.Adapter.Client.{DeviceNode, CmsClient}
use vm.Adapter.Server.{TcpServer, get_client}
use vm.Adapter.Refresh.{refresh}

pub record DeviceItem : Type 0 where
  pub pid : Text
  pub name : Text
  pub state : ℕ

-- The result of `GetDeviceList`, with its code.
pub record DeviceList : Type 0 where
  pub code : ℕ
  pub num : ℕ
  pub list : List DeviceItem

unfoldable pub device_items : Map Text DeviceNode → List DeviceItem
device_items [] = []
device_items ((k, d) ∷ devs) =
    record { pid = d.pid; name = d.name; state = d.state } ∷ device_items devs

module _ (styled : DeviceList → Text) where
  -- `CMSClient::GetDeviceList`.
  unfoldable pub get_device_list : CmsClient → Text × ℤ
  get_device_list c =
      (styled (record { code = 100; num = length c.devlist; list = device_items c.devlist }), pos 0)

  -- `AdapterServer::GetDeviceList`: a client that is not connected gives -1 and leaves the result.
  unfoldable pub server_get_device_list : Text → TcpServer → Option Text × ℤ
  server_get_device_list cmsid srv = elim (get_client cmsid srv) [
    | none ↦ (none, minus_one)
    | some c ↦ let (result, ret) = get_device_list c in (some result, ret)
  ]

-- `TcpServer::Stop`: the clients that would go at the start of a turn of `Run` go now.
unfoldable pub tcp_stop : (Text → Option ℕ) → (ℕ → Bool) → ℕ → Text → TcpServer → Exec TcpServer
tcp_stop seconds net now time srv = refresh seconds net now time srv
