-- ===== src/Service/Tests.antt =====
-- The service at concrete inputs.
use vm.Prelude.{
  zero, suc, ℕ, ◌≡◌, ◌↔◌, refl, true, false, Option, some, List, [], ◌∷◌, arith, find, insert,
}
use vm.Prelude.Exec.{Exec}
use vm.Prelude.Text.{Text, codes, text_key, text_beq, text_before}
use vm.Adapter.Wire.{int_bytes, padded, char_array}
use vm.Adapter.Clock.{no_sections, parse_time_section}
use vm.Adapter.Client.{DeviceNode, CmsClient, new_device, enter_device}
use vm.Adapter.Server.{
  get_client, find_client, set_client, put_client, add_camera, notify_change, transmit,
}
use vm.Adapter.Control.{sections_of, server_add_camera}
use vm.Adapter.Playing.{camera}
use vm.Adapter.PushUrl.{push_url, handle_push_check}
use vm.Db.Sql.{
  atoi, read_digits, skip_spaces, decimal, digits_up, reversed, sprintf, joined, select_adapter,
}
use vm.Db.Query.{with_connection, select, execute, cell}
use vm.Db.Camera.{
  Device, add_device, parsed_sections, add_device_parsed, add_device_checked, add_device_rows,
  select_same_camera, insert_camera, quoted_list,
}
use vm.Db.Fixture.{World, adapter, answering}
use vm.Pool.Threads.{start_workers, delete_workers, destroy_workers}
use vm.Service.Lifecycle.{Outcome, new_service, start, start_parts, stop}
use vm.Service.Stopping.{Released, start-Released}
use vm.Service.Admin.{nothing, Both, web_add_camera, reply_and_tell, reply_to, describe}
use vm.Service.Cameras.{web_add_camera-camera}
use vm.Service.PushCheck.{handle_push_check_iff}
use vm.Service.Fixture.{client, server, given, value, seconds, styled}

abbrev fine : Outcome
fine = record {
  mysql_init = true;
  mysql_open = true;
  threads_created = 8;
  http_start = true;
  tcp_connect = true;
  thread_create = true;
  play_start = true;
}

-- The port of the adapter server is in use.
abbrev port_in_use : Outcome
port_in_use = record fine { tcp_connect = false }

abbrev no_http : Outcome
no_http = record fine { http_start = false }

start-Released_example : Released new_service
unfolding start start_parts stop start_workers delete_workers destroy_workers
start-Released_example = start-Released no_http new_service refl

handle_push_check_iff_example :
    (handle_push_check (some (push_url (codes "rtmp?") (codes "a") (codes "p") [])) server
      ≡ codes "0")
    ↔ ((c : CmsClient) × ((d : DeviceNode) × ((get_client (codes "a") server ≡ some c)
            × ((find (codes "p") c.devlist ≡ some d) × (d.key ≡ [])))))
handle_push_check_iff_example =
    handle_push_check_iff (codes "rtmp?") (codes "a") (codes "p") [] server (ground arith)
      (refl, tt) (refl, tt)

abbrev yard : Device
yard = record {
  pid = codes "q";
  groupid = codes "a";
  name = codes "yard";
  allday = 1;
  time_sec0 = [];
  time_sec1 = [];
  broadcast_address = [];
}

-- There is no such camera yet, and the adapter is known.
abbrev answers : ℕ → List (List (Option Text))
answers n = elim n [ zero ↦ [] | suc k ↦ adapter ∷ [] ]

abbrev asked : Exec (Both World × Text)
asked =
    web_add_camera styled (some (answering answers)) seconds given false (codes "7") yard
      ((2, 0), server)

abbrev added : Both World × Text
added = value asked (((2, 0), server), [])

-- What the tests below compute with.
opened : Unit {0}
unfolding web_add_camera reply_and_tell reply_to describe add_device parsed_sections
    add_device_parsed with_connection select add_device_checked add_device_rows execute cell sprintf
    joined select_same_camera select_adapter insert_camera quoted_list atoi read_digits skip_spaces
    decimal digits_up reversed find_client set_client put_client enter_device add_camera
    notify_change transmit server_add_camera sections_of int_bytes padded char_array insert find
    text_beq text_before new_device parse_time_section
opened = tt

web_add_camera-camera_example :
    (camera 4 (codes "q") added.0.1 ≡ some (new_device (codes "q") (codes "yard") 1 [] [] [] []))
    × (added.1 ≡ styled (record { code = 100; result = codes "success!"; extra = nothing }))
unfolding opened
web_add_camera-camera_example =
    web_add_camera-camera seconds styled (some (answering answers)) given (codes "7") yard
      no_sections client (2, 0) (2, 3) server {s = added} (tt, tt) refl refl refl refl refl refl
      refl refl refl
