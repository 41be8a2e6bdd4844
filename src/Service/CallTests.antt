-- ===== src/Service/CallTests.antt =====
-- A login, a start and a viewer at concrete inputs.
use vm.Adapter.Clock.{Sections, check_internal, time_compare}
use vm.Adapter.Wire.{int_at}
use vm.Adapter.Client.{wait_loop, take_answer, wait_for_response, drop_old, set_device}
use vm.Adapter.Server.{Push, notify_push, start_answer}
use vm.Adapter.Control.{notify_start_push}
use vm.Db.Sql.{sql_size, select_camera}
use vm.Db.Query.{cell_or_empty}
use vm.Db.Camera.{check_start_push, start_rows, start_row, check_sections}
use vm.Db.Login.{InTime}
use vm.Service.Http.{start_push}
use vm.Service.Timely.{start_push-InTime}
use vm.Prelude.{
  ◌<◌, length, ◌++◌, replicate, All, zero, suc, ℕ, ◌≡◌, refl, true, Option, none, some, List, [],
  ◌∷◌, arith, find, insert,
}
use vm.Prelude.Exec.{ok}
use vm.Prelude.Int.{pos}
use vm.Prelude.Text.{Text, codes, text_key, text_beq, text_before}
use vm.Adapter.Wire.{int_bytes, padded, char_array}
use vm.Adapter.Client.{CmsClient, new_device}
use vm.Adapter.Server.{get_client, find_client, set_client, put_client, transmit}
use vm.Db.Sql.{atoi, read_digits, skip_spaces, sprintf, joined, select_adapter}
use vm.Db.Query.{with_connection, select, cell}
use vm.Db.Fixture.{World, adapter, answering}
use vm.Adapter.Session.{DeviceRow}
use vm.Adapter.Wire.{c_string}
use vm.Db.Query.{finish}
use vm.Db.Account.{check_login, login_rows, login_row}
use vm.Db.Lists.{get_group_info_ex, device_rows, device_row, select_cameras}
use vm.Service.Login.{Has, db_login, db_login-Has}
use vm.Service.Admin.{Both, Given}
use vm.Service.Fixture.{server, given, value, turn}

-- The client "b" logs in; the database knows it, and one camera of it, which is played all day.
abbrev login_answers : ℕ → List (List (Option Text))
login_answers n = elim n [
  | zero ↦ adapter ∷ []
  | suc k ↦ (none ∷ some (codes "p") ∷ none ∷ some (codes "door") ∷ some (codes "1") ∷ []) ∷ []
]

abbrev login_body : Text
login_body = codes "b" ++ (replicate 19 0 ++ (codes "psw" ++ replicate 81 0))

abbrev door : DeviceRow
door = record {
  pid = codes "p";
  name = codes "door";
  allday = 1;
  s0 = [];
  e0 = [];
  s1 = [];
  e1 = [];
}

db_login-Has_example :
    (b : Both World) × ((db_login
          (λ srv. srv)
          true
          9
          (some (answering login_answers))
          5
          1
          login_body
          ((2, 0), server)
        ≡ ok b)
      × ((c : CmsClient) × ((get_client (codes "b") b.1 ≡ some c)
            × ((c.fd ≡ 5) × All (Has c) (door ∷ [])))))
unfolding c_string check_login login_rows login_row get_group_info_ex device_rows device_row finish
    with_connection select cell sprintf joined select_adapter select_cameras atoi read_digits
    skip_spaces text_beq find_client
db_login-Has_example =
    db_login-Has (some (answering login_answers)) 9 5 1 login_body (codes "b") (codes "psw")
      (codes "7") (door ∷ []) (2, 0) (2, 1) (2, 2) (λ srv. srv) server refl refl refl refl refl refl
      (omega arith) (omega arith, tt) (omega arith)

-- The camera "p" of the client "a" plays from "1" to "333" and is started at "22"; the client answers
-- with success.
abbrev by_length : Text → Option ℕ
by_length s = some (length s)

abbrev sections : Sections
sections = record { s0 = codes "1"; e0 = codes "333"; s1 = []; e1 = [] }

abbrev scheduled : List (Option Text)
scheduled =
    none
    ∷ some (codes "p")
    ∷ none
    ∷ some (codes "door")
    ∷ some (codes "0")
    ∷ some sections.s0
    ∷ some sections.e0
    ∷ some sections.s1
    ∷ some sections.e1
    ∷ []

abbrev at_22 : Given
at_22 = record given { time = codes "22" }

abbrev pushed : Both World × Push
pushed =
    value
      (start_push by_length (some (answering (λ n. scheduled ∷ []))) at_22 turn (codes "a")
        (codes "p") ((2, 0), server))
      (((2, 0), server), record { ret = pos 9; result = []; token = [] })

short_camera : length (select_camera (codes "a") (codes "p")) < sql_size
unfolding select_camera joined
short_camera = omega arith

start_push-InTime_example :
    InTime by_length (codes "22") sections
    × (pushed.0.0 ≡ (answering (λ n. scheduled ∷ [])).recycle (1, 1))
unfolding start_push check_start_push start_rows start_row check_sections check_internal
    time_compare cell_or_empty cell finish with_connection select sprintf joined select_camera
    notify_start_push notify_push start_answer wait_for_response wait_loop take_answer drop_old
    set_device set_client put_client find_client find insert transmit int_bytes int_at padded
    char_array c_string text_beq text_before atoi read_digits skip_spaces new_device
start_push-InTime_example =
    start_push-InTime by_length (answering (λ n. scheduled ∷ [])) at_22 turn (codes "a") (codes "p")
      sections scheduled [] (2, 0) pushed.0.0 server pushed.0.1 pushed.1 refl short_camera refl
      (record { flag = refl; s0 = refl; e0 = refl; s1 = refl; e1 = refl }) refl refl
