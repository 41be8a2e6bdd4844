-- ===== src/Db/Tests.antt =====
-- The database helper over a pool that counts its idle connections.
use vm.Prelude.{
  ℕ, zero, suc, ◌≡◌, ◌<◌, ◌↔◌, ◌≤◌, refl, Option, none, some, List, [], ◌∷◌, arith, replicate,
  length, get_elem?, All,
}
use vm.Prelude.Exec.{ok, crash}
use vm.Prelude.Text.{Text, codes, text_beq}
use vm.Prelude.Int.{pos}
use vm.Adapter.Clock.{Sections}
use vm.Db.Sql.{
  sql_size, select_adapter, select_camera, joined, sprintf, atoi, read_digits, skip_spaces,
}
use vm.Db.Query.{cell, with_connection, select, execute, finish, Row}
use vm.Db.Account.{check_login, login_row, login_rows, mod_group, update_adapter}
use vm.Db.Camera.{check_start_push}
use vm.Db.Lists.{get_group_info_ex, always_row, select_cameras, device_row, device_rows}
use vm.Db.Calls.{Call, login, devices, modify_adapter, serve_call, serve_calls}
use vm.Db.Balance.{serve_calls-idle}
use vm.Db.Fixture.{World, idle, adapter, answering, answering-Pool}
use vm.Db.Login.{InTime, check_login_iff, check_start_push_iff}
use vm.Db.Devices.{Readable, get_group_info_ex-room, get_group_info_ex-full}

abbrev seconds : Text → Option ℕ
seconds t = some (length t)

-- A camera that is played all day, and one with two sections.
abbrev always : Row
always = none ∷ some (codes "p") ∷ none ∷ some (codes "door") ∷ some (codes "1") ∷ []

abbrev sections : Sections
sections = record { s0 = codes "1"; e0 = codes "333"; s1 = codes "55555"; e1 = codes "7777777" }

abbrev scheduled : Row
scheduled =
    none
    ∷ some (codes "q")
    ∷ none
    ∷ some (codes "hall")
    ∷ some (codes "0")
    ∷ some sections.s0
    ∷ some sections.e0
    ∷ some sections.s1
    ∷ some sections.e1
    ∷ []

abbrev calls : List Call
calls =
    login (codes "a") (codes "psw")
    ∷ modify_adapter (codes "now") (codes "a") (pos 1) (codes "attic")
    ∷ devices (codes "a")
    ∷ []

abbrev served : World
served = (3, 3)

-- The statements fit their buffer, and the row of `always` is read.
short_adapter : length (select_adapter (codes "a")) < sql_size
unfolding select_adapter joined
short_adapter = omega arith

short_camera : length (select_camera (codes "a") (codes "q")) < sql_size
unfolding select_camera joined
short_camera = omega arith

short_cameras : length (select_cameras (codes "a")) < sql_size
unfolding select_cameras joined
short_cameras = omega arith

read_always : device_row 0 always ≡ ok (some (always_row (codes "p") (codes "door")))
unfolding device_row cell atoi read_digits skip_spaces
read_always = refl

replicate-Readable : (n : ℕ) → All Readable (replicate n always)
replicate-Readable zero = tt
replicate-Readable (suc n) =
    ((always_row (codes "p") (codes "door"), read_always), replicate-Readable n)

calls_done : serve_calls seconds (some (answering (λ n. always ∷ []))) calls (3, 0) ≡ ok served
unfolding serve_calls serve_call check_login mod_group get_group_info_ex with_connection select
    execute finish login_rows login_row cell update_adapter device_rows device_row select_cameras
    select_adapter joined sprintf text_beq atoi read_digits skip_spaces
calls_done = refl

serve_calls-idle_example : idle served ≡ idle (3, 0)
serve_calls-idle_example =
    serve_calls-idle (answering (λ n. always ∷ [])) idle (answering-Pool (λ n. always ∷ [])) seconds
      calls (3, 0) {w' = served} calls_done

check_login_iff_example :
    (check_login (some (answering (λ n. adapter ∷ []))) (codes "a") (codes "psw") (3, 0)
      ≡ ok ((3, 1), (0, codes "7")))
    ↔ ((get_elem? adapter 1 ≡ some (some (codes "psw")))
        × (length (codes "psw") ≤ 19)
        × (get_elem? adapter 5 ≡ some (some (codes "7"))))
check_login_iff_example =
    check_login_iff (answering (λ n. adapter ∷ [])) (3, 0) refl (codes "a") (codes "psw")
      (codes "7") adapter [] short_adapter refl

check_start_push_iff_example :
    (check_start_push seconds
        (some (answering (λ n. scheduled ∷ [])))
        (codes "22")
        (codes "a")
        (codes "q")
        (3, 0)
      ≡ ok ((3, 1), 0))
    ↔ InTime seconds (codes "22") sections
check_start_push_iff_example =
    check_start_push_iff (answering (λ n. scheduled ∷ [])) (3, 0) refl seconds (codes "22")
      (codes "a") (codes "q") sections scheduled [] short_camera refl
      (record { flag = refl; s0 = refl; e0 = refl; s1 = refl; e1 = refl })

get_group_info_ex-room_example :
    get_group_info_ex (some (answering (λ n. always ∷ always ∷ []))) (codes "a") (3, 0)
    ≡ ok (
      (3, 1),
      some (always_row (codes "p") (codes "door") ∷ always_row (codes "p") (codes "door") ∷ []),
    )
get_group_info_ex-room_example =
    get_group_info_ex-room (answering (λ n. always ∷ always ∷ [])) (codes "a") (3, 0) refl
      (always ∷ always ∷ [])
      (always_row (codes "p") (codes "door") ∷ always_row (codes "p") (codes "door") ∷ [])
      short_cameras refl (rw read_always refl) (omega arith)

get_group_info_ex-full_example :
    get_group_info_ex (some (answering (λ n. replicate 51 always))) (codes "a") (3, 0) ≡ crash
get_group_info_ex-full_example =
    get_group_info_ex-full (answering (λ n. replicate 51 always)) (codes "a") (3, 0) refl
      (replicate 51 always) refl (replicate-Readable 51) (omega arith)
