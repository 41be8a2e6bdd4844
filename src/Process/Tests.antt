-- ===== src/Process/Tests.antt =====
-- The whole process at concrete inputs.
use vm.Prelude.{
  Bool, false, ℕ, ◌≡◌, refl, true, none, some, List, [], ◌∷◌, arith, find, insert, erase, modify,
  nat_beq, if◌then◌else◌, ◌==◌, Map, replicate,
}
use vm.Prelude.Exec.{ok}
use vm.Prelude.Int.{ℤ, pos}
use vm.Prelude.Text.{Text, codes, text_key, text_beq, text_before}
use vm.Adapter.Client.{
  get_state, set_device, wait_for_response, wait_loop, take_answer, drop_old, new_device, stop_over,
  is_over, is_silent,
}
use vm.Adapter.Control.{
  Turn, check_status, notify_start_push, server_check_push, server_notify_stop_push,
}
use vm.Adapter.Unique.{idle-LogsNobodyIn}
use vm.Adapter.Machine.{Order, start, stop, Moves, Shows, give, give_all, give_all-Moves}
use vm.Adapter.Refresh.{check_state, refresh_clients, refresh}
use vm.Adapter.Server.{
  TcpServer, Push, find_client, set_client, put_client, notify_push, notify_stop_push, start_answer,
  transmit, update_livecount,
}
use vm.Adapter.Session.{serve_client, write_ids}
use vm.Adapter.Wire.{
  int_bytes, int_at, padded, char_array, c_string, read_message, read_body, et_recv,
}
use vm.Log.Config.{get_config_map}
use vm.Log.Host.{Host}
use vm.Log.Logging.{new_log, log_init, check_config_file}
use vm.Service.Console.{console, leaves, put}
use vm.Service.Lifecycle.{Parts, Outcome}
use vm.Prelude.Exec.{crash}
use vm.Process.Entry.{process, interrupt, waiting, process-interrupt}
use vm.Db.Camera.{check_start_push, start_rows, start_row}
use vm.Db.Fixture.{World, idle, answering, answering-Pool}
use vm.Db.Query.{with_connection, select, finish, cell}
use vm.Db.Sql.{atoi, read_digits, skip_spaces, sprintf, joined as joined_texts, select_camera}
use vm.Pool.{add_task, execute_thread}
use vm.Process.Fixture.{client, door, site, server, all_day, silent, talk, opening, beat}
use vm.Process.Jobs.{
  Process, Event, viewer_came, viewer_wrote, readable, asked, state_turn, server_turn, worked,
  receive, on_readable, run_job, found_job, handle, handle_all,
}
use vm.Process.Leaving.{sweep_rooms-on_disconnect_wrapper}
use vm.Process.Sound.{Sound, handle_all-Sound}
use vm.Process.Stuck.{ask_all, ask_all_roomless}
use vm.Process.Watching.{join_liveroom-watching}
use vm.Service.Fixture.{turn, styled, seconds, value, given}
use vm.Service.Handler.{Ground, db_handler}
use vm.Service.Http.{Request, start_push, handle_check, field}
use vm.Service.Routes.{check, serve_route}
use vm.Service.Reading.{db_read_task, db_incoming, db_handler_read}
use vm.Wss.Events.{step}
use vm.Wss.Members.{is_member, room_of}
use vm.Wss.PlayMngr.{
  PlayctrlHandler, PlayMngr, on_connect_wrapper, on_connect, join_liveroom, join_idle, join_playing,
  enter, answer, on_timeout, on_disconnect, on_disconnect_wrapper, device_idle, device_playing,
}
use vm.Wss.Requests.{is_dead, dispatch, handle_request, read_command, state_round, sweep_rooms}
use vm.Wss.Room.{LiveRoom, new_room, join, has_user, quit, erase_user, size}
use vm.Wss.Server.{
  add_connection, set_value, put_key, update, update_timestamp, send, buffer_string, get_value,
  get_key, touch_key, remove_connection, elapsed, roomid_key,
}

abbrev blank : Request
blank = record { get_param = λ name. []; raw = codes "url" }

-- A viewer comes and asks for the camera, which is started; the client sends a heartbeat; the stream
-- server asks for a push; both threads look.
abbrev day : List Event
day =
    viewer_came 1 2 3 7
    ∷ viewer_wrote (7, codes "join")
    ∷ readable 4
    ∷ worked beat
    ∷ worked beat
    ∷ asked check given blank
    ∷ state_turn 9
    ∷ server_turn (λ fd. true) 9 (codes "now")
    ∷ []

abbrev evening : Process World
evening = value (handle_all styled seconds talk (some (answering all_day)) day opening) opening

handle_all-Sound_example :
    Sound styled seconds talk (answering all_day) idle (answering-Pool all_day) 2 evening
unfolding handle_all handle receive on_readable run_job found_job add_task execute_thread step
    on_connect_wrapper handle_request read_command dispatch join_liveroom join_idle enter send
    state_round start_push check_start_push start_rows start_row finish cell with_connection select
    sprintf joined_texts select_camera atoi read_digits skip_spaces text_beq text_before find insert
    erase notify_start_push notify_push start_answer wait_for_response wait_loop take_answer
    drop_old set_device set_client put_client find_client transmit int_bytes int_at padded
    char_array c_string check_status get_state answer set_value update_timestamp add_connection
    on_connect new_device db_read_task db_incoming db_handler_read read_message read_body et_recv
    serve_client update_livecount refresh refresh_clients check_state stop_over is_over is_silent
    write_ids serve_route handle_check field
handle_all-Sound_example =
    handle_all-Sound styled seconds talk (answering all_day) idle (answering-Pool all_day) day
      opening 2 {p' = evening}
      (tt, (tt, (tt, (idle-LogsNobodyIn, (idle-LogsNobodyIn, (tt, (tt, (tt, tt)))))))) refl
      (record { connections = refl; clients = (tt, tt); rooms = tt })

-- A viewer that is in the table asks for the camera, which is idle.
abbrev hall : PlayMngr (Ground World)
hall = record { connections = add_connection 1 2 7 []; rooms = []; adapter = site 1 }

abbrev joined : PlayMngr (Ground World)
joined =
    (value
      (join_liveroom talk (db_handler seconds (some (answering all_day))) 9 7 (codes "a")
        (codes "p") hall)
      (hall, pos 1)).0

join_liveroom-watching_example :
    (check_status (codes "a") (codes "p") joined.adapter.server ≡ ok device_playing)
    × (server_check_push (codes "a") (codes "p") (codes "k") joined.adapter.server ≡ codes "0")
    × (is_member 7 (codes "ap") joined.rooms
        ≡ (if codes "ap" == codes "ap" then nat_beq 7 7 else is_member 7 (codes "ap") []))
    × (room_of 7 joined.connections
        ≡ (if nat_beq 7 7 then codes "ap" else room_of 7 hall.connections))
unfolding join_liveroom join_idle enter send start_push check_start_push start_rows start_row finish
    cell with_connection select sprintf joined_texts select_camera atoi read_digits skip_spaces
    text_beq text_before find insert erase notify_start_push notify_push start_answer
    wait_for_response wait_loop take_answer drop_old set_device set_client put_client find_client
    transmit int_bytes int_at padded char_array c_string check_status get_state answer set_value
    update_timestamp add_connection new_device
join_liveroom-watching_example =
    join_liveroom-watching talk seconds (some (answering all_day)) 9 7 (codes "a") (codes "p") hall
      {pm' = joined} (tt, tt) refl refl 7 (codes "ap") (cc)

abbrev nothing : Push
nothing = record { ret = pos 9; result = []; token = [] }

-- No answer comes to the stop.
abbrev unanswered : TcpServer × Push
unanswered =
    value (server_notify_stop_push silent (codes "a") (codes "p") (server 2)) (server 2, nothing)

-- Nobody has been in the camera's room for long, and two viewers ask for it again.
abbrev empty_room : LiveRoom
empty_room = record (new_room (codes "a") (codes "p") (codes "t")) { timestamp = 5 }

abbrev quiet : PlayMngr (Ground World)
quiet = record {
  connections = add_connection 1 2 7 [];
  rooms = (codes "ap", empty_room) ∷ [];
  adapter = record (site 2) { turns = λ n. (given, silent) };
}

abbrev asks : List (ℕ × ℕ × ℤ)
asks = (70009, 7, pos 100) ∷ (70010, 8, pos 100) ∷ []

abbrev handler : PlayctrlHandler (Ground World)
handler = db_handler seconds (some (answering all_day))

abbrev swept : Map Text LiveRoom × Ground World
swept =
    value (sweep_rooms talk handler 70000 quiet.rooms quiet.adapter) (quiet.rooms, quiet.adapter)

abbrev asked_twice : PlayMngr (Ground World)
asked_twice =
    value
      (ask_all talk handler (codes "a") (codes "p") asks
        (record quiet { rooms = swept.0; adapter = swept.1 }))
      quiet

ask_all_roomless_example :
    (check_status (codes "a") (codes "p") asked_twice.adapter.server ≡ ok device_playing)
    × (asked_twice.rooms ≡ [])
    × (find (codes "ap") asked_twice.rooms ≡ none)
unfolding ask_all dispatch join_liveroom join_playing sweep_rooms is_dead size elapsed
    server_notify_stop_push notify_stop_push wait_for_response wait_loop drop_old put_client
    set_client find_client transmit int_bytes padded char_array check_status get_state find text_beq
    text_before insert erase answer send update buffer_string add_connection new_device new_room
ask_all_roomless_example =
    ask_all_roomless talk seconds (some (answering all_day)) 70000 empty_room [] asks quiet
      asked_twice swept unanswered (tt, tt) refl refl tt refl refl refl refl (cc) refl refl

-- The viewer is in the room, and the client answers the stop.
abbrev answering_stop : Turn
answering_stop = record silent {
  rounds = (record { kind = 0x10033; timestamp = 0; seqnum = 6; buf = replicate 68 1 } ∷ []) ∷ [];
}

abbrev watched_room : LiveRoom
watched_room = (join 7 (new_room (codes "a") (codes "p") (codes "t"))).0

abbrev watched : PlayMngr (Ground World)
watched = record {
  connections = value (set_value 7 roomid_key (codes "ap") (add_connection 1 2 7 [])) [];
  rooms = (codes "ap", watched_room) ∷ [];
  adapter = record (site 2) { turns = λ n. (given, answering_stop) };
}

abbrev left : PlayMngr (Ground World)
left = value (on_disconnect_wrapper talk handler 1000 7 watched) watched

abbrev stopped : TcpServer × Push
stopped =
    value (server_notify_stop_push answering_stop (codes "a") (codes "p") (server 2))
      (server 2, nothing)

abbrev closed_room : Map Text LiveRoom × Ground World
closed_room =
    value (sweep_rooms talk handler 70000 left.rooms left.adapter) (left.rooms, left.adapter)

sweep_rooms-on_disconnect_wrapper_example :
    (closed_room.0 ≡ [])
    × (check_status (codes "a") (codes "p") closed_room.1.server ≡ ok device_idle)
unfolding on_disconnect_wrapper on_disconnect on_timeout remove_connection get_value get_key
    touch_key modify quit has_user erase_user join sweep_rooms is_dead size elapsed
    server_notify_stop_push notify_stop_push wait_for_response wait_loop take_answer drop_old
    put_client set_client set_device find_client transmit int_bytes padded char_array check_status
    get_state find text_beq text_before insert erase set_value put_key update add_connection
    new_device new_room room_of
sweep_rooms-on_disconnect_wrapper_example =
    sweep_rooms-on_disconnect_wrapper talk seconds (some (answering all_day)) 1000 70000 7
      (codes "ap") watched_room [] watched left closed_room stopped (tt, tt) refl refl refl refl
      refl refl refl (omega arith) tt refl refl refl refl

-- The camera is started; a stop is not answered, the next is, and one more is refused.
abbrev orders : List (Turn × Order)
orders = (turn, start) ∷ (silent, stop) ∷ (answering_stop, stop) ∷ (answering_stop, stop) ∷ []

abbrev obeyed : TcpServer × List (Order × Bool)
obeyed = value (give_all (λ c d. 0) (codes "a") (codes "p") orders (server 1)) (server 1, [])

idle_camera : Shows (codes "a") (codes "p") false (server 1)
unfolding find_client find text_beq
idle_camera = record {
  valid = (tt, tt);
  client = client 1;
  device = door 1;
  connected = refl;
  known = refl;
  state = refl;
}

give_all-Moves_example :
    (now : Bool) × Moves false obeyed.1 now
    × (check_status (codes "a") (codes "p") obeyed.0
        ≡ ok (if now then device_playing else device_idle))
unfolding give_all give notify_start_push notify_push start_answer server_notify_stop_push
    notify_stop_push wait_for_response wait_loop take_answer drop_old put_client set_client
    set_device find_client transmit int_bytes int_at padded char_array c_string find insert text_beq
    text_before new_device
give_all-Moves_example =
    give_all-Moves (λ c d. 0) (codes "a") (codes "p") orders false (server 1) {r = obeyed}
      idle_camera (refl, (refl, (refl, (refl, tt)))) refl

-- Files that are never looked at; there is no configuration.
abbrev no_files : Host Bool
no_files = record {
  mkdir = λ dir w. (w, true);
  open_append = λ p w. (w, true);
  exists = λ p w. false;
  rename = λ p q w. w;
  remove = λ p w. w;
  append = λ p line w. w;
  print = λ s w. w;
  read = λ p w. none;
  localtime =
      λ t. record { tm_year = 118; tm_mon = 9; tm_mday = 1; tm_hour = 8; tm_min = 30; tm_sec = 0 };
}

abbrev all_start : Outcome
all_start = record {
  mysql_init = true;
  mysql_open = true;
  threads_created = 8;
  http_start = true;
  tcp_connect = true;
  thread_create = true;
  play_start = true;
}

process-interrupt_example :
    (s : Parts) × (process no_files all_start (λ j. 0) (b'q' ∷ b'u' ∷ b'i' ∷ b't' ∷ []) false
      ≡ ok (false, record new_log { dir = codes "./"; config_file = codes "atb.conf" }, waiting s))
    × (s.exit ≡ false)
    × (interrupt (waiting s) ≡ crash)
unfolding log_init check_config_file get_config_map console leaves put
process-interrupt_example =
    process-interrupt no_files (λ j. 0) b'q' b'u' b'i' (b't' ∷ []) all_start false refl refl refl
      refl
