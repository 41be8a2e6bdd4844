-- ===== src/Wss/Tests.antt =====
-- The play manager at concrete inputs: a formatter and a handler small enough to follow.
use vm.Wss.Queue.{Message, on_messages, work_all, holding, work_all-on_messages}
use vm.Prelude.{
  Map, ◌++◌, ℕ, List, ◌≡◌, ◌≢◌, refl, true, false, not, ◌&&◌, ◌||◌, none, some, [], ◌∷◌, arith,
  nat_key, ◌==◌, if◌then◌else◌, find, insert, erase, keep_if, nat_beq, modify,
}
use vm.Prelude.Exec.{◌>>=◌, Exec, ok, crash, no_fuel, map_exec}
use vm.Prelude.Int.{ℤ, pos}
use vm.Prelude.Text.{Text, codes, is_empty, text_key, text_beq, text_before}
use vm.Wss.Room.{LiveRoom, new_room, join, quit, has_user, erase_user, size}
use vm.Wss.Server.{
  Connection, Connections, add_connection, remove_connection, update, send, send_all, set_value,
  get_value, update_timestamp, writeable, elapsed, is_expired, check_connection_state, get_key,
  put_key, touch_key, buffer_string, check_loop,
}
use vm.Wss.PlayMngr.{
  Formats, PlayctrlHandler, PlayMngr, on_timeout, answer, on_connect, on_connect_wrapper,
  on_disconnect, on_disconnect_wrapper, room_key, enter, join_idle, join_playing, join_liveroom,
}
use vm.Wss.Requests.{
  is_dead, find_token, read_command, dispatch, handle_request, notify_hls, sweep_rooms,
}
use vm.Wss.Events.{connected, closed, writable, request, hls, started, step, run}
use vm.Wss.Expiry.{expire, check_connection_state-expire}
use vm.Wss.Rooms.{IsValid}
use vm.Wss.Invariant.{run-IsValid}
use vm.Wss.Members.{is_member, room_of}
use vm.Wss.Viewers.{is_member-join_playing, is_member-on_disconnect_wrapper, is_member_stale}
use vm.Wss.Lifecycle.{is_deserted, stop_all, sweep_rooms-stop_all}
use vm.Wss.Delivery.{
  Use, opening, closing, sending, writing, setting, use_one, use_all, given, given-use_all,
}
use vm.Wss.Collision.{join_liveroom_shared}

-- A line is its command's number and the device.
abbrev formats : Formats Text
formats = record {
  parse = λ line. some line;
  is_object = λ v. true;
  as_int = λ name v. elim v [ [] ↦ none | c ∷ rest ↦ some (pos c) ];
  as_string = λ name v. elim v [ [] ↦ none | c ∷ rest ↦ some rest ];
  to_styled_string = λ r. r.code ∷ [];
  to_string = λ n. n ∷ [];
}

-- The adapter's state is the status of every camera.
abbrev handler : PlayctrlHandler ℤ
handler = record {
  check_play_status = λ cmsid devid w. ok (w, w);
  start_play = λ cmsid devid w.
      ok (w, record { ret = pos 0; result = codes "success!"; token = codes "tok" });
  stop_play = λ cmsid devid w. ok (pos 102);
}

abbrev viewer : Connection
viewer = record { buffer = []; values = []; create_time = 0; timestamp = 5; socketid = 7 }

abbrev room : Text → LiveRoom
room devid = record {
  rdy = false;
  cmsid = codes "c";
  devid = devid;
  token = devid;
  id = [];
  timestamp = 0;
  users = [];
}

-- One viewer; the cameras x and y are played, each in an empty room.
abbrev two_rooms : PlayMngr ℤ
two_rooms = record {
  connections = (7, some viewer) ∷ [];
  rooms = (codes "x", room (codes "x")) ∷ (codes "y", room (codes "y")) ∷ [];
  adapter = pos 200;
}

abbrev offline : PlayMngr ℤ
offline = record two_rooms { adapter = pos 101 }

abbrev value : {A : Type 0} → Exec A → A → A
value (ok a) b = a
value crash b = b
value no_fuel b = b

-- What the tests below compute with.
opened : Unit {0}
unfolding run step on_connect_wrapper on_connect add_connection set_value update_timestamp update
    handle_request read_command dispatch join_liveroom join_idle enter answer send buffer_string
    join new_room has_user notify_hls find_token send_all size writeable on_disconnect_wrapper
    on_disconnect get_value remove_connection on_timeout quit erase_user find insert erase modify
    text_beq text_before put_key get_key touch_key join_playing check_connection_state check_loop
    is_expired elapsed is_member room_of is_dead sweep_rooms stop_all
opened = tt

-- A full visit: the camera is started on the first request, and the room outlives the viewer.
run_visit :
    (run formats handler
      (connected 0 0 5 7
        ∷ request 9 7 (codes "dx")
        ∷ hls (codes "tok")
        ∷ writable 7
        ∷ closed 20 7
        ∷ [])
      (started (pos 102)))
    ≡ ok (record {
      pm = record {
        connections = [];
        rooms =
            (
              codes "xx",
              record {
                rdy = true;
                cmsid = codes "x";
                devid = codes "x";
                token = codes "tok";
                id = [];
                timestamp = 20;
                users = [];
              },
            )
            ∷ [];
        adapter = pos 102;
      };
      rounds = record { check = 0; sweep = 0 };
    })
unfolding opened
run_visit = refl

two_rooms-IsValid : IsValid two_rooms
two_rooms-IsValid = omega arith

run-IsValid_example :
    IsValid
      (value
        (run formats handler (request 9 7 (codes "dx") ∷ closed 20 7 ∷ []) (started (pos 102)))
        (started (pos 0))).pm
unfolding opened
run-IsValid_example =
    run-IsValid formats handler (request 9 7 (codes "dx") ∷ closed 20 7 ∷ []) (started (pos 102))
      refl tt

check_connection_state-expire_example :
    check_connection_state (on_timeout 40000) 40000 two_rooms.connections two_rooms.rooms
    ≡ expire (on_timeout 40000) 40000 two_rooms.connections two_rooms.rooms
check_connection_state-expire_example =
    check_connection_state-expire (on_timeout 40000) 40000 two_rooms.connections two_rooms.rooms

abbrev joined_x : PlayMngr ℤ × ℤ
joined_x = value (join_playing formats handler 9 7 (codes "x") two_rooms) (two_rooms, pos 1)

abbrev joined_y : PlayMngr ℤ × ℤ
joined_y = value (join_playing formats handler 10 7 (codes "y") joined_x.0) (two_rooms, pos 1)

abbrev left : PlayMngr ℤ
left = value (on_disconnect_wrapper formats handler 11 7 joined_y.0) two_rooms

abbrev left_x : PlayMngr ℤ
left_x = value (on_disconnect_wrapper formats handler 11 7 joined_x.0) two_rooms

is_member-join_playing_example :
    is_member 7 (codes "x") joined_x.0.rooms
    ≡ (is_member 7 (codes "x") two_rooms.rooms || ((codes "x" == codes "x") && nat_beq 7 7))
unfolding opened
is_member-join_playing_example =
    is_member-join_playing formats handler 9 7 7 (codes "x") (codes "x") two_rooms
      {room = room (codes "x")} refl refl

x_not_y : codes "x" ≢ codes "y"
x_not_y = ground arith

abbrev after_sweep : Map Text LiveRoom × ℤ
after_sweep = value (sweep_rooms formats handler 70000 left.rooms left.adapter) ([], pos 0)

is_member_stale_example :
    (is_member 7 (codes "x") left.rooms ≡ true) × (is_member 7 (codes "x") after_sweep.0 ≡ true)
unfolding opened
is_member_stale_example =
    is_member_stale formats handler 9 10 11 70000 7 (codes "x") (codes "y") two_rooms
      {r = after_sweep} {r₁ = joined_x} {r₂ = joined_y} {room₁ = room (codes "x")}
      {room₂ = room (codes "y")} two_rooms-IsValid (λ e. cc) refl refl refl refl refl x_not_y refl

abbrev idle : PlayMngr ℤ
idle = record two_rooms { adapter = pos 102 }

is_member-on_disconnect_wrapper_example :
    let roomid = room_of 7 joined_x.0.connections in
    (find 7 left_x.connections ≡ none)
    × (is_member 7 (codes "x") left_x.rooms ≡ (
        if not (is_empty roomid) && (roomid == codes "x")
        then not (nat_beq 7 7) && is_member 7 (codes "x") joined_x.0.rooms
        else is_member 7 (codes "x") joined_x.0.rooms))
unfolding opened
is_member-on_disconnect_wrapper_example =
    is_member-on_disconnect_wrapper formats handler 11 7 7 (codes "x") joined_x.0
      ((refl, tt), (tt, tt)) refl

sweep_rooms-stop_all_example :
    sweep_rooms formats handler 70000 two_rooms.rooms (pos 200)
    ≡ map_exec
        (λ w'. (keep_if (λ e. not (is_deserted 70000 e.1)) two_rooms.rooms, w'))
        (stop_all formats handler (keep_if (λ e. is_deserted 70000 e.1) two_rooms.rooms) (pos 200))
sweep_rooms-stop_all_example =
    sweep_rooms-stop_all formats handler 70000 two_rooms.rooms (pos 200) (omega arith)
      (omega arith, (omega arith, tt))

-- Two viewers ask for the same camera.
abbrev asked : List (ℕ × Message)
asked = (9, (7, codes "dx")) ∷ (20, (8, codes "dx")) ∷ []

work_all-on_messages_example :
    work_all formats handler (9 ∷ 20 ∷ []) (
      on_messages
        ((7, codes "dx") ∷ (8, codes "dx") ∷ [])
        (holding formats handler (started (pos 102)).pm []))
    ≡ (run formats handler
          (request 9 7 (codes "dx") ∷ request 20 8 (codes "dx") ∷ [])
          (started (pos 102))
        >>= λ s. ok (holding formats handler s.pm []))
work_all-on_messages_example = work_all-on_messages formats handler asked (started (pos 102))

-- The camera "c" of the client "ab" has a room; the camera "bc" of "a" plays, and a viewer joins it.
abbrev first_room : LiveRoom
first_room = record (room (codes "c")) { cmsid = codes "ab"; devid = codes "c" }

abbrev one_room : PlayMngr ℤ
one_room = record two_rooms { rooms = (codes "abc", first_room) ∷ [] }

join_liveroom_shared_example :
    let r =
      value
        (join_liveroom formats handler 9 7 (codes "a") (codes "bc") one_room)
        (one_room, pos 1) in
    (room' : LiveRoom) × (find (room_key (codes "ab") (codes "c")) r.0.rooms ≡ some room')
    × (has_user 7 room'.users ≡ true)
    × (room'.token ≡ codes "c")
    × (room'.cmsid ≡ codes "ab")
    × (room'.devid ≡ codes "c")
    × (room'.cmsid ≢ codes "a")
unfolding opened
join_liveroom_shared_example =
    join_liveroom_shared formats handler 9 7 (codes "ab") (codes "c") (codes "a") (codes "bc")
      first_room one_room {w = pos 200} refl (ground arith) refl refl refl refl refl

-- Calls for the viewer 7 and another, 8, which comes and goes.
abbrev uses : List Use
uses =
    opening 0 5 8
    ∷ sending 7 (codes "a")
    ∷ sending 8 (codes "x")
    ∷ sending 7 (codes "b")
    ∷ writing 7
    ∷ setting 7 (codes "k") (codes "v")
    ∷ writing 8
    ∷ closing 8
    ∷ sending 7 (codes "c")
    ∷ []

abbrev used : Connections × List (ℕ × List Text)
used = value (use_all uses two_rooms.connections) ([], [])

given-use_all_example :
    (c' : Connection) × (find 7 used.0 ≡ some (some c'))
    × (given 7 used.1 ++ c'.buffer ≡ codes "a" ∷ codes "b" ∷ codes "c" ∷ [])
unfolding opened use_all use_one
given-use_all_example =
    given-use_all 7 uses viewer two_rooms.connections {r = used}
      (
        (λ e. absurd (omega arith)),
        (tt, (tt, (tt, (tt, (tt, (tt, ((λ e. absurd (omega arith)), (tt, tt)))))))),
      )
      refl refl
