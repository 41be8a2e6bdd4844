-- ===== src/Wss/PlayMngr.antt =====
-- atb_wss/PlayMngr.h and PlayMngr.cc: the play manager. It serves the requests of the viewers, keeps
-- a room for each camera that is played, and asks its handler to start and stop the cameras.
-- A call is one step: what other threads do inside it is not modelled, and `now` is the one answer
-- of `Global::GetTickCount` in it.
use vm.Prelude.{
  ℕ, ◌||◌, Bool, Option, none, some, [], ◌++◌, if◌then◌else◌, nat_key, Map, find, insert, erase,
  modify,
}
use vm.Prelude.Exec.{Exec, ok, ◌>>=◌}
use vm.Prelude.Int.{ℤ, pos, int_beq, minus_one}
use vm.Prelude.Text.{Text, codes, is_empty, text_key}
use vm.Wss.Room.{LiveRoom, new_room, join, quit}
use vm.Wss.Server.{
  Connections, add_connection, remove_connection, send, set_value, get_value, update_timestamp,
  roomid_key, handle_key,
}

-- The fields that the replies set on a `Json::Value`.
pub record Reply : Type 0 where
  pub code : ℕ
  pub result : Option Text
  pub token : Option Text
  pub num : Option ℕ

-- jsoncpp and the number formatting of the C++ library, which are not part of the program: `none` of
-- `parse` is its false, and `none` of a reader is an exception. `is_object` is true of an object and of
-- null, which alone may be read by a name.
pub record Formats (V : Type 0) : Type 0 where
  pub parse : Text → Option V
  pub is_object : V → Bool
  pub as_int : Text → V → Option ℤ
  pub as_string : Text → V → Option Text
  pub to_styled_string : Reply → Text
  pub to_string : ℕ → Text

-- The three results of `start_play`.
pub record Play : Type 0 where
  pub ret : ℤ
  pub result : Text
  pub token : Text

-- `PlayctrlHandler`: what the play manager asks of the adapter, over the adapter's state.
pub record PlayctrlHandler (W : Type 0) : Type 0 where
  pub check_play_status : Text → Text → W → Exec (W × ℤ)
  pub start_play : Text → Text → W → Exec (W × Play)
  pub stop_play : Text → Text → W → Exec W

pub record PlayMngr (W : Type 0) : Type 0 where
  pub connections : Connections
  pub rooms : Map Text LiveRoom
  pub adapter : W

-- The answers of `check_play_status`.
abbrev pub adapter_offline : ℤ
adapter_offline = pos 100

abbrev pub device_offline : ℤ
device_offline = pos 101

abbrev pub device_idle : ℤ
device_idle = pos 102

abbrev pub device_playing : ℤ
device_playing = pos 200

-- The key of a camera's room: the two ids, joined with nothing between them.
abbrev pub room_key : Text → Text → Text
room_key cmsid devid = cmsid ++ devid

-- `onTimeout`, which changes the rooms only.
unfoldable pub on_timeout : ℕ → ℕ → Text → Map Text LiveRoom → Map Text LiveRoom
on_timeout now socket roomid rooms =
    if is_empty roomid then rooms else modify roomid (λ r. (quit now socket r).0) rooms

abbrev pub refusal : ℕ → Text → Reply
refusal code result = record { code = code; result = some result; token = none; num = none }

abbrev pub success : ℕ → Text → Text → ℕ → Reply
success code result token num = record {
  code = code;
  result = some result;
  token = some token;
  num = some num;
}

module _ {V W : Type 0} (formats : Formats V) (handler : PlayctrlHandler W) where
  -- The reply of an operation, sent to its viewer.
  unfoldable pub answer : ℕ → Reply → PlayMngr W → Exec (PlayMngr W)
  answer socket reply pm = do
    cs ← send socket (formats.to_styled_string reply) pm.connections
    ok (record pm { connections = cs })

  unfoldable pub on_connect : ℕ → ℕ → PlayMngr W → Exec (PlayMngr W)
  on_connect now socket pm = do
    cs ← set_value socket handle_key (codes "User #" ++ formats.to_string socket) pm.connections
    cs' ← update_timestamp socket now cs
    ok (record pm { connections = cs' })

  unfoldable pub on_connect_wrapper : ℕ → ℕ → ℕ → ℕ → PlayMngr W → Exec (PlayMngr W)
  unfolding on_connect
  on_connect_wrapper time raw now socket pm =
      on_connect now socket
        (record pm { connections = add_connection time raw socket pm.connections })

  unfoldable pub on_disconnect : ℕ → ℕ → PlayMngr W → Exec (PlayMngr W)
  on_disconnect now socket pm = do
    (cs, roomid) ← get_value socket roomid_key pm.connections
    ok (record pm { connections = cs; rooms = on_timeout now socket roomid pm.rooms })

  unfoldable pub on_disconnect_wrapper : ℕ → ℕ → PlayMngr W → Exec (PlayMngr W)
  unfolding on_disconnect
  on_disconnect_wrapper now socket pm = do
    pm' ← on_disconnect now socket pm
    ok (record pm' { connections = remove_connection socket pm'.connections })

  -- What both successful branches of `join_liveroom` do after the room is joined.
  unfoldable pub enter : ℕ → ℕ → Text → Reply → PlayMngr W → Exec (PlayMngr W × ℤ)
  unfolding answer
  enter now socket key reply pm = do
    pm' ← answer socket reply pm
    cs ← set_value socket roomid_key key pm'.connections
    cs' ← update_timestamp socket now cs
    ok (record pm' { connections = cs' }, pos 0)

  abbrev pub refuse : ℕ → Reply → ℤ → PlayMngr W → Exec (PlayMngr W × ℤ)
  refuse socket reply ret pm = do pm' ← answer socket reply pm; ok (pm', ret)

  -- The camera is known and not playing: it is started, and gets a new room.
  unfoldable pub join_idle : ℕ → ℕ → Text → Text → PlayMngr W → Exec (PlayMngr W × ℤ)
  join_idle now socket cmsid devid pm = do
    (w, play) ← handler.start_play cmsid devid pm.adapter
    let pm' = record pm { rooms = erase (room_key cmsid devid) pm.rooms; adapter = w }
    if int_beq play.ret (pos 0)
        then (let (room, count) = join socket (new_room cmsid devid play.token) in
            enter now socket (room_key cmsid devid)
              (success 102 (codes "stream not ready!") play.token count)
              (record pm' { rooms = insert (room_key cmsid devid) room pm'.rooms }))
        else refuse socket (refusal 104 play.result) minus_one pm'

  unfoldable pub join_playing : ℕ → ℕ → Text → PlayMngr W → Exec (PlayMngr W × ℤ)
  join_playing now socket key pm = elim (find key pm.rooms) [
    | none ↦ refuse socket (refusal 900 (codes "fail,unexcepted situationl!")) (pos 0) pm
    | some r ↦
        let (room, count) = join socket r in
        enter now socket key
          (if room.rdy
            then success 101 (codes "success") room.token count
            else success 102 (codes "stream not ready!") room.token count)
          (record pm { rooms = insert key room pm.rooms })
  ]

  unfoldable pub join_liveroom : ℕ → ℕ → Text → Text → PlayMngr W → Exec (PlayMngr W × ℤ)
  join_liveroom now socket cmsid devid pm = do
    (w, ret) ← handler.check_play_status cmsid devid pm.adapter
    let pm' = record pm { adapter = w }
    if int_beq ret adapter_offline || int_beq ret device_offline
        then refuse socket (refusal 103 (codes "camera offline!")) minus_one
            (record pm' { rooms = erase (room_key cmsid devid) pm'.rooms })
        else (if int_beq ret device_idle
            then join_idle now socket cmsid devid pm'
            else (if int_beq ret device_playing
                then join_playing now socket (room_key cmsid devid) pm'
                else refuse socket (refusal 900 (codes "fail,unexcepted situationl!")) (pos 0) pm'))

  -- `quit_liveroom`'s branch for a camera that plays, before the reply.
  unfoldable pub quit_playing : ℕ → ℕ → Text → PlayMngr W → Exec (PlayMngr W)
  quit_playing now socket key pm = elim (find key pm.rooms) [
    | none ↦ ok pm
    | some r ↦ do
      cs ← set_value socket roomid_key [] pm.connections
      ok (record pm { connections = cs; rooms = insert key (quit now socket r).0 pm.rooms })
  ]

  unfoldable pub quit_liveroom : ℕ → ℕ → Text → Text → PlayMngr W → Exec (PlayMngr W × ℤ)
  quit_liveroom now socket cmsid devid pm = do
    (w, ret) ← handler.check_play_status cmsid devid pm.adapter
    let pm' = record pm { adapter = w }
    pm'' ←
        if int_beq ret device_playing
        then quit_playing now socket (room_key cmsid devid) pm'
        else ok (record pm' { rooms = erase (room_key cmsid devid) pm'.rooms })
    refuse socket (refusal 201 (codes "stop play success!")) (pos 0) pm''

  -- The request 300: 301 tells the viewer that it is in a room, 302 that it is in none.
  unfoldable pub heartbeat : ℕ → ℕ → PlayMngr W → Exec (PlayMngr W × ℤ)
  heartbeat now socket pm = do
    cs ← update_timestamp socket now pm.connections
    (cs', roomid) ← get_value socket roomid_key cs
    refuse socket
        (record {
          code = if is_empty roomid then 302 else 301;
          result = none;
          token = none;
          num = none;
        })
        (pos 0) (record pm { connections = cs' })
