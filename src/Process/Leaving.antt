-- ===== src/Process/Leaving.antt =====
-- atb_wss/PlayMngr.cc over AdapterService.cpp: the last viewer of a camera leaves.
use vm.Prelude.{
  ℕ, ◌≡◌, ◌<◌, ◌*◌, refl, true, false, Option, none, [], ◌∷◌, arith, find, Map, All, modify,
  modify_none, beq_refl, nat_key,
}
use vm.Prelude.Exec.{ok}
use vm.Prelude.Int.{pos}
use vm.Prelude.Text.{Text, text_key, is_empty}
use vm.Adapter.Control.{check_status, server_notify_stop_push}
use vm.Adapter.Server.{TcpServer, Push}
use vm.Adapter.Stopped.{check_status-server_notify_stop_push}
use vm.Adapter.Unique.{IsValid}
use vm.Db.Query.{Mysql}
use vm.Process.Stuck.{sweep_rooms-first}
use vm.Service.Handler.{Ground, db_handler}
use vm.Wss.Room.{LiveRoom, quit, has_user, erase_user, size}
use vm.Wss.Members.{room_of, get_value-room_of}
use vm.Wss.Server.{elapsed}
use vm.Wss.PlayMngr.{
  Formats, PlayctrlHandler, PlayMngr, on_timeout, on_disconnect, on_disconnect_wrapper, device_idle,
  device_playing,
}
use vm.Wss.Requests.{is_dead, sweep_rooms}

-- A room that its only viewer quits is empty from then on.
quit_last :
    (now socket : ℕ) (room : LiveRoom)
    → room.users ≡ socket ∷ []
    → (quit now socket room).0 ≡ record room { users = []; timestamp = now }
unfolding quit has_user erase_user
quit_last now socket room alone = grind arith

-- What is left of the first room of a table when its only viewer times out.
on_timeout_last :
    (now socket : ℕ) (key : Text) (room : LiveRoom) (rest : Map Text LiveRoom)
    → is_empty key ≡ false
    → find key rest ≡ none
    → room.users ≡ socket ∷ []
    → on_timeout now socket key ((key, room) ∷ rest)
      ≡ (key, record room { users = []; timestamp = now }) ∷ rest
unfolding on_timeout modify
on_timeout_last now socket key room rest given other alone =
    rw (given, on_timeout)
      (rw (beq_refl key, modify_none key (λ r. (quit now socket r).0) rest other)
        (rw (quit_last now socket room alone) refl))

is_dead_left :
    (now later : ℕ) (room : LiveRoom)
    → 60 * 1000 < elapsed later now
    → is_dead later (record room { users = []; timestamp = now }) ≡ true
unfolding is_dead size
is_dead_left now later room long = ground arith

module _ {V W : Type 0} (formats : Formats V) (handler : PlayctrlHandler W) where
  on_disconnect_wrapper-on_timeout :
      (now socket : ℕ) (pm : PlayMngr W) {pm' : PlayMngr W}
      → on_disconnect_wrapper formats handler now socket pm ≡ ok pm'
      → (pm'.rooms ≡ on_timeout now socket (room_of socket pm.connections) pm.rooms)
        × (pm'.adapter ≡ pm.adapter)
  unfolding on_disconnect_wrapper on_disconnect
  on_disconnect_wrapper-on_timeout now socket pm e = grind (arith, get_value-room_of)

-- The last viewer of a camera closes its connection. More than a minute later the state thread looks at
-- the rooms, of which it drops this one, the first of the table, alone. If the stop of the camera is
-- sent and succeeds, the room is gone, the other rooms are as they were, and the camera is idle: it can
-- be started again.
pub sweep_rooms-on_disconnect_wrapper :
    {V W : Type 0} (formats : Formats V) (seconds : Text → Option ℕ) (db : Option (Mysql W))
    (now later socket : ℕ) (key : Text) (room : LiveRoom) (rest : Map Text LiveRoom)
    (pm pm' : PlayMngr (Ground W)) (r : Map Text LiveRoom × Ground W) (stopped : TcpServer × Push)
    → IsValid pm.adapter.server
    → room_of socket pm.connections ≡ key
    → is_empty key ≡ false
    → pm.rooms ≡ (key, room) ∷ rest
    → find key rest ≡ none
    → room.users ≡ socket ∷ []
    → check_status room.cmsid room.devid pm.adapter.server ≡ ok device_playing
    → on_disconnect_wrapper formats (db_handler seconds db) now socket pm ≡ ok pm'
    → 60 * 1000 < elapsed later now
    → All (λ e. is_dead later e.1 ≡ false) rest
    → (pm.adapter.turns 0).1.net ≡ true
    → server_notify_stop_push (pm.adapter.turns 0).1 room.cmsid room.devid pm.adapter.server
      ≡ ok stopped
    → stopped.1.ret ≡ pos 0
    → sweep_rooms formats (db_handler seconds db) later pm'.rooms pm'.adapter ≡ ok r
    → (r.0 ≡ rest) × (check_status room.cmsid room.devid r.1.server ≡ ok device_idle)
sweep_rooms-on_disconnect_wrapper formats seconds db now later socket key room rest pm pm' r stopped
      v here given table other alone plays left long alive sent told good swept =
    let handler = db_handler seconds db in
    let (rooms, adapter) = on_disconnect_wrapper-on_timeout formats handler now socket pm left in
    let emptied : LiveRoom = record room { users = []; timestamp = now } in
    let table' : pm'.rooms ≡ (key, emptied) ∷ rest =
      rw (rooms, here, table) (on_timeout_last now socket key room rest given other alone) in
    let swept' =
      rw
        (
          table',
          adapter,
          sweep_rooms-first formats handler later key emptied rest pm.adapter
              (is_dead_left now later room long) alive,
          told,
        )
        at swept in
    let kept : r.0 ≡ rest = grind arith in
    let server : stopped.0 ≡ r.1.server = grind arith in
    let idle =
      (check_status-server_notify_stop_push (pm.adapter.turns 0).1 room.cmsid room.devid
          pm.adapter.server v plays sent told).0
        good in
    (kept, rw server at idle)
