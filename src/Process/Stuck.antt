-- ===== src/Process/Stuck.antt =====
-- atb_wss/PlayMngr.cc over AdapterService.cpp: a camera whose stop fails, after its room is dropped.
use vm.Prelude.{
  ℕ, ◌≡◌, ◌≢◌, ◌∙◌, refl, true, false, Option, none, List, [], ◌∷◌, arith, find, Map, All, nat_key,
}
use vm.Prelude.Exec.{
  Exec, ok, crash, no_fuel, ◌>>=◌, >>=-eq-ok, Yields, ok-Yields, bind-Yields, if-Yields,
}
use vm.Prelude.Int.{ℤ, pos, int_beq}
use vm.Prelude.Text.{Text, text_key}
use vm.Adapter.Control.{check_status, server_notify_stop_push}
use vm.Adapter.Server.{TcpServer, Push}
use vm.Adapter.Stopped.{check_status-server_notify_stop_push}
use vm.Adapter.Unique.{IsValid}
use vm.Db.Query.{Mysql}
use vm.Service.Handler.{Ground, db_handler}
use vm.Wss.Room.{LiveRoom}
use vm.Wss.Keeping.{refuse-adapter}
use vm.Wss.Rooms.{answer-rooms}
use vm.Wss.PlayMngr.{
  Reply, Formats, PlayctrlHandler, PlayMngr, room_key, answer, refuse, join_playing, join_liveroom,
  quit_playing, quit_liveroom, heartbeat, device_playing,
}
use vm.Wss.Server.{update_timestamp, get_value, roomid_key}
use vm.Wss.Requests.{Command, is_dead, dispatch, sweep_rooms}

module _ {V W : Type 0} (formats : Formats V) (handler : PlayctrlHandler W) where
  -- The rooms and the adapter are as before.
  abbrev Same : PlayMngr W → PlayMngr W → Type 0
  Same pm pm' = (pm'.rooms ≡ pm.rooms) × (pm'.adapter ≡ pm.adapter)

  refuse-Same :
      (socket : ℕ) (reply : Reply) (ret : ℤ) (pm : PlayMngr W)
      → Yields (λ r. Same pm r.0) (refuse formats handler socket reply ret pm)
  refuse-Same socket reply ret pm r e =
      let (pm', sent, last) = >>=-eq-ok (answer formats handler socket reply pm) _ e in
      let same : pm'.rooms ≡ r.0.rooms = grind arith in
      (
        rw (← same) (answer-rooms formats handler socket reply pm sent),
        refuse-adapter formats handler socket reply ret pm e,
      )

  module _ (now socket : ℕ) (cmsid devid : Text) (pm : PlayMngr W)
      (plays : handler.check_play_status cmsid devid pm.adapter ≡ ok (pm.adapter, device_playing))
      (roomless : find (room_key cmsid devid) pm.rooms ≡ none) where
    join_liveroom-Same :
        Yields (λ r. Same pm r.0) (join_liveroom formats handler now socket cmsid devid pm)
    unfolding join_liveroom join_playing
    join_liveroom-Same =
        rw (plays, join_liveroom) (rw (roomless, join_playing) (refuse-Same socket _ _ pm))

    quit_liveroom-Same :
        Yields (λ r. Same pm r.0) (quit_liveroom formats handler now socket cmsid devid pm)
    unfolding quit_liveroom quit_playing
    quit_liveroom-Same =
        rw (plays, quit_liveroom) (rw (roomless, quit_playing) (refuse-Same socket _ _ pm))

  heartbeat-Same :
      (now socket : ℕ) (pm : PlayMngr W)
      → Yields (λ r. Same pm r.0) (heartbeat formats handler now socket pm)
  unfolding heartbeat
  heartbeat-Same now socket pm =
      bind-Yields _ (update_timestamp socket now pm.connections) _ λ cs stamped.
        bind-Yields _ (get_value socket roomid_key cs) _
          λ (cs', roomid) read. refuse-Same socket _ _ (record pm { connections = cs' })

  -- A request for a camera that plays and has no room.
  dispatch-Same :
      (now socket : ℕ) (c : Command) (pm : PlayMngr W)
      → handler.check_play_status c.cmsid c.devid pm.adapter ≡ ok (pm.adapter, device_playing)
      → find (room_key c.cmsid c.devid) pm.rooms ≡ none
      → Yields (λ r. Same pm r.0) (dispatch formats handler now socket c pm)
  unfolding dispatch
  dispatch-Same now socket c pm plays roomless =
      if-Yields _ (int_beq c.cmd (pos 100)) _ _
        (λ _. join_liveroom-Same now socket c.cmsid c.devid pm plays roomless)
        λ _.
          if-Yields _ (int_beq c.cmd (pos 200)) _ _
            (λ _. quit_liveroom-Same now socket c.cmsid c.devid pm plays roomless)
            λ _.
              if-Yields _ (int_beq c.cmd (pos 300)) _ _ (λ _. heartbeat-Same now socket pm)
                (λ _. ok-Yields _ _ (refl, refl))

  -- Requests for one camera, one after another: the time, the viewer and the kind.
  unfoldable pub ask_all : Text → Text → List (ℕ × ℕ × ℤ) → PlayMngr W → Exec (PlayMngr W)
  ask_all cmsid devid [] pm = ok pm
  ask_all cmsid devid ((now, socket, cmd) ∷ rest) pm = do
    (pm', ret) ←
        dispatch formats handler now socket (record { cmd = cmd; cmsid = cmsid; devid = devid }) pm
    ask_all cmsid devid rest pm'

  -- Then none of them changes the rooms or the adapter.
  ask_all-Same :
      (cmsid devid : Text) (asks : List (ℕ × ℕ × ℤ)) (pm : PlayMngr W) {pm' : PlayMngr W}
      → handler.check_play_status cmsid devid pm.adapter ≡ ok (pm.adapter, device_playing)
      → find (room_key cmsid devid) pm.rooms ≡ none
      → ask_all cmsid devid asks pm ≡ ok pm'
      → Same pm pm'
  unfolding ask_all
  ask_all-Same cmsid devid [] pm plays roomless e = ok-Yields (Same pm) pm (refl, refl) _ e
  ask_all-Same cmsid devid ((now, socket, cmd) ∷ rest) pm {pm'} plays roomless e =
      let c : Command = record { cmd = cmd; cmsid = cmsid; devid = devid } in
      let (r, first, others) = >>=-eq-ok (dispatch formats handler now socket c pm) _ e in
      let (rooms, adapter) = dispatch-Same now socket c pm plays roomless r first in
      let later =
        ask_all-Same cmsid devid rest r.0 {pm' = pm'} (rw adapter plays) (rw rooms roomless)
          others in
      (later.0 ∙ rooms, later.1 ∙ adapter)

  -- The sweep of a table whose first room alone is dead.
  pub sweep_rooms-first :
      (now : ℕ) (k : Text) (room : LiveRoom) (rest : Map Text LiveRoom) (w : W)
      → is_dead now room ≡ true
      → All (λ e. is_dead now e.1 ≡ false) rest
      → sweep_rooms formats handler now ((k, room) ∷ rest) w
        ≡ (handler.stop_play room.cmsid room.devid w >>= λ w'. ok (rest, w'))
  unfolding sweep_rooms
  sweep_rooms-first now k room rest w dead alive =
      rw (dead, sweep_rooms) (stopped (handler.stop_play room.cmsid room.devid w))
    where
      living :
          (rooms : Map Text LiveRoom) (w' : W)
          → All (λ e. is_dead now e.1 ≡ false) rooms
          → sweep_rooms formats handler now rooms w' ≡ ok (rooms, w')
      living [] w' alive = refl
      living ((k', q) ∷ rooms) w' alive =
          rw (alive.0, sweep_rooms) (rw (living rooms w' alive.1) refl)

      stopped :
          (m : Exec W) → (m >>= sweep_rooms formats handler now rest) ≡ (m >>= λ w'. ok (rest, w'))
      stopped (ok w') = living rest w' alive
      stopped crash = refl
      stopped no_fuel = refl

-- The state thread drops the one room that is dead, the first of the table, and stops its camera: the
-- message is sent, but the stop does not succeed. Then the camera plays on without a room, and no
-- request for it changes that, whatever the viewers ask and however often: nobody can watch it.
pub ask_all_roomless :
    {V W : Type 0} (formats : Formats V) (seconds : Text → Option ℕ) (db : Option (Mysql W))
    (now : ℕ) (room : LiveRoom) (rest : Map Text LiveRoom) (asks : List (ℕ × ℕ × ℤ))
    (pm pm' : PlayMngr (Ground W)) (r : Map Text LiveRoom × Ground W) (stopped : TcpServer × Push)
    → IsValid pm.adapter.server
    → pm.rooms ≡ (room_key room.cmsid room.devid, room) ∷ rest
    → is_dead now room ≡ true
    → All (λ e. is_dead now e.1 ≡ false) rest
    → find (room_key room.cmsid room.devid) rest ≡ none
    → check_status room.cmsid room.devid pm.adapter.server ≡ ok device_playing
    → (pm.adapter.turns 0).1.net ≡ true
    → server_notify_stop_push (pm.adapter.turns 0).1 room.cmsid room.devid pm.adapter.server
      ≡ ok stopped
    → stopped.1.ret ≢ pos 0
    → sweep_rooms formats (db_handler seconds db) now pm.rooms pm.adapter ≡ ok r
    → ask_all formats
        (db_handler seconds db)
        room.cmsid
        room.devid
        asks
        (record pm { rooms = r.0; adapter = r.1 })
      ≡ ok pm'
    → (check_status room.cmsid room.devid pm'.adapter.server ≡ ok device_playing)
      × (pm'.rooms ≡ rest)
      × (find (room_key room.cmsid room.devid) pm'.rooms ≡ none)
ask_all_roomless formats seconds db now room rest asks pm pm' r stopped v table dead alive roomless
      plays sent told failed swept asked =
    let handler = db_handler seconds db in
    let swept' =
      rw
        (
          table,
          sweep_rooms-first formats handler now (room_key room.cmsid room.devid) room rest
              pm.adapter dead alive,
          told,
        )
        at swept in
    let rooms : rest ≡ r.0 = grind arith in
    let server : stopped.0 ≡ r.1.server = grind arith in
    let on =
      (check_status-server_notify_stop_push (pm.adapter.turns 0).1 room.cmsid room.devid
          pm.adapter.server v plays sent told).1
        failed in
    let on' : check_status room.cmsid room.devid r.1.server ≡ ok device_playing =
      rw (← server) on in
    let gone : find (room_key room.cmsid room.devid) r.0 ≡ none = rw (← rooms) roomless in
    let (kept, same) =
      ask_all-Same formats handler room.cmsid room.devid asks
        (record pm { rooms = r.0; adapter = r.1 }) (rw on' refl) gone asked in
    (rw same on', rw (kept, ← rooms) refl, rw kept gone)
