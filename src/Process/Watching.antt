-- ===== src/Process/Watching.antt =====
-- atb_wss/PlayMngr.cc over AdapterService.cpp: a viewer asks for a camera that nobody watches yet.
use vm.Prelude.{
  ℕ, ◌≡◌, ◌≢◌, ◌∙◌, sym, refl, Option, none, arith, find, nat_beq, Bool-cases, inl, inr,
  if◌then◌else◌, nat_key, ◌==◌,
}
use vm.Prelude.Exec.{ok, >>=-eq-ok}
use vm.Prelude.Int.{pos, int_beq}
use vm.Prelude.Text.{Text, codes, text_key}
use vm.Adapter.Control.{check_status, server_check_push}
use vm.Adapter.Unique.{IsValid}
use vm.Db.Query.{Mysql}
use vm.Process.Starting.{start_push-playing}
use vm.Service.Handler.{Ground, both, db_handler}
use vm.Service.Http.{start_push}
use vm.Wss.Keeping.{enter-adapter}
use vm.Wss.Members.{is_member, room_of}
use vm.Wss.PlayMngr.{
  Formats, Play, PlayctrlHandler, PlayMngr, room_key, answer, join_idle, join_liveroom, device_idle,
  device_playing,
}
use vm.Wss.Viewers.{is_member-join_idle, enter-room_of}

module _ {V W : Type 0} (formats : Formats V) (handler : PlayctrlHandler W) where
  -- A request for an idle camera is answered by a start.
  join_liveroom-join_idle :
      (now socket : ℕ) (cmsid devid : Text) (pm : PlayMngr W)
      → handler.check_play_status cmsid devid pm.adapter ≡ ok (pm.adapter, device_idle)
      → join_liveroom formats handler now socket cmsid devid pm
        ≡ join_idle formats handler now socket cmsid devid pm
  unfolding join_liveroom
  join_liveroom-join_idle now socket cmsid devid pm idle = rw (idle, join_liveroom) refl

  -- A join that returns 0 has started its camera, and entered the viewer.
  join_idle-started :
      (now socket : ℕ) (cmsid devid : Text) (pm : PlayMngr W) {pm' : PlayMngr W}
      → join_idle formats handler now socket cmsid devid pm ≡ ok (pm', pos 0)
      → (w : W) × (play : Play) × (handler.start_play cmsid devid pm.adapter ≡ ok (w, play))
        × (play.ret ≡ pos 0)
        × (pm'.adapter ≡ w)
        × ((j : ℕ)
            → find socket pm.connections ≢ none
            → room_of j pm'.connections
              ≡ (if nat_beq socket j then room_key cmsid devid else room_of j pm.connections))
  unfolding join_idle
  join_idle-started now socket cmsid devid pm {pm'} e =
      let ((w, play), started, e1) = >>=-eq-ok (handler.start_play cmsid devid pm.adapter) _ e in
      elim (Bool-cases (int_beq play.ret (pos 0))) [
        | inl good ↦
            let entered = rw good at e1 in
            (
              w,
              play,
              started,
              grind (arith, good),
              enter-adapter formats handler now socket (room_key cmsid devid) _ _ entered,
              λ j known.
                  enter-room_of formats handler now socket j (room_key cmsid devid) _ _ known
                    entered,
            )
        | inr bad ↦ absurd (
            let refused = rw bad at e1 in
            let (pm1, _, last) = >>=-eq-ok (answer formats handler socket _ _) _ refused in cc)
      ]

module _ {V W : Type 0} (formats : Formats V) (seconds : Text → Option ℕ) (db : Option (Mysql W))
    (now socket : ℕ) (cmsid devid : Text) (pm : PlayMngr (Ground W)) {pm' : PlayMngr (Ground W)}
    (clients : IsValid pm.adapter.server)
    (idle : check_status cmsid devid pm.adapter.server ≡ ok device_idle)
    (joined : join_liveroom formats (db_handler seconds db) now socket cmsid devid pm
      ≡ ok (pm', pos 0)) where
  joined_idle :
      join_idle formats (db_handler seconds db) now socket cmsid devid pm ≡ ok (pm', pos 0)
  joined_idle =
      sym (
        join_liveroom-join_idle formats (db_handler seconds db) now socket cmsid devid pm
          (rw idle refl))
      ∙ joined

  join_liveroom-started :
      (w : Ground W) × (play : Play) × ((db_handler seconds db).start_play cmsid devid pm.adapter
        ≡ ok (w, play))
      × (play.ret ≡ pos 0)
      × (pm'.adapter ≡ w)
      × ((j : ℕ)
          → find socket pm.connections ≢ none
          → room_of j pm'.connections
            ≡ (if nat_beq socket j then room_key cmsid devid else room_of j pm.connections))
  join_liveroom-started =
      join_idle-started formats (db_handler seconds db) now socket cmsid devid pm joined_idle

  -- A viewer of the table asks for a camera that a connected client has and that does not play, and is
  -- let in. Then the camera plays; the stream server lets the push with the key of this start through;
  -- the viewer is alone in the room of the camera, and all other rooms have the viewers that they had;
  -- and the table has the viewer in that room, and every other viewer where it was.
  pub join_liveroom-watching :
      (j : ℕ) (k : Text)
      → find socket pm.connections ≢ none
      → (check_status cmsid devid pm'.adapter.server ≡ ok device_playing)
        × (server_check_push cmsid devid (pm.adapter.turns 0).1.push_key pm'.adapter.server
            ≡ codes "0")
        × (is_member j k pm'.rooms
            ≡ (if room_key cmsid devid == k then nat_beq socket j else is_member j k pm.rooms))
        × (room_of j pm'.connections
            ≡ (if nat_beq socket j then room_key cmsid devid else room_of j pm.connections))
  join_liveroom-watching j k known =
      let (w, play, started, good, same, entered) = join_liveroom-started in
      let ((b, p), pushed, e1) =
        >>=-eq-ok
          (start_push seconds db (pm.adapter.turns 0).0 (pm.adapter.turns 0).1 cmsid devid
            (both pm.adapter))
          _ started in
      let moved : b.1 ≡ w.server = grind arith in
      let fine : p.ret ≡ pos 0 = grind arith in
      let (plays, through) =
        start_push-playing seconds db (pm.adapter.turns 0).0 (pm.adapter.turns 0).1 cmsid devid
          (both pm.adapter) clients idle pushed fine in
      (
        rw (same, ← moved) plays,
        rw (same, ← moved) through,
        is_member-join_idle formats (db_handler seconds db) now socket j cmsid devid k pm started
            (rw good refl) joined_idle,
        entered j known,
      )
