-- ===== src/Wss/Collision.antt =====
-- atb_wss/PlayMngr.cc: the key of a room is made of two ids with nothing between them.
use vm.Prelude.{ℕ, ◌≡◌, ◌≢◌, ◌∙◌, sym, true, some, arith, find, nat_key, ◌++◌, find-insert_self}
use mathlib.Core.Path.{subst}
use vm.Prelude.Exec.{ok}
use vm.Prelude.Int.{ℤ}
use vm.Prelude.Text.{Text, text_key}
use vm.Wss.Room.{LiveRoom, join, has_user, has_user-join}
use vm.Wss.Rooms.{enter-rooms}
use vm.Wss.PlayMngr.{
  Formats, PlayctrlHandler, PlayMngr, room_key, join_playing, join_liveroom, device_playing,
}

join_keeps :
    (socket : ℕ) (room : LiveRoom)
    → let room' = (join socket room).0 in
      (room'.token ≡ room.token) × (room'.cmsid ≡ room.cmsid) × (room'.devid ≡ room.devid)
unfolding join
join_keeps socket room = ground arith

module _ {V W : Type 0} (formats : Formats V) (handler : PlayctrlHandler W) where
  join_playing-find :
      (now socket : ℕ) (key : Text) (room : LiveRoom) (pm : PlayMngr W) {r : PlayMngr W × ℤ}
      → find key pm.rooms ≡ some room
      → join_playing formats handler now socket key pm ≡ ok r
      → find key r.0.rooms ≡ some (join socket room).0
  unfolding join_playing
  join_playing-find now socket key room pm found e =
      rw (enter-rooms formats handler now socket key _ _ (rw (found, join_playing) at e))
        (find-insert_self key (join socket room).0 pm.rooms)

  -- Two cameras of different clients whose ids, joined, are the same text: "ab" with "c", and "a" with "bc".
  -- The first has a room, with its ids; the second plays, and a viewer asks for it and is answered. Then the
  -- viewer is in the room of the first camera, with the token of the first and the ids of the first: the id of
  -- its client is not the one that the viewer asked for.
  pub join_liveroom_shared :
      (now socket : ℕ) (cmsid devid cmsid' devid' : Text) (room : LiveRoom) (pm : PlayMngr W)
      {w : W} {r : PlayMngr W × ℤ}
      → cmsid' ++ devid' ≡ cmsid ++ devid
      → cmsid' ≢ cmsid
      → find (room_key cmsid devid) pm.rooms ≡ some room
      → room.cmsid ≡ cmsid
      → room.devid ≡ devid
      → handler.check_play_status cmsid' devid' pm.adapter ≡ ok (w, device_playing)
      → join_liveroom formats handler now socket cmsid' devid' pm ≡ ok r
      → (room' : LiveRoom) × (find (room_key cmsid devid) r.0.rooms ≡ some room')
        × (has_user socket room'.users ≡ true)
        × (room'.token ≡ room.token)
        × (room'.cmsid ≡ cmsid)
        × (room'.devid ≡ devid)
        × (room'.cmsid ≢ cmsid')
  unfolding join_liveroom
  join_liveroom_shared now socket cmsid devid cmsid' devid' room pm {w} {r} same apart found c d
        plays e =
      let joined = rw (plays, join_liveroom) at e in
      let found' : find (room_key cmsid' devid') pm.rooms ≡ some room = rw same found in
      let here =
        join_playing-find now socket (room_key cmsid' devid') room (record pm { adapter = w })
          found' joined in
      (
        (join socket room).0,
        subst (λ k. find k r.0.rooms ≡ some (join socket room).0) same here,
        rw (has_user-join socket socket room) (ground arith),
        (join_keeps socket room).0,
        (join_keeps socket room).1 ∙ c,
        (join_keeps socket room).2 ∙ d,
        λ q. apart (sym q ∙ ((join_keeps socket room).1 ∙ c)),
      )
