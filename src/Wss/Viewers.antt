-- ===== src/Wss/Viewers.antt =====
-- atb_wss/PlayMngr.cc: what a viewer gets from a request, in the rooms and in the table.
use vm.Prelude.{
  ℕ, ◌≡◌, ◌≢◌, refl, ◌⊎◌, inl, inr, true, false, not, ◌&&◌, ◌||◌, none, some, arith, nat_key, ◌==◌,
  if◌then◌else◌, find, Map, find-erase_self, find-erase, beq_refl, nat_beq, Bool-cases,
}
use vm.Prelude.Exec.{ok, >>=-eq-ok}
use vm.Prelude.Int.{ℤ, int_beq, pos, minus_one}
use vm.Prelude.Text.{Text, text_key, is_empty, text_beq_iff}
use vm.Wss.Room.{LiveRoom, new_room, join, has_user, has_user-join}
use vm.Wss.Server.{Connections, set_value, update_timestamp, send, remove_connection, roomid_key}
use vm.Wss.PlayMngr.{
  Reply, Formats, Play, PlayctrlHandler, PlayMngr, room_key, answer, enter, on_disconnect,
  on_disconnect_wrapper, join_idle, join_playing, join_liveroom, adapter_offline, device_offline,
}
use vm.Wss.Rooms.{IsValid, join_playing-IsValid, answer-rooms, enter-rooms}
use vm.Wss.Lifecycle.{is_member-sweep_rooms}
use vm.Wss.Requests.{sweep_rooms}
use vm.Wss.Members.{
  is_member, room_of, is_member-insert, is_member-erase, is_member-found, is_member-on_timeout,
  room_of-send, room_of-set_value, room_of-update_timestamp, known-send, known-set_value,
  known-update_timestamp, get_value-room_of,
}

has_user-new_room :
    (socket j : ℕ) (cmsid devid token : Text)
    → has_user j (join socket (new_room cmsid devid token)).0.users ≡ nat_beq socket j
unfolding new_room has_user
has_user-new_room socket j cmsid devid token =
    rw (has_user-join socket j (new_room cmsid devid token)) (ground arith)

-- The three writes of an entry: the reply, the room and the time.
room_of_entered :
    (now socket j : ℕ) (key message : Text) (cs : Connections) {cs₁ cs₂ cs₃ : Connections}
    → send socket message cs ≡ ok cs₁
    → set_value socket roomid_key key cs₁ ≡ ok cs₂
    → update_timestamp socket now cs₂ ≡ ok cs₃
    → find socket cs ≢ none
    → room_of j cs₃ ≡ (if nat_beq socket j then key else room_of j cs)
room_of_entered now socket j key message cs {cs₁} {cs₂} sent valued stamped known = rw (
  room_of-update_timestamp socket now j cs₂ stamped,
  room_of-set_value socket j key cs₁ valued (known-send socket socket message cs sent known),
  room_of-send socket j message cs sent,
)

module _ {V W : Type 0} (formats : Formats V) (handler : PlayctrlHandler W) where
  -- Joining the room of a camera that plays adds the viewer to that room, and changes no other
  -- viewer's membership and no other room's.
  pub is_member-join_playing :
      (now socket j : ℕ) (key k : Text) (pm : PlayMngr W) {r : PlayMngr W × ℤ} {room : LiveRoom}
      → find key pm.rooms ≡ some room
      → join_playing formats handler now socket key pm ≡ ok r
      → is_member j k r.0.rooms ≡ (is_member j k pm.rooms || ((key == k) && nat_beq socket j))
  unfolding join_playing
  is_member-join_playing now socket j key k pm {r} {room} found e =
      let entered = (rw (found, join_playing) at e) in
      rw
        (
          enter-rooms formats handler now socket key _ _ entered,
          is_member-insert j key k (join socket room).0 pm.rooms,
        )
        (joined (Bool-cases (key == k)))
    where
      joined :
          ((key == k) ≡ true) ⊎ ((key == k) ≡ false)
          → (if key == k then has_user j (join socket room).0.users else is_member j k pm.rooms)
            ≡ (is_member j k pm.rooms || ((key == k) && nat_beq socket j))
      joined (inl q) =
          rw (q, is_member-found j key k pm.rooms found q, has_user-join socket j room)
            (ground arith)
      joined (inr q) = rw q (ground arith)

  -- A camera that is started gets a new room with the viewer alone, whoever was in a stale room of
  -- that key before; the other rooms keep their viewers.
  pub is_member-join_idle :
      (now socket j : ℕ) (cmsid devid k : Text) (pm : PlayMngr W) {r : PlayMngr W × ℤ} {w : W}
      {play : Play}
      → handler.start_play cmsid devid pm.adapter ≡ ok (w, play)
      → int_beq play.ret (pos 0) ≡ true
      → join_idle formats handler now socket cmsid devid pm ≡ ok r
      → is_member j k r.0.rooms
        ≡ (if room_key cmsid devid == k then nat_beq socket j else is_member j k pm.rooms)
  unfolding join_idle
  is_member-join_idle now socket j cmsid devid k pm {r} {w} {play} started good e =
      let entered = (rw (started, good, join_idle) at e) in
      rw (enter-rooms formats handler now socket _ _ _ entered, is_member-insert)
        (elim (Bool-cases (room_key cmsid devid == k)) [
          | inl q ↦ rw q (has_user-new_room socket j cmsid devid play.token)
          | inr q ↦ rw (q, is_member-erase j (room_key cmsid devid) k pm.rooms, q)
        ])

  -- After either kind of entry the table has the viewer in that room, and every other viewer where
  -- it was.
  pub enter-room_of :
      (now socket j : ℕ) (key : Text) (reply : Reply) (pm : PlayMngr W) {r : PlayMngr W × ℤ}
      → find socket pm.connections ≢ none
      → enter formats handler now socket key reply pm ≡ ok r
      → room_of j r.0.connections ≡ (if nat_beq socket j then key else room_of j pm.connections)
  unfolding enter answer
  enter-room_of now socket j key reply pm known e = grind (arith, room_of_entered)

  known-enter :
      (now socket j : ℕ) (key : Text) (reply : Reply) (pm : PlayMngr W) {r : PlayMngr W × ℤ}
      → find j pm.connections ≢ none
      → enter formats handler now socket key reply pm ≡ ok r
      → find j r.0.connections ≢ none
  unfolding enter answer
  known-enter now socket j key reply pm {r} known e =
      let (pm', answered, e') = >>=-eq-ok (answer formats handler socket reply pm) _ e in
      let (cs₁, sent, done) =
        >>=-eq-ok (send socket (formats.to_styled_string reply) pm.connections) _ answered in
      let here : cs₁ ≡ pm'.connections = ground arith in
      let (cs₂, valued, e'') = >>=-eq-ok (set_value socket roomid_key key pm'.connections) _ e' in
      let (cs₃, stamped, last) = >>=-eq-ok (update_timestamp socket now cs₂) _ e'' in
      let there : cs₃ ≡ r.0.connections = ground arith in
      rw (← there) (
        known-update_timestamp socket now j cs₂ stamped (
          known-set_value socket j roomid_key key pm'.connections valued
            (rw (← here) (known-send socket j _ pm.connections sent known))))

  -- A viewer that closes its connection leaves the table, and the room that the table had for it;
  -- nobody else leaves a room, and no other room loses it.
  pub is_member-on_disconnect_wrapper :
      (now socket j : ℕ) (k : Text) (pm : PlayMngr W) {pm' : PlayMngr W}
      → IsValid pm
      → on_disconnect_wrapper formats handler now socket pm ≡ ok pm'
      → let roomid = room_of socket pm.connections in
        (find socket pm'.connections ≡ none)
        × (is_member j k pm'.rooms ≡ (
            if not (is_empty roomid) && (roomid == k)
            then not (nat_beq socket j) && is_member j k pm.rooms
            else is_member j k pm.rooms))
  unfolding on_disconnect_wrapper on_disconnect remove_connection
  is_member-on_disconnect_wrapper now socket j k pm v e =
      grind (arith, get_value-room_of, is_member-on_timeout, find-erase_self)

  -- A viewer that asks for a camera whose adapter or device is offline is refused with -1, and the
  -- room of that camera is gone; the other rooms are what they were.
  pub join_liveroom_offline :
      (now socket : ℕ) (cmsid devid k : Text) (pm : PlayMngr W) {w : W} {ret : ℤ}
      {r : PlayMngr W × ℤ}
      → handler.check_play_status cmsid devid pm.adapter ≡ ok (w, ret)
      → (ret ≡ adapter_offline) ⊎ (ret ≡ device_offline)
      → join_liveroom formats handler now socket cmsid devid pm ≡ ok r
      → (r.1 ≡ minus_one)
        × (find k r.0.rooms ≡ (if room_key cmsid devid == k then none else find k pm.rooms))
  unfolding join_liveroom
  join_liveroom_offline now socket cmsid devid k pm {w} {ret} {r} asked offline e =
      let refused = (rw (asked, is_offline offline, join_liveroom) at e) in
      let (pm', sent, done) = >>=-eq-ok (answer formats handler socket _ _) _ refused in
      let same = answer-rooms formats handler socket _ _ sent in
      let code : r.1 ≡ minus_one = ground arith in
      let kept : r.0.rooms ≡ pm'.rooms = ground arith in
      (code, rw (kept, same, find-erase (room_key cmsid devid) k pm.rooms))
    where
      is_offline :
          (ret ≡ adapter_offline) ⊎ (ret ≡ device_offline)
          → (int_beq ret adapter_offline || int_beq ret device_offline) ≡ true
      is_offline (inl q) = rw q refl
      is_offline (inr q) = rw q refl

  -- A viewer that is in the table of connections joins a room that exists, and then a second one, which
  -- exists too and is not the first. When it then closes its connection, it is still a viewer of the
  -- first room right after the close, and the next sweep of the state thread, whenever it comes, does not
  -- drop that room but leaves the viewer in it.
  pub is_member_stale :
      (now later closing swept socket : ℕ) (first second : Text) (pm : PlayMngr W)
      {r : Map Text LiveRoom × W} {r₁ r₂ : PlayMngr W × ℤ} {pm' : PlayMngr W}
      {room₁ room₂ : LiveRoom}
      → IsValid pm
      → find socket pm.connections ≢ none
      → find first pm.rooms ≡ some room₁
      → join_playing formats handler now socket first pm ≡ ok r₁
      → find second r₁.0.rooms ≡ some room₂
      → join_playing formats handler later socket second r₁.0 ≡ ok r₂
      → on_disconnect_wrapper formats handler closing socket r₂.0 ≡ ok pm'
      → first ≢ second
      → sweep_rooms formats handler swept pm'.rooms pm'.adapter ≡ ok r
      → (is_member socket first pm'.rooms ≡ true) × (is_member socket first r.0 ≡ true)
  unfolding join_playing
  is_member_stale now later closing swept socket first second pm {r} {r₁} {r₂} {pm'} {room₁} {room₂}
        v known f₁ e₁ f₂ e₂ e₃ ne e₄ =
      (
        still,
        is_member-sweep_rooms formats handler swept socket first pm'.rooms pm'.adapter e₄ still,
      )
    where
      other : (second == first) ≡ false
      other = ground (arith, text_beq_iff second first)

      nat_refl : nat_beq socket socket ≡ true
      nat_refl = ground arith

      entered :
          (now : ℕ) (key : Text) (pm : PlayMngr W) {r : PlayMngr W × ℤ} {room : LiveRoom}
          → find socket pm.connections ≢ none
          → find key pm.rooms ≡ some room
          → join_playing formats handler now socket key pm ≡ ok r
          → (find socket r.0.connections ≢ none) × (room_of socket r.0.connections ≡ key)
      entered now key pm known f e =
          let e' = (rw (f, join_playing) at e) in
          (
            known-enter now socket socket key _ _ known e',
            rw (enter-room_of now socket socket key _ _ known e', nat_refl),
          )

      in_second : room_of socket r₂.0.connections ≡ second
      in_second = (entered later second r₁.0 (entered now first pm known f₁ e₁).0 f₂ e₂).1

      still : is_member socket first pm'.rooms ≡ true
      still =
          rw
            (
              (is_member-on_disconnect_wrapper closing socket socket first r₂.0
                  (join_playing-IsValid formats handler later socket second r₁.0 e₂
                    (join_playing-IsValid formats handler now socket first pm e₁ v))
                  e₃).1,
              in_second,
              other,
              is_member-join_playing later socket socket second first r₁.0 f₂ e₂,
              other,
              is_member-join_playing now socket socket first first pm f₁ e₁,
              beq_refl first,
              nat_refl,
            )
            (ground arith)
