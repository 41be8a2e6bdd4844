-- ===== src/Wss/Rooms.antt =====
-- atb_wss/PlayMngr.cc: the rooms stay well formed under every operation.
use vm.Prelude.{
  ℕ, ◌≡◌, inl, inr, some, arith, nat_key, find, insert, erase, Map, Values, find-Values,
  insert-Values, erase-Values, modify-Values, Bool-cases,
}
use vm.Prelude.Exec.{ok}
use vm.Prelude.Int.{ℤ}
use vm.Prelude.Text.{Text, text_key, is_empty}
use vm.Wss.Room.{LiveRoom, Distinct, new_room, quit, join-Distinct, quit-Distinct}
use vm.Wss.PlayMngr.{
  Reply, Formats, PlayctrlHandler, PlayMngr, on_timeout, answer, on_connect, on_connect_wrapper,
  on_disconnect, on_disconnect_wrapper, enter, join_idle, join_playing, join_liveroom, quit_playing,
  quit_liveroom, heartbeat,
}

-- No socket stands twice in a room.
abbrev pub RoomsValid : Map Text LiveRoom → Type 0
RoomsValid = Values (λ r. Distinct r.users)

abbrev pub IsValid : {W : Type 0} → PlayMngr W → Type 0
IsValid pm = RoomsValid pm.rooms

pub on_timeout-RoomsValid :
    (now socket : ℕ) (roomid : Text) (rooms : Map Text LiveRoom)
    → RoomsValid rooms
    → RoomsValid (on_timeout now socket roomid rooms)
unfolding on_timeout
on_timeout-RoomsValid now socket roomid rooms v = elim (Bool-cases (is_empty roomid)) [
  | inl e ↦ rw (e, on_timeout) v
  | inr e ↦
      rw (e, on_timeout)
        (modify-Values (λ r. Distinct r.users) roomid (λ r. (quit now socket r).0) rooms
          (λ r. quit-Distinct now socket r) v)
]

new_room-Distinct : (cmsid devid token : Text) → Distinct (new_room cmsid devid token).users
unfolding new_room
new_room-Distinct cmsid devid token = tt

pub put_room :
    (key : Text) (r : LiveRoom) (rooms : Map Text LiveRoom)
    → Distinct r.users
    → RoomsValid rooms
    → RoomsValid (insert key r rooms)
put_room key r rooms d v = insert-Values (λ r. Distinct r.users) key r rooms d v

pub drop_room :
    (key : Text) (rooms : Map Text LiveRoom) → RoomsValid rooms → RoomsValid (erase key rooms)
drop_room key rooms v = erase-Values (λ r. Distinct r.users) key rooms v

pub room-Distinct :
    (key : Text) (rooms : Map Text LiveRoom) {r : LiveRoom}
    → RoomsValid rooms
    → find key rooms ≡ some r
    → Distinct r.users
room-Distinct key rooms v e = find-Values (λ r. Distinct r.users) key rooms v e

module _ {V W : Type 0} (formats : Formats V) (handler : PlayctrlHandler W) where
  pub answer-rooms :
      (socket : ℕ) (reply : Reply) (pm : PlayMngr W) {pm' : PlayMngr W}
      → answer formats handler socket reply pm ≡ ok pm'
      → pm'.rooms ≡ pm.rooms
  unfolding answer
  answer-rooms socket reply pm e = ground arith

  pub enter-rooms :
      (now socket : ℕ) (key : Text) (reply : Reply) (pm : PlayMngr W) {r : PlayMngr W × ℤ}
      → enter formats handler now socket key reply pm ≡ ok r
      → r.0.rooms ≡ pm.rooms
  unfolding enter
  enter-rooms now socket key reply pm e = ground (arith, answer-rooms socket reply pm)

  join_idle-IsValid :
      (now socket : ℕ) (cmsid devid : Text) (pm : PlayMngr W) {r : PlayMngr W × ℤ}
      → join_idle formats handler now socket cmsid devid pm ≡ ok r
      → IsValid pm
      → IsValid r.0
  unfolding join_idle
  join_idle-IsValid now socket cmsid devid pm e v =
      grind
        (arith, answer-rooms, enter-rooms, put_room, drop_room, join-Distinct, new_room-Distinct)

  pub join_playing-IsValid :
      (now socket : ℕ) (key : Text) (pm : PlayMngr W) {r : PlayMngr W × ℤ}
      → join_playing formats handler now socket key pm ≡ ok r
      → IsValid pm
      → IsValid r.0
  unfolding join_playing
  join_playing-IsValid now socket key pm e v =
      grind (arith, answer-rooms, enter-rooms, put_room, join-Distinct, room-Distinct)

  quit_playing-IsValid :
      (now socket : ℕ) (key : Text) (pm : PlayMngr W) {pm' : PlayMngr W}
      → quit_playing formats handler now socket key pm ≡ ok pm'
      → IsValid pm
      → IsValid pm'
  unfolding quit_playing
  quit_playing-IsValid now socket key pm e v = grind (arith, put_room, quit-Distinct, room-Distinct)

  pub join_liveroom-IsValid :
      (now socket : ℕ) (cmsid devid : Text) (pm : PlayMngr W) {r : PlayMngr W × ℤ}
      → join_liveroom formats handler now socket cmsid devid pm ≡ ok r
      → IsValid pm
      → IsValid r.0
  unfolding join_liveroom
  join_liveroom-IsValid now socket cmsid devid pm e v =
      grind (arith, answer-rooms, drop_room, join_idle-IsValid, join_playing-IsValid)

  pub quit_liveroom-IsValid :
      (now socket : ℕ) (cmsid devid : Text) (pm : PlayMngr W) {r : PlayMngr W × ℤ}
      → quit_liveroom formats handler now socket cmsid devid pm ≡ ok r
      → IsValid pm
      → IsValid r.0
  unfolding quit_liveroom
  quit_liveroom-IsValid now socket cmsid devid pm e v =
      grind (arith, answer-rooms, drop_room, quit_playing-IsValid)

  pub heartbeat-IsValid :
      (now socket : ℕ) (pm : PlayMngr W) {r : PlayMngr W × ℤ}
      → heartbeat formats handler now socket pm ≡ ok r
      → IsValid pm
      → IsValid r.0
  unfolding heartbeat
  heartbeat-IsValid now socket pm e v = grind (arith, answer-rooms)

  pub on_connect_wrapper-IsValid :
      (time raw now socket : ℕ) (pm : PlayMngr W) {pm' : PlayMngr W}
      → on_connect_wrapper formats handler time raw now socket pm ≡ ok pm'
      → IsValid pm
      → IsValid pm'
  unfolding on_connect_wrapper on_connect
  on_connect_wrapper-IsValid time raw now socket pm e v = ground arith

  pub on_disconnect_wrapper-IsValid :
      (now socket : ℕ) (pm : PlayMngr W) {pm' : PlayMngr W}
      → on_disconnect_wrapper formats handler now socket pm ≡ ok pm'
      → IsValid pm
      → IsValid pm'
  unfolding on_disconnect_wrapper on_disconnect
  on_disconnect_wrapper-IsValid now socket pm e v = grind (arith, on_timeout-RoomsValid)
