-- ===== src/Wss/Invariant.antt =====
-- atb_wss: whatever happens, and in whatever order, no viewer stands twice in a room.
use vm.Prelude.{ℕ, ◌≡◌, inl, inr, none, some, List, [], ◌∷◌, arith, nat_key, Map, Bool-cases}
use vm.Prelude.Exec.{ok, map_exec-eq-ok}
use vm.Prelude.Int.{ℤ}
use vm.Prelude.Text.{Text, text_key}
use vm.Wss.Room.{LiveRoom, Distinct}
use vm.Wss.Server.{Connection, Connections, is_expired, get_key, roomid_key}
use vm.Wss.PlayMngr.{Formats, PlayctrlHandler, PlayMngr, on_timeout}
use vm.Wss.Requests.{
  Command, Rounds, dispatch, handle_request, find_token, notify_hls, sweep_rooms, state_round,
}
use vm.Wss.Expiry.{expire, told, check_connection_state-expire}
use vm.Wss.Rooms.{
  RoomsValid, IsValid, on_timeout-RoomsValid, put_room, join_liveroom-IsValid,
  quit_liveroom-IsValid, heartbeat-IsValid, on_connect_wrapper-IsValid,
  on_disconnect_wrapper-IsValid,
}
use vm.Wss.Events.{Event, connected, closed, writable, request, hls, round, Service, step, run}

-- What the callback keeps, the whole check keeps.
module _ {S : Type 0} (on_timeout : ℕ → Text → S → S) (P : S → Type 0)
    (keep : (socket : ℕ) (roomid : Text) (s : S) → P s → P (on_timeout socket roomid s)) where
  told_keeps : (cur : ℕ) (c : Connection) (s : S) → P s → P (told on_timeout cur c s)
  unfolding told
  told_keeps cur c s p = elim (Bool-cases (is_expired cur c)) [
    | inl e ↦ rw (e, told) (keep c.socketid (get_key roomid_key c) s p)
    | inr e ↦ rw (e, told) p
  ]

  expire_keeps :
      (cur : ℕ) (cs : Connections) (s : S) {r : Connections × S}
      → expire on_timeout cur cs s ≡ ok r
      → P s
      → P r.1
  unfolding expire
  expire_keeps cur [] s e p = ground arith
  expire_keeps cur ((socket, none) ∷ cs) s e p = cc
  expire_keeps cur ((socket, some c) ∷ cs) s e p =
      let (r', step, same) =
        map_exec-eq-ok _ (expire on_timeout cur cs (told on_timeout cur c s)) e in
      rw (← same) (expire_keeps cur cs (told on_timeout cur c s) step (told_keeps cur c s p))

module _ {V W : Type 0} (formats : Formats V) (handler : PlayctrlHandler W) where
  dispatch-IsValid :
      (now socket : ℕ) (c : Command) (pm : PlayMngr W) {r : PlayMngr W × ℤ}
      → dispatch formats handler now socket c pm ≡ ok r
      → IsValid pm
      → IsValid r.0
  unfolding dispatch
  dispatch-IsValid now socket c pm e v =
      grind (arith, join_liveroom-IsValid, quit_liveroom-IsValid, heartbeat-IsValid)

  handle_request-IsValid :
      (now socket : ℕ) (cmdline : Text) (pm : PlayMngr W) {r : PlayMngr W × ℤ}
      → handle_request formats handler now socket cmdline pm ≡ ok r
      → IsValid pm
      → IsValid r.0
  unfolding handle_request
  handle_request-IsValid now socket cmdline pm e v = grind (arith, dispatch-IsValid)

  find_token-Distinct :
      (token : Text) (rooms : Map Text LiveRoom) {r : Text × LiveRoom}
      → find_token token rooms ≡ some r
      → RoomsValid rooms
      → Distinct r.1.users
  unfolding find_token
  find_token-Distinct token [] e v = cc
  find_token-Distinct token ((k, q) ∷ rooms) e v = grind (arith, find_token-Distinct token rooms)

  pub notify_hls-IsValid :
      (token : Text) (pm : PlayMngr W) {r : PlayMngr W × ℤ}
      → notify_hls formats handler token pm ≡ ok r
      → IsValid pm
      → IsValid r.0
  unfolding notify_hls
  notify_hls-IsValid token pm e v = grind (arith, find_token-Distinct token pm.rooms, put_room)

  sweep_rooms-RoomsValid :
      (now : ℕ) (rooms : Map Text LiveRoom) (w : W) {rooms' : Map Text LiveRoom} {w' : W}
      → sweep_rooms formats handler now rooms w ≡ ok (rooms', w')
      → RoomsValid rooms
      → RoomsValid rooms'
  unfolding sweep_rooms
  sweep_rooms-RoomsValid now [] w e v = ground arith
  sweep_rooms-RoomsValid now ((k, r) ∷ rooms) w e v =
      grind (arith, sweep_rooms-RoomsValid now rooms)

  state_round-IsValid :
      (now : ℕ) (rounds : Rounds) (pm : PlayMngr W) {rounds' : Rounds} {pm' : PlayMngr W}
      → state_round formats handler now rounds pm ≡ ok (rounds', pm')
      → IsValid pm
      → IsValid pm'
  unfolding state_round
  state_round-IsValid now rounds pm e v = grind (
    arith,
    check_connection_state-expire (on_timeout now) now pm.connections pm.rooms,
    expire_keeps (on_timeout now) RoomsValid (on_timeout-RoomsValid now) now pm.connections
        pm.rooms,
    sweep_rooms-RoomsValid,
  )

  -- Any one event keeps the rooms valid.
  pub step-IsValid :
      (e : Event) (s : Service W) {s' : Service W}
      → step formats handler e s ≡ ok s'
      → IsValid s.pm
      → IsValid s'.pm
  unfolding step
  step-IsValid (connected time raw now socket) s h v =
      grind (arith, on_connect_wrapper-IsValid formats handler time raw now socket)
  step-IsValid (closed now socket) s h v =
      grind (arith, on_disconnect_wrapper-IsValid formats handler now socket)
  step-IsValid (writable socket) s h v = ground arith
  step-IsValid (request now socket cmdline) s h v =
      grind (arith, handle_request-IsValid now socket cmdline)
  step-IsValid (hls token) s h v = grind (arith, notify_hls-IsValid token)
  step-IsValid (round now) s h v = grind (arith, state_round-IsValid now)

  -- After any events, in any order, no viewer stands twice in a room, if none did before.
  pub run-IsValid :
      (es : List Event) (s : Service W) {s' : Service W}
      → run formats handler es s ≡ ok s'
      → IsValid s.pm
      → IsValid s'.pm
  unfolding run
  run-IsValid [] s h v = ground arith
  run-IsValid (e ∷ es) s h v = grind (arith, step-IsValid e s, run-IsValid es)
