-- ===== src/Wss/Keeping.antt =====
-- atb_wss as a whole: what the adapter's side keeps under its own operations, it keeps whatever happens
-- to the play manager.
use vm.Prelude.{ℕ, ◌≡◌, List, [], ◌∷◌, arith, Map}
use vm.Prelude.Exec.{ok, >>=-eq-ok}
use vm.Prelude.Int.{ℤ}
use vm.Prelude.Text.{Text, text_key}
use vm.Wss.Room.{LiveRoom}
use vm.Wss.PlayMngr.{
  Reply, Formats, Play, PlayctrlHandler, PlayMngr, heartbeat, answer, refuse, enter, join_idle,
  join_playing, join_liveroom, quit_playing, quit_liveroom, on_connect, on_connect_wrapper,
  on_disconnect, on_disconnect_wrapper,
}
use vm.Wss.Requests.{
  Command, Rounds, dispatch, handle_request, notify_hls, sweep_rooms, state_round,
}
use vm.Wss.Events.{Event, connected, closed, writable, request, hls, round, Service, step, run}

-- The handler's operations keep a property of the adapter's state.
pub record Keeps {W : Type 0} (handler : PlayctrlHandler W) (P : W → Type 0) : Type 0 where
  pub check_play_status :
      (cmsid devid : Text) (w : W) (r : W × ℤ)
      → handler.check_play_status cmsid devid w ≡ ok r
      → P w
      → P r.0
  pub start_play :
      (cmsid devid : Text) (w : W) (r : W × Play)
      → handler.start_play cmsid devid w ≡ ok r
      → P w
      → P r.0
  pub stop_play :
      (cmsid devid : Text) (w w' : W) → handler.stop_play cmsid devid w ≡ ok w' → P w → P w'

module _ {V W : Type 0} (formats : Formats V) (handler : PlayctrlHandler W) where
  pub refuse-adapter :
      (socket : ℕ) (reply : Reply) (ret : ℤ) (pm : PlayMngr W) {r : PlayMngr W × ℤ}
      → refuse formats handler socket reply ret pm ≡ ok r
      → r.0.adapter ≡ pm.adapter
  unfolding answer
  refuse-adapter socket reply ret pm e = grind arith

  pub enter-adapter :
      (now socket : ℕ) (key : Text) (reply : Reply) (pm : PlayMngr W) {r : PlayMngr W × ℤ}
      → enter formats handler now socket key reply pm ≡ ok r
      → r.0.adapter ≡ pm.adapter
  unfolding enter answer
  enter-adapter now socket key reply pm e = grind arith

module _ {V W : Type 0} (formats : Formats V) (handler : PlayctrlHandler W) (P : W → Type 0)
    (keeps : Keeps handler P) where
  join_idle-Keeps :
      (now socket : ℕ) (cmsid devid : Text) (pm : PlayMngr W) {r : PlayMngr W × ℤ}
      → join_idle formats handler now socket cmsid devid pm ≡ ok r
      → P pm.adapter
      → P r.0.adapter
  unfolding join_idle
  join_idle-Keeps now socket cmsid devid pm e p =
      let ((w, play), first, second) = >>=-eq-ok (handler.start_play cmsid devid pm.adapter) _ e in
      let p' = keeps.start_play cmsid devid pm.adapter (w, play) first p in
      grind (arith, refuse-adapter, enter-adapter)

  join_playing-adapter :
      (now socket : ℕ) (key : Text) (pm : PlayMngr W) {r : PlayMngr W × ℤ}
      → join_playing formats handler now socket key pm ≡ ok r
      → r.0.adapter ≡ pm.adapter
  unfolding join_playing
  join_playing-adapter now socket key pm e = grind (arith, refuse-adapter, enter-adapter)

  join_liveroom-Keeps :
      (now socket : ℕ) (cmsid devid : Text) (pm : PlayMngr W) {r : PlayMngr W × ℤ}
      → join_liveroom formats handler now socket cmsid devid pm ≡ ok r
      → P pm.adapter
      → P r.0.adapter
  unfolding join_liveroom
  join_liveroom-Keeps now socket cmsid devid pm e p =
      let ((w, ret), first, second) =
        >>=-eq-ok (handler.check_play_status cmsid devid pm.adapter) _ e in
      let p' = keeps.check_play_status cmsid devid pm.adapter (w, ret) first p in
      grind (arith, refuse-adapter, join_idle-Keeps, join_playing-adapter)

  quit_playing-adapter :
      (now socket : ℕ) (key : Text) (pm : PlayMngr W) {pm' : PlayMngr W}
      → quit_playing formats handler now socket key pm ≡ ok pm'
      → pm'.adapter ≡ pm.adapter
  unfolding quit_playing
  quit_playing-adapter now socket key pm e = grind arith

  quit_liveroom-Keeps :
      (now socket : ℕ) (cmsid devid : Text) (pm : PlayMngr W) {r : PlayMngr W × ℤ}
      → quit_liveroom formats handler now socket cmsid devid pm ≡ ok r
      → P pm.adapter
      → P r.0.adapter
  unfolding quit_liveroom
  quit_liveroom-Keeps now socket cmsid devid pm e p =
      let ((w, ret), first, second) =
        >>=-eq-ok (handler.check_play_status cmsid devid pm.adapter) _ e in
      let p' = keeps.check_play_status cmsid devid pm.adapter (w, ret) first p in
      grind (arith, refuse-adapter, quit_playing-adapter)

  heartbeat-adapter :
      (now socket : ℕ) (pm : PlayMngr W) {r : PlayMngr W × ℤ}
      → heartbeat formats handler now socket pm ≡ ok r
      → r.0.adapter ≡ pm.adapter
  unfolding heartbeat
  heartbeat-adapter now socket pm e = grind (arith, refuse-adapter)

  dispatch-Keeps :
      (now socket : ℕ) (c : Command) (pm : PlayMngr W) {r : PlayMngr W × ℤ}
      → dispatch formats handler now socket c pm ≡ ok r
      → P pm.adapter
      → P r.0.adapter
  unfolding dispatch
  dispatch-Keeps now socket c pm e p =
      grind (arith, join_liveroom-Keeps, quit_liveroom-Keeps, heartbeat-adapter)

  handle_request-Keeps :
      (now socket : ℕ) (cmdline : Text) (pm : PlayMngr W) {r : PlayMngr W × ℤ}
      → handle_request formats handler now socket cmdline pm ≡ ok r
      → P pm.adapter
      → P r.0.adapter
  unfolding handle_request
  handle_request-Keeps now socket cmdline pm e p = grind (arith, dispatch-Keeps)

  notify_hls-adapter :
      (token : Text) (pm : PlayMngr W) {r : PlayMngr W × ℤ}
      → notify_hls formats handler token pm ≡ ok r
      → r.0.adapter ≡ pm.adapter
  unfolding notify_hls
  notify_hls-adapter token pm e = grind arith

  sweep_rooms-Keeps :
      (now : ℕ) (rooms : Map Text LiveRoom) (w : W) {r : Map Text LiveRoom × W}
      → sweep_rooms formats handler now rooms w ≡ ok r
      → P w
      → P r.1
  unfolding sweep_rooms
  sweep_rooms-Keeps now [] w e p = grind arith
  sweep_rooms-Keeps now ((k, room) ∷ rooms) w e p =
      grind (arith, keeps.stop_play room.cmsid room.devid w, sweep_rooms-Keeps now rooms)

  state_round-Keeps :
      (now : ℕ) (rounds : Rounds) (pm : PlayMngr W) {r : Rounds × PlayMngr W}
      → state_round formats handler now rounds pm ≡ ok r
      → P pm.adapter
      → P r.1.adapter
  unfolding state_round
  state_round-Keeps now rounds pm e p = grind (arith, sweep_rooms-Keeps now)

  pub step-Keeps :
      (e : Event) (s s' : Service W)
      → step formats handler e s ≡ ok s'
      → P s.pm.adapter
      → P s'.pm.adapter
  unfolding step on_connect on_connect_wrapper on_disconnect on_disconnect_wrapper
  step-Keeps (connected time raw now socket) s s' e p = grind arith
  step-Keeps (closed now socket) s s' e p = grind arith
  step-Keeps (writable socket) s s' e p = grind arith
  step-Keeps (request now socket cmdline) s s' e p = grind (arith, handle_request-Keeps)
  step-Keeps (hls token) s s' e p = grind (arith, notify_hls-adapter)
  step-Keeps (round now) s s' e p = grind (arith, state_round-Keeps)

  -- A property of the adapter's state that the handler's operations keep is kept by any events of the
  -- play manager, in any order.
  pub run-Keeps :
      (es : List Event) (s s' : Service W)
      → run formats handler es s ≡ ok s'
      → P s.pm.adapter
      → P s'.pm.adapter
  unfolding run
  run-Keeps [] s s' e p = grind arith
  run-Keeps (event ∷ es) s s' e p =
      let (s1, first, others) = >>=-eq-ok (step formats handler event s) _ e in
      run-Keeps es s1 s' others (step-Keeps event s s1 first p)
