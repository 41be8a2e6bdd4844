-- ===== src/Wss/Lifecycle.antt =====
-- atb_wss/PlayMngr.cc: how rooms end, how they become ready, and what a heartbeat is told.
use vm.Prelude.{
  ℕ, ◌-◌, ◌≤◌, ◌<◌, ◌≡◌, ◌↔◌, refl, sym, ◌∙◌, Bool, ltb, inl, inr, true, false, not, none, some,
  List, [], ◌∷◌, arith, nat_key, ◌==◌, if◌then◌else◌, find, Map, find-insert, keep_if, All,
  Bool-cases,
}
use vm.Prelude.Exec.{Exec, ok, crash, no_fuel, ◌>>=◌, map_exec}
use vm.Prelude.Int.{ℤ, pos, minus_one}
use vm.Prelude.Text.{Text, text_key, text_beq}
use vm.Wss.Room.{LiveRoom, size, has_user}
use vm.Wss.Server.{elapsed, word_mod}
use vm.Wss.PlayMngr.{Formats, PlayctrlHandler, PlayMngr}
use vm.Wss.Members.{is_member}
use vm.Wss.Requests.{is_dead, sweep_rooms, find_token, notify_hls}

-- A room is dead when it is empty and its last viewer left more than a minute ago. A room that is
-- made empty-handed has the timestamp 0.
pub is_dead_iff :
    (now : ℕ) (r : LiveRoom)
    → r.timestamp ≤ now
    → now < word_mod
    → (is_dead now r ≡ true) ↔ ((r.users ≡ []) × (60000 < now - r.timestamp))
unfolding is_dead elapsed size
is_dead_iff now r past word = grind arith

is_dead-nobody :
    (now : ℕ) (r : LiveRoom) (socket : ℕ) → is_dead now r ≡ true → has_user socket r.users ≡ false
unfolding is_dead size has_user
is_dead-nobody now r socket dead = grind arith

-- What the sweep is for: nobody watches, and the last viewer left more than a minute ago.
unfoldable pub is_deserted : ℕ → LiveRoom → Bool
is_deserted now r = elim r.users [ [] ↦ ltb 60000 (now - r.timestamp) | socket ∷ sockets ↦ false ]

is_dead-is_deserted :
    (now : ℕ) (r : LiveRoom)
    → r.timestamp ≤ now
    → now < word_mod
    → is_dead now r ≡ is_deserted now r
unfolding is_dead elapsed size is_deserted
is_dead-is_deserted now r past word = grind arith

module _ {V W : Type 0} (formats : Formats V) (handler : PlayctrlHandler W) where
  -- The cameras of some rooms are stopped, one after another.
  unfoldable pub stop_all : List (Text × LiveRoom) → W → Exec W
  stop_all [] w = ok w
  stop_all ((k, r) ∷ rooms) w = do w' ← handler.stop_play r.cmsid r.devid w; stop_all rooms w'

  -- Where the clock is past the timestamps of the rooms, the sweep stops the cameras of exactly the rooms
  -- that have no viewers and whose last one left more than 60 seconds ago, each once and in order, and
  -- keeps exactly the others, unchanged.
  pub sweep_rooms-stop_all :
      (now : ℕ) (rooms : Map Text LiveRoom) (w : W)
      → now < word_mod
      → All (λ e. e.1.timestamp ≤ now) rooms
      → sweep_rooms formats handler now rooms w
        ≡ map_exec
            (λ w'. (keep_if (λ e. not (is_deserted now e.1)) rooms, w'))
            (stop_all (keep_if (λ e. is_deserted now e.1) rooms) w)
  unfolding sweep_rooms stop_all
  sweep_rooms-stop_all now [] w word past = refl
  sweep_rooms-stop_all now ((k, r) ∷ rooms) w word (past, pasts) =
      elim (Bool-cases (is_dead now r)) [
        | inl e ↦
            rw (sym same ∙ e, e, sweep_rooms)
              (stopped (handler.stop_play r.cmsid r.devid w)
                (λ w'. sweep_rooms-stop_all now rooms w' word pasts))
        | inr e ↦
            rw (sym same ∙ e, e, sweep_rooms, sweep_rooms-stop_all now rooms w word pasts)
              (kept (stop_all (keep_if (λ e. is_deserted now e.1) rooms) w))
      ]
    where
      same : is_dead now r ≡ is_deserted now r
      same = is_dead-is_deserted now r past word

      alive : Map Text LiveRoom
      alive = keep_if (λ e. not (is_deserted now e.1)) rooms

      dead : Map Text LiveRoom
      dead = keep_if (λ e. is_deserted now e.1) rooms

      with_alive : W → Map Text LiveRoom × W
      with_alive w' = (alive, w')

      stopped :
          (m : Exec W)
          → ((w' : W)
              → sweep_rooms formats handler now rooms w' ≡ map_exec with_alive (stop_all dead w'))
          → (m >>= sweep_rooms formats handler now rooms)
            ≡ map_exec with_alive (m >>= stop_all dead)
      stopped (ok w') ih = ih w'
      stopped crash ih = refl
      stopped no_fuel ih = refl

      later : Map Text LiveRoom × W → Exec (Map Text LiveRoom × W)
      later (rest, w') = ok ((k, r) ∷ rest, w')

      kept :
          (m : Exec W) → (map_exec with_alive m >>= later) ≡ map_exec (λ w'. ((k, r) ∷ alive, w')) m
      kept (ok w') = refl
      kept crash = refl
      kept no_fuel = refl

  -- The sweep leaves every viewer in its room.
  pub is_member-sweep_rooms :
      (now socket : ℕ) (key : Text) (rooms : Map Text LiveRoom) (w : W) {r : Map Text LiveRoom × W}
      → sweep_rooms formats handler now rooms w ≡ ok r
      → is_member socket key rooms ≡ true
      → is_member socket key r.0 ≡ true
  unfolding sweep_rooms is_member find
  is_member-sweep_rooms now socket key [] w e member = ground arith
  is_member-sweep_rooms now socket key ((k, room) ∷ rooms) w e member =
      grind (arith, is_member-sweep_rooms now socket key rooms, is_dead-nobody now room socket)

  find_token-find :
      (token : Text) (rooms : Map Text LiveRoom)
      → (find_token token rooms ≡ none) ↔ All (λ e. text_beq e.1.token token ≡ false) rooms
  unfolding find_token
  find_token-find token [] = ground arith
  find_token-find token ((k, r) ∷ rooms) = ground (arith, find_token-find token rooms)

  -- A notice is refused exactly when no room has its token.
  pub notify_hls_unknown :
      (token : Text) (pm : PlayMngr W)
      → All (λ e. text_beq e.1.token token ≡ false) pm.rooms
      → notify_hls formats handler token pm ≡ ok (pm, minus_one)
  unfolding notify_hls
  notify_hls_unknown token pm h = rw ((find_token-find token pm.rooms).1 h, notify_hls)

  -- A notice of a room's token makes that room ready and leaves its viewers; all rooms else keep
  -- their state.
  pub notify_hls-find :
      (token k : Text) (pm : PlayMngr W) {key : Text} {room : LiveRoom} {r : PlayMngr W × ℤ}
      → find_token token pm.rooms ≡ some (key, room)
      → notify_hls formats handler token pm ≡ ok r
      → (r.1 ≡ pos 0)
        × (find k r.0.rooms
            ≡ (if key == k then some (record room { rdy = true }) else find k pm.rooms))
  unfolding notify_hls
  notify_hls-find token k pm {key} {room} f e =
      grind (arith, find-insert key k (record room { rdy = true }) pm.rooms)
