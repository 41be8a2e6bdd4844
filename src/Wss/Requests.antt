-- ===== src/Wss/Requests.antt =====
-- atb_wss/PlayMngr.cc: what drives the play manager. The requests of the viewers, the notice that a
-- stream is ready, and the thread that looks for silent viewers and dead rooms.
use vm.Prelude.{
  ℕ, ◌+◌, ◌*◌, Bool, true, false, not, ◌&&◌, Option, none, some, [], ◌∷◌, ltb, nat_beq,
  if◌then◌else◌, nat_key, Map, insert,
}
use vm.Prelude.Exec.{Exec, ok, crash, ◌>>=◌}
use vm.Prelude.Int.{ℤ, pos, int_beq, minus_one}
use vm.Prelude.Text.{Text, codes, text_beq, text_key}
use vm.Wss.Room.{LiveRoom, size}
use vm.Wss.Server.{remove_connection, send_all, check_connection_state, elapsed}
use vm.Wss.PlayMngr.{
  Formats, PlayctrlHandler, PlayMngr, on_timeout, success, join_liveroom, quit_liveroom, heartbeat,
}

-- The first room with the token, in the order of the keys.
unfoldable pub find_token : Text → Map Text LiveRoom → Option (Text × LiveRoom)
find_token token [] = none
find_token token ((k, r) ∷ rooms) =
    if text_beq r.token token then some (k, r) else find_token token rooms

-- The test of `state_threadfunc`: nobody has been in the room for a minute.
unfoldable pub is_dead : ℕ → LiveRoom → Bool
unfolding size
is_dead now r = nat_beq (size r) 0 && ltb (60 * 1000) (elapsed now r.timestamp)

pub record Command : Type 0 where
  pub cmd : ℤ
  pub cmsid : Text
  pub devid : Text

-- `iCount0` and `iCount1` of `state_threadfunc`.
pub record Rounds : Type 0 where
  pub check : ℕ
  pub sweep : ℕ

module _ {V W : Type 0} (formats : Formats V) (handler : PlayctrlHandler W) where
  -- The `try` block of `handle_request`: `none` is the exception. A value that is no object fails an
  -- assertion, which ends the process.
  unfoldable pub read_command : V → Exec (Option Command)
  read_command v =
      if not (formats.is_object v)
      then crash
      else ok (elim (formats.as_int (codes "cmd") v) [
        | none ↦ none
        | some cmd ↦ elim (formats.as_string (codes "cmsid") v) [
          | none ↦ none
          | some cmsid ↦ elim (formats.as_string (codes "devid") v) [
            | none ↦ none
            | some devid ↦ some (record { cmd = cmd; cmsid = cmsid; devid = devid })
          ]
        ]
      ])

  -- A viewer whose request is not understood loses its entry in the table.
  abbrev pub drop_viewer : ℕ → PlayMngr W → Exec (PlayMngr W × ℤ)
  drop_viewer socket pm =
      ok (record pm { connections = remove_connection socket pm.connections }, minus_one)

  unfoldable pub dispatch : ℕ → ℕ → Command → PlayMngr W → Exec (PlayMngr W × ℤ)
  dispatch now socket c pm =
      if int_beq c.cmd (pos 100)
      then join_liveroom formats handler now socket c.cmsid c.devid pm
      else (if int_beq c.cmd (pos 200)
          then quit_liveroom formats handler now socket c.cmsid c.devid pm
          else (if int_beq c.cmd (pos 300)
              then heartbeat formats handler now socket pm
              else drop_viewer socket pm))

  unfoldable pub handle_request : ℕ → ℕ → Text → PlayMngr W → Exec (PlayMngr W × ℤ)
  handle_request now socket cmdline pm = elim (formats.parse cmdline) [
    | none ↦ drop_viewer socket pm
    | some v ↦ (do
      command ← read_command v
      elim command [ none ↦ drop_viewer socket pm | some c ↦ dispatch now socket c pm ])
  ]

  -- The stream with this token is ready: its room is told.
  unfoldable pub notify_hls : Text → PlayMngr W → Exec (PlayMngr W × ℤ)
  notify_hls token pm = elim (find_token token pm.rooms) [
    | none ↦ ok (pm, minus_one)
    | some (key, r) ↦ do
      let room = record r { rdy = true }
      cs ←
          send_all room.users
            (formats.to_styled_string (success 101 (codes "success") room.token (size room)))
            pm.connections
      ok (record pm { connections = cs; rooms = insert key room pm.rooms }, pos 0)
  ]

  -- The loop of `state_threadfunc` over the rooms: a dead one is stopped and dropped.
  unfoldable pub sweep_rooms : ℕ → Map Text LiveRoom → W → Exec (Map Text LiveRoom × W)
  sweep_rooms now [] w = ok ([], w)
  sweep_rooms now ((k, r) ∷ rooms) w = elim (is_dead now r) [
    | true ↦ handler.stop_play r.cmsid r.devid w >>= sweep_rooms now rooms
    | false ↦ do (rest, w') ← sweep_rooms now rooms w; ok ((k, r) ∷ rest, w')
  ]

  -- One round of the loop of `state_threadfunc`, a second long.
  unfoldable pub state_round : ℕ → Rounds → PlayMngr W → Exec (Rounds × PlayMngr W)
  state_round now rounds pm = do
    (cs, rooms) ←
        if ltb 12 (rounds.check + 1)
        then check_connection_state (on_timeout now) now pm.connections pm.rooms
        else ok (pm.connections, pm.rooms)
    let check = if ltb 12 (rounds.check + 1) then 0 else rounds.check + 1
    if ltb (rounds.sweep + 1) 9
        then ok (
          record { check = check; sweep = rounds.sweep + 1 },
          record pm { connections = cs; rooms = rooms },
        )
        else (do
          (rooms', w) ← sweep_rooms now rooms pm.adapter
          ok (
            record { check = check; sweep = 0 },
            record pm { connections = cs; rooms = rooms'; adapter = w },
          ))
