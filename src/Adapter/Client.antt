-- ===== src/Adapter/Client.antt =====
-- atb_adapter/cms_client.h and cms_client.cpp: a connected adapter client, its cameras and the
-- messages that wait for their reader. A call is one step, and `now` is the one answer of
-- `Global::GetTickCount` in it, except where the call waits.
use vm.Prelude.{
  ℕ, zero, suc, ◌+◌, ◌*◌, ◌^◌, ◌-◌, ◌%◌, Bool, false, not, ◌&&◌, Option, none, some, List, [], ◌∷◌,
  ◌++◌, if◌then◌else◌, length, take, drop, leb, ltb, nat_beq, keep_if, Map, find, insert, modify,
}
use vm.Prelude.Exec.{Exec, ok, crash, ◌>>=◌}
use vm.Prelude.Int.{ℤ, pos, minus_one}
use vm.Prelude.Text.{Text, is_empty, text_beq, text_key}
use vm.Adapter.Clock.{check_internal}
use vm.Adapter.Wire.{int_at, padded, c_string, data_size}

-- `state_`: 0 off line, 1 online, 2 pushing.
pub record DeviceNode : Type 0 where
  pub pid : Text
  pub name : Text
  pub token : Text
  pub state : ℕ
  pub allday : ℕ
  pub s0 : Text
  pub e0 : Text
  pub s1 : Text
  pub e1 : Text
  pub key : Text

-- `buf_` with its `iLength_` bytes.
pub record MessageNode : Type 0 where
  pub kind : ℕ
  pub timestamp : ℕ
  pub seqnum : ℕ
  pub buf : Text

pub record CmsClient : Type 0 where
  pub fd : ℕ
  pub cmsid : Text
  pub livecount : ℕ
  pub devlist : Map Text DeviceNode
  pub msglist : List MessageNode

abbrev pub pushing : ℕ
pushing = 2

unfoldable pub new_client : ℕ → Text → ℕ → CmsClient
new_client fd cmsid now = record {
  fd = fd;
  cmsid = cmsid;
  livecount = now;
  devlist = [];
  msglist = [];
}

-- `devlist_[pid]->state_`: for a camera that is not in the list the map gives a null pointer.
unfoldable pub get_state : Text → CmsClient → Exec ℕ
get_state pid c = elim (find pid c.devlist) [ none ↦ crash | some d ↦ ok d.state ]

-- The camera that `AddCamera` enters: off line, and with times only if it is not played all day.
unfoldable pub new_device : Text → Text → ℕ → Text → Text → Text → Text → DeviceNode
new_device pid name allday s0 e0 s1 e1 = record {
  pid = pid;
  name = name;
  token = [];
  state = 0;
  allday = allday;
  s0 = if nat_beq allday 0 then s0 else [];
  e0 = if nat_beq allday 0 then e0 else [];
  s1 = if nat_beq allday 0 then s1 else [];
  e1 = if nat_beq allday 0 then e1 else [];
  key = [];
}

unfoldable pub enter_device : DeviceNode → CmsClient → CmsClient
enter_device d c = record c { devlist = insert d.pid d c.devlist }

-- A write through the pointer to the camera of this id.
unfoldable pub set_device : Text → DeviceNode → CmsClient → CmsClient
set_device pid d c = record c { devlist = insert pid d c.devlist }

unfoldable pub modify_camera : Text → ℕ → Text → Text → Text → Text → CmsClient → CmsClient
modify_camera pid allday s0 e0 s1 e1 c = record c {
  devlist =
      modify pid (λ d. record d { allday = allday; s0 = s0; e0 = e0; s1 = s1; e1 = e1 }) c.devlist;
}

unfoldable pub check_push : Text → Text → CmsClient → Bool
check_push pid key c = elim (find pid c.devlist) [ none ↦ false | some d ↦ text_beq d.key key ]

-- `InsertMsg` refuses a null or empty buffer. A body past `MAX_BUF_SIZE` overruns the node.
unfoldable pub insert_msg : ℕ → ℕ → ℕ → Text → CmsClient → Exec (CmsClient × ℤ)
insert_msg now kind seqnum buf c =
    if is_empty buf
    then ok (c, minus_one)
    else (if ltb data_size (length buf)
        then crash
        else ok (
          record c {
            msglist =
                c.msglist
                ++ record { kind = kind; timestamp = now; seqnum = seqnum; buf = buf } ∷ [];
          },
          pos 0,
        ))

-- The refresh of `WaitforResponse`: what has waited for more than six seconds is thrown away.
unfoldable pub drop_old : ℕ → List MessageNode → List MessageNode
drop_old now = keep_if (λ m. not (ltb 6000 ((now + 2 ^ 64 - m.timestamp) % 2 ^ 64)))

abbrev pub is_answer : ℕ → ℕ → MessageNode → Bool
is_answer kind seqnum m = nat_beq m.kind kind && nat_beq m.seqnum seqnum

-- One look through the list: the first answer, and the list without it.
unfoldable pub take_answer : ℕ → ℕ → List MessageNode → Option (MessageNode × List MessageNode)
take_answer kind seqnum [] = none
take_answer kind seqnum (m ∷ ms) =
    let later : Option (MessageNode × List MessageNode) = elim (take_answer kind seqnum ms) [
      | none ↦ none
      | some (a, rest) ↦ some (a, m ∷ rest)
    ] in
    if is_answer kind seqnum m then some (m, ms) else later

-- The loop of `WaitforResponse`: one look each 40 ms until the answer is there or 12 seconds are
-- over. A round is the messages that other threads have inserted before it; the end of the rounds is
-- the end of the time. The answer is copied into a struct of `room` bytes.
unfoldable pub wait_loop :
    ℕ → ℕ → ℕ → List (List MessageNode) → List MessageNode → Exec (List MessageNode × Option Text)
wait_loop room kind seqnum [] ms = ok (ms, none)
wait_loop room kind seqnum (new ∷ rounds) ms = elim (take_answer kind seqnum (ms ++ new)) [
  | none ↦ wait_loop room kind seqnum rounds (ms ++ new)
  | some (m, rest) ↦ if ltb room (length m.buf) then crash else ok (rest, some (padded room m.buf))
]

unfoldable pub wait_for_response :
    ℕ → ℕ → ℕ → ℕ → List (List MessageNode) → CmsClient → Exec (CmsClient × Option Text)
wait_for_response now room kind seqnum rounds c = do
  (ms, answer) ← wait_loop room kind seqnum rounds (drop_old now c.msglist)
  ok (record c { msglist = ms }, answer)

-- The loop of `HandleUpdateChange`: `n` items of a 20-byte id and a flag, from the read buffer.
unfoldable pub update_states : ℕ → Text → Map Text DeviceNode → Exec (Map Text DeviceNode)
update_states zero items devs = ok devs
update_states (suc n) items devs = if ltb (length items) 24 then crash else (do
  pid ← c_string (take 24 items)
  update_states n (drop 24 items)
      (modify pid (λ d. record d { state = int_at (drop 20 items) }) devs))

-- The count is an `int`, and no item is read for a negative one. `none` is the null buffer that an
-- empty message passes.
unfoldable pub handle_update_change : Option Text → CmsClient → Exec CmsClient
handle_update_change none c = crash
handle_update_change (some body) c =
    let buf = padded data_size body in
    let n = int_at buf in
    if leb (2 ^ 31) n
    then ok c
    else (do devs ← update_states n (drop 4 buf) c.devlist; ok (record c { devlist = devs }))

-- The schedule of a camera that is pushing: does `CheckState` stop it at this time of day?
unfoldable pub is_over : (Text → Option ℕ) → Text → DeviceNode → Bool
is_over seconds time d =
    nat_beq d.state pushing
    && (nat_beq d.allday 0
        && (not (is_empty d.s0)
            && (not (check_internal seconds time d.s0 d.e0)
                && not (not (is_empty d.s1) && check_internal seconds time d.s1 d.e1))))

-- The loop of `CheckState`: the cameras whose time is over go back to online, and their ids make
-- the message. An id is copied into a slot of 20 bytes without a check.
unfoldable pub stop_over :
    (Text → Option ℕ) → Text → Map Text DeviceNode → Map Text DeviceNode × List Text
stop_over seconds time [] = ([], [])
stop_over seconds time ((k, d) ∷ devs) =
    let (rest, pids) = stop_over seconds time devs in
    if is_over seconds time d
    then ((k, record d { state = 1 }) ∷ rest, d.pid ∷ pids)
    else ((k, d) ∷ rest, pids)

-- `livecount_` is too old: more than 20 seconds.
unfoldable pub is_silent : ℕ → CmsClient → Bool
is_silent now c = ltb (20 * 1000) ((now + 2 ^ 64 - c.livecount) % 2 ^ 64)
