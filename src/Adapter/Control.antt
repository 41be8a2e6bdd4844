-- ===== src/Adapter/Control.antt =====
-- atb_adapter/AdapterServer.cpp, with the play control of AdapterService.cpp: what the viewers' side
-- and the web ask of the adapter server. `pAdapterServer_` is set; replies to a client of the HTTP
-- interface that are not asked for by the web are not modelled.
use vm.Prelude.{ℕ, suc, Bool, true, ◌||◌, Option, none, some, List, [], if◌then◌else◌, nat_beq}
use vm.Prelude.Exec.{Exec, ok, ◌>>=◌}
use vm.Prelude.Int.{ℤ}
use vm.Prelude.Text.{Text, codes, is_empty}
use vm.Adapter.Clock.{Sections, no_sections, parse_time_section}
use vm.Adapter.Client.{MessageNode, new_device, get_state, modify_camera, check_push}
use vm.Adapter.Server.{
  TcpServer, get_client, put_client, add_camera, del_camera, Push, push_fail, notify_push,
  notify_stop_push,
}
use vm.Wss.PlayMngr.{PlayctrlHandler, adapter_offline, device_offline, device_idle, device_playing}

-- What the world gives one call: whether its send succeeds, its random numbers, the time, and the
-- messages that arrive while it waits.
pub record Turn : Type 0 where
  pub net : Bool
  pub now : ℕ
  pub seq : ℕ
  pub push_key : Text
  pub rounds : List (List MessageNode)

-- The adapter as the play manager sees it: the server, and what is to come for its next calls.
pub record Adapter : Type 0 where
  pub server : TcpServer
  pub turns : ℕ → Turn

-- The state after a call, which has used up its turn.
abbrev pub next : TcpServer → Adapter → Adapter
next srv a = record { server = srv; turns = λ n. a.turns (suc n) }

-- `CheckStatus`.
unfoldable pub check_status : Text → Text → TcpServer → Exec ℤ
check_status cmsid devid srv = elim (get_client cmsid srv) [
  | none ↦ ok adapter_offline
  | some c ↦ do
    state ← get_state devid c
    ok (
        if nat_beq state 0
        then device_offline
        else (if nat_beq state 1 then device_idle else device_playing))
]

abbrev pub invalid_parameter : Push
invalid_parameter = push_fail (codes "{\"code\":200,\"result\":\"invalid parameter!\"}")

-- What the text of `check_start_push`'s answer is, other than 0.
unfoldable pub start_refusal : ℕ → Text
start_refusal ret =
    if nat_beq ret 1
    then codes "database err!"
    else (if nat_beq ret 2
        then codes "device not exist!"
        else (if nat_beq ret 3
            then codes "camera is not valid at this time!"
            else codes "error known!"))

-- `AdapterServer::NotifyStartPush`. `check_start_push` is the database helper's.
unfoldable pub notify_start_push :
    (Text → Text → ℕ) → Turn → Text → Text → TcpServer → Exec (TcpServer × Push)
notify_start_push check_start_push t cmsid devid srv =
    if is_empty cmsid || is_empty devid
    then ok (srv, invalid_parameter)
    else (let ret = check_start_push cmsid devid in
        if nat_beq ret 0
        then elim (get_client cmsid srv) [
          | none ↦ ok (srv, push_fail (codes "start push fail, adapter client offline!"))
          | some c ↦ notify_push t.net t.now t.seq t.push_key t.rounds devid c srv
        ]
        else ok (srv, push_fail (start_refusal ret)))

-- `AdapterServer::NotifyStopPush`.
unfoldable pub server_notify_stop_push : Turn → Text → Text → TcpServer → Exec (TcpServer × Push)
server_notify_stop_push t cmsid devid srv =
    if is_empty cmsid || is_empty devid
    then ok (srv, invalid_parameter)
    else elim (get_client cmsid srv) [
      | none ↦ ok (srv, push_fail [])
      | some c ↦ notify_stop_push t.net t.now t.seq t.rounds devid c srv
    ]

-- `AdapterServer::CheckPush`: "0" accepts the push.
unfoldable pub server_check_push : Text → Text → Text → TcpServer → Text
server_check_push cmsid devid key srv = elim (get_client cmsid srv) [
  | none ↦ codes "1"
  | some c ↦ if check_push devid key c then codes "0" else codes "1"
]

-- `AdapterService`'s implementation of the handler.
abbrev pub adapter_handler : (Text → Text → ℕ) → PlayctrlHandler Adapter
adapter_handler check_start_push = record {
  check_play_status = λ cmsid devid a. do
    ret ← check_status cmsid devid a.server
    ok (a, ret);
  start_play = λ cmsid devid a. do
    (srv, p) ← notify_start_push check_start_push (a.turns 0) cmsid devid a.server
    ok (next srv a, record { ret = p.ret; result = p.result; token = p.token });
  stop_play = λ cmsid devid a. do
    (srv, p) ← server_notify_stop_push (a.turns 0) cmsid devid a.server
    ok (next srv a);
}

module _ (seconds : Text → Option ℕ) where
  -- The times of a camera that is not played all day. The result of `ParseTimeSection` is not used.
  unfoldable pub sections_of : ℕ → Text → Text → Exec Sections
  sections_of allday sec0 sec1 =
      let parsed = parse_time_section seconds sec0 sec1 in
      if nat_beq allday 0 then (do r ← parsed; ok r.1) else ok no_sections

  -- `AddCamera` with `fromweb`.
  unfoldable pub server_add_camera :
      Bool → ℕ → Text → Text → Text → ℕ → Text → Text → TcpServer → Exec TcpServer
  server_add_camera net seq cmsid pid name allday sec0 sec1 srv = elim (get_client cmsid srv) [
    | none ↦ ok srv
    | some c ↦ do
      t ← sections_of allday sec0 sec1
      (srv', ret) ← add_camera net seq true (new_device pid name allday t.s0 t.e0 t.s1 t.e1) c srv
      ok srv'
  ]

  -- `ModifyCamera` with `fromweb`.
  unfoldable pub server_modify_camera : Text → Text → ℕ → Text → Text → TcpServer → Exec TcpServer
  server_modify_camera cmsid pid allday sec0 sec1 srv = elim (get_client cmsid srv) [
    | none ↦ ok srv
    | some c ↦ do
      t ← sections_of allday sec0 sec1
      ok (put_client (modify_camera pid allday t.s0 t.e0 t.s1 t.e1 c) srv)
  ]

-- `DelCamera` with `fromweb`.
unfoldable pub server_del_camera : Bool → ℕ → Text → Text → TcpServer → Exec TcpServer
server_del_camera net seq cmsid pid srv = elim (get_client cmsid srv) [
  | none ↦ ok srv
  | some c ↦ do (srv', ret) ← del_camera net seq pid c srv; ok srv'
]
