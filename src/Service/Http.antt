-- ===== src/Service/Http.antt =====
-- AdapterService.cpp: the handlers of the HTTP interface, and where `Start` maps them. The HTTP server
-- and jsoncpp are not part of the program: a request gives its parameters and its raw body, `field` is
-- a field of the body as text. The service's pointers are set.
use vm.Prelude.{ℕ, Bool, true, false, ◌||◌, Option, none, some, if◌then◌else◌}
use vm.Prelude.Exec.{Exec, ok, crash, ◌>>=◌}
use vm.Prelude.Int.{pos, int_beq}
use vm.Prelude.Text.{Text, codes, is_empty, text_beq}
use vm.Wss.PlayMngr.{Formats, PlayctrlHandler, PlayMngr}
use vm.Wss.Requests.{notify_hls}
use vm.Adapter.Server.{TcpServer, Push}
use vm.Adapter.Control.{Turn, invalid_parameter, notify_start_push, server_notify_stop_push}
use vm.Adapter.PushUrl.{handle_push_check}
use vm.Db.Sql.{atoi, int_word}
use vm.Db.Query.{Mysql}
use vm.Db.Camera.{Device, check_start_push}
use vm.Service.Admin.{
  WebReply, Both, Given, get_cms_client_list, get_cms_client_info, regist_cms_client_account,
  writeoff_cms_client_account, modify_cms_client_account, web_add_camera, web_del_camera,
  web_modify_camera,
}

pub record Request : Type 0 where
  pub get_param : Text → Text
  pub raw : Text

-- What a handler sets: nothing, a JSON string, an object with a code, a result and perhaps a token, or
-- plain text.
pub data Response : Type 0 where
  untouched : Response
  json_string : Text → Response
  object : (code : ℕ) (result : Text) (token : Option Text) → Response
  plain : Text → Response

-- The camera that a request names.
unfoldable pub requested : Request → Device
requested req = record {
  pid = req.get_param (codes "devid");
  groupid = req.get_param (codes "cmsid");
  name = req.get_param (codes "name");
  allday = int_word (atoi (req.get_param (codes "allday")));
  time_sec0 = req.get_param (codes "time_sec0");
  time_sec1 = req.get_param (codes "time_sec1");
  broadcast_address = req.get_param (codes "broadcast_address");
}

-- Does the request not come from a user's client? Then it comes from the web.
abbrev pub from_web : Request → Bool
from_web req = if text_beq (req.get_param (codes "clienttype")) (codes "1") then false else true

-- A user's client is answered, the web is not.
abbrev pub answer_to : Request → Text → Response
answer_to req text = if from_web req then untouched else json_string text

-- `HandleWriteoffCMSClient`.
unfoldable pub handle_writeoff_cms_client : Request → TcpServer → TcpServer × Response
handle_writeoff_cms_client req srv =
    let (srv', text) = writeoff_cms_client_account (req.get_param (codes "cmsid")) srv in
    (srv', json_string text)

module _ (styled : WebReply → Text) (seconds : Text → Option ℕ) {W : Type 0}
    (db : Option (Mysql W)) where
  -- `HandleGetCMSClientList`.
  unfoldable pub handle_get_cms_client_list : Request → W → Exec (W × Response)
  handle_get_cms_client_list req w = do
    (w', text) ← get_cms_client_list styled db (req.get_param (codes "kid")) w
    ok (w', json_string text)

  -- `HandleGetCMSClientInfo`.
  unfoldable pub handle_get_cms_client_info : Request → W → Exec (W × Response)
  handle_get_cms_client_info req w = do
    (w', text) ←
        get_cms_client_info styled db (req.get_param (codes "kid")) (req.get_param (codes "cmsid"))
          w
    ok (w', json_string text)

  -- `HandleRegistCMSClient`.
  unfoldable pub handle_regist_cms_client : Given → Request → W → Exec (W × Response)
  handle_regist_cms_client g req w = do
    (w', text) ←
        regist_cms_client_account styled db g (req.get_param (codes "kid"))
          (req.get_param (codes "password")) (req.get_param (codes "name")) w
    ok (w', json_string text)

  -- `HandleModifyCMSClient`.
  unfoldable pub handle_modify_cms_client : Given → Request → W → Exec (W × Response)
  handle_modify_cms_client g req w = do
    (w', text) ←
        modify_cms_client_account styled db g (req.get_param (codes "kid"))
          (req.get_param (codes "cmsid")) (atoi (req.get_param (codes "type")))
          (req.get_param (codes "value")) w
    ok (w', json_string text)

  -- `HandleAddCamera`.
  unfoldable pub handle_add_camera : Given → Request → Both W → Exec (Both W × Response)
  handle_add_camera g req s = do
    (s', text) ←
        web_add_camera styled db seconds g (from_web req) (req.get_param (codes "kid"))
          (requested req) s
    ok (s', answer_to req text)

  -- `HandleDelCamera`.
  unfoldable pub handle_del_camera : Given → Request → Both W → Exec (Both W × Response)
  handle_del_camera g req s = do
    (s', text) ←
        web_del_camera styled db g (from_web req) (req.get_param (codes "kid"))
          (req.get_param (codes "cmsid")) (req.get_param (codes "devid")) s
    ok (s', answer_to req text)

  -- `HandleModifyCamera`.
  unfoldable pub handle_modify_camera : Given → Request → Both W → Exec (Both W × Response)
  handle_modify_camera g req s = do
    (s', text) ←
        web_modify_camera styled db seconds g (from_web req) (req.get_param (codes "kid"))
          (requested req) s
    ok (s', answer_to req text)

module _ (seconds : Text → Option ℕ) {W : Type 0} (db : Option (Mysql W)) where
  -- `AdapterServer::NotifyStartPush` over the database helper.
  unfoldable pub start_push : Given → Turn → Text → Text → Both W → Exec (Both W × Push)
  start_push g t cmsid devid (w, srv) =
      if is_empty cmsid || is_empty devid then ok ((w, srv), invalid_parameter) else (do
        (w', ret) ← check_start_push seconds db g.time cmsid devid w
        (srv', p) ← notify_start_push (λ c d. ret) t cmsid devid srv
        ok ((w', srv'), p))

  -- `HandlePush`.
  unfoldable pub handle_push : Given → Turn → Request → Both W → Exec (Both W × Response)
  handle_push g t req s =
      let cmsid = req.get_param (codes "cmsid") in
      let devid = req.get_param (codes "devid") in
      if is_empty cmsid || is_empty devid
      then ok (s, object 200 (codes "param invalid!") none)
      else (do
        (s', p) ← start_push g t cmsid devid s
        ok (
          s',
          if int_beq p.ret (pos 0)
              then object 100 p.result (some p.token)
              else object 200 p.result none,
        ))

-- `HandleStopPush`.
unfoldable pub handle_stop_push : Turn → Request → TcpServer → Exec (TcpServer × Response)
handle_stop_push t req srv =
    let cmsid = req.get_param (codes "cmsid") in
    let devid = req.get_param (codes "devid") in
    if is_empty cmsid || is_empty devid
    then ok (srv, object 200 (codes "param invalid!") none)
    else (do
      (srv', p) ← server_notify_stop_push t cmsid devid srv
      ok (
        srv',
        if int_beq p.ret (pos 0)
            then object 100 p.result none
            else object 200 (codes "notify stop push stream fail!") none,
      ))

-- A field of the body as text: the reader may find no JSON, and a field of another type is an
-- exception.
unfoldable pub field : {V : Type 0} → Formats V → Text → Request → Exec (Option Text)
field formats name req = elim (formats.parse req.raw) [
  | none ↦ ok none
  | some v ↦ elim (formats.as_string name v) [ none ↦ crash | some s ↦ ok (some s) ]
]

-- `HandlePushCheck`.
unfoldable pub handle_check : {V : Type 0} → Formats V → Request → TcpServer → Exec Response
handle_check formats req srv = do
  url ← field formats (codes "tcUrl") req
  ok (plain (handle_push_check url srv))

-- The notice of a stream that `HandleHls` passes on, if the body could be read.
unfoldable pub notify_stream :
    {V W : Type 0} → Formats V → PlayctrlHandler W → PlayMngr W → Option Text → Exec (PlayMngr W)
notify_stream formats handler pm none = ok pm
notify_stream formats handler pm (some token) = do
  (pm', ret) ← notify_hls formats handler token pm
  ok pm'

-- `HandleHls`.
unfoldable pub handle_hls :
    {V W : Type 0} → Formats V → PlayctrlHandler W → Request → PlayMngr W → Exec (PlayMngr W)
handle_hls formats handler req pm =
    field formats (codes "stream") req >>= notify_stream formats handler pm
