-- ===== src/Service/Admin.antt =====
-- atb_adapter/AdapterServer.cpp: the accounts and the cameras, as the web and a user's client ask for
-- them. `styled` is jsoncpp's `toStyledString`.
use vm.Prelude.{
  ℕ, zero, suc, Bool, true, false, not, ◌||◌, ◌&&◌, Option, List, [], ◌∷◌, if◌then◌else◌, nat_beq,
  ltb,
}
use vm.Prelude.Exec.{Exec, ok, ◌>>=◌}
use vm.Prelude.Int.{ℤ, pos, int_beq}
use vm.Prelude.Text.{Text, codes, is_empty}
use vm.Adapter.Server.{TcpServer, del_client_id}
use vm.Adapter.Control.{server_add_camera, server_modify_camera, server_del_camera}
use vm.Db.Query.{Mysql}
use vm.Db.Account.{add_group, mod_group}
use vm.Db.Camera.{Device, add_device, mod_device, del_device}
use vm.Db.Lists.{AdapterItem, CameraItem, get_user_group, get_group_info}

-- What a reply holds besides its code and its result.
pub data Extra : Type 0 where
  nothing : Extra
  new_cmsid : Text → Extra
  adapter_list : List AdapterItem → Extra
  camera_list : List CameraItem → Extra

pub record WebReply : Type 0 where
  pub code : ℕ
  pub result : Text
  pub extra : Extra

-- The result for a return code, by its place in the list.
unfoldable pub describe : List Text → ℕ → Text
describe [] ret = codes "error known!"
describe (d ∷ ds) zero = d
describe (d ∷ ds) (suc ret) = describe ds ret

-- The reply to a return code; with 0 it has something more.
unfoldable pub reply_to : List Text → ℕ → Extra → WebReply
reply_to names ret extra = record {
  code = if nat_beq ret 0 then 100 else 200;
  result = describe names ret;
  extra = if nat_beq ret 0 then extra else nothing;
}

abbrev pub invalid_reply : Text
invalid_reply = codes "{\"code\":200,\"result\":\"invalid parameter!\"}"

-- The state of the web's side: the database and the list of connected clients.
abbrev pub Both : Type 0 → Type 0
Both W = W × TcpServer

-- What the world gives one request: whether a send succeeds, a random number, the time of day, and a
-- new token.
pub record Given : Type 0 where
  pub net : Bool
  pub seq : ℕ
  pub time : Text
  pub token : Text

-- `AdapterServer::WriteoffCMSClientAccount`.
unfoldable pub writeoff_cms_client_account : Text → TcpServer → TcpServer × Text
writeoff_cms_client_account cmsid srv = (del_client_id cmsid srv, [])

module _ (styled : WebReply → Text) {W : Type 0} (db : Option (Mysql W)) where
  -- `AdapterServer::GetCMSClientList`.
  unfoldable pub get_cms_client_list : Text → W → Exec (W × Text)
  get_cms_client_list userid w = if is_empty userid then ok (w, invalid_reply) else (do
    (w', (ret, items)) ← get_user_group db userid w
    let names = codes "success!" ∷ codes "database err!" ∷ codes "user not exist!" ∷ []
    ok (w', styled (reply_to names ret (adapter_list items))))

  -- `AdapterServer::GetCMSClientInfo`.
  unfoldable pub get_cms_client_info : Text → Text → W → Exec (W × Text)
  get_cms_client_info userid cmsid w =
      if is_empty userid || is_empty cmsid then ok (w, invalid_reply) else (do
        (w', (ret, items)) ← get_group_info db userid cmsid w
        let names = codes "success!" ∷ codes "database err!" ∷ codes "group not exist!" ∷ []
        ok (w', styled (reply_to names ret (camera_list items))))

  -- `AdapterServer::RegistCMSClientAccount`.
  unfoldable pub regist_cms_client_account : Given → Text → Text → Text → W → Exec (W × Text)
  regist_cms_client_account g userid cmspsw name w =
      if is_empty userid || (is_empty cmspsw || is_empty name) then ok (w, invalid_reply) else (do
        (w', (ret, groupid)) ← add_group db g.time g.token userid cmspsw name w
        let names =
            codes "success!"
            ∷ codes "database err!"
            ∷ codes "group exist!"
            ∷ codes "reach max num,add fail!"
            ∷ []
        ok (w', styled (reply_to names ret (new_cmsid groupid))))

  -- `AdapterServer::ModifyCMSClientAccount`.
  unfoldable pub modify_cms_client_account : Given → Text → Text → ℤ → Text → W → Exec (W × Text)
  modify_cms_client_account g userid cmsid type value w =
      if is_empty userid
        || (is_empty cmsid
            || (is_empty value || (not (int_beq type (pos 0)) && not (int_beq type (pos 1)))))
      then ok (w, invalid_reply)
      else (do
        (w', ret) ← mod_group db g.time cmsid type value w
        let names = codes "success!" ∷ codes "database err!" ∷ codes "modify fail!" ∷ []
        ok (w', styled (reply_to names ret nothing)))

  -- The end of the three operations on a camera: where the database took the change, it is made to the
  -- connected client too, if there is one.
  unfoldable pub reply_and_tell :
      List Text → (TcpServer → Exec TcpServer) → TcpServer → W × ℕ → Exec (Both W × Text)
  reply_and_tell names tell srv (w, ret) = do
    srv' ← if nat_beq ret 0 then tell srv else ok srv
    ok ((w, srv'), styled (reply_to names ret nothing))

  -- `AdapterServer::DelCamera`.
  unfoldable pub web_del_camera : Given → Bool → Text → Text → Text → Both W → Exec (Both W × Text)
  web_del_camera g true userid cmsid pid (w, srv) = do
    srv' ← server_del_camera g.net g.seq cmsid pid srv
    ok ((w, srv'), [])
  web_del_camera g false userid cmsid pid (w, srv) =
      if is_empty userid || (is_empty cmsid || is_empty pid)
      then ok ((w, srv), invalid_reply)
      else (let names = codes "success!" ∷ codes "database err!" ∷ codes "camera not exist!" ∷ [] in
          let tell = server_del_camera g.net g.seq cmsid pid in
          del_device db g.time cmsid pid w >>= reply_and_tell names tell srv)

  module _ (seconds : Text → Option ℕ) where
    -- `AdapterServer::AddCamera`; the arguments are in `d`.
    unfoldable pub web_add_camera : Given → Bool → Text → Device → Both W → Exec (Both W × Text)
    web_add_camera g true userid d (w, srv) = do
      srv' ←
          server_add_camera seconds g.net g.seq d.groupid d.pid d.name d.allday d.time_sec0
            d.time_sec1 srv
      ok ((w, srv'), [])
    web_add_camera g false userid d (w, srv) =
        if is_empty userid || (is_empty d.groupid || (is_empty d.pid || is_empty d.name))
        then ok ((w, srv), invalid_reply)
        else (let names =
              codes "success!"
              ∷ codes "database err!"
              ∷ codes "invalid time schedule parameter!"
              ∷ codes "camera already added!"
              ∷ [] in
            let tell =
              server_add_camera seconds g.net g.seq d.groupid d.pid d.name d.allday d.time_sec0
                d.time_sec1 in
            add_device seconds db g.time d w >>= reply_and_tell names tell srv)

    -- `AdapterServer::ModifyCamera`.
    unfoldable pub web_modify_camera : Given → Bool → Text → Device → Both W → Exec (Both W × Text)
    web_modify_camera g true userid d (w, srv) = do
      srv' ← server_modify_camera seconds d.groupid d.pid d.allday d.time_sec0 d.time_sec1 srv
      ok ((w, srv'), [])
    web_modify_camera g false userid d (w, srv) =
        if is_empty userid
          || (is_empty d.groupid || (is_empty d.pid || (is_empty d.name || ltb 1 d.allday)))
        then ok ((w, srv), invalid_reply)
        else (let names =
              codes "success!"
              ∷ codes "database err!"
              ∷ codes "invalid time schedule parameter!"
              ∷ codes "modify fail!"
              ∷ [] in
            let tell =
              server_modify_camera seconds d.groupid d.pid d.allday d.time_sec0 d.time_sec1 in
            mod_device seconds db g.time d w >>= reply_and_tell names tell srv)
