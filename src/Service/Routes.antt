-- ===== src/Service/Routes.antt =====
-- AdapterService.cpp: the paths that `Start` maps, and the service's state behind them. A path that is
-- not mapped is answered by the HTTP server.
use vm.Prelude.{ℕ, Bool, true, false, Option, List, [], ◌∷◌}
use vm.Prelude.Exec.{Exec, ok, ◌>>=◌}
use vm.Prelude.Text.{Text, codes}
use vm.Wss.PlayMngr.{Formats, PlayMngr}
use vm.Adapter.Server.{TcpServer}
use vm.Db.Query.{Mysql}
use vm.Service.Admin.{WebReply, Both, Given}
use vm.Service.Handler.{Ground, both, with_both, db_handler}
use vm.Service.Http.{
  Request, Response, untouched, handle_get_cms_client_list, handle_get_cms_client_info,
  handle_add_camera, handle_del_camera, handle_modify_camera, handle_check, handle_hls,
}

pub data Route : Type 0 where
  adapter_list : Route
  camera_list : Route
  add_camera : Route
  del_camera : Route
  mod_camera : Route
  check : Route
  hls : Route

-- The mapped paths, with their methods: true is GET, false POST.
abbrev pub mappings : List (Text × (Bool × Route))
mappings =
    (codes "/get_adapterlist", (true, adapter_list))
    ∷ (codes "/get_cameralist", (true, camera_list))
    ∷ (codes "/add_camera", (true, add_camera))
    ∷ (codes "/del_camera", (true, del_camera))
    ∷ (codes "/mod_camera", (true, mod_camera))
    ∷ (codes "/check", (false, check))
    ∷ (codes "/hls", (false, hls))
    ∷ []

-- The state of the service: the play manager, over the database and the adapter server.
abbrev pub Site : Type 0 → Type 0
Site W = PlayMngr (Ground W)

abbrev pub server_of : {W : Type 0} → Site W → TcpServer
server_of s = s.adapter.server

abbrev pub both_of : {W : Type 0} → Site W → Both W
both_of s = both s.adapter

abbrev pub put_both : {W : Type 0} → Both W → Site W → Site W
put_both b s = record s { adapter = with_both b s.adapter }

module _ (styled : WebReply → Text) (seconds : Text → Option ℕ) {V : Type 0} (formats : Formats V)
    {W : Type 0} (mysql : Option (Mysql W)) where
  -- One request.
  unfoldable pub serve_route : Route → Given → Request → Site W → Exec (Site W × Response)
  serve_route adapter_list g req s = do
    (w, res) ← handle_get_cms_client_list styled seconds mysql req s.adapter.db
    ok (put_both (w, server_of s) s, res)
  serve_route camera_list g req s = do
    (w, res) ← handle_get_cms_client_info styled seconds mysql req s.adapter.db
    ok (put_both (w, server_of s) s, res)
  serve_route add_camera g req s = do
    (b, res) ← handle_add_camera styled seconds mysql g req (both_of s)
    ok (put_both b s, res)
  serve_route del_camera g req s = do
    (b, res) ← handle_del_camera styled seconds mysql g req (both_of s)
    ok (put_both b s, res)
  serve_route mod_camera g req s = do
    (b, res) ← handle_modify_camera styled seconds mysql g req (both_of s)
    ok (put_both b s, res)
  serve_route check g req s = do res ← handle_check formats req (server_of s); ok (s, res)
  serve_route hls g req s = do
    s' ← handle_hls formats (db_handler seconds mysql) req s
    ok (s', untouched)

  -- Requests, one after another.
  unfoldable pub serve_routes : List (Route × (Given × Request)) → Site W → Exec (Site W)
  serve_routes [] s = ok s
  serve_routes ((r, (g, req)) ∷ rest) s = do (s', res) ← serve_route r g req s; serve_routes rest s'
