-- ===== src/Process/Rooms.antt =====
-- AdapterService.cpp: what the requests of the HTTP interface do to the rooms.
use vm.Prelude.{ℕ, Option, none, some}
use vm.Prelude.Exec.{Exec, ok, ◌>>=◌, Yields, ok-Yields, bind-Yields}
use vm.Prelude.Text.{Text, codes}
use vm.Db.Query.{Mysql}
use vm.Service.Admin.{WebReply, Both, Given}
use vm.Service.Handler.{db_handler}
use vm.Service.Http.{
  Request, Response, handle_get_cms_client_list, handle_get_cms_client_info, handle_add_camera,
  handle_del_camera, handle_modify_camera, handle_check, handle_hls, field, notify_stream,
}
use vm.Service.Routes.{
  Route, adapter_list, camera_list, add_camera, del_camera, mod_camera, check, hls, Site, server_of,
  both_of, put_both, serve_route,
}
use vm.Wss.Invariant.{notify_hls-IsValid}
use vm.Wss.PlayMngr.{Formats, PlayctrlHandler, PlayMngr}
use vm.Wss.Requests.{notify_hls}
use vm.Wss.Rooms.{IsValid}

module _ {V W : Type 0} (formats : Formats V) (handler : PlayctrlHandler W) where
  notify_stream-IsValid :
      (pm : PlayMngr W) (stream : Option Text)
      → IsValid pm
      → Yields IsValid (notify_stream formats handler pm stream)
  unfolding notify_stream
  notify_stream-IsValid pm none v = ok-Yields IsValid pm v
  notify_stream-IsValid pm (some token) v =
      bind-Yields IsValid (notify_hls formats handler token pm) _
        λ r told. ok-Yields IsValid r.0 (notify_hls-IsValid formats handler token pm told v)

  handle_hls-IsValid :
      (req : Request) (pm : PlayMngr W)
      → IsValid pm
      → Yields IsValid (handle_hls formats handler req pm)
  unfolding handle_hls
  handle_hls-IsValid req pm v =
      bind-Yields IsValid (field formats (codes "stream") req) _
        λ stream read. notify_stream-IsValid pm stream v

module _ {W : Type 0} where
  -- A handler that gives back its part of the state.
  put_back-IsValid :
      (s : Site W) (e : Exec (Both W × Response))
      → IsValid s
      → Yields (λ (r : Site W × Response). IsValid r.0) (do (b, res) ← e; ok (put_both b s, res))
  put_back-IsValid s e v =
      bind-Yields (λ r. IsValid r.0) e _ λ r done. ok-Yields (λ r. IsValid r.0) _ v

  put_db-IsValid :
      (s : Site W) (e : Exec (W × Response))
      → IsValid s
      → Yields
          (λ (r : Site W × Response). IsValid r.0)
          (do (w, res) ← e; ok (put_both (w, server_of s) s, res))
  put_db-IsValid s e v =
      bind-Yields (λ r. IsValid r.0) e _ λ r done. ok-Yields (λ r. IsValid r.0) _ v

module _ (styled : WebReply → Text) (seconds : Text → Option ℕ) {V : Type 0} (formats : Formats V)
    {W : Type 0} (db : Option (Mysql W)) where
  -- No request puts a viewer twice in a room.
  pub serve_route-Rooms :
      (route : Route) (g : Given) (req : Request) (s : Site W)
      → IsValid s
      → Yields (λ r. IsValid r.0) (serve_route styled seconds formats db route g req s)
  unfolding serve_route
  serve_route-Rooms adapter_list g req s v =
      put_db-IsValid s (handle_get_cms_client_list styled seconds db req s.adapter.db) v
  serve_route-Rooms camera_list g req s v =
      put_db-IsValid s (handle_get_cms_client_info styled seconds db req s.adapter.db) v
  serve_route-Rooms add_camera g req s v =
      put_back-IsValid s (handle_add_camera styled seconds db g req (both_of s)) v
  serve_route-Rooms del_camera g req s v =
      put_back-IsValid s (handle_del_camera styled seconds db g req (both_of s)) v
  serve_route-Rooms mod_camera g req s v =
      put_back-IsValid s (handle_modify_camera styled seconds db g req (both_of s)) v
  serve_route-Rooms check g req s v =
      bind-Yields _ (handle_check formats req (server_of s)) _
        λ res done. ok-Yields (λ r. IsValid r.0) _ v
  serve_route-Rooms hls g req s v =
      bind-Yields _ (handle_hls formats (db_handler seconds db) req s) _ λ s' told.
        ok-Yields (λ r. IsValid r.0) _
          (handle_hls-IsValid formats (db_handler seconds db) req s v s' told)
