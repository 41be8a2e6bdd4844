-- ===== src/Service/Keeping.antt =====
-- AdapterService.cpp: what the requests of the HTTP interface leave as it was.
use vm.Prelude.{ℕ, ◌≡◌, ◌∙◌, refl, Option, none, some, List, [], ◌∷◌, arith}
use vm.Prelude.Exec.{Exec, ok, crash, no_fuel, ◌>>=◌, >>=-eq-ok}
use vm.Prelude.Int.{ℤ}
use vm.Prelude.Text.{Text, codes}
use vm.Wss.PlayMngr.{Formats, PlayMngr}
use vm.Wss.Requests.{notify_hls}
use vm.Adapter.Unique.{IsValid}
use vm.Db.Query.{Mysql}
use vm.Db.Balance.{Pool}
use vm.Service.Admin.{WebReply, Both, Given}
use vm.Service.Handler.{Ground, db_handler}
use vm.Service.Http.{
  Request, Response, answer_to, handle_get_cms_client_list, handle_get_cms_client_info,
  handle_add_camera, handle_del_camera, handle_modify_camera, handle_hls, field, notify_stream,
}
use vm.Service.Routes.{
  Route, adapter_list, camera_list, add_camera, del_camera, mod_camera, check, hls, Site, server_of,
  both_of, put_both, serve_route, serve_routes,
}
use vm.Service.Changes.{
  Kept, web_add_camera-Kept, web_modify_camera-Kept, web_del_camera-Kept,
  get_cms_client_list-Leaves, get_cms_client_info-Leaves,
}

module _ (styled : WebReply → Text) (seconds : Text → Option ℕ) {W : Type 0} (m : Mysql W)
    (idle : W → ℕ) (pool : Pool m idle) where
  module _ {V : Type 0} (formats : Formats V) where
    notify_hls-adapter :
        (token : Text) (pm : PlayMngr (Ground W)) {r : PlayMngr (Ground W) × ℤ}
        → notify_hls formats (db_handler seconds (some m)) token pm ≡ ok r
        → r.0.adapter ≡ pm.adapter
    unfolding notify_hls
    notify_hls-adapter token pm e = grind arith

    notify_stream-adapter :
        (stream : Option Text) (pm : PlayMngr (Ground W)) {pm' : PlayMngr (Ground W)}
        → notify_stream formats (db_handler seconds (some m)) pm stream ≡ ok pm'
        → pm'.adapter ≡ pm.adapter
    unfolding notify_stream
    notify_stream-adapter none pm e = grind arith
    notify_stream-adapter (some token) pm e = grind (arith, notify_hls-adapter)

    handle_hls-adapter :
        (req : Request) (pm : PlayMngr (Ground W)) {pm' : PlayMngr (Ground W)}
        → handle_hls formats (db_handler seconds (some m)) req pm ≡ ok pm'
        → pm'.adapter ≡ pm.adapter
    unfolding handle_hls
    handle_hls-adapter req pm e =
        let (stream, first, second) = >>=-eq-ok (field formats (codes "stream") req) _ e in
        notify_stream-adapter stream pm second

    abbrev SiteKept : Site W → Site W → Type 0
    SiteKept s s' = (idle s'.adapter.db ≡ idle s.adapter.db) × IsValid (server_of s')

    -- The two wrappers of a request on a camera.
    answered-Kept :
        (req : Request) (s : Both W) (e : Exec (Both W × Text)) {r : Both W × Response}
        → (do (s', text) ← e; ok (s', answer_to req text)) ≡ ok r
        → ((t : Both W × Text) → e ≡ ok t → Kept styled seconds m idle pool s t.0)
        → Kept styled seconds m idle pool s r.0
    answered-Kept req s (ok t) e kept = grind (arith, kept t refl)
    answered-Kept req s crash e kept = grind arith
    answered-Kept req s no_fuel e kept = grind arith

    put_back-Kept :
        (s : Site W) (e : Exec (Both W × Response)) {r : Site W × Response}
        → (do (b, res) ← e; ok (put_both b s, res)) ≡ ok r
        → ((t : Both W × Response) → e ≡ ok t → Kept styled seconds m idle pool (both_of s) t.0)
        → SiteKept s r.0
    put_back-Kept s (ok t) e kept = grind (arith, kept t refl)
    put_back-Kept s crash e kept = grind arith
    put_back-Kept s no_fuel e kept = grind arith

    same_adapter-Kept :
        (s s' : Site W) → s'.adapter ≡ s.adapter → IsValid (server_of s) → SiteKept s s'
    same_adapter-Kept s s' same v = rw same (refl, v)

    pub serve_route-Kept :
        (route : Route) (g : Given) (req : Request) (s : Site W) {r : Site W × Response}
        → serve_route styled seconds formats (some m) route g req s ≡ ok r
        → IsValid (server_of s)
        → SiteKept s r.0
    unfolding serve_route handle_get_cms_client_list handle_get_cms_client_info handle_add_camera
        handle_del_camera handle_modify_camera
    serve_route-Kept adapter_list g req s e v =
        grind (arith, get_cms_client_list-Leaves styled seconds m idle pool)
    serve_route-Kept camera_list g req s e v =
        grind (arith, get_cms_client_info-Leaves styled seconds m idle pool)
    serve_route-Kept add_camera g req s e v = put_back-Kept s _ e λ b q.
        answered-Kept req (both_of s) _ q
          λ t asked. web_add_camera-Kept styled seconds m idle pool g _ _ _ _ asked v
    serve_route-Kept del_camera g req s e v = put_back-Kept s _ e λ b q.
        answered-Kept req (both_of s) _ q
          λ t asked. web_del_camera-Kept styled seconds m idle pool g _ _ _ _ _ asked v
    serve_route-Kept mod_camera g req s e v = put_back-Kept s _ e λ b q.
        answered-Kept req (both_of s) _ q
          λ t asked. web_modify_camera-Kept styled seconds m idle pool g _ _ _ _ asked v
    serve_route-Kept check g req s e v = grind arith
    serve_route-Kept hls g req s {r} e v =
        let (s', first, second) =
          >>=-eq-ok (handle_hls formats (db_handler seconds (some m)) req s) _ e in
        let same = handle_hls-adapter req s first in
        let here : s' ≡ r.0 = cc in same_adapter-Kept s r.0 (rw here at same) v

    -- Whatever is asked over HTTP, and in whatever order: the pool has as many idle connections after
    -- the requests as before, and the connected clients still differ in socket and in id, if they did.
    pub serve_routes-Kept :
        (rs : List (Route × (Given × Request))) (s : Site W) {s' : Site W}
        → serve_routes styled seconds formats (some m) rs s ≡ ok s'
        → IsValid (server_of s)
        → (idle s'.adapter.db ≡ idle s.adapter.db) × IsValid (server_of s')
    unfolding serve_routes
    serve_routes-Kept [] s e v = ground arith
    serve_routes-Kept ((route, (g, req)) ∷ rs) s e v =
        let ((s1, res), first, others) =
          >>=-eq-ok (serve_route styled seconds formats (some m) route g req s) _ e in
        let (same, v1) = serve_route-Kept route g req s first v in
        let (same', v') = serve_routes-Kept rs s1 others v1 in (same' ∙ same, v')
