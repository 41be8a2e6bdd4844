-- ===== src/Service/Changes.antt =====
-- atb_adapter/AdapterServer.cpp: what the operations of the web leave as it was.
use vm.Prelude.{ℕ, ◌≡◌, Bool, true, false, Option, none, some, List, [], arith, if◌then◌else◌}
use vm.Prelude.Exec.{Exec, ok, ◌>>=◌, >>=-eq-ok}
use vm.Prelude.Text.{Text}
use vm.Adapter.Server.{TcpServer}
use vm.Adapter.Control.{Turn, server_add_camera, server_modify_camera, server_del_camera}
use vm.Adapter.Unique.{IsValid}
use vm.Adapter.Events.{serve, add, change, delete}
use vm.Adapter.Lasting.{serve-IsValid}
use vm.Adapter.Session.{Accounts}
use vm.Db.Query.{Mysql}
use vm.Db.Camera.{Device}
use vm.Db.Balance.{
  Pool, Leaves, get_user_group-Leaves, get_group_info-Leaves, add_device-Leaves, mod_device-Leaves,
  del_device-Leaves,
}
use vm.Service.Admin.{
  WebReply, Both, Given, get_cms_client_list, get_cms_client_info, reply_and_tell, web_add_camera,
  web_del_camera, web_modify_camera,
}

abbrev turn : Given → Turn
turn g = record { net = g.net; now = 0; seq = g.seq; push_key = []; rounds = [] }

-- No accounts: the events of the web do not ask for them.
abbrev accounts : Accounts
accounts = record {
  check_login = λ cmsid password. (1, []);
  devices = λ cmsid. none;
  others = λ srv. srv;
}

module _ (seconds : Text → Option ℕ) where
  server_add_camera-IsValid :
      (g : Given) (cmsid pid name : Text) (allday : ℕ) (sec0 sec1 : Text) (srv : TcpServer)
      {srv' : TcpServer}
      → server_add_camera seconds g.net g.seq cmsid pid name allday sec0 sec1 srv ≡ ok srv'
      → IsValid srv
      → IsValid srv'
  unfolding serve
  server_add_camera-IsValid g cmsid pid name allday sec0 sec1 srv e v =
      serve-IsValid seconds accounts (λ c d. 0) (add (turn g) cmsid pid name allday sec0 sec1) srv
        tt e v

  server_modify_camera-IsValid :
      (cmsid pid : Text) (allday : ℕ) (sec0 sec1 : Text) (srv : TcpServer) {srv' : TcpServer}
      → server_modify_camera seconds cmsid pid allday sec0 sec1 srv ≡ ok srv'
      → IsValid srv
      → IsValid srv'
  unfolding serve
  server_modify_camera-IsValid cmsid pid allday sec0 sec1 srv e v =
      serve-IsValid seconds accounts (λ c d. 0) (change cmsid pid allday sec0 sec1) srv tt e v

  server_del_camera-IsValid :
      (g : Given) (cmsid pid : Text) (srv : TcpServer) {srv' : TcpServer}
      → server_del_camera g.net g.seq cmsid pid srv ≡ ok srv'
      → IsValid srv
      → IsValid srv'
  unfolding serve
  server_del_camera-IsValid g cmsid pid srv e v =
      serve-IsValid seconds accounts (λ c d. 0) (delete (turn g) cmsid pid) srv tt e v

module _ (styled : WebReply → Text) (seconds : Text → Option ℕ) {W : Type 0} (m : Mysql W)
    (idle : W → ℕ) (pool : Pool m idle) where
  -- As many idle connections as before, and clients that differ in socket and in id.
  abbrev pub Kept : Both W → Both W → Type 0
  Kept s s' = (idle s'.0 ≡ idle s.0) × IsValid s'.1

  reply_and_tell-Kept :
      (names : List Text) (tell : TcpServer → Exec TcpServer) (w : W) (srv : TcpServer)
      (e : Exec (W × ℕ)) {r : Both W × Text}
      → Leaves idle (idle w) e
      → IsValid srv
      → ((srv' : TcpServer) → tell srv ≡ ok srv' → IsValid srv')
      → (e >>= reply_and_tell styled (some m) names tell srv) ≡ ok r
      → Kept (w, srv) r.0
  unfolding reply_and_tell
  reply_and_tell-Kept names tell w srv e leaves v told q =
      let ((w', ret), first, second) =
        >>=-eq-ok e (reply_and_tell styled (some m) names tell srv) q in
      let left = leaves (w', ret) first in grind (arith, told)

  -- A request that is refused changes nothing.
  guarded-Kept :
      (refused : Bool) (text : Text) (s : Both W) (body : Exec (Both W × Text)) {r : Both W × Text}
      → (if refused then ok (s, text) else body) ≡ ok r
      → IsValid s.1
      → (body ≡ ok r → Kept s r.0)
      → Kept s r.0
  guarded-Kept true text s body e v kept = grind arith
  guarded-Kept false text s body e v kept = kept e

  pub web_add_camera-Kept :
      (g : Given) (from_web : Bool) (userid : Text) (d : Device) (s : Both W) {r : Both W × Text}
      → web_add_camera styled (some m) seconds g from_web userid d s ≡ ok r
      → IsValid s.1
      → Kept s r.0
  unfolding web_add_camera
  web_add_camera-Kept g true userid d (w, srv) e v =
      grind (arith, server_add_camera-IsValid seconds)
  web_add_camera-Kept g false userid d (w, srv) e v =
      guarded-Kept _ _ (w, srv) _ e v
        (reply_and_tell-Kept _ _ w srv _ (add_device-Leaves m idle pool seconds g.time d w) v
          λ srv' told. server_add_camera-IsValid seconds g _ _ _ _ _ _ srv told v)

  pub web_modify_camera-Kept :
      (g : Given) (from_web : Bool) (userid : Text) (d : Device) (s : Both W) {r : Both W × Text}
      → web_modify_camera styled (some m) seconds g from_web userid d s ≡ ok r
      → IsValid s.1
      → Kept s r.0
  unfolding web_modify_camera
  web_modify_camera-Kept g true userid d (w, srv) e v =
      grind (arith, server_modify_camera-IsValid seconds)
  web_modify_camera-Kept g false userid d (w, srv) e v =
      guarded-Kept _ _ (w, srv) _ e v
        (reply_and_tell-Kept _ _ w srv _ (mod_device-Leaves m idle pool seconds g.time d w) v
          λ srv' told. server_modify_camera-IsValid seconds _ _ _ _ _ srv told v)

  pub web_del_camera-Kept :
      (g : Given) (from_web : Bool) (userid cmsid pid : Text) (s : Both W) {r : Both W × Text}
      → web_del_camera styled (some m) g from_web userid cmsid pid s ≡ ok r
      → IsValid s.1
      → Kept s r.0
  unfolding web_del_camera
  web_del_camera-Kept g true userid cmsid pid (w, srv) e v =
      grind (arith, server_del_camera-IsValid seconds)
  web_del_camera-Kept g false userid cmsid pid (w, srv) e v =
      guarded-Kept _ _ (w, srv) _ e v
        (reply_and_tell-Kept _ _ w srv _ (del_device-Leaves m idle pool g.time cmsid pid w) v
          λ srv' told. server_del_camera-IsValid seconds g cmsid pid srv told v)

  pub get_cms_client_list-Leaves :
      (userid : Text) (w : W) → Leaves idle (idle w) (get_cms_client_list styled (some m) userid w)
  unfolding get_cms_client_list
  get_cms_client_list-Leaves userid w r e = grind (arith, get_user_group-Leaves m idle pool)

  pub get_cms_client_info-Leaves :
      (userid cmsid : Text) (w : W)
      → Leaves idle (idle w) (get_cms_client_info styled (some m) userid cmsid w)
  unfolding get_cms_client_info
  get_cms_client_info-Leaves userid cmsid w r e = grind (arith, get_group_info-Leaves m idle pool)
