-- ===== src/Service/Viewing.antt =====
-- AdapterService.cpp: the play manager over the adapter server. Whatever the viewers do, the list of
-- clients stays well formed.
use vm.Prelude.{ℕ, ◌≡◌, refl, none, List, [], arith}
use vm.Prelude.Exec.{ok}
use vm.Prelude.Text.{Text}
use vm.Wss.PlayMngr.{Formats}
use vm.Wss.Events.{Event, Service, run}
use vm.Wss.Keeping.{Keeps, run-Keeps}
use vm.Adapter.Server.{TcpServer, Push}
use vm.Adapter.Session.{Accounts}
use vm.Adapter.Control.{Turn, Adapter, adapter_handler, notify_start_push, server_notify_stop_push}
use vm.Adapter.Unique.{IsValid}
use vm.Adapter.Events.{serve, start, stop}
use vm.Adapter.Lasting.{serve-IsValid}

-- No accounts: these events do not ask for them.
abbrev accounts : Accounts
accounts = record {
  check_login = λ cmsid password. (1, []);
  devices = λ cmsid. none;
  others = λ srv. srv;
}

module _ (check_start_push : Text → Text → ℕ) where
  pub notify_start_push-IsValid :
      (t : Turn) (cmsid devid : Text) (srv : TcpServer) (r : TcpServer × Push)
      → notify_start_push check_start_push t cmsid devid srv ≡ ok r
      → IsValid srv
      → IsValid r.0
  unfolding serve
  notify_start_push-IsValid t cmsid devid srv r e v =
      serve-IsValid (λ s. none) accounts check_start_push (start t cmsid devid) srv {srv' = r.0} tt
        (rw e refl) v

  pub server_notify_stop_push-IsValid :
      (t : Turn) (cmsid devid : Text) (srv : TcpServer) (r : TcpServer × Push)
      → server_notify_stop_push t cmsid devid srv ≡ ok r
      → IsValid srv
      → IsValid r.0
  unfolding serve
  server_notify_stop_push-IsValid t cmsid devid srv r e v =
      serve-IsValid (λ s. none) accounts check_start_push (stop t cmsid devid) srv {srv' = r.0} tt
        (rw e refl) v

  adapter_handler-Keeps : Keeps (adapter_handler check_start_push) (λ a. IsValid a.server)
  adapter_handler-Keeps = record {
    check_play_status = λ cmsid devid a r e v. grind arith;
    start_play = λ cmsid devid a r e v. grind (arith, notify_start_push-IsValid);
    stop_play = λ cmsid devid a a' e v. grind (arith, server_notify_stop_push-IsValid);
  }

  -- Whatever the viewers, the stream notices and the state thread do, and in whatever order: the
  -- connected clients still differ in socket and in id, if they did before.
  pub run-IsValid_clients :
      {V : Type 0} (formats : Formats V) (es : List Event) (s s' : Service Adapter)
      → run formats (adapter_handler check_start_push) es s ≡ ok s'
      → IsValid s.pm.adapter.server
      → IsValid s'.pm.adapter.server
  run-IsValid_clients formats es s s' e v =
      run-Keeps formats (adapter_handler check_start_push) (λ a. IsValid a.server)
        adapter_handler-Keeps es s s' e v
