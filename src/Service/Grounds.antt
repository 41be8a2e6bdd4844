-- ===== src/Service/Grounds.antt =====
-- AdapterService.cpp over the database: what the handler of the play manager, and what a socket sends,
-- leave as it was: the number of idle connections, and that the clients differ.
use vm.Prelude.{
  ℕ, length, not, ◌≡◌, ◌∙◌, refl, Bool, true, false, ◌||◌, Option, none, some, List, [], arith,
  drop, nat_beq, if◌then◌else◌,
}
use vm.Prelude.Exec.{ok, Yields, ok-Yields, bind-Yields, if-Yields, option-Yields}
use vm.Prelude.Text.{Text, is_empty}
use vm.Wss.Keeping.{Keeps}
use vm.Adapter.Wire.{Incoming, bad, empty, message, req_login, req_login_size, c_string}
use vm.Adapter.Server.{TcpServer, find_client, has_fd, get_client, close_fd}
use vm.Adapter.Session.{DeviceRow, handle_login}
use vm.Adapter.Control.{Turn, notify_start_push}
use vm.Adapter.Unique.{
  LogsNobodyIn, IsValid, serve_client-IsValid, handle_login-IsValid, del_client-IsValid,
}
use vm.Db.Query.{Mysql}
use vm.Db.Account.{check_login}
use vm.Db.Camera.{check_start_push}
use vm.Db.Lists.{get_group_info_ex}
use vm.Db.Balance.{Pool, check_start_push-Leaves, check_login-Leaves, get_group_info_ex-Leaves}
use vm.Service.Admin.{Both, Given}
use vm.Service.Http.{start_push}
use vm.Service.Login.{answers, db_login}
use vm.Service.Reading.{db_stranger, db_handler_read, db_incoming, db_read_task}
use vm.Service.Handler.{both, db_handler}
use vm.Service.Viewing.{notify_start_push-IsValid, server_notify_stop_push-IsValid}

module _ {W : Type 0} (m : Mysql W) (idle : W → ℕ) (pool : Pool m idle) where
  -- `n` idle connections, and clients that differ in socket and in id.
  abbrev pub Fine : ℕ → Both W → Type 0
  Fine n b = (idle b.0 ≡ n) × IsValid b.1

  start_push-Fine :
      (seconds : Text → Option ℕ) (g : Given) (t : Turn) (cmsid devid : Text) (b : Both W) (n : ℕ)
      → Fine n b
      → Yields (λ r. Fine n r.0) (start_push seconds (some m) g t cmsid devid b)
  unfolding start_push
  start_push-Fine seconds g t cmsid devid (w, srv) n f =
      if-Yields _ (is_empty cmsid || is_empty devid) _ _ (λ _. ok-Yields _ _ f)
        λ _.
          bind-Yields _ (check_start_push seconds (some m) g.time cmsid devid w) _
            λ (w', ret) asked.
              bind-Yields _ (notify_start_push (λ c d. ret) t cmsid devid srv) _ λ r told.
                ok-Yields _ _ (
                  check_start_push-Leaves m idle pool seconds g.time cmsid devid w (w', ret) asked
                      ∙ f.0,
                  notify_start_push-IsValid (λ c d. ret) t cmsid devid srv r told f.1,
                )

  -- The handler keeps what is fine.
  pub db_handler-Keeps :
      (seconds : Text → Option ℕ) (n : ℕ)
      → Keeps (db_handler seconds (some m)) (λ g. Fine n (both g))
  db_handler-Keeps seconds n = record {
    check_play_status = λ cmsid devid g r e f. grind arith;
    start_play = λ cmsid devid g r e f.
        bind-Yields (λ r. Fine n (both r.0)) _ _
          (λ s started. ok-Yields _ _ (
            start_push-Fine seconds (g.turns 0).0 (g.turns 0).1 cmsid devid (both g) n f s started))
          r e;
    stop_play = λ cmsid devid g g' e f.
        bind-Yields (λ r. Fine n (both r)) _ _
          (λ s stopped. ok-Yields _ _ (
            f.0,
            server_notify_stop_push-IsValid (λ c d. 0) (g.turns 0).1 cmsid devid g.server s stopped
                f.1,
          ))
          g' e;
  }

  module _ (others : TcpServer → TcpServer) (alone : LogsNobodyIn others) where
    db_login-Fine :
        (net : Bool) (now fd seq : ℕ) (body : Text) (b : Both W) (n : ℕ)
        → find_client (has_fd fd) b.1.clients ≡ none
        → Fine n b
        → Yields (Fine n) (db_login others net now (some m) fd seq body b)
    unfolding db_login
    db_login-Fine net now fd seq body (w, srv) n absent f =
        bind-Yields _ (c_string body) _ λ cmsid _.
          bind-Yields _ (c_string (drop 20 body)) _ λ password _.
            option-Yields _ (get_client cmsid srv) _ _
              (λ _. bind-Yields _ (check_login (some m) cmsid password w) _ λ (w1, login) checked.
                bind-Yields _
                  (if nat_beq login.0 0 then get_group_info_ex (some m) cmsid w1 else ok (w1, none))
                  _
                  λ (w2, rows) listed.
                    bind-Yields _ (handle_login net now (answers others login rows) fd seq body srv)
                      _
                      λ srv' answered. ok-Yields _ _ (
                        listed_idle (nat_beq login.0 0) cmsid w1 (w2, rows) listed
                            ∙ (check_login-Leaves m idle pool cmsid password w (w1, login) checked
                                ∙ f.0),
                        handle_login-IsValid net now (answers others login rows) fd seq body srv
                            alone answered absent f.1,
                      ))
              (λ c known.
                bind-Yields _ (handle_login net now (answers others (1, []) none) fd seq body srv) _
                  λ srv' answered. ok-Yields _ _ (
                    f.0,
                    handle_login-IsValid net now (answers others (1, []) none) fd seq body srv alone
                        answered absent f.1,
                  ))
      where
        listed_idle :
            (let_in : Bool) (cmsid : Text) (w1 : W) (r : W × Option (List DeviceRow))
            → (if let_in then get_group_info_ex (some m) cmsid w1 else ok (w1, none)) ≡ ok r
            → idle r.0 ≡ idle w1
        listed_idle true cmsid w1 r e = get_group_info_ex-Leaves m idle pool cmsid w1 r e
        listed_idle false cmsid w1 r e = let same : w1 ≡ r.0 = grind arith in rw same refl

    db_stranger-Fine :
        (net : Bool) (now fd cmd seq : ℕ) (body : Option Text) (b : Both W) (n : ℕ)
        → find_client (has_fd fd) b.1.clients ≡ none
        → Fine n b
        → Yields (Fine n) (db_stranger others (some m) net now fd cmd seq body b)
    unfolding db_stranger close_fd
    db_stranger-Fine net now fd cmd seq none (w, srv) n absent f = ok-Yields _ _ f
    db_stranger-Fine net now fd cmd seq (some body) (w, srv) n absent f =
        if-Yields _ (not (nat_beq cmd req_login) || not (nat_beq (length body) req_login_size)) _ _
          (λ _. ok-Yields _ _ f) (λ _. db_login-Fine net now fd seq body (w, srv) n absent f)

    db_handler_read-Fine :
        (net : Bool) (now fd cmd seq : ℕ) (body : Option Text) (b : Both W) (n : ℕ)
        → Fine n b
        → Yields (Fine n) (db_handler_read others (some m) net now fd cmd seq body b)
    unfolding db_handler_read
    db_handler_read-Fine net now fd cmd seq body (w, srv) n f =
        option-Yields _ (find_client (has_fd fd) srv.clients) _ _
          (λ absent. db_stranger-Fine net now fd cmd seq body (w, srv) n absent f)
          (λ c here. bind-Yields _ _ _ λ srv' served.
            ok-Yields _ _ (f.0, serve_client-IsValid net now cmd seq fd body c srv served here f.1))

    db_incoming-Fine :
        (net : Bool) (now fd : ℕ) (i : Incoming) (b : Both W) (n : ℕ)
        → Fine n b
        → Yields (Fine n) (db_incoming others (some m) net now fd i b)
    unfolding db_incoming
    db_incoming-Fine net now fd bad (w, srv) n f =
        ok-Yields _ _ (f.0, del_client-IsValid fd srv f.1)
    db_incoming-Fine net now fd (empty cmd) b n f = db_handler_read-Fine net now fd cmd 0 none b n f
    db_incoming-Fine net now fd (message cmd seq body) b n f =
        db_handler_read-Fine net now fd cmd seq (some body) b n f

    -- A socket that is read keeps what is fine.
    pub db_read_task-Fine :
        (net : Bool) (now fd : ℕ) (header_cuts body_cuts : List ℕ) (stream : Text) (b : Both W)
        (n : ℕ)
        → Fine n b
        → Yields (Fine n) (db_read_task others (some m) net now fd header_cuts body_cuts stream b)
    unfolding db_read_task
    db_read_task-Fine net now fd header_cuts body_cuts stream b n f =
        bind-Yields _ _ _ λ i read. db_incoming-Fine net now fd i b n f
