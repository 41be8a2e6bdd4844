-- ===== src/Service/Timely.antt =====
-- atb_adapter/AdapterServer.cpp over db_helper.cpp: a camera is started only in its time.
use vm.Prelude.{ℕ, ◌≡◌, ◌<◌, true, Option, some, List, ◌∷◌, arith, length}
use vm.Prelude.Exec.{ok}
use vm.Prelude.Int.{pos}
use vm.Prelude.Text.{Text}
use vm.Adapter.Clock.{Sections}
use vm.Adapter.Server.{TcpServer, Push}
use vm.Adapter.Control.{Turn, notify_start_push}
use vm.Db.Sql.{sql_size, select_camera}
use vm.Db.Query.{Row, rows, Mysql}
use vm.Db.Camera.{check_sections}
use vm.Db.Login.{check_start_push-check_sections, check_sections_iff, Scheduled, InTime}
use vm.Service.Admin.{Given}
use vm.Service.Http.{start_push}

-- A start that the database does not let through fails.
notify_start_push_refused :
    (ret : ℕ) (t : Turn) (cmsid devid : Text) (srv : TcpServer) {r : TcpServer × Push}
    → notify_start_push (λ c d. ret) t cmsid devid srv ≡ ok r
    → r.1.ret ≡ pos 0
    → ret ≡ 0
unfolding notify_start_push
notify_start_push_refused ret t cmsid devid srv e s = grind arith

-- A camera is started through the database helper, which gets a connection, makes a statement that fits
-- its buffer, and is given a row with the flag 0 and the sections. If the start succeeds, the time of day
-- is in one of the sections, of which the first has a start; and the database is as after this one
-- statement, with the connection given back.
pub start_push-InTime :
    (seconds : Text → Option ℕ) {W : Type 0} (m : Mysql W) (g : Given) (turn : Turn)
    (cmsid devid : Text) (t : Sections) (r : Row) (rs : List Row) (w w' : W) (srv srv' : TcpServer)
    (p : Push)
    → (m.fetch w).1 ≡ true
    → length (select_camera cmsid devid) < sql_size
    → (m.query (select_camera cmsid devid) (m.fetch w).0).1 ≡ rows (r ∷ rs)
    → Scheduled t r
    → start_push seconds (some m) g turn cmsid devid (w, srv) ≡ ok ((w', srv'), p)
    → p.ret ≡ pos 0
    → InTime seconds g.time t
      × (w' ≡ m.recycle (m.query (select_camera cmsid devid) (m.fetch w).0).0)
unfolding start_push
start_push-InTime seconds m g turn cmsid devid t r rs w w' srv srv' p connected short answer cells e
      s =
    let checked =
      check_start_push-check_sections m w connected seconds g.time cmsid devid t r rs short answer
        cells in
    let let_through : check_sections seconds g.time t ≡ 0 =
      grind (arith, notify_start_push_refused) in
    let timely = (check_sections_iff seconds g.time t).0 let_through in (timely, grind arith)
