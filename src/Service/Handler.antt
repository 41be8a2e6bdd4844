-- ===== src/Service/Handler.antt =====
-- AdapterService.cpp: the handler that the play manager uses, over the database helper and the list of
-- clients.
use vm.Prelude.{ℕ, suc, Option}
use vm.Prelude.Exec.{ok, ◌>>=◌}
use vm.Prelude.Text.{Text}
use vm.Wss.PlayMngr.{PlayctrlHandler}
use vm.Adapter.Server.{TcpServer}
use vm.Adapter.Control.{Turn, check_status, server_notify_stop_push}
use vm.Db.Query.{Mysql}
use vm.Service.Admin.{Both, Given}
use vm.Service.Http.{start_push}

-- What the handler works on: the database, the list of clients, and what is to come for its next
-- calls.
pub record Ground (W : Type 0) : Type 0 where
  pub db : W
  pub server : TcpServer
  pub turns : ℕ → Given × Turn

abbrev pub both : {W : Type 0} → Ground W → Both W
both g = (g.db, g.server)

abbrev pub with_both : {W : Type 0} → Both W → Ground W → Ground W
with_both (w, srv) g = record g { db = w; server = srv }

-- The state after a call, which has used up its turn.
abbrev pub next : {W : Type 0} → Both W → Ground W → Ground W
next (w, srv) g = record { db = w; server = srv; turns = λ n. g.turns (suc n) }

abbrev pub db_handler :
    {W : Type 0} → (Text → Option ℕ) → Option (Mysql W) → PlayctrlHandler (Ground W)
db_handler seconds db = record {
  check_play_status = λ cmsid devid g. do
    ret ← check_status cmsid devid g.server
    ok (g, ret);
  start_play = λ cmsid devid g. do
    (b, p) ← start_push seconds db (g.turns 0).0 (g.turns 0).1 cmsid devid (both g)
    ok (next b g, record { ret = p.ret; result = p.result; token = p.token });
  stop_play = λ cmsid devid g. do
    (srv, p) ← server_notify_stop_push (g.turns 0).1 cmsid devid g.server
    ok (next (g.db, srv) g);
}
