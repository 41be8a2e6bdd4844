-- ===== src/Adapter/Faults.antt =====
-- atb_adapter/server_tcpsrv.cpp: a message that makes the server fault.
use vm.Prelude.{ℕ, ◌≡◌, refl, Bool, some}
use vm.Prelude.Exec.{crash}
use vm.Adapter.Wire.{empty, update_change}
use vm.Adapter.Client.{CmsClient, handle_update_change}
use vm.Adapter.Server.{TcpServer, find_client, has_fd}
use vm.Adapter.Session.{Accounts, serve_client, handler_read, handle_incoming}

-- An `UPDATE_CHANGE` without a body from any logged-in client reads through the null buffer.
pub handle_incoming_empty_change :
    (net : Bool) (now : ℕ) (db : Accounts) (fd : ℕ) (c : CmsClient) (srv : TcpServer)
    → find_client (has_fd fd) srv.clients ≡ some c
    → handle_incoming net now db fd (empty update_change) srv ≡ crash
unfolding handle_incoming handler_read serve_client handle_update_change
handle_incoming_empty_change net now db fd c srv known =
    rw (known, handle_incoming, handler_read) refl
