-- ===== src/Adapter/Refresh.antt =====
-- atb_adapter/cms_client.cpp and server_tcpsrv.cpp: `CheckState`, and the look at all clients with
-- which each turn of the server's loop begins.
use vm.Prelude.{
  ℕ, ◌-◌, ◌*◌, Bool, true, false, Option, none, some, List, [], ◌∷◌, ◌++◌, if◌then◌else◌, length,
  take, nat_beq, replicate,
}
use vm.Prelude.Exec.{Exec, ok, ◌>>=◌}
use vm.Prelude.Text.{Text}
use vm.Adapter.Wire.{Frame, group_stop_push, header_size}
use vm.Adapter.Client.{CmsClient, stop_over, is_silent}
use vm.Adapter.Server.{TcpServer}
use vm.Adapter.Session.{write_ids}

-- What `CheckState` leaves: the client, whether it stays, and the message that was sent.
pub record Checked : Type 0 where
  pub client : CmsClient
  pub stays : Bool
  pub notice : Option Frame

module _ (seconds : Text → Option ℕ) where
  -- `CheckState`: false for a client that is silent, or that could not be told to stop its cameras.
  -- The source builds the message in 5 KB, after the header.
  unfoldable pub check_state : Bool → ℕ → Text → CmsClient → Exec Checked
  check_state net now time c =
      if is_silent now c
      then ok (record { client = c; stays = false; notice = none })
      else (let (devs, pids) = stop_over seconds time c.devlist in
          let c' = record c { devlist = devs } in
          do
            buf ← write_ids 0 pids (replicate (5 * 1024 - header_size) 0)
            ok (
                if nat_beq (length pids) 0
                then record { client = c'; stays = true; notice = none }
                else record {
                  client = c';
                  stays = net;
                  notice =
                      if net
                      then some (record {
                        cmd = group_stop_push;
                        seq = 0;
                        body = take (20 * length pids) buf;
                      })
                      else none;
                }))

  -- The clients that stay, the sockets that are closed, and what was sent.
  unfoldable pub refresh_clients :
      (ℕ → Bool) → ℕ → Text → List CmsClient → Exec (List CmsClient × List ℕ × List (ℕ × Frame))
  refresh_clients net now time [] = ok ([], [], [])
  refresh_clients net now time (c ∷ cs) = do
    r ← check_state (net c.fd) now time c
    (kept, closed, sent) ← refresh_clients net now time cs
    ok (
      if r.stays then r.client ∷ kept else kept,
      if r.stays then closed else c.fd ∷ closed,
      elim r.notice [ none ↦ sent | some f ↦ (c.fd, f) ∷ sent ],
    )

  -- The loop at the start of `Run`'s turn.
  unfoldable pub refresh : (ℕ → Bool) → ℕ → Text → TcpServer → Exec TcpServer
  refresh net now time srv = do
    (kept, closed, sent) ← refresh_clients net now time srv.clients
    ok (record { clients = kept; closed = closed ++ srv.closed; sent = srv.sent ++ sent })
