-- ===== src/Wss/Events.antt =====
-- atb_wss as a whole: what may happen to the play manager, one event after another, in any order.
-- libwebsockets, the pool of workers, the web server and the state thread are the sources of events.
use vm.Prelude.{ℕ, List, [], ◌∷◌}
use vm.Prelude.Exec.{Exec, ok, ◌>>=◌}
use vm.Prelude.Text.{Text}
use vm.Wss.Server.{writeable}
use vm.Wss.PlayMngr.{Formats, PlayctrlHandler, PlayMngr, on_connect_wrapper, on_disconnect_wrapper}
use vm.Wss.Requests.{Rounds, handle_request, notify_hls, state_round}

pub data Event : Type 0 where
  connected : (time raw now socket : ℕ) → Event
  closed : (now socket : ℕ) → Event
  writable : (socket : ℕ) → Event
  request : (now socket : ℕ) (cmdline : Text) → Event
  hls : (token : Text) → Event
  round : (now : ℕ) → Event

pub record Service (W : Type 0) : Type 0 where
  pub pm : PlayMngr W
  pub rounds : Rounds

-- `PlayMngr::PlayMngr` and the start of `state_threadfunc`.
abbrev pub started : {W : Type 0} → W → Service W
started w = record {
  pm = record { connections = []; rooms = []; adapter = w };
  rounds = record { check = 0; sweep = 0 };
}

module _ {V W : Type 0} (formats : Formats V) (handler : PlayctrlHandler W) where
  unfoldable pub step : Event → Service W → Exec (Service W)
  step (connected time raw now socket) s = do
    pm ← on_connect_wrapper formats handler time raw now socket s.pm
    ok (record s { pm = pm })
  step (closed now socket) s = do
    pm ← on_disconnect_wrapper formats handler now socket s.pm
    ok (record s { pm = pm })
  step (writable socket) s =
      let pm = s.pm in
      ok (record s { pm = record pm { connections = (writeable socket pm.connections).0 } })
  step (request now socket cmdline) s = do
    (pm, _) ← handle_request formats handler now socket cmdline s.pm
    ok (record s { pm = pm })
  step (hls token) s = do (pm, _) ← notify_hls formats handler token s.pm; ok (record s { pm = pm })
  step (round now) s = do
    (rounds, pm) ← state_round formats handler now s.rounds s.pm
    ok (record { pm = pm; rounds = rounds })

  unfoldable pub run : List Event → Service W → Exec (Service W)
  run [] s = ok s
  run (e ∷ es) s = do s' ← step e s; run es s'
