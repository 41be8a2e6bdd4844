-- ===== src/Process/Fixture.antt =====
-- A process with one client and one camera, for the tests.
use vm.Prelude.{ℕ, true, false, ◌++◌, replicate, Option, none, some, List, [], ◌∷◌, if◌then◌else◌}
use vm.Prelude.Int.{pos}
use vm.Prelude.Text.{Text, codes, text_key, text_beq}
use vm.Adapter.Client.{DeviceNode, CmsClient, new_device}
use vm.Adapter.Server.{TcpServer}
use vm.Adapter.Control.{Turn}
use vm.Db.Fixture.{World}
use vm.Process.Jobs.{Process, Work}
use vm.Service.Fixture.{formats, given, turn}
use vm.Service.Handler.{Ground}
use vm.Wss.Events.{started}
use vm.Wss.PlayMngr.{Formats}

-- The camera "p" of the client "a" is in this state.
abbrev pub door : ℕ → DeviceNode
door state = record (new_device (codes "p") (codes "door") 1 [] [] [] []) { state = state }

abbrev pub client : ℕ → CmsClient
client state = record {
  fd = 4;
  cmsid = codes "a";
  livecount = 0;
  devlist = (codes "p", door state) ∷ [];
  msglist = [];
}

abbrev pub server : ℕ → TcpServer
server state = record { clients = client state ∷ []; closed = []; sent = [] }

-- The database lets the camera be started at any time.
abbrev pub all_day : ℕ → List (List (Option Text))
all_day n = (none ∷ some (codes "p") ∷ none ∷ some (codes "door") ∷ some (codes "1") ∷ []) ∷ []

abbrev pub site : ℕ → Ground World
site state = record { db = (2, 0); server = server state; turns = λ n. (given, turn) }

-- No message comes while a call waits.
abbrev pub silent : Turn
silent = record { net = true; now = 0; seq = 6; push_key = codes "k"; rounds = [] }

-- Every line that is read asks for the camera.
abbrev pub talk : Formats Text
talk = record formats {
  parse = λ line. some line;
  is_object = λ v. true;
  as_int = λ name line. some (pos 100);
  as_string = λ name line. some (if text_beq name (codes "cmsid") then codes "a" else codes "p");
}

abbrev pub opening : Process World
opening = record {
  service = started (site 1);
  pool = record { tasks = []; limit = 0; stopped = false };
}

-- A worker that finds the client's heartbeat.
abbrev pub beat : Work
beat = record {
  net = true;
  now = 9;
  header_cuts = 80 ∷ [];
  body_cuts = [];
  stream = codes "atb" ++ (0 ∷ 16 ∷ 0 ∷ 1 ∷ 0 ∷ replicate 72 0);
  others = λ srv. srv;
}
