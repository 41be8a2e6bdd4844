-- ===== src/Service/Fixture.antt =====
-- A client, its server and what the world gives, for the tests.
use vm.Adapter.Control.{Turn}
use vm.Prelude.{◌++◌, replicate, ℕ, true, Option, none, [], ◌∷◌}
use vm.Prelude.Exec.{Exec, ok, crash, no_fuel}
use vm.Prelude.Text.{Text, codes, text_key}
use vm.Wss.PlayMngr.{Formats}
use vm.Adapter.Client.{CmsClient, new_device}
use vm.Adapter.Server.{TcpServer}
use vm.Service.Admin.{WebReply, Given}

-- One client that is connected, with one camera that was never started.
abbrev pub client : CmsClient
client = record {
  fd = 4;
  cmsid = codes "a";
  livecount = 1000;
  devlist = (codes "p", new_device (codes "p") (codes "door") 1 [] [] [] []) ∷ [];
  msglist = [];
}

abbrev pub server : TcpServer
server = record { clients = client ∷ []; closed = []; sent = [] }

abbrev pub seconds : Text → Option ℕ
seconds s = none

abbrev pub styled : WebReply → Text
styled r = r.code ∷ []

abbrev pub given : Given
given = record { net = true; seq = 3; time = codes "now"; token = codes "new" }

abbrev pub value : {A : Type 0} → Exec A → A → A
value (ok a) b = a
value crash b = b
value no_fuel b = b

-- jsoncpp reads nothing here.
abbrev pub formats : Formats Text
formats = record {
  parse = λ line. none;
  is_object = λ v. true;
  as_int = λ name v. none;
  as_string = λ name v. none;
  to_styled_string = λ r. r.code ∷ [];
  to_string = λ n. n ∷ [];
}

abbrev pub turn : Turn
turn = record {
  net = true;
  now = 0;
  seq = 6;
  push_key = codes "k";
  rounds =
      []
      ∷ (record {
        kind = 0x10031;
        timestamp = 0;
        seqnum = 6;
        buf = 100 ∷ replicate 263 0 ++ (codes "t" ++ replicate 83 0);
      }
          ∷ [])
      ∷ [];
}
