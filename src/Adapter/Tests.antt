-- ===== src/Adapter/Tests.antt =====
-- The adapter's server at concrete inputs.
use vm.Adapter.Sending.{part, again, et_send, Whole, et_send_returns}
use vm.Prelude.{
  ℕ, ◌≡◌, refl, true, Option, none, some, [], ◌∷◌, ◌++◌, arith, find, insert, zero, suc, replicate,
  All,
}
use vm.Prelude.Exec.{Exec, ok, crash, no_fuel}
use vm.Prelude.Int.{ℤ, pos}
use vm.Prelude.Text.{Text, codes, text_beq, text_before, find_text, starts_with, text_key}
use vm.Adapter.Clock.{Six, check_internal, time_compare}
use vm.Adapter.Wire.{
  Frame, message, int_bytes, int_at, et_recv, encode, read_body, read_message, padded, char_array,
  c_string, req_login, keep_alive,
}
use vm.Adapter.Client.{
  DeviceNode, MessageNode, CmsClient, new_client, wait_loop, take_answer, wait_for_response,
  drop_old, is_over, stop_over, is_silent, set_device,
}
use vm.Adapter.Server.{
  del_client_id, Push, TcpServer, find_client, set_client, erase_client, put_client, transmit,
  start_answer, notify_push, notify_stop_push, del_client, close_fd,
}
use vm.Adapter.Session.{
  Accounts, write_at, write_ids, enter_rows, row_ids, log_in, login_answer, handle_login,
  serve_client, serve_stranger, handler_read, handle_incoming,
}
use vm.Adapter.Refresh.{check_state, refresh_clients, refresh}
use vm.Adapter.Reading.{Flows, Sendable, read_message-encode}
use vm.Adapter.Unique.{IsValid}
use vm.Adapter.Waiting.{wait_loop_answered}
use vm.Adapter.Schedule.{InTime, refresh-InTime}
use vm.Adapter.Control.{Turn, notify_start_push, server_check_push}
use vm.Adapter.Play.{server_check_push-notify_push}
use vm.Adapter.Unique.{idle-LogsNobodyIn}
use vm.Adapter.Events.{incoming, start, round, write_off, serve, serve_all}
use vm.Adapter.Lasting.{serve_all-IsValid}
use vm.Adapter.PushUrl.{check_push_parser, check_push_parser-push_url}

-- One client with one camera, which plays until noon.
abbrev device : DeviceNode
device = record {
  pid = codes "p";
  name = codes "door";
  token = [];
  state = 1;
  allday = 0;
  s0 = codes "1";
  e0 = codes "3";
  s1 = [];
  e1 = [];
  key = [];
}

abbrev client : CmsClient
client = record {
  fd = 4;
  cmsid = codes "a";
  livecount = 1000;
  devlist = (codes "p", device) ∷ [];
  msglist = [];
}

abbrev server : TcpServer
server = record { clients = client ∷ []; closed = []; sent = [] }

abbrev accounts : Accounts
accounts = record {
  check_login = λ cmsid password. (0, codes "u");
  devices = λ cmsid. some [];
  others = λ srv. srv;
}

-- The first character is the time.
abbrev seconds : Text → Option ℕ
seconds s = elim s [ [] ↦ none | c ∷ rest ↦ some c ]

abbrev value : {A : Type 0} → Exec A → A → A
value (ok a) b = a
value crash b = b
value no_fuel b = b

-- What the tests below compute with.
opened : Unit {0}
unfolding handle_incoming handler_read serve_client serve_stranger handle_login login_answer log_in
    enter_rows row_ids write_ids write_at new_client transmit find_client set_client erase_client
    put_client del_client close_fd find insert text_beq text_before int_bytes int_at padded
    char_array c_string wait_loop take_answer refresh refresh_clients check_state is_silent
    stop_over is_over check_internal time_compare notify_push notify_stop_push start_answer
    wait_for_response drop_old set_device et_recv encode read_message read_body find_text
    starts_with
opened = tt

abbrev frame : Frame
frame = record { cmd = keep_alive; seq = 7; body = 65 ∷ 66 ∷ [] }

frame-Sendable : Sendable frame
frame-Sendable = omega arith

-- The header comes in two pieces.
read_message-encode_example :
    read_message (50 ∷ 50 ∷ replicate 78 1) (1 ∷ 1 ∷ []) (encode frame ++ codes "more")
    ≡ ok (message keep_alive 7 (65 ∷ 66 ∷ []))
read_message-encode_example =
    read_message-encode frame (50 ∷ 50 ∷ replicate 78 1) (1 ∷ 1 ∷ []) (codes "more") frame-Sendable
      (omega arith) (omega arith) (omega arith) (omega arith)

Flows-replicate : (n : ℕ) → Flows (replicate n 1)
Flows-replicate zero = tt
Flows-replicate (suc n) = (omega arith, Flows-replicate n)

abbrev note : ℕ → MessageNode
note seqnum = record { kind = 9; timestamp = 0; seqnum = seqnum; buf = seqnum ∷ [] }

wait_loop_answered_example :
    wait_loop 4 9 3 ((note 1 ∷ []) ∷ (note 2 ∷ note 3 ∷ note 4 ∷ []) ∷ [] ∷ []) (note 5 ∷ [])
    ≡ ok (note 5 ∷ note 1 ∷ note 2 ∷ note 4 ∷ [], some (3 ∷ 0 ∷ 0 ∷ 0 ∷ []))
unfolding padded
wait_loop_answered_example =
    wait_loop_answered 4 9 3 ((note 1 ∷ []) ∷ []) ([] ∷ []) (note 5 ∷ []) (note 2 ∷ []) (note 3)
      (note 4 ∷ []) (refl, tt) ((refl, tt), tt) (refl, tt) refl (omega arith)

-- It is 4 o'clock, and the camera is told to stop.
abbrev busy : DeviceNode
busy = record device { state = 2 }

abbrev busy_client : CmsClient
busy_client = record client { devlist = (codes "p", busy) ∷ [] }

abbrev playing : TcpServer
playing = record server { clients = busy_client ∷ [] }

refresh-InTime_example :
    All
      (InTime seconds 2000 (codes "4"))
      (value (refresh seconds (λ fd. true) 2000 (codes "4") playing) server).clients
unfolding opened
refresh-InTime_example = refresh-InTime seconds (λ fd. true) 2000 (codes "4") playing refl

abbrev start_resp : MessageNode
start_resp = record {
  kind = 0x10031;
  timestamp = 0;
  seqnum = 6;
  buf = 100 ∷ replicate 263 0 ++ (codes "t" ++ replicate 83 0);
}

abbrev stop_resp : MessageNode
stop_resp = record { kind = 0x10033; timestamp = 0; seqnum = 6; buf = replicate 68 0 }

abbrev nine : Six
nine = record { h = 48; h' = 57; m = 48; m' = 48; s = 48; s' = 48 }

abbrev ten : Six
ten = record { h = 49; h' = 48; m = 48; m' = 48; s = 48; s' = 48 }

abbrev turn : Turn
turn = record {
  net = true;
  now = 0;
  seq = 6;
  push_key = codes "k";
  rounds = [] ∷ (start_resp ∷ []) ∷ [];
}

abbrev failed : TcpServer × Push
failed = (server, record { ret = pos 9; result = []; token = [] })

server_check_push-notify_push_example :
    server_check_push
      (codes "a")
      (codes "p")
      (codes "k")
      (value (notify_push true 0 6 (codes "k") turn.rounds (codes "p") client server) failed).0
    ≡ codes "0"
unfolding opened
server_check_push-notify_push_example =
    server_check_push-notify_push turn (codes "a") (codes "p") client device server (tt, tt) refl
      refl (omega arith) refl refl

-- A stranger logs in, the camera is started, and the first client falls silent.
serve_all-IsValid_example : IsValid (
    value
      (serve_all seconds accounts
        (λ cmsid devid. 0)
        (incoming turn (λ srv. srv) 5 (message req_login 1 (codes "b" ++ replicate 103 0))
          ∷ start turn (codes "a") (codes "p")
          ∷ write_off (codes "b")
          ∷ round (λ fd. true) 30000 (codes "4")
          ∷ [])
        server)
      server)
unfolding opened serve_all serve notify_start_push del_client_id
serve_all-IsValid_example =
    serve_all-IsValid seconds accounts (λ cmsid devid. 0)
      (incoming turn (λ srv. srv) 5 (message req_login 1 (codes "b" ++ replicate 103 0))
        ∷ start turn (codes "a") (codes "p")
        ∷ write_off (codes "b")
        ∷ round (λ fd. true) 30000 (codes "4")
        ∷ [])
      server (idle-LogsNobodyIn, (tt, (tt, (tt, tt)))) refl (tt, tt)

check_push_parser-push_url_example :
    check_push_parser (codes "rtmp://h/live?cmsid=a&devid=p&key=k=&")
    ≡ some (codes "a", codes "p", codes "k=&")
check_push_parser-push_url_example =
    check_push_parser-push_url (codes "rtmp://h/live?") (codes "a") (codes "p") (codes "k=&")
      (ground arith) (refl, tt) (refl, tt)

et_send_returns_example :
    (r : Text × ℤ) × ((et_send (part 0 ∷ again ∷ part 4 ∷ []) (codes "ab") ≡ ok r)
      × Whole (codes "ab") r)
et_send_returns_example = et_send_returns (part 0 ∷ again ∷ part 4 ∷ []) (codes "ab") (omega arith)

-- The client "b" logs in on the socket 5, while another worker enters it on the socket 6.
abbrev overlapping : Accounts
overlapping = record accounts { others = λ srv. log_in 1 6 (codes "b") [] srv }
