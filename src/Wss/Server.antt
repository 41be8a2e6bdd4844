-- ===== src/Wss/Server.antt =====
-- atb_wss/WebSocketServer.h and WebSocketServer.cc: the table of connections, their key-value
-- stores and output queues. libwebsockets is not modelled: it calls these operations, and what
-- `lws_write` is given for a socket is a result. A mutex is held for each access of the table.
use vm.Prelude.{
  ℕ, zero, suc, ◌+◌, ◌-◌, ◌%◌, ◌^◌, ◌*◌, Bool, true, false, not, ◌&&◌, Option, none, some, List, [],
  ◌∷◌, ◌++◌, ltb, leb, if◌then◌else◌, length, nat_key, Map, find, insert, erase,
}
use vm.Prelude.Exec.{Exec, ok, crash, no_fuel, ◌>>=◌, map_exec}
use vm.Prelude.Text.{Text, codes, is_empty, text_key}

-- `WS_MAX_DATA_LEN`.
abbrev pub ws_max_data_len : ℕ
ws_max_data_len = 1024

-- The constructor of `BufferString` and its copy in the queue: `memcpy` of all bytes into an array of
-- `WS_MAX_DATA_LEN`. The copy of an empty one leaves its length unset, and what is then written is
-- undefined.
unfoldable pub buffer_string : Text → Exec Text
buffer_string message =
    if is_empty message
    then crash
    else (if leb (length message) ws_max_data_len then ok message else crash)

pub record Connection : Type 0 where
  pub buffer : List Text
  pub values : Map Text Text
  pub create_time : ℕ
  pub timestamp : ℕ
  pub socketid : ℕ

-- `connections`: the map holds pointers, and `none` is the null pointer.
abbrev pub Connections : Type 0
Connections = Map ℕ (Option Connection)

-- `keyValueMap[name]`: a missing name is entered with the empty string.
unfoldable pub get_key : Text → Connection → Text
get_key name c = elim (find name c.values) [ none ↦ [] | some v ↦ v ]

unfoldable pub touch_key : Text → Connection → Connection
touch_key name c = elim (find name c.values) [
  | none ↦ record c { values = insert name [] c.values }
  | some v ↦ c
]

unfoldable pub put_key : Text → Text → Connection → Connection
put_key name value c = record c { values = insert name value c.values }

-- `onConnectWrapper` up to its callback. `time` is `time(0)`; `new Connection` leaves the timestamp
-- unset, as `raw`.
unfoldable pub add_connection : ℕ → ℕ → ℕ → Connections → Connections
add_connection time raw socket cs =
    insert socket
      (some (record {
        buffer = [];
        values = [];
        create_time = time;
        timestamp = raw;
        socketid = socket;
      }))
      cs

-- `_removeConnection`. The socket itself stays open.
unfoldable pub remove_connection : ℕ → Connections → Connections
remove_connection socket cs = erase socket cs

-- A write through the pointer that `find` gave: nothing for an unknown socket, a fault through null.
unfoldable pub update : ℕ → (Connection → Connection) → Connections → Exec Connections
update socket f cs = elim (find socket cs) [
  | none ↦ ok cs
  | some none ↦ crash
  | some (some c) ↦ ok (insert socket (some (f c)) cs)
]

abbrev pub push : Text → Connection → Connection
push message c = record c { buffer = c.buffer ++ message ∷ [] }

-- The buffer is made after the pointer's first use: a null pointer and a long message both fault.
unfoldable pub send : ℕ → Text → Connections → Exec Connections
unfolding buffer_string update
send socket message cs = elim (find socket cs) [
  | none ↦ ok cs
  | some none ↦ crash
  | some (some c) ↦ do buf ← buffer_string message; update socket (push buf) cs
]

-- The loop of `broadcast` over the keys of the table.
unfoldable pub send_all : List ℕ → Text → Connections → Exec Connections
send_all [] message cs = ok cs
send_all (socket ∷ rest) message cs = do cs' ← send socket message cs; send_all rest message cs'

unfoldable pub sockets : Connections → List ℕ
sockets [] = []
sockets ((socket, c) ∷ cs) = socket ∷ sockets cs

unfoldable pub broadcast : Text → Connections → Exec Connections
unfolding sockets send_all
broadcast message cs = send_all (sockets cs) message cs

unfoldable pub set_value : ℕ → Text → Text → Connections → Exec Connections
unfolding put_key update
set_value socket name value cs = update socket (put_key name value) cs

unfoldable pub get_value : ℕ → Text → Connections → Exec (Connections × Text)
unfolding get_key touch_key
get_value socket name cs = elim (find socket cs) [
  | none ↦ ok (cs, [])
  | some none ↦ crash
  | some (some c) ↦ ok (insert socket (some (touch_key name c)) cs, get_key name c)
]

unfoldable pub update_timestamp : ℕ → ℕ → Connections → Exec Connections
unfolding update
update_timestamp socket timestamp cs = update socket (λ c. record c { timestamp = timestamp }) cs

unfoldable pub number_of_connections : Connections → ℕ
number_of_connections cs = length cs

-- `LWS_CALLBACK_SERVER_WRITEABLE`: the queue is written out, its front first. The test reads
-- `connections[fd]`, which enters a null pointer for an unknown socket.
unfoldable pub writeable : ℕ → Connections → Connections × List Text
writeable socket cs = elim (find socket cs) [
  | none ↦ (insert socket none cs, [])
  | some none ↦ (cs, [])
  | some (some c) ↦ (insert socket (some (record c { buffer = [] })) cs, c.buffer)
]

-- An `unsigned long`.
abbrev pub word_mod : ℕ
word_mod = 2 ^ 64

-- `cur - timestamp` on unsigned 64-bit words.
unfoldable pub elapsed : ℕ → ℕ → ℕ
elapsed cur timestamp = (cur + word_mod - timestamp) % word_mod

abbrev pub roomid_key : Text
roomid_key = codes "roomid"

abbrev pub handle_key : Text
handle_key = codes "handle"

-- The test of `CheckConnectionState`.
unfoldable pub is_expired : ℕ → Connection → Bool
is_expired cur c =
    ltb (30 * 1000) (elapsed cur c.timestamp) && not (is_empty (get_key roomid_key c))

-- The loop of `CheckConnectionState`. A connection that has expired is handed to `onTimeout`, loses
-- its room, and is looked at again: the iterator moves on in the other branch only.
module _ {S : Type 0} (on_timeout : ℕ → Text → S → S) where
  unfoldable pub check_loop : ℕ → ℕ → Connections → S → Exec (Connections × S)
  check_loop zero cur cs s = no_fuel
  check_loop (suc fuel) cur [] s = ok ([], s)
  check_loop (suc fuel) cur ((socket, none) ∷ cs) s = crash
  check_loop (suc fuel) cur ((socket, some c) ∷ cs) s = elim (is_expired cur c) [
    | true ↦
        check_loop fuel cur ((socket, some (put_key roomid_key [] (touch_key roomid_key c))) ∷ cs)
          (on_timeout c.socketid (get_key roomid_key c) s)
    | false ↦
        map_exec (λ r. ((socket, some (touch_key roomid_key c)) ∷ r.0, r.1))
          (check_loop fuel cur cs s)
  ]

  -- Two visits for each connection, and one to see the end.
  unfoldable pub check_connection_state : ℕ → Connections → S → Exec (Connections × S)
  check_connection_state cur cs s = check_loop (suc (2 * length cs)) cur cs s
