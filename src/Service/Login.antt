-- ===== src/Service/Login.antt =====
-- atb_adapter/server_tcpsrv.cpp over db_helper.cpp: the login of an adapter client, with what the
-- database helper answers, and which cameras the client has then.
use vm.Prelude.{
  ℕ, ◌+◌, ◌*◌, ◌≤◌, ◌<◌, ◌-◌, length, take, replicate, length-append, length-take, length-drop, ◌≡◌,
  refl, ap, suc, Bool, true, Option, none, some, List, [], ◌∷◌, ◌++◌, arith, drop, find, nat_beq,
  All, if◌then◌else◌, Bool-cases, inl, inr, find-insert, find-insert_self,
}
use vm.Prelude.Exec.{Exec, ok, ◌>>=◌}
use vm.Prelude.Text.{Text, text_key, text_beq, text_beq_iff}
use vm.Adapter.Wire.{c_string, char_array, int_bytes, padded, resp_login, data_size, header_size}
use vm.Adapter.Client.{DeviceNode, CmsClient, new_client, enter_device}
use vm.Adapter.Server.{TcpServer, find_client, get_client, has_cmsid, transmit}
use vm.Adapter.Session.{
  Accounts, DeviceRow, row_device, row_ids, enter_rows, log_in, login_answer, handle_login,
  write_at, write_ids,
}
use vm.Db.Query.{Mysql}
use vm.Db.Account.{check_login}
use vm.Db.Lists.{get_group_info_ex}
use vm.Service.Admin.{Both}

-- The database helper's answers to one login.
abbrev pub answers : (TcpServer → TcpServer) → ℕ × Text → Option (List DeviceRow) → Accounts
answers others login rows = record {
  check_login = λ cmsid password. login;
  devices = λ cmsid. rows;
  others = others;
}

-- `HandleLoginEx`: the helper is asked for the cameras only after a login that it lets through, and for
-- neither where the client is connected already.
unfoldable pub db_login :
    {W : Type 0}
    → (TcpServer → TcpServer)
    → Bool
    → ℕ
    → Option (Mysql W)
    → ℕ
    → ℕ
    → Text
    → Both W
    → Exec (Both W)
db_login others net now db fd seq body (w, srv) = do
  cmsid ← c_string body
  password ← c_string (drop 20 body)
  elim (get_client cmsid srv) [
    | some c ↦ do
      srv' ← handle_login net now (answers others (1, []) none) fd seq body srv
      ok (w, srv')
    | none ↦ do
      (w1, login) ← check_login db cmsid password w
      (w2, rows) ← if nat_beq login.0 0 then get_group_info_ex db cmsid w1 else ok (w1, none)
      srv' ← handle_login net now (answers others login rows) fd seq body srv
      ok (w2, srv')
  ]

-- The client has a camera for the row.
abbrev pub Has : CmsClient → DeviceRow → Type 0
Has c r = (d : DeviceNode) × (find r.pid c.devlist ≡ some d)

enter_device-Has :
    (r s : DeviceRow) (c : CmsClient) → Has c s → Has (enter_device (row_device r) c) s
unfolding enter_device row_device
enter_device-Has r s c (d, e) =
    let found = find-insert r.pid s.pid (row_device r) c.devlist in
    elim (Bool-cases (text_beq r.pid s.pid)) [
      | inl same ↦ (row_device r, grind arith)
      | inr other ↦ (d, grind arith)
    ]

enter_device-Has_self : (r : DeviceRow) (c : CmsClient) → Has (enter_device (row_device r) c) r
unfolding enter_device row_device
enter_device-Has_self r c = (row_device r, find-insert_self r.pid (row_device r) c.devlist)

enter_rows-Has :
    (rows : List DeviceRow) (s : DeviceRow) (c : CmsClient) → Has c s → Has (enter_rows rows c) s
unfolding enter_rows
enter_rows-Has [] s c h = h
enter_rows-Has (r ∷ rows) s c h =
    enter_rows-Has rows s (enter_device (row_device r) c) (enter_device-Has r s c h)

enter_rows-All : (rows : List DeviceRow) (c : CmsClient) → All (Has (enter_rows rows c)) rows
unfolding enter_rows
enter_rows-All [] c = tt
enter_rows-All (r ∷ rows) c =
    let c' = enter_device (row_device r) c in
    (enter_rows-Has rows r c' (enter_device-Has_self r c), enter_rows-All rows c')

enter_rows-key :
    (rows : List DeviceRow) (c : CmsClient)
    → ((enter_rows rows c).fd ≡ c.fd) × ((enter_rows rows c).cmsid ≡ c.cmsid)
unfolding enter_rows enter_device
enter_rows-key [] c = (refl, refl)
enter_rows-key (r ∷ rows) c = enter_rows-key rows (enter_device (row_device r) c)

find_client-append :
    (p : CmsClient → Bool) (c : CmsClient) (cs : List CmsClient)
    → find_client p cs ≡ none
    → p c ≡ true
    → find_client p (cs ++ c ∷ []) ≡ some c
unfolding find_client
find_client-append p c [] none_before h = rw h refl
find_client-append p c (d ∷ cs) none_before h = grind (arith, find_client-append p c cs)

-- A client that is not in the list is found at its end.
get_client-log_in :
    (now fd : ℕ) (cmsid : Text) (rows : List DeviceRow) (srv : TcpServer)
    → get_client cmsid srv ≡ none
    → get_client cmsid (log_in now fd cmsid rows srv)
      ≡ some (enter_rows rows (new_client fd cmsid now))
unfolding log_in new_client
get_client-log_in now fd cmsid rows srv absent =
    let c = enter_rows rows (new_client fd cmsid now) in
    find_client-append (has_cmsid cmsid) c srv.clients absent
      ((text_beq_iff c.cmsid cmsid).1 (enter_rows-key rows (new_client fd cmsid now)).1)

write_at-room :
    (i : ℕ) (s buf : Text)
    → i + length s ≤ length buf
    → write_at i s buf ≡ ok (take i buf ++ (s ++ drop (i + length s) buf))
unfolding write_at
write_at-room i s buf room = grind arith

length-write_at :
    (i : ℕ) (s buf : Text)
    → i + length s ≤ length buf
    → length (take i buf ++ (s ++ drop (i + length s) buf)) ≡ length buf
length-write_at i s buf room = omega (
  arith,
  length-append (take i buf) (s ++ drop (i + length s) buf),
  length-append s (drop (i + length s) buf),
  length-take i buf,
  length-drop (i + length s) buf,
)

-- Ids that fit their slots, in a buffer with room for them.
write_ids-room :
    (i : ℕ) (pids : List Text) (buf : Text)
    → All (λ pid. length pid ≤ 20) pids
    → i + 20 * length pids ≤ length buf
    → (out : Text) × (write_ids i pids buf ≡ ok out)
unfolding write_ids
write_ids-room i [] buf short room = (buf, refl)
write_ids-room i (pid ∷ pids) buf (first, short) room =
    let buf' = take i buf ++ (pid ++ drop (i + length pid) buf) in
    let written : write_at i pid buf ≡ ok buf' = write_at-room i pid buf (omega arith) in
    let same = length-write_at i pid buf (omega arith) in
    let (out, rest) = write_ids-room (i + 20) pids buf' short (omega arith) in
    (out, rw written rest)

-- The answer is sent, and changes no client.
login_answer-clients :
    (fd seq ret : ℕ) (kid : Text) (pids : List Text) (srv : TcpServer)
    → length kid < 64
    → All (λ pid. length pid ≤ 20) pids
    → length pids ≤ 50
    → (srv' : TcpServer) × ((login_answer true fd seq ret kid pids srv ≡ ok srv')
        × (srv'.clients ≡ srv.clients))
unfolding login_answer transmit char_array
login_answer-clients fd seq ret kid pids srv fits short few =
    let (out, written) =
      write_ids-room 72 pids (replicate (data_size - header_size) 0) short (omega arith) in
    let body =
      int_bytes ret
      ++ (int_bytes (length pids)
          ++ (padded 64 kid ++ drop 72 (take (72 + 20 * length pids) out))) in
    (
      (transmit true fd (record { cmd = resp_login; seq = seq; body = body }) srv).0,
      (grind arith, refl),
    )

row_ids-All :
    (rows : List DeviceRow)
    → All (λ r. length r.pid ≤ 20) rows
    → All (λ pid. length pid ≤ 20) (row_ids rows)
unfolding row_ids
row_ids-All [] short = tt
row_ids-All (r ∷ rows) (first, short) = (first, row_ids-All rows short)

length-row_ids : (rows : List DeviceRow) → length (row_ids rows) ≡ length rows
unfolding row_ids
length-row_ids [] = refl
length-row_ids (r ∷ rows) = ap suc (length-row_ids rows)

-- A client that is not connected logs in, and is not connected either when its entry is made, whatever the
-- other threads do meanwhile; the database lets it in and gives at most 50 cameras, with ids of at most 20
-- bytes, and a user's id that fits its field; and the answer is sent. The login does not fault; the client
-- is then connected, on its socket, and has every camera that the database gave.
pub db_login-Has :
    {W : Type 0} (db : Option (Mysql W)) (now fd seq : ℕ) (body cmsid password kid : Text)
    (rows : List DeviceRow) (w w1 w2 : W) (others : TcpServer → TcpServer) (srv : TcpServer)
    → c_string body ≡ ok cmsid
    → c_string (drop 20 body) ≡ ok password
    → get_client cmsid srv ≡ none
    → get_client cmsid (others srv) ≡ none
    → check_login db cmsid password w ≡ ok (w1, (0, kid))
    → get_group_info_ex db cmsid w1 ≡ ok (w2, some rows)
    → length kid < 64
    → All (λ r. length r.pid ≤ 20) rows
    → length rows ≤ 50
    → (b : Both W) × ((db_login others true now db fd seq body (w, srv) ≡ ok b)
        × ((c : CmsClient) × ((get_client cmsid b.1 ≡ some c) × ((c.fd ≡ fd) × All (Has c) rows))))
unfolding db_login handle_login new_client
db_login-Has db now fd seq body cmsid password kid rows w w1 w2 others srv id psw absent still
      let_in given fits short few =
    let start = new_client fd cmsid now in
    let (srv', (answered, same)) =
      login_answer-clients fd seq 0 kid (row_ids rows) (log_in now fd cmsid rows (others srv)) fits
        (row_ids-All rows short) (rw (length-row_ids rows) few) in
    let logged = get_client-log_in now fd cmsid rows (others srv) still in
    let key = (enter_rows-key rows start).0 in
    (
      (w2, srv'),
      (grind arith, (enter_rows rows start, (grind arith, (key, enter_rows-All rows start)))),
    )
