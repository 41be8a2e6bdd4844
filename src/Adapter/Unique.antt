-- ===== src/Adapter/Unique.antt =====
-- atb_adapter: two connected clients differ in their socket and in their id, whatever they send.
use vm.Prelude.{
  ℕ, ◌≡◌, ◌≢◌, refl, ap, Bool, true, false, Option, none, some, List, [], ◌∷◌, ◌++◌, arith,
}
use vm.Prelude.Exec.{ok}
use vm.Prelude.Text.{Text, text_beq_iff}
use vm.Adapter.Wire.{Frame, Incoming, bad, empty, message}
use vm.Adapter.Client.{CmsClient, new_client, enter_device, insert_msg, handle_update_change}
use vm.Adapter.Server.{
  TcpServer, find_client, erase_client, set_client, has_fd, has_cmsid, get_client, close_fd,
  del_client, put_client, transmit, update_livecount,
}
use vm.Adapter.Session.{
  DeviceRow, Accounts, enter_rows, row_device, log_in, login_answer, handle_login, serve_client,
  serve_stranger, handler_read, handle_incoming,
}

-- What tells the clients apart.
abbrev pub keys : List CmsClient → List (ℕ × Text)
keys [] = []
keys (c ∷ cs) = (c.fd, c.cmsid) ∷ keys cs

abbrev pub Apart : ℕ → Text → List (ℕ × Text) → Type 0
Apart fd cmsid [] = Unit
Apart fd cmsid ((fd', cmsid') ∷ ks) = (fd ≢ fd') × (cmsid ≢ cmsid') × Apart fd cmsid ks

abbrev pub Unique : List (ℕ × Text) → Type 0
Unique [] = Unit
Unique ((fd, cmsid) ∷ ks) = Apart fd cmsid ks × Unique ks

abbrev pub IsValid : TcpServer → Type 0
IsValid srv = Unique (keys srv.clients)

pub erase_client-Apart :
    (p : CmsClient → Bool) (fd : ℕ) (cmsid : Text) (cs : List CmsClient)
    → Apart fd cmsid (keys cs)
    → Apart fd cmsid (keys (erase_client p cs))
unfolding erase_client
erase_client-Apart p fd cmsid [] a = a
erase_client-Apart p fd cmsid (c ∷ cs) a = ground (arith, erase_client-Apart p fd cmsid cs)

pub erase_client-Unique :
    (p : CmsClient → Bool) (cs : List CmsClient)
    → Unique (keys cs)
    → Unique (keys (erase_client p cs))
unfolding erase_client
erase_client-Unique p [] u = u
erase_client-Unique p (c ∷ cs) u =
    ground (arith, erase_client-Unique p cs, erase_client-Apart p c.fd c.cmsid cs)

pub find_client-has_fd :
    (fd : ℕ) (c : CmsClient) (cs : List CmsClient) → find_client (has_fd fd) cs ≡ some c → c.fd ≡ fd
unfolding find_client
find_client-has_fd fd c [] e = absurd (cc)
find_client-has_fd fd c (d ∷ cs) e = grind (arith, find_client-has_fd fd c cs)

-- A write through a pointer keeps the keys, if it keeps the client's.
pub keys-set_client :
    (fd : ℕ) (c c' : CmsClient) (cs : List CmsClient)
    → find_client (has_fd fd) cs ≡ some c
    → c'.fd ≡ c.fd
    → c'.cmsid ≡ c.cmsid
    → keys (set_client (has_fd c'.fd) c' cs) ≡ keys cs
unfolding find_client set_client
keys-set_client fd c c' [] e f g = absurd (cc)
keys-set_client fd c c' (d ∷ cs) e f g =
    grind (arith, keys-set_client fd c c' cs, find_client-has_fd fd c (d ∷ cs) e)

Apart-snoc :
    (fd fd' : ℕ) (cmsid cmsid' : Text) (ks : List (ℕ × Text))
    → Apart fd cmsid ks
    → fd ≢ fd'
    → cmsid ≢ cmsid'
    → Apart fd cmsid (ks ++ (fd', cmsid') ∷ [])
Apart-snoc fd fd' cmsid cmsid' [] a f g = (f, g, tt)
Apart-snoc fd fd' cmsid cmsid' (k ∷ ks) a f g = ground (arith, Apart-snoc fd fd' cmsid cmsid' ks)

pub keys-append : (cs ds : List CmsClient) → keys (cs ++ ds) ≡ keys cs ++ keys ds
keys-append [] ds = refl
keys-append (c ∷ cs) ds = ap (◌∷◌ (c.fd, c.cmsid)) (keys-append cs ds)

-- A client that is not found by its socket nor by its id can be added.
Unique-snoc :
    (fd : ℕ) (cmsid : Text) (cs : List CmsClient)
    → Unique (keys cs)
    → find_client (has_fd fd) cs ≡ none
    → find_client (has_cmsid cmsid) cs ≡ none
    → Unique (keys cs ++ (fd, cmsid) ∷ [])
unfolding find_client
Unique-snoc fd cmsid [] u f g = (tt, tt)
Unique-snoc fd cmsid (c ∷ cs) u f g =
    grind (arith, Apart-snoc c.fd fd c.cmsid cmsid (keys cs), text_beq_iff, Unique-snoc fd cmsid cs)

pub enter_rows-key :
    (rows : List DeviceRow) (c : CmsClient)
    → ((enter_rows rows c).fd ≡ c.fd) × ((enter_rows rows c).cmsid ≡ c.cmsid)
unfolding enter_rows enter_device
enter_rows-key [] c = (refl, refl)
enter_rows-key (r ∷ rows) c = enter_rows-key rows (enter_device (row_device r) c)

log_in-IsValid :
    (now fd : ℕ) (cmsid : Text) (rows : List DeviceRow) (srv : TcpServer)
    → IsValid srv
    → find_client (has_fd fd) srv.clients ≡ none
    → get_client cmsid srv ≡ none
    → IsValid (log_in now fd cmsid rows srv)
unfolding log_in new_client
log_in-IsValid now fd cmsid rows srv v f g =
    let c = new_client fd cmsid now in
    rw
      (
        keys-append srv.clients (enter_rows rows c ∷ []),
        (enter_rows-key rows c).0,
        (enter_rows-key rows c).1,
      )
      (Unique-snoc fd cmsid srv.clients v f g)

pub del_client-IsValid : (fd : ℕ) (srv : TcpServer) → IsValid srv → IsValid (del_client fd srv)
unfolding del_client close_fd
del_client-IsValid fd srv v = erase_client-Unique (has_fd fd) srv.clients v

pub transmit-IsValid :
    (net : Bool) (fd : ℕ) (f : Frame) (srv : TcpServer)
    → IsValid srv
    → IsValid (transmit net fd f srv).0
unfolding transmit
transmit-IsValid true fd f srv v = v
transmit-IsValid false fd f srv v = del_client-IsValid fd srv v

pub put_client-IsValid :
    (fd : ℕ) (c c' : CmsClient) (srv : TcpServer)
    → find_client (has_fd fd) srv.clients ≡ some c
    → c'.fd ≡ c.fd
    → c'.cmsid ≡ c.cmsid
    → IsValid srv
    → IsValid (put_client c' srv)
unfolding put_client
put_client-IsValid fd c c' srv e f g v = rw (keys-set_client fd c c' srv.clients e f g) v

login_answer-IsValid :
    (net : Bool) (fd seq ret : ℕ) (kid : Text) (pids : List Text) (srv : TcpServer)
    {srv' : TcpServer}
    → login_answer net fd seq ret kid pids srv ≡ ok srv'
    → IsValid srv
    → IsValid srv'
unfolding login_answer
login_answer-IsValid net fd seq ret kid pids srv e v = grind (arith, transmit-IsValid net fd _ srv)

-- The other threads keep the clients apart, and none of them logs a client in.
pub record LogsNobodyIn (others : TcpServer → TcpServer) : Type 0 where
  pub valid : (srv : TcpServer) → IsValid srv → IsValid (others srv)
  pub no_socket :
      (fd : ℕ) (srv : TcpServer)
      → find_client (has_fd fd) srv.clients ≡ none
      → find_client (has_fd fd) (others srv).clients ≡ none
  pub no_id :
      (cmsid : Text) (srv : TcpServer)
      → get_client cmsid srv ≡ none
      → get_client cmsid (others srv) ≡ none

pub idle-LogsNobodyIn : LogsNobodyIn (λ srv. srv)
idle-LogsNobodyIn = record {
  valid = λ srv v. v;
  no_socket = λ fd srv e. e;
  no_id = λ cmsid srv e. e;
}

pub handle_login-IsValid :
    (net : Bool) (now : ℕ) (db : Accounts) (fd seq : ℕ) (body : Text) (srv : TcpServer)
    {srv' : TcpServer}
    → LogsNobodyIn db.others
    → handle_login net now db fd seq body srv ≡ ok srv'
    → find_client (has_fd fd) srv.clients ≡ none
    → IsValid srv
    → IsValid srv'
unfolding handle_login
handle_login-IsValid net now db fd seq body srv alone e f v =
    let kept = alone.valid srv v in
    let socket = alone.no_socket fd srv f in
    grind (arith, login_answer-IsValid, log_in-IsValid, alone.no_id)

pub serve_client-IsValid :
    (net : Bool) (now cmd seq fd : ℕ) (body : Option Text) (c : CmsClient) (srv : TcpServer)
    {srv' : TcpServer}
    → serve_client net now cmd seq body c srv ≡ ok srv'
    → find_client (has_fd fd) srv.clients ≡ some c
    → IsValid srv
    → IsValid srv'
unfolding serve_client handle_update_change insert_msg update_livecount
serve_client-IsValid net now cmd seq fd body c srv e f v =
    grind (arith, put_client-IsValid fd c, transmit-IsValid)

handler_read-IsValid :
    (net : Bool) (now : ℕ) (db : Accounts) (fd cmd seq : ℕ) (body : Option Text) (srv : TcpServer)
    {srv' : TcpServer}
    → LogsNobodyIn db.others
    → handler_read net now db fd cmd seq body srv ≡ ok srv'
    → IsValid srv
    → IsValid srv'
unfolding handler_read serve_stranger close_fd
handler_read-IsValid net now db fd cmd seq body srv alone e v =
    grind (arith, handle_login-IsValid, serve_client-IsValid, alone)

-- What a socket sends keeps the clients apart, a login, a failed send and a message that is not
-- understood included, if no other client is logged in meanwhile.
pub handle_incoming-IsValid :
    (net : Bool) (now : ℕ) (db : Accounts) (fd : ℕ) (i : Incoming) (srv : TcpServer)
    {srv' : TcpServer}
    → LogsNobodyIn db.others
    → handle_incoming net now db fd i srv ≡ ok srv'
    → IsValid srv
    → IsValid srv'
unfolding handle_incoming
handle_incoming-IsValid net now db fd bad srv alone e v = grind (arith, del_client-IsValid fd srv)
handle_incoming-IsValid net now db fd (empty cmd) srv alone e v =
    handler_read-IsValid net now db fd cmd 0 none srv alone e v
handle_incoming-IsValid net now db fd (message cmd seq body) srv alone e v =
    handler_read-IsValid net now db fd cmd seq (some body) srv alone e v
