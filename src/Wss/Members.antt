-- ===== src/Wss/Members.antt =====
-- atb_wss/PlayMngr.cc: what a viewer gets from a request, in the rooms and in the table.
use vm.Prelude.{
  ℕ, ◌≡◌, ◌≢◌, nat_beq_iff, refl, inl, inr, Bool, true, false, not, ◌&&◌, Option, none, some, [],
  arith, nat_key, ◌==◌, if◌then◌else◌, find, insert, erase, Map, find-insert, find-modify,
  find-erase, nat_beq, Bool-cases, Option-cases, map_option,
}
use vm.Prelude.Exec.{ok, >>=-eq-ok}
use vm.Prelude.Text.{Text, text_beq_iff, text_key, is_empty}
use vm.Wss.Room.{LiveRoom, quit, has_user, has_user-quit}
use vm.Wss.Server.{
  Connection, Connections, get_key, put_key, update, set_value, get_value, update_timestamp, send,
  roomid_key, push, buffer_string,
}
use vm.Wss.Expiry.{get_key-put_key}
use vm.Wss.PlayMngr.{on_timeout}
use vm.Wss.Rooms.{RoomsValid, room-Distinct}

-- Is the socket among the viewers of the room of this key?
abbrev pub member_at : ℕ → Option LiveRoom → Bool
member_at socket none = false
member_at socket (some r) = has_user socket r.users

unfoldable pub is_member : ℕ → Text → Map Text LiveRoom → Bool
is_member socket key rooms = member_at socket (find key rooms)

-- The room that the table has for a viewer; none for an unknown viewer.
abbrev pub room_at : Option (Option Connection) → Text
room_at none = []
room_at (some none) = []
room_at (some (some c)) = get_key roomid_key c

unfoldable pub room_of : ℕ → Connections → Text
room_of socket cs = room_at (find socket cs)

-- Membership after a room is written.
pub is_member-insert :
    (j : ℕ) (key k : Text) (r : LiveRoom) (rooms : Map Text LiveRoom)
    → is_member j k (insert key r rooms)
      ≡ (if key == k then has_user j r.users else is_member j k rooms)
unfolding is_member
is_member-insert j key k r rooms = elim (Bool-cases (key == k)) [
  | inl e ↦ rw (find-insert key k r rooms, e, is_member)
  | inr e ↦ rw (find-insert key k r rooms, e, is_member)
]

pub is_member-found :
    (j : ℕ) (key k : Text) (rooms : Map Text LiveRoom) {r : LiveRoom}
    → find key rooms ≡ some r
    → (key == k) ≡ true
    → is_member j k rooms ≡ has_user j r.users
unfolding is_member
is_member-found j key k rooms f e = ground (arith, text_beq_iff key k)

pub is_member-erase :
    (j : ℕ) (key k : Text) (rooms : Map Text LiveRoom)
    → is_member j k (erase key rooms) ≡ (not (key == k) && is_member j k rooms)
unfolding is_member
is_member-erase j key k rooms = elim (Bool-cases (key == k)) [
  | inl e ↦ rw (find-erase key k rooms, e, is_member)
  | inr e ↦ rw (find-erase key k rooms, e, is_member)
]

pub is_member-quit :
    (now socket j : ℕ) (roomid : Text) (rooms : Map Text LiveRoom)
    → RoomsValid rooms
    → member_at j (map_option (λ r. (quit now socket r).0) (find roomid rooms))
      ≡ (not (nat_beq socket j) && member_at j (find roomid rooms))
is_member-quit now socket j roomid rooms v = elim (Option-cases (find roomid rooms)) [
  | inl e ↦ rw e (ground arith)
  | inr (r, e) ↦ rw e (has_user-quit now socket j r (room-Distinct roomid rooms v e))
]

pub is_member-on_timeout :
    (now socket j : ℕ) (roomid k : Text) (rooms : Map Text LiveRoom)
    → RoomsValid rooms
    → is_member j k (on_timeout now socket roomid rooms) ≡ (
        if not (is_empty roomid) && (roomid == k)
        then not (nat_beq socket j) && is_member j k rooms
        else is_member j k rooms)
unfolding is_member on_timeout
is_member-on_timeout now socket j roomid k rooms v = elim (Bool-cases (is_empty roomid)) [
  | inl e ↦ rw (e, on_timeout)
  | inr e ↦ elim (Bool-cases (roomid == k)) [
    | inl q ↦
        rw (e, on_timeout)
          (rw (find-modify roomid k (λ r. (quit now socket r).0) rooms, q)
            (is_member-quit now socket j k rooms v))
    | inr q ↦ rw (e, on_timeout) (rw (find-modify roomid k (λ r. (quit now socket r).0) rooms, q))
  ]
]

-- What a write through a pointer changes.
pub find-update :
    (socket j : ℕ) (f : Connection → Connection) (cs : Connections) {cs' : Connections}
    → update socket f cs ≡ ok cs'
    → find j cs' ≡ (if socket == j then map_option (map_option f) (find j cs) else find j cs)
unfolding update
find-update socket j f cs {cs'} e = go (find socket cs) refl
  where
    go :
        (p : Option (Option Connection))
        → find socket cs ≡ p
        → find j cs' ≡ (if socket == j then map_option (map_option f) (find j cs) else find j cs)
    go none q = ground (arith, nat_beq_iff socket j)
    go (some none) q = ground arith
    go (some (some c)) q =
        ground (arith, nat_beq_iff socket j, find-insert socket j (some (f c)) cs)

pub room_of-update :
    (socket j : ℕ) (f : Connection → Connection) (cs : Connections) {cs' : Connections}
    → ((c : Connection) → get_key roomid_key (f c) ≡ get_key roomid_key c)
    → update socket f cs ≡ ok cs'
    → room_of j cs' ≡ room_of j cs
unfolding room_of
room_of-update socket j f cs same e =
    rw (find-update socket j f cs e, room_of) (go (socket == j) (find j cs))
  where
    go :
        (b : Bool) (p : Option (Option Connection))
        → room_at (if b then map_option (map_option f) p else p) ≡ room_at p
    go false p = refl
    go true none = refl
    go true (some none) = refl
    go true (some (some c)) = same c

pub room_of-send :
    (socket j : ℕ) (message : Text) (cs : Connections) {cs' : Connections}
    → send socket message cs ≡ ok cs'
    → room_of j cs' ≡ room_of j cs
unfolding send
room_of-send socket j message cs {cs'} e = go (find socket cs) refl
  where
    same : (buf : Text) (c : Connection) → get_key roomid_key (push buf c) ≡ get_key roomid_key c
    same buf c = unfold get_key in refl

    go : (p : Option (Option Connection)) → find socket cs ≡ p → room_of j cs' ≡ room_of j cs
    go none q = ground arith
    go (some none) q = ground arith
    go (some (some c)) q =
        let (buf, fits, written) = >>=-eq-ok (buffer_string message) _ (rw (q, send) at e) in
        room_of-update socket j (push buf) cs (same buf) written

stamp-get_key :
    (now : ℕ) (c : Connection)
    → get_key roomid_key (record c { timestamp = now }) ≡ get_key roomid_key c
unfolding get_key
stamp-get_key now c = refl

pub room_of-update_timestamp :
    (socket now j : ℕ) (cs : Connections) {cs' : Connections}
    → update_timestamp socket now cs ≡ ok cs'
    → room_of j cs' ≡ room_of j cs
unfolding update_timestamp
room_of-update_timestamp socket now j cs e =
    room_of-update socket j (λ c. record c { timestamp = now }) cs (stamp-get_key now) e

pub room_of-set_value :
    (socket j : ℕ) (key : Text) (cs : Connections) {cs' : Connections}
    → set_value socket roomid_key key cs ≡ ok cs'
    → find socket cs ≢ none
    → room_of j cs' ≡ (if nat_beq socket j then key else room_of j cs)
unfolding room_of set_value update
room_of-set_value socket j key cs e known = grind (arith, find-insert, nat_beq_iff, get_key-put_key)

-- A connection that is known stays known.
known-update :
    (socket j : ℕ) (f : Connection → Connection) (cs : Connections) {cs' : Connections}
    → update socket f cs ≡ ok cs'
    → find j cs ≢ none
    → find j cs' ≢ none
known-update socket j f cs e known =
    rw (find-update socket j f cs e) (written (socket == j) (find j cs) known)
  where
    written :
        (b : Bool) (p : Option (Option Connection))
        → p ≢ none
        → (if b then map_option (map_option f) p else p) ≢ none
    written false p k = k
    written true none k = k
    written true (some c) k = λ h. cc

pub known-send :
    (socket j : ℕ) (message : Text) (cs : Connections) {cs' : Connections}
    → send socket message cs ≡ ok cs'
    → find j cs ≢ none
    → find j cs' ≢ none
unfolding send
known-send socket j message cs {cs'} e known = go (find socket cs) refl
  where
    go : (p : Option (Option Connection)) → find socket cs ≡ p → find j cs' ≢ none
    go none q = let same : cs ≡ cs' = ground arith in rw (← same) known
    go (some none) q = absurd (ground arith)
    go (some (some c)) q =
        let (buf, fits, step) = >>=-eq-ok (buffer_string message) _ (rw (q, send) at e) in
        known-update socket j (push buf) cs step known

pub known-set_value :
    (socket j : ℕ) (name value : Text) (cs : Connections) {cs' : Connections}
    → set_value socket name value cs ≡ ok cs'
    → find j cs ≢ none
    → find j cs' ≢ none
unfolding set_value
known-set_value socket j name value cs e known =
    known-update socket j (put_key name value) cs e known

pub known-update_timestamp :
    (socket now j : ℕ) (cs : Connections) {cs' : Connections}
    → update_timestamp socket now cs ≡ ok cs'
    → find j cs ≢ none
    → find j cs' ≢ none
unfolding update_timestamp
known-update_timestamp socket now j cs e known =
    known-update socket j (λ c. record c { timestamp = now }) cs e known

-- The value that `getValue` returns for the room is the table's.
pub get_value-room_of :
    (socket : ℕ) (cs : Connections) {r : Connections × Text}
    → get_value socket roomid_key cs ≡ ok r
    → r.1 ≡ room_of socket cs
unfolding get_value room_of
get_value-room_of socket cs {r} e = go (find socket cs) refl
  where
    go : (p : Option (Option Connection)) → find socket cs ≡ p → r.1 ≡ room_of socket cs
    go none q = ground arith
    go (some none) q = ground arith
    go (some (some c)) q = ground arith
