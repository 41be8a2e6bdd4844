-- ===== src/Wss/Expiry.antt =====
-- atb_wss/WebSocketServer.cc, CheckConnectionState: its loop against one pass over the table, and
-- the age test on unsigned words.
use vm.Prelude.{
  ℕ, zero, suc, ◌+◌, ◌-◌, ◌*◌, ◌≤◌, ◌<◌, ◌≡◌, refl, ◌↔◌, true, false, none, some, [], ◌∷◌, arith,
  length, nat_key, find, insert, find-insert_self,
}
use vm.Prelude.Exec.{Exec, ok, crash, map_exec}
use vm.Prelude.Text.{Text, is_empty, text_key}
use vm.Wss.Server.{
  Connection, Connections, get_key, touch_key, put_key, writeable, elapsed, is_expired, roomid_key,
  check_loop, check_connection_state, word_mod,
}

-- A connection after the check, and what the check tells `onTimeout`.
unfoldable pub checked : ℕ → Connection → Connection
checked cur c = elim (is_expired cur c) [
  | true ↦ put_key roomid_key [] (touch_key roomid_key c)
  | false ↦ touch_key roomid_key c
]

module _ {S : Type 0} (on_timeout : ℕ → Text → S → S) where
  unfoldable pub told : ℕ → Connection → S → S
  told cur c s = elim (is_expired cur c) [
    | true ↦ on_timeout c.socketid (get_key roomid_key c) s
    | false ↦ s
  ]

  -- The check as one pass: each connection is looked at once.
  unfoldable pub expire : ℕ → Connections → S → Exec (Connections × S)
  expire cur [] s = ok ([], s)
  expire cur ((socket, none) ∷ cs) s = crash
  expire cur ((socket, some c) ∷ cs) s =
      map_exec (λ r. ((socket, some (checked cur c)) ∷ r.0, r.1)) (expire cur cs (told cur c s))

pub get_key-put_key :
    (name value : Text) (c : Connection) → get_key name (put_key name value c) ≡ value
unfolding get_key put_key
get_key-put_key name value c = rw (find-insert_self name value c.values, get_key)

pub touch_key-put_key :
    (name value : Text) (c : Connection)
    → touch_key name (put_key name value c) ≡ put_key name value c
unfolding touch_key put_key
touch_key-put_key name value c = rw (find-insert_self name value c.values, touch_key)

-- A connection without a room does not expire.
pub is_expired-put_key :
    (cur : ℕ) (c : Connection) → is_expired cur (put_key roomid_key [] c) ≡ false
unfolding is_expired
is_expired-put_key cur c = ground (arith, get_key-put_key roomid_key [] c)

module _ {S : Type 0} (on_timeout : ℕ → Text → S → S) where
  check_loop-expire :
      (fuel cur : ℕ) (cs : Connections) (s : S)
      → 2 * length cs < fuel
      → check_loop on_timeout fuel cur cs s ≡ expire on_timeout cur cs s
  unfolding check_loop expire checked told
  check_loop-expire zero cur cs s h = absurd (omega arith)
  check_loop-expire (suc fuel) cur [] s h = refl
  check_loop-expire (suc fuel) cur ((socket, none) ∷ cs) s h = refl
  check_loop-expire (suc zero) cur ((socket, some c) ∷ cs) s h = absurd (omega arith)
  check_loop-expire (suc (suc fuel)) cur ((socket, some c) ∷ cs) s h = ground (
    arith,
    is_expired-put_key cur (touch_key roomid_key c),
    touch_key-put_key roomid_key [] (touch_key roomid_key c),
    check_loop-expire fuel cur cs (on_timeout c.socketid (get_key roomid_key c) s),
    check_loop-expire (suc fuel) cur cs s,
  )

  -- The check's loop, which looks at an expired connection twice, ends within its rounds, and does
  -- what one pass over the table does: for every table, time and callback.
  pub check_connection_state-expire :
      (cur : ℕ) (cs : Connections) (s : S)
      → check_connection_state on_timeout cur cs s ≡ expire on_timeout cur cs s
  unfolding check_connection_state
  check_connection_state-expire cur cs s =
      check_loop-expire (suc (2 * length cs)) cur cs s (omega arith)

  expire_null :
      (cur socket : ℕ) (cs : Connections) (s : S)
      → find socket cs ≡ some none
      → expire on_timeout cur cs s ≡ crash
  unfolding expire find
  expire_null cur socket [] s h = cc
  expire_null cur socket ((i, none) ∷ cs) s h = refl
  expire_null cur socket ((i, some c) ∷ cs) s h =
      ground (arith, expire_null cur socket cs (told on_timeout cur c s))

  -- Whenever libwebsockets reports as writeable a socket that the table does not hold, as it does
  -- after `_removeConnection`, the next check of the table reads through a null pointer.
  pub check_after_writeable :
      (cur socket : ℕ) (cs : Connections) (s : S)
      → find socket cs ≡ none
      → check_connection_state on_timeout cur (writeable socket cs).0 s ≡ crash
  unfolding writeable
  check_after_writeable cur socket cs s h =
      rw (check_connection_state-expire, h, writeable)
        (expire_null cur socket (insert socket none cs) s (find-insert_self socket none cs))

-- With a timestamp in the past the check expires exactly the connections that are in a room and
-- were silent for more than 30 seconds.
pub is_expired_iff :
    (cur : ℕ) (c : Connection)
    → c.timestamp ≤ cur
    → cur < word_mod
    → (is_expired cur c ≡ true)
      ↔ ((30000 < cur - c.timestamp) × (is_empty (get_key roomid_key c) ≡ false))
unfolding is_expired elapsed
is_expired_iff cur c past word = grind arith

-- A timestamp that is later than the check's clock reading makes the difference wrap: the
-- connection is expired at once, though it has just been heard of.
pub is_expired_future :
    (cur : ℕ) (c : Connection)
    → cur < c.timestamp
    → c.timestamp ≤ cur + 1000
    → c.timestamp < word_mod
    → is_empty (get_key roomid_key c) ≡ false
    → is_expired cur c ≡ true
unfolding is_expired elapsed
is_expired_future cur c future near word room = ground arith
