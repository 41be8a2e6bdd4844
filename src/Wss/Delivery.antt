-- ===== src/Wss/Delivery.antt =====
-- atb_wss/WebSocketServer.cc: what is sent to a connection is what its socket is given, in order.
use vm.Prelude.{
  ℕ, ◌≡◌, ◌≢◌, ◌∙◌, refl, sym, ap, some, List, [], ◌∷◌, ◌++◌, arith, nat_key, nat_beq, find,
  find-insert, find-erase, if◌then◌else◌, All, true, false, Bool, nat_beq_iff, Bool-cases, inl, inr,
}
use mathlib.Core.List.{append_assoc, append-nil}
use mathlib.Core.Path.{subst}
use vm.Prelude.Exec.{Exec, ok, ◌>>=◌, >>=-eq-ok}
use vm.Prelude.Text.{Text}
use vm.Wss.Server.{
  Connection, Connections, add_connection, remove_connection, update, push, buffer_string, send,
  set_value, get_value, touch_key, put_key, update_timestamp, writeable,
}

-- A call on the table of connections.
pub data Use : Type 0 where
  opening : (time raw socket : ℕ) → Use
  closing : (socket : ℕ) → Use
  sending : (socket : ℕ) (message : Text) → Use
  writing : (socket : ℕ) → Use
  setting : (socket : ℕ) (name value : Text) → Use
  getting : (socket : ℕ) (name : Text) → Use
  stamping : (socket now : ℕ) → Use

-- The calls, with what `lws_write` is given for each socket.
unfoldable pub use_one : Use → Connections → Exec (Connections × List (ℕ × List Text))
use_one (opening time raw t) cs = ok (add_connection time raw t cs, [])
use_one (closing t) cs = ok (remove_connection t cs, [])
use_one (sending t message) cs = do cs' ← send t message cs; ok (cs', [])
use_one (writing t) cs = let (cs', out) = writeable t cs in ok (cs', (t, out) ∷ [])
use_one (setting t name value) cs = do cs' ← set_value t name value cs; ok (cs', [])
use_one (getting t name) cs = do (cs', v) ← get_value t name cs; ok (cs', [])
use_one (stamping t now) cs = do cs' ← update_timestamp t now cs; ok (cs', [])

unfoldable pub use_all : List Use → Connections → Exec (Connections × List (ℕ × List Text))
use_all [] cs = ok (cs, [])
use_all (u ∷ us) cs = do
  (cs1, first) ← use_one u cs
  (cs2, others) ← use_all us cs1
  ok (cs2, first ++ others)

then_given :
    {A : Type 0} (g1 g2 b0 b1 b2 s1 s2 : List A)
    → g1 ++ b1 ≡ b0 ++ s1
    → g2 ++ b2 ≡ b1 ++ s2
    → (g1 ++ g2) ++ b2 ≡ b0 ++ (s1 ++ s2)
then_given g1 g2 b0 b1 b2 s1 s2 one later =
    append_assoc g1 g2 b2
    ∙ ap (λ l. g1 ++ l) later
    ∙ sym (append_assoc g1 b1 s2)
    ∙ ap (λ l. l ++ s2) one
    ∙ append_assoc b0 s1 s2

module _ (s : ℕ) where
  -- The messages of the calls that send to this socket.
  abbrev pub sent : List Use → List Text
  sent [] = []
  sent (sending t message ∷ us) = if nat_beq t s then message ∷ sent us else sent us
  sent (u ∷ us) = sent us

  -- What this socket is given.
  abbrev pub given : List (ℕ × List Text) → List Text
  given [] = []
  given ((t, out) ∷ outs) = if nat_beq t s then out ++ given outs else given outs

  -- The calls that open or close this connection.
  abbrev pub Other : Use → Type 0
  Other (opening time raw t) = t ≢ s
  Other (closing t) = t ≢ s
  Other u = Unit

  find-add_connection :
      (time raw t : ℕ) (c : Connection) (cs : Connections)
      → t ≢ s
      → find s cs ≡ some (some c)
      → find s (add_connection time raw t cs) ≡ some (some c)
  unfolding add_connection
  find-add_connection time raw t c cs other here = grind (arith, find-insert t s, nat_beq_iff t s)

  find-remove_connection :
      (t : ℕ) (c : Connection) (cs : Connections)
      → t ≢ s
      → find s cs ≡ some (some c)
      → find s (remove_connection t cs) ≡ some (some c)
  unfolding remove_connection
  find-remove_connection t c cs other here = grind (arith, find-erase t s, nat_beq_iff t s)

  find-update :
      (t : ℕ) (f : Connection → Connection) (c : Connection) (cs : Connections) {cs' : Connections}
      → find s cs ≡ some (some c)
      → update t f cs ≡ ok cs'
      → find s cs' ≡ some (some (if nat_beq t s then f c else c))
  unfolding update
  find-update t f c cs here e = grind (arith, find-insert t s, nat_beq_iff t s)

  find-send :
      (t : ℕ) (message : Text) (c : Connection) (cs : Connections) {cs' : Connections}
      → find s cs ≡ some (some c)
      → send t message cs ≡ ok cs'
      → find s cs' ≡ some (some (if nat_beq t s then push message c else c))
  unfolding send buffer_string
  find-send t message c cs here e = grind (arith, find-update t (push message) c cs here, here)

  find-get_value :
      (t : ℕ) (name : Text) (c : Connection) (cs : Connections) {r : Connections × Text}
      → find s cs ≡ some (some c)
      → get_value t name cs ≡ ok r
      → find s r.0 ≡ some (some (if nat_beq t s then touch_key name c else c))
  unfolding get_value
  find-get_value t name c cs here e = grind (arith, find-insert t s, nat_beq_iff t s)

  find-writeable :
      (t : ℕ) (c : Connection) (cs : Connections)
      → find s cs ≡ some (some c)
      → find s (writeable t cs).0
          ≡ some (some (if nat_beq t s then record c { buffer = [] } else c))
        × ((if nat_beq t s then (writeable t cs).1 else c.buffer) ≡ c.buffer)
  unfolding writeable
  find-writeable t c cs here = grind (arith, find-insert t s, nat_beq_iff t s)

  same_buffer :
      (b : Bool) (c d : Connection)
      → d.buffer ≡ c.buffer
      → (if b then d else c).buffer ≡ c.buffer ++ []
  same_buffer true c d e = e ∙ sym (append-nil c.buffer)
  same_buffer false c d e = sym (append-nil c.buffer)

  touch_key-buffer : (name : Text) (c : Connection) → (touch_key name c).buffer ≡ c.buffer
  unfolding touch_key
  touch_key-buffer name c = grind arith

  -- One call: what the socket is given, with what is then in the buffer.
  Passes : Use → Connection → Connections × List (ℕ × List Text) → Type 0
  Passes u c r =
      (c' : Connection) × (find s r.0 ≡ some (some c'))
      × (given r.1 ++ c'.buffer ≡ c.buffer ++ sent (u ∷ []))

  use_one-Passes :
      (u : Use) (c : Connection) (cs : Connections) {r : Connections × List (ℕ × List Text)}
      → Other u
      → find s cs ≡ some (some c)
      → use_one u cs ≡ ok r
      → Passes u c r
  unfolding Passes use_one set_value update_timestamp put_key
  use_one-Passes (opening time raw t) c cs {r} other here e =
      let same : (add_connection time raw t cs, []) ≡ r = grind arith in
      subst (Passes (opening time raw t) c) same
        (c, find-add_connection time raw t c cs other here, sym (append-nil c.buffer))
  use_one-Passes (closing t) c cs {r} other here e =
      let same : (remove_connection t cs, []) ≡ r = grind arith in
      subst (Passes (closing t) c) same
        (c, find-remove_connection t c cs other here, sym (append-nil c.buffer))
  use_one-Passes (sending t message) c cs {r} other here e =
      let (cs', now, e') = >>=-eq-ok (send t message cs) _ e in
      let same : (cs', []) ≡ r = grind arith in
      subst (Passes (sending t message) c) same
        (_, find-send t message c cs here now, buffer_of (nat_beq t s))
    where
      buffer_of :
          (b : Bool)
          → (if b then push message c else c).buffer ≡ c.buffer ++ (if b then message ∷ [] else [])
      buffer_of true = refl
      buffer_of false = sym (append-nil c.buffer)
  use_one-Passes (writing t) c cs {r} other here e =
      let same : ((writeable t cs).0, (t, (writeable t cs).1) ∷ []) ≡ r = grind arith in
      let (found, out) = find-writeable t c cs here in
      subst (Passes (writing t) c) same (_, found, given_of (nat_beq t s) (writeable t cs).1 out)
    where
      given_of :
          (b : Bool) (out : List Text)
          → (if b then out else c.buffer) ≡ c.buffer
          → (if b then out ++ [] else []) ++ (if b then record c { buffer = [] } else c).buffer
            ≡ c.buffer ++ []
      given_of true out same = append-nil (out ++ []) ∙ ap (λ l. l ++ []) same
      given_of false out same = sym (append-nil c.buffer)
  use_one-Passes (setting t name value) c cs {r} other here e =
      let (cs', now, e') = >>=-eq-ok (set_value t name value cs) _ e in
      let same : (cs', []) ≡ r = grind arith in
      subst (Passes (setting t name value) c) same (
        _,
        find-update t (put_key name value) c cs here now,
        same_buffer (nat_beq t s) c (put_key name value c) refl,
      )
  use_one-Passes (getting t name) c cs {r} other here e =
      let ((cs', v), now, e') = >>=-eq-ok (get_value t name cs) _ e in
      let same : (cs', []) ≡ r = grind arith in
      subst (Passes (getting t name) c) same (
        _,
        find-get_value t name c cs here now,
        same_buffer (nat_beq t s) c (touch_key name c) (touch_key-buffer name c),
      )
  use_one-Passes (stamping t now) c cs {r} other here e =
      let (cs', stamped, e') = >>=-eq-ok (update_timestamp t now cs) _ e in
      let same : (cs', []) ≡ r = grind arith in
      subst (Passes (stamping t now) c) same (
        _,
        find-update t (λ c. record c { timestamp = now }) c cs here stamped,
        same_buffer (nat_beq t s) c (record c { timestamp = now }) refl,
      )

  given-append :
      (outs more : List (ℕ × List Text)) → given (outs ++ more) ≡ given outs ++ given more
  given-append [] more = refl
  given-append ((t, out) ∷ outs) more =
      let rest = given-append outs more in
      elim (Bool-cases (nat_beq t s)) [
        | inl to ↦ rw to (rw rest (sym (append_assoc out (given outs) (given more))))
        | inr off ↦ rw off rest
      ]

  sent_cons : (u : Use) (us : List Use) → sent (u ∷ us) ≡ sent (u ∷ []) ++ sent us
  sent_cons (opening time raw t) us = refl
  sent_cons (closing t) us = refl
  sent_cons (sending t message) us = grind arith
  sent_cons (writing t) us = refl
  sent_cons (setting t name value) us = refl
  sent_cons (getting t name) us = refl
  sent_cons (stamping t now) us = refl

  -- A connection is in the table, and calls are made for it and for others, none of which opens or closes
  -- it. What its socket is given, with what is in its buffer at the end, is what was in the buffer and
  -- then what was sent to it: every message once, in order, and none of another connection.
  pub given-use_all :
      (us : List Use) (c : Connection) (cs : Connections) {r : Connections × List (ℕ × List Text)}
      → All Other us
      → find s cs ≡ some (some c)
      → use_all us cs ≡ ok r
      → (c' : Connection) × (find s r.0 ≡ some (some c'))
        × (given r.1 ++ c'.buffer ≡ c.buffer ++ sent us)
  unfolding use_all Passes
  given-use_all [] c cs {r} other here e =
      let same : (cs, []) ≡ r = grind arith in
      subst
        (λ r.
          (c' : Connection) × (find s r.0 ≡ some (some c'))
          × (given r.1 ++ c'.buffer ≡ c.buffer ++ []))
        same (c, here, sym (append-nil c.buffer))
  given-use_all (u ∷ us) c cs {r} (first, rest) here e =
      let ((cs1, out), e1, e') = >>=-eq-ok (use_one u cs) _ e in
      let ((cs2, outs), e2, e'') = >>=-eq-ok (use_all us cs1) _ e' in
      let (c1, here1, one) = use_one-Passes u c cs first here e1 in
      let (c2, here2, later) = given-use_all us c1 cs1 rest here1 e2 in
      let same : (cs2, out ++ outs) ≡ r = grind arith in
      subst
        (λ r.
          (c' : Connection) × (find s r.0 ≡ some (some c'))
          × (given r.1 ++ c'.buffer ≡ c.buffer ++ sent (u ∷ us)))
        same
        (
          c2,
          here2,
          ap (λ l. l ++ c2.buffer) (given-append out outs)
              ∙ then_given (given out) (given outs) c.buffer c1.buffer c2.buffer (sent (u ∷ []))
                  (sent us) one later
              ∙ ap (λ l. c.buffer ++ l) (sym (sent_cons u us)),
        )
