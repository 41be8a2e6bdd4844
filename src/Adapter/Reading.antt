-- ===== src/Adapter/Reading.antt =====
-- atb_adapter/sockio.h and task_tcpreadmsg.cpp: reading a message that comes in pieces.
use vm.Prelude.{
  ℕ, zero, suc, ◌+◌, ◌-◌, ◌^◌, ◌≤◌, ◌<◌, ◌≡◌, refl, ap, ◌∙◌, inl, inr, false, ◌||◌, List, [], ◌∷◌,
  ◌++◌, arith, length, take, drop, nat_beq, length-append, length-take, length-drop, Bool-cases,
  take-append,
}
use native.Mathlib.Numerals.{unary_clauses}
use vm.Prelude.Exec.{ok, crash}
use vm.Prelude.Text.{Text, text_beq}
use vm.Adapter.Wire.{
  Frame, message, int_bytes, int_at, et_recv, read_body, read_message, encode, data_size,
  header_size,
}

-- Every call of `recv` gives something.
abbrev pub Flows : List ℕ → Type 0
Flows [] = Unit
Flows (cut ∷ cuts) = (0 < cut) × Flows cuts

take_add : {A : Type 0} → (a b : ℕ) (s : List A) → take (a + b) s ≡ take a s ++ take b (drop a s)
take_add zero b s = let e : 0 + b ≡ b = omega arith in rw e refl
take_add (suc a) zero [] = let e : suc a + zero ≡ suc a = omega arith in rw e refl
take_add (suc a) (suc b) [] = let e : suc a + suc b ≡ suc (a + suc b) = omega arith in rw e refl
take_add (suc a) b (x ∷ s) =
    let e : suc a + b ≡ suc (a + b) = omega arith in rw e (ap (◌∷◌ x) (take_add a b s))

-- A piece of the beginning is the beginning of its length.
take_piece :
    {A : Type 0} → (k n : ℕ) (s : List A) → take k (take n s) ≡ take (length (take k (take n s))) s
take_piece zero n s = refl
take_piece (suc k) zero s = refl
take_piece (suc k) (suc n) [] = refl
take_piece (suc k) (suc n) (x ∷ s) = ap (◌∷◌ x) (take_piece k n s)

piece_bound : {A : Type 0} → (k n : ℕ) (s : List A) → length (take k (take n s)) ≤ n
piece_bound k n s = omega (arith, length-take k (take n s), length-take n s)

piece_joined :
    {A : Type 0}
    → (k n : ℕ) (s : List A)
    → take k (take n s)
        ++ take (n - length (take k (take n s))) (drop (length (take k (take n s))) s)
      ≡ take n s
piece_joined zero n s = let e : n - 0 ≡ n = omega arith in rw e refl
piece_joined (suc k) zero s = refl
piece_joined (suc k) (suc n) [] = let e : suc n - 0 ≡ suc n = omega arith in rw e refl
piece_joined (suc k) (suc n) (x ∷ s) = simp unary_clauses (ap (◌∷◌ x) (piece_joined k n s))

-- Whatever pieces the socket gives, the bytes read are the first of the stream, at most as many as
-- were asked for.
pub et_recv-take :
    (n : ℕ) (cuts : List ℕ) (stream : Text)
    → (length (et_recv n cuts stream) ≤ n)
      × (et_recv n cuts stream ≡ take (length (et_recv n cuts stream)) stream)
unfolding et_recv
et_recv-take n [] stream = (omega arith, refl)
et_recv-take n (cut ∷ cuts) stream =
    let got = take cut (take n stream) in
    let rest = et_recv (n - length got) cuts (drop (length got) stream) in
    let ih = et_recv-take (n - length got) cuts (drop (length got) stream) in
    let all : (length (got ++ rest) ≤ n) × (got ++ rest ≡ take (length (got ++ rest)) stream) = (
      omega (arith, ih.0, length-append got rest, piece_bound cut n stream),
      rw
          (
            length-append got rest,
            take_add (length got) (length rest) stream,
            ← take_piece cut n stream,
            ← ih.1,
          )
          refl,
    ) in
    elim (Bool-cases (nat_beq n 0 || nat_beq (length got) 0)) [
      | inl e ↦ rw e (omega arith, refl)
      | inr e ↦ rw e all
    ]

-- Pieces of any sizes give all that was asked for, if the stream has it and there are as many calls.
pub et_recv_enough :
    (n : ℕ) (cuts : List ℕ) (stream : Text)
    → Flows cuts
    → n ≤ length cuts
    → n ≤ length stream
    → et_recv n cuts stream ≡ take n stream
unfolding et_recv
et_recv_enough zero [] stream flows calls long = refl
et_recv_enough (suc n) [] stream flows calls long = absurd (omega arith)
et_recv_enough zero (cut ∷ cuts) stream flows calls long = refl
et_recv_enough (suc n) (cut ∷ cuts) stream flows calls long =
    let got = take cut (take (suc n) stream) in
    let some : 0 < length got =
      omega (arith, length-take cut (take (suc n) stream), length-take (suc n) stream, flows.0) in
    let test : nat_beq (length got) 0 ≡ false = ground arith in
    let asked : nat_beq (suc n) 0 ≡ false = ground arith in
    let ih =
      et_recv_enough (suc n - length got) cuts (drop (length got) stream) flows.1 (omega arith)
        (omega (arith, length-drop (length got) stream)) in
    rw (asked, test, ih) (piece_joined cut (suc n) stream)

int_at-int_bytes : (n : ℕ) (s : Text) → n < 2 ^ 32 → int_at (int_bytes n ++ s) ≡ n
unfolding int_at int_bytes
int_at-int_bytes n s h = omega arith

-- The fields fit their places, and there is a body that fits the buffer.
pub record Sendable (f : Frame) : Type 0 where
  pub cmd_fits : f.cmd < 2 ^ 32
  pub seq_fits : f.seq < 2 ^ 32
  pub some_body : 0 < length f.body
  pub body_fits : length f.body ≤ data_size

-- A message whose body is not empty and fits the buffer, and whose fields fit their places, is read as it
-- was, whatever follows it and however `recv` cuts it into pieces, as long as every call of `recv` gives at
-- least one byte until the message is complete: a call that finds the socket empty is not covered.
pub read_message-encode :
    (f : Frame) (header_cuts body_cuts : List ℕ) (next : Text)
    → Sendable f
    → Flows header_cuts
    → header_size ≤ length header_cuts
    → Flows body_cuts
    → length f.body ≤ length body_cuts
    → read_message header_cuts body_cuts (encode f ++ next) ≡ ok (message f.cmd f.seq f.body)
unfolding read_message read_body encode text_beq int_bytes
read_message-encode f hc bc next h fh ch fb cb =
    let stream = encode f ++ next in
    let long : header_size ≤ length stream = omega (arith, length-append f.body next) in
    let header = et_recv_enough header_size hc stream fh ch long in
    let body : et_recv (length f.body) bc (f.body ++ next) ≡ f.body =
      et_recv_enough (length f.body) bc (f.body ++ next) fb cb
        (omega (arith, length-append f.body next))
      ∙ take-append f.body next in
    let cmd = λ (s : Text). int_at-int_bytes f.cmd s h.cmd_fits in
    let seq = λ (s : Text). int_at-int_bytes f.seq s h.seq_fits in
    let size = λ (s : Text). int_at-int_bytes (length f.body) s (omega (arith, h.body_fits)) in
    rw (header, cmd _, seq _, size _, body) (ground (arith, h.some_body, h.body_fits))

-- A header that promises more than 10 KB is believed: when the peer sends that many bytes, they are
-- written past the end of the buffer. No login is needed for it.
pub read_body_overrun :
    (cmd seq size : ℕ) (cuts : List ℕ) (stream : Text)
    → data_size < size
    → size < 2 ^ 31
    → Flows cuts
    → size ≤ length cuts
    → size ≤ length stream
    → read_body cmd seq size cuts stream ≡ crash
unfolding read_body
read_body_overrun cmd seq size cuts stream big positive flows calls long =
    rw (et_recv_enough size cuts stream flows calls long) (ground (arith, length-take size stream))
