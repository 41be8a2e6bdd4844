-- ===== src/Adapter/Sending.antt =====
-- atb_adapter/sockio.h: sending the whole of a message.
use vm.Prelude.{
  ℕ, zero, suc, ◌+◌, ◌≤◌, ◌≡◌, ◌⊎◌, inl, inr, refl, ap, length-append, length-drop, List, [], ◌∷◌,
  ◌++◌, arith, length, take, drop,
}
use vm.Prelude.Int.{ℤ, pos, negsuc, minus_one}
use vm.Prelude.Exec.{Exec, ok, crash, no_fuel, ◌>>=◌}
use vm.Prelude.Text.{Text}

-- What one call of `send` gives: `part n` that n + 1 bytes are written, or all if fewer were left; that
-- the socket is full; or an error.
pub data Sent : Type 0 where
  part : ℕ → Sent
  again : Sent
  error : Sent

-- A part is written before the rest.
unfoldable pub et_write : Text → Exec (Text × ℤ) → Exec (Text × ℤ)
et_write written rest = do
  (got, ret) ← rest
  ok (written ++ got, elim ret [ pos n ↦ pos (length written + n) | negsuc n ↦ negsuc n ])

-- `ETSend`: what the socket has got, and the result. `sends` are the answers of `send`.
unfoldable pub et_send : List Sent → Text → Exec (Text × ℤ)
et_send sends [] = ok ([], pos 0)
et_send [] (c ∷ s) = no_fuel
et_send (again ∷ sends) (c ∷ s) = et_send sends (c ∷ s)
et_send (error ∷ sends) (c ∷ s) = ok ([], minus_one)
et_send (part n ∷ sends) (c ∷ s) = et_write (take (suc n) (c ∷ s)) (et_send sends (drop n s))

-- The whole text with its length, or a beginning of it with -1.
abbrev pub Whole : Text → Text × ℤ → Type 0
Whole s r =
    ((r.0 ≡ s) × (r.1 ≡ pos (length s))) ⊎ ((r.1 ≡ minus_one) × ((rest : Text) × (r.0 ++ rest ≡ s)))

++_assoc : (xs ys zs : Text) → (xs ++ ys) ++ zs ≡ xs ++ (ys ++ zs)
++_assoc [] ys zs = refl
++_assoc (x ∷ xs) ys zs = ap (◌∷◌ x) (++_assoc xs ys zs)

take-drop : (n : ℕ) (s : Text) → take n s ++ drop n s ≡ s
take-drop zero s = refl
take-drop (suc n) [] = refl
take-drop (suc n) (c ∷ s) = ap (◌∷◌ c) (take-drop n s)

et_write-Whole :
    (before s : Text) (e : Exec (Text × ℤ)) (r : Text × ℤ)
    → ((q : Text × ℤ) → e ≡ ok q → Whole s q)
    → et_write before e ≡ ok r
    → Whole (before ++ s) r
unfolding et_write
et_write-Whole before s crash r whole q = grind arith
et_write-Whole before s no_fuel r whole q = grind arith
et_write-Whole before s (ok (got, ret)) r whole q = elim (whole (got, ret) refl) [
  | inl (all, len) ↦
      inl (grind (arith, length-append before s), grind (arith, length-append before s))
  | inr (failed, (rest, more)) ↦ inr (grind arith, (rest, grind (arith, ++_assoc before got rest)))
]

et_send-Whole : (sends : List Sent) (s : Text) (r : Text × ℤ) → et_send sends s ≡ ok r → Whole s r
unfolding et_send
et_send-Whole sends [] r e = inl (grind arith)
et_send-Whole [] (c ∷ s) r e = grind arith
et_send-Whole (again ∷ sends) (c ∷ s) r e = et_send-Whole sends (c ∷ s) r e
et_send-Whole (error ∷ sends) (c ∷ s) r e = inr (grind arith, (c ∷ s, grind arith))
et_send-Whole (part n ∷ sends) (c ∷ s) r e =
    let whole =
      et_write-Whole (c ∷ take n s) (drop n s) (et_send sends (drop n s)) r
        (et_send-Whole sends (drop n s)) e in
    rw (take-drop n s) at whole

et_write-ok :
    (before : Text) (e : Exec (Text × ℤ)) (r : Text × ℤ)
    → e ≡ ok r
    → (q : Text × ℤ) × (et_write before e ≡ ok q)
unfolding et_write
et_write-ok before (ok r') r e = (_, refl)
et_write-ok before crash r e = absurd (cc)
et_write-ok before no_fuel r e = absurd (cc)

-- The number of parts among the answers; an error counts as one.
abbrev pub parts : List Sent → ℕ
parts [] = 0
parts (part n ∷ sends) = suc (parts sends)
parts (again ∷ sends) = parts sends
parts (error ∷ sends) = suc (parts sends)

et_send_enough :
    (sends : List Sent) (s : Text)
    → length s ≤ parts sends
    → (r : Text × ℤ) × (et_send sends s ≡ ok r)
unfolding et_send
et_send_enough sends [] enough = (_, refl)
et_send_enough [] (c ∷ s) enough = grind arith
et_send_enough (again ∷ sends) (c ∷ s) enough = et_send_enough sends (c ∷ s) enough
et_send_enough (error ∷ sends) (c ∷ s) enough = (_, refl)
et_send_enough (part n ∷ sends) (c ∷ s) enough =
    let (r, rest) = et_send_enough sends (drop n s) (omega (arith, length-drop n s)) in
    et_write-ok (c ∷ take n s) (et_send sends (drop n s)) r rest

-- If `send` gives as many parts or errors as the message has bytes, however often the socket is full,
-- `ETSend` returns. The socket has then got the whole message and the result is its length, or it has a
-- beginning of the message and the result is -1.
pub et_send_returns :
    (sends : List Sent) (s : Text)
    → length s ≤ parts sends
    → (r : Text × ℤ) × ((et_send sends s ≡ ok r) × Whole s r)
et_send_returns sends s enough =
    let (r, e) = et_send_enough sends s enough in (r, (e, et_send-Whole sends s r e))
