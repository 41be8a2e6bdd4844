-- ===== src/Adapter/Waiting.antt =====
-- atb_adapter/cms_client.cpp: `WaitforResponse`, which waits for the answer to one of its messages
-- while other threads insert what they read.
use vm.Prelude.{
  ℕ, ◌≤◌, ◌≡◌, refl, ap, true, false, none, some, List, [], ◌∷◌, ◌++◌, length, All, All-append, ltb,
  arith,
}
use vm.Prelude.Exec.{ok}
use vm.Adapter.Wire.{padded}
use vm.Adapter.Client.{MessageNode, is_answer, take_answer, wait_loop}

-- No message of the list is the answer.
abbrev pub Silent : ℕ → ℕ → List MessageNode → Type 0
Silent kind seqnum ms = All (λ m. is_answer kind seqnum m ≡ false) ms

abbrev pub arrived : List (List MessageNode) → List MessageNode
arrived [] = []
arrived (new ∷ rounds) = new ++ arrived rounds

take_answer-Silent :
    (kind seqnum : ℕ) (ms : List MessageNode)
    → Silent kind seqnum ms
    → take_answer kind seqnum ms ≡ none
unfolding take_answer
take_answer-Silent kind seqnum [] s = refl
take_answer-Silent kind seqnum (m ∷ ms) s = rw (s.0, take_answer-Silent kind seqnum ms s.1) refl

take_answer-first :
    (kind seqnum : ℕ) (pre : List MessageNode) (m : MessageNode) (post : List MessageNode)
    → Silent kind seqnum pre
    → is_answer kind seqnum m ≡ true
    → take_answer kind seqnum (pre ++ m ∷ post) ≡ some (m, pre ++ post)
unfolding take_answer
take_answer-first kind seqnum [] m post s e = rw e refl
take_answer-first kind seqnum (p ∷ pre) m post s e =
    rw (s.0, take_answer-first kind seqnum pre m post s.1 e) refl

++_assoc : {A : Type 0} → (xs ys zs : List A) → (xs ++ ys) ++ zs ≡ xs ++ (ys ++ zs)
++_assoc [] ys zs = refl
++_assoc (x ∷ xs) ys zs = ap (◌∷◌ x) (++_assoc xs ys zs)

++_nil : {A : Type 0} → (xs : List A) → xs ++ [] ≡ xs
++_nil [] = refl
++_nil (x ∷ xs) = ap (◌∷◌ x) (++_nil xs)

-- When the answer does not come in time, nothing that came is lost.
pub wait_loop_timeout :
    (room kind seqnum : ℕ) (rounds : List (List MessageNode)) (ms : List MessageNode)
    → Silent kind seqnum ms
    → All (Silent kind seqnum) rounds
    → wait_loop room kind seqnum rounds ms ≡ ok (ms ++ arrived rounds, none)
unfolding wait_loop
wait_loop_timeout room kind seqnum [] ms s t = rw (++_nil ms) refl
wait_loop_timeout room kind seqnum (new ∷ rounds) ms s t =
    let quiet = All-append _ ms new s t.0 in
    let later = wait_loop_timeout room kind seqnum rounds (ms ++ new) quiet t.1 in
    let same = ++_assoc ms new (arrived rounds) in
    rw (take_answer-Silent kind seqnum (ms ++ new) quiet, wait_loop) (rw same at later)

-- The first message of the right kind and number that comes is the answer: it alone is taken out of
-- the list, whatever came with it or before it, and the rounds that follow are not waited for.
pub wait_loop_answered :
    (room kind seqnum : ℕ) (before after : List (List MessageNode)) (ms pre : List MessageNode)
    (m : MessageNode) (post : List MessageNode)
    → Silent kind seqnum ms
    → All (Silent kind seqnum) before
    → Silent kind seqnum pre
    → is_answer kind seqnum m ≡ true
    → length m.buf ≤ room
    → wait_loop room kind seqnum (before ++ (pre ++ m ∷ post) ∷ after) ms
      ≡ ok ((ms ++ arrived before) ++ (pre ++ post), some (padded room m.buf))
unfolding wait_loop
wait_loop_answered room kind seqnum [] after ms pre m post s t u e fit =
    let fits : ltb room (length m.buf) ≡ false = ground arith in
    let taken = take_answer-first kind seqnum (ms ++ pre) m post (All-append _ ms pre s u) e in
    let same = ++_assoc ms pre (m ∷ post) in
    let rest = ++_assoc ms pre post in
    rw (rw same at taken, wait_loop) (rw (fits, rest, ++_nil ms) refl)
wait_loop_answered room kind seqnum (new ∷ before) after ms pre m post s t u e fit =
    let quiet = All-append _ ms new s t.0 in
    let later =
      wait_loop_answered room kind seqnum before after (ms ++ new) pre m post quiet t.1 u e fit in
    let same = ++_assoc ms new (arrived before) in
    rw (take_answer-Silent kind seqnum (ms ++ new) quiet, wait_loop) (rw same at later)
