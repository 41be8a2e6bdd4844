-- ===== src/Service/Console.antt =====
-- main.cpp: the loop that waits for "quit" at the console.
use vm.Prelude.{
  not, ℕ, suc, ◌+◌, ◌≤◌, ◌<◌, ◌≡◌, refl, Bool, false, ◌&&◌, Option, none, some, List, [], ◌∷◌,
  if◌then◌else◌, nat_beq, arith,
}
use Prim.Native.Nat.{◌%◌}

-- `quit[i & 3] = (c == 't')`, where `i & 3` is `i % 4`. What is written is the truth of the comparison,
-- since `==` binds more tightly than `=`.
unfoldable pub put : ℕ → ℕ → (ℕ → ℕ) → ℕ → ℕ
put i c quit j = if nat_beq (i % 4) j then (if nat_beq c b't' then 1 else 0) else quit j

-- The two conditions, after the character is written.
unfoldable pub leaves : (ℕ → ℕ) → ℕ → Bool
leaves quit i =
    not (nat_beq (quit (i % 4)) 0)
    && (nat_beq (quit ((i + 1) % 4)) b'q'
        && (nat_beq (quit ((i + 2) % 4)) b'u' && nat_beq (quit ((i + 3) % 4)) b'i'))

-- The loop over the characters that are typed. The result is what is left to read when the loop ends,
-- and `none` where it does not end.
unfoldable pub console : (ℕ → ℕ) → ℕ → List ℕ → Option (List ℕ)
console quit i [] = none
console quit i (c ∷ cs) =
    let quit' = put i c quit in
    let later = console quit' (suc i) cs in if leaves quit' i then some cs else later

-- An array that holds truth values only.
abbrev Truths : (ℕ → ℕ) → Type 0
Truths quit = (j : ℕ) → j < 4 → quit j ≤ 1

put-Truths : (quit : ℕ → ℕ) (i c : ℕ) → Truths quit → Truths (put i c quit)
unfolding put
put-Truths quit i c small j below = grind (arith, small)

leaves_small : (quit : ℕ → ℕ) (i : ℕ) → quit ((i + 1) % 4) ≤ 1 → leaves quit i ≡ false
unfolding leaves
leaves_small quit i small = grind arith

console-Truths : (quit : ℕ → ℕ) (i : ℕ) (cs : List ℕ) → Truths quit → console quit i cs ≡ none
unfolding console
console-Truths quit i [] small = refl
console-Truths quit i (c ∷ cs) small =
    let small' = put-Truths quit i c small in
    let stays = leaves_small (put i c quit) i (small' ((i + 1) % 4) (omega arith)) in
    let rest = console-Truths (put i c quit) (suc i) cs small' in grind arith

put-Truths_fourth : (quit : ℕ → ℕ) (c : ℕ) → ((j : ℕ) → j < 3 → quit j ≤ 1) → Truths (put 3 c quit)
unfolding put
put-Truths_fourth quit c small j below = grind (arith, small)

-- At the fourth character the array is full of truth values.
console_fourth :
    (quit : ℕ → ℕ) (cs : List ℕ) → ((j : ℕ) → j < 3 → quit j ≤ 1) → console quit 3 cs ≡ none
unfolding console
console_fourth quit [] small = refl
console_fourth quit (c ∷ cs) small =
    let small' = put-Truths_fourth quit c small in
    let stays = leaves_small (put 3 c quit) 3 (small' 0 (omega arith)) in
    let rest = console-Truths (put 3 c quit) 4 cs small' in grind arith

first_three : (quit : ℕ → ℕ) (a b c : ℕ) (j : ℕ) → j < 3 → put 2 c (put 1 b (put 0 a quit)) j ≤ 1
unfolding put
first_three quit a b c j below = grind arith

-- However the array is filled at first, and whatever is typed: if the loop has not ended after three
-- characters, it does not end at all.
pub console_goes_on :
    (quit : ℕ → ℕ) (a b c : ℕ) (cs : List ℕ)
    → console quit 0 (a ∷ b ∷ c ∷ []) ≡ none
    → console quit 0 (a ∷ b ∷ c ∷ cs) ≡ none
unfolding console
console_goes_on quit a b c cs e =
    let quit' = put 2 c (put 1 b (put 0 a quit)) in
    let rest = console_fourth quit' cs (first_three quit a b c) in grind arith
