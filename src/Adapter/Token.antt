-- ===== src/Adapter/Token.antt =====
-- atb_adapter/global.cpp: the random tokens, which are a camera's push key and a new client's id. `rand
-- seed i` is the i-th number after `srand(seed)`, and the seed is the time in seconds.
use vm.Prelude.{ℕ, zero, suc, ◌≤◌, ◌≡◌, refl, none, some, [], ◌∷◌, arith, take, get_elem?}
use Prim.Native.Nat.{◌%◌}
use vm.Prelude.Text.{Text, codes}

-- `g_arrCharElem`.
abbrev pub char_elem : Text
char_elem = codes "0123456789ABCDEFGHIJKLMNOPQRSTUVWXYZabcdefghijklmnopqrstuvwxyz"

-- A number below 62 as a character; there are no others.
unfoldable pub char_of : ℕ → ℕ
char_of k = elim (get_elem? char_elem k) [ none ↦ 0 | some c ↦ c ]

module _ (rand : ℕ → ℕ → ℕ) where
  -- The loop of `GeneralToken`: the characters from the i-th on.
  unfoldable pub token_from : ℕ → ℕ → ℕ → Text
  token_from seed i zero = []
  token_from seed i (suc n) = char_of (rand seed i % 62) ∷ token_from seed (suc i) n

  -- `GeneralToken` at a time.
  unfoldable pub general_token : ℕ → ℕ → Text
  general_token time len = token_from time 0 len

  take-token_from : (seed i m n : ℕ) → m ≤ n → take m (token_from seed i n) ≡ token_from seed i m
  unfolding token_from
  take-token_from seed i zero n below = refl
  take-token_from seed i (suc m) zero below = grind arith
  take-token_from seed i (suc m) (suc n) below = grind (arith, take-token_from seed (suc i) m n)

  -- Tokens that are made in the same second do not differ: the shorter is the beginning of the longer.
  pub take-general_token :
      (time m n : ℕ) → m ≤ n → take m (general_token time n) ≡ general_token time m
  unfolding general_token
  take-general_token time m n below = take-token_from time 0 m n below
