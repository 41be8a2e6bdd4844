-- ===== src/Prelude/Text.antt =====
-- `std::string` as a list of byte values, with the searches and cuts that the program calls.
use Prim.Native.Char.{code}
use Prim.Native.String.{String}
use vm.Prelude.Tests.{nat_beq, ltb, if◌then◌else◌}
use vm.Prelude.Maps.{Key}
use Prim.Native.Nat.{ℕ, suc}
use mathlib.Core.Path.{◌≡◌, refl}
use mathlib.Core.Logic.{◌↔◌}
use mathlib.Core.Bool.{Bool, true, false, ◌&&◌}
use mathlib.Core.List.{List, [], ◌∷◌, ◌++◌}
use mathlib.Core.Option.{Option, none, some}
use native.Mathlib.Omega.{arith}

abbrev pub Text : Type 0
Text = List ℕ

-- A literal of the source.
abbrev pub codes : String → Text
codes String.[] = []
codes (String.◌∷◌ c s) = code c ∷ codes s

unfoldable pub text_beq : Text → Text → Bool
text_beq [] [] = true
text_beq [] (y ∷ ys) = false
text_beq (x ∷ xs) [] = false
text_beq (x ∷ xs) (y ∷ ys) = nat_beq x y && text_beq xs ys

-- The lexicographic order of `std::less<std::string>`.
unfoldable pub text_before : Text → Text → Bool
text_before [] [] = false
text_before [] (y ∷ ys) = true
text_before (x ∷ xs) [] = false
text_before (x ∷ xs) (y ∷ ys) =
    let rest = text_before xs ys in if ltb x y then true else (nat_beq x y && rest)

text_beq_refl : (s : Text) → text_beq s s ≡ true
unfolding text_beq
text_beq_refl [] = refl
text_beq_refl (x ∷ s) = ground (arith, text_beq_refl s)

eq_of_text_beq : (s t : Text) → text_beq s t ≡ true → s ≡ t
unfolding text_beq
eq_of_text_beq [] [] h = refl
eq_of_text_beq [] (y ∷ ys) h = ground arith
eq_of_text_beq (x ∷ xs) [] h = ground arith
eq_of_text_beq (x ∷ xs) (y ∷ ys) h = ground (arith, eq_of_text_beq xs ys)

pub text_beq_iff : (s t : Text) → (text_beq s t ≡ true) ↔ (s ≡ t)
text_beq_iff s t = (eq_of_text_beq s t, λ e. rw e (text_beq_refl t))

instance abbrev pub text_key : Key Text
text_key = record { beq = text_beq; before = text_before; beq_iff = text_beq_iff }

-- `s.size() == 0`.
abbrev pub is_empty : Text → Bool
is_empty [] = true
is_empty (c ∷ s) = false

unfoldable pub starts_with : Text → Text → Bool
starts_with [] s = true
starts_with (p ∷ ps) [] = false
starts_with (p ∷ ps) (c ∷ s) = nat_beq p c && starts_with ps s

abbrev pub shift : Option ℕ → Option ℕ
shift none = none
shift (some i) = some (suc i)

-- `s.find(p)`: the first position of `p`, or `npos` (-1 as an int).
unfoldable pub find_text : Text → Text → Option ℕ
find_text p [] = if is_empty p then some 0 else none
find_text p (c ∷ s) =
    let later = shift (find_text p s) in if starts_with p (c ∷ s) then some 0 else later

pub starts_with_self : (p s : Text) → starts_with p (p ++ s) ≡ true
unfolding starts_with
starts_with_self [] s = refl
starts_with_self (c ∷ p) s = ground (arith, starts_with_self p s)
