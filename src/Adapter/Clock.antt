-- ===== src/Adapter/Clock.antt =====
-- atb_adapter/global.cpp: times of day and the two daily sections in which a camera may be played.
-- `seconds` stands for `strptime` with "%H:%M:%S" and `mktime`: `none` where the text does not parse.
use vm.Prelude.{
  ℕ, ◌+◌, ◌≤◌, ◌<◌, ◌≡◌, ◌↔◌, refl, Bool, true, false, not, ◌&&◌, Option, none, some, [], ◌∷◌, ◌++◌,
  arith, if◌then◌else◌, length, take, drop, leb, ltb, take-append,
}
use vm.Prelude.Exec.{Exec, ok, crash, ◌>>=◌}
use vm.Prelude.Int.{ℤ, pos, minus_one}
use vm.Prelude.Text.{Text, codes, is_empty, find_text, starts_with}

-- `s.insert(i, t)`, which throws where `i` is past the end.
unfoldable pub insert_text : ℕ → Text → Text → Exec Text
insert_text i t s = if leb i (length s) then ok (take i s ++ (t ++ drop i s)) else crash

-- "HHMMSS" with its two colons.
unfoldable pub with_colons : Text → Exec Text
unfolding insert_text
with_colons s = do t ← insert_text 2 (codes ":") s; insert_text 5 (codes ":") t

-- The four strings that `ParseTimeSection` fills.
pub record Sections : Type 0 where
  pub s0 : Text
  pub e0 : Text
  pub s1 : Text
  pub e1 : Text

abbrev pub no_sections : Sections
no_sections = record { s0 = []; e0 = []; s1 = []; e1 = [] }

-- Three times of day that parsed, the second between the others.
abbrev pub Between : Option ℕ → Option ℕ → Option ℕ → Type 0
Between (some s) (some t) (some e) = (s ≤ t) × (t ≤ e)
Between _ _ _ = ⊥

module _ (seconds : Text → Option ℕ) where
  unfoldable pub check_time_format : Text → Bool
  check_time_format s = elim (seconds s) [ none ↦ false | some t ↦ true ]

  unfoldable pub time_compare : Text → Text → Bool
  time_compare start stop = elim (seconds start) [
    | none ↦ false
    | some s ↦ elim (seconds stop) [ none ↦ false | some e ↦ not (ltb e s) ]
  ]

  unfoldable pub check_internal : Text → Text → Text → Bool
  unfolding time_compare
  check_internal time start stop =
      if is_empty start && is_empty stop
      then true
      else time_compare start stop && (time_compare start time && time_compare time stop)

  -- A section `begin-end`: its two times, if they parse and are in order.
  unfoldable pub parse_section : Text → Exec (Option (Text × Text))
  unfolding with_colons check_time_format time_compare
  parse_section sec = elim (find_text (codes "-") sec) [
    | none ↦ ok none
    | some p ↦ do
      s ← with_colons (take p sec)
      e ← with_colons (drop (p + 1) sec)
      ok (
          if not (check_time_format s && check_time_format e)
          then none
          else (if time_compare s e then some (s, e) else none))
  ]

  -- The result is the count of sections or -1. A section that was read stays filled when a later
  -- test fails.
  unfoldable pub parse_time_section : Text → Text → Exec (ℤ × Sections)
  parse_time_section sec0 sec1 = do
    first ← parse_section sec0
    elim first [
      | none ↦ ok (minus_one, no_sections)
      | some (s0, e0) ↦
          if is_empty sec1 then ok (pos 1, record { s0 = s0; e0 = e0; s1 = []; e1 = [] }) else (do
            second ← parse_section sec1
            elim second [
              | none ↦ ok (minus_one, record { s0 = s0; e0 = e0; s1 = []; e1 = [] })
              | some (s1, e1) ↦ ok (
                if time_compare e0 s1 then pos 2 else minus_one,
                record { s0 = s0; e0 = e0; s1 = s1; e1 = e1 },
              )
            ])
    ]

  -- A time is inside a given section exactly when the section's two ends and the time all parse, and
  -- the time is between the ends, both included.
  pub check_internal_iff :
      (time start stop : Text)
      → is_empty start ≡ false
      → (check_internal time start stop ≡ true)
        ↔ Between (seconds start) (seconds time) (seconds stop)
  unfolding check_internal
  check_internal_iff time start stop given = grind arith

-- A time as the web client sends it, "HHMMSS", and as it is kept, "HH:MM:SS".
pub record Six : Type 0 where
  pub h : ℕ
  pub h' : ℕ
  pub m : ℕ
  pub m' : ℕ
  pub s : ℕ
  pub s' : ℕ

abbrev pub digits : Six → Text
digits t = t.h ∷ t.h' ∷ t.m ∷ t.m' ∷ t.s ∷ t.s' ∷ []

abbrev pub clock : Six → Text
clock t = t.h ∷ t.h' ∷ b':' ∷ t.m ∷ t.m' ∷ b':' ∷ t.s ∷ t.s' ∷ []

-- The place of the first dash.
find_text-dash :
    (s e : Text)
    → find_text (codes "-") s ≡ none
    → find_text (codes "-") (s ++ b'-' ∷ e) ≡ some (length s)
unfolding find_text starts_with
find_text-dash [] e h = refl
find_text-dash (c ∷ s) e h = ground (arith, find_text-dash s e)

module _ (seconds : Text → Option ℕ) where
  -- A section of two six-digit times is read as these times with their colons, if both parse and
  -- the first is not later; else it is refused.
  pub parse_section-digits :
      (a b : Six)
      → find_text (codes "-") (digits a) ≡ none
      → parse_section seconds (digits a ++ b'-' ∷ digits b)
        ≡ ok (if time_compare seconds (clock a) (clock b) then some (clock a, clock b) else none)
  unfolding parse_section
  parse_section-digits a b clean =
      rw (find_text-dash (digits a) (digits b) clean, parse_section) (ground arith)

  -- Where a section's first time is shorter than two characters, the insertion of its colon throws,
  -- and nothing on the way catches that.
  pub parse_section_short :
      (s e : Text)
      → find_text (codes "-") s ≡ none
      → length s < 2
      → parse_section seconds (s ++ b'-' ∷ e) ≡ crash
  unfolding parse_section
  parse_section_short s e clean short =
      let few : leb 2 (length s) ≡ false = ground arith in
      rw (find_text-dash s e clean, take-append s (b'-' ∷ e), parse_section) (rw few)
