-- ===== src/Log/Config.antt =====
-- atb_sak/src/cfg/_atb_cfg.cpp: a file of lines `key=value`, where a line that starts with '#' is left out.
use vm.Prelude.{
  ℕ, ◌≡◌, refl, Bool, false, Option, none, some, List, [], ◌∷◌, ◌++◌, arith, if◌then◌else◌, nat_beq,
  All, Map, insert,
}
use vm.Prelude.Int.{ℤ, pos, minus_one}
use vm.Prelude.Text.{Text, text_key}

-- `std::getline` up to a character, which is not kept: what is read, and what the stream has left.
unfoldable pub getline : ℕ → Text → Text × Text
getline stop [] = ([], [])
getline stop (c ∷ s) =
    let (line, rest) = getline stop s in if nat_beq c stop then ([], s) else (c ∷ line, rest)

abbrev pub cons_first : ℕ → List Text → List Text
cons_first c [] = (c ∷ []) ∷ []
cons_first c (l ∷ ls) = (c ∷ l) ∷ ls

-- What the loop reads while the stream is good: after a last newline it reads one more, empty line.
unfoldable pub file_lines : Text → List Text
file_lines [] = [] ∷ []
file_lines (c ∷ s) =
    let rest = file_lines s in if nat_beq c b'\n' then [] ∷ rest else cons_first c rest

abbrev pub is_comment : Text → Bool
is_comment [] = false
is_comment (c ∷ s) = nat_beq c b'#'

-- A line that is no comment: the text before the first '=', and the text between it and the next.
unfoldable pub enter_line : Text → Map Text Text → Map Text Text
unfolding getline
enter_line line configs =
    if is_comment line
    then configs
    else (let (key, rest) = getline b'=' line in insert key (getline b'=' rest).0 configs)

unfoldable pub enter_lines : List Text → Map Text Text → Map Text Text
enter_lines [] configs = configs
enter_lines (l ∷ ls) configs = enter_lines ls (enter_line l configs)

-- `get_config_map`: the file's bytes, or `none` where it does not open.
unfoldable pub get_config_map : Option Text → Map Text Text → Map Text Text × ℤ
get_config_map none configs = (configs, minus_one)
get_config_map (some file) configs = (enter_lines (file_lines file) configs, pos 0)

-- What a configuration file says.
pub data Line : Type 0 where
  comment : Text → Line
  setting : (key value : Text) → Line

abbrev pub line_text : Line → Text
line_text (comment s) = b'#' ∷ s
line_text (setting key value) = key ++ (b'=' ∷ value)

abbrev pub config_text : List Line → Text
config_text [] = []
config_text (l ∷ ls) = line_text l ++ (b'\n' ∷ config_text ls)

abbrev pub Without : ℕ → Text → Type 0
Without c = All (λ d. nat_beq d c ≡ false)

abbrev pub Plain : Line → Type 0
Plain (comment s) = Without b'\n' s
Plain (setting key value) =
    (is_comment key ≡ false)
    × Without b'\n' key
    × Without b'=' key
    × Without b'\n' value
    × Without b'=' value

-- The settings, each entered in the table in its turn.
abbrev pub settings : List Line → Map Text Text → Map Text Text
settings [] configs = configs
settings (comment s ∷ ls) configs = settings ls configs
settings (setting key value ∷ ls) configs = settings ls (insert key value configs)

getline-stop : (stop : ℕ) (s r : Text) → Without stop s → getline stop (s ++ (stop ∷ r)) ≡ (s, r)
unfolding getline
getline-stop stop [] r w = ground arith
getline-stop stop (c ∷ s) r w = rw (w.0, getline-stop stop s r w.1) refl

getline-all : (stop : ℕ) (s : Text) → Without stop s → getline stop s ≡ (s, [])
unfolding getline
getline-all stop [] w = refl
getline-all stop (c ∷ s) w = rw (w.0, getline-all stop s w.1) refl

file_lines-append :
    (s r : Text) → Without b'\n' s → file_lines (s ++ (b'\n' ∷ r)) ≡ s ∷ file_lines r
unfolding file_lines
file_lines-append [] r w = refl
file_lines-append (c ∷ s) r w = rw (w.0, file_lines-append s r w.1) refl

Without-append : (c : ℕ) (s t : Text) → Without c s → Without c t → Without c (s ++ t)
Without-append c [] t u v = v
Without-append c (x ∷ s) t u v = (u.0, Without-append c s t u.1 v)

line_text-Without : (l : Line) → Plain l → Without b'\n' (line_text l)
line_text-Without (comment s) p = (refl, p)
line_text-Without (setting key value) (_, k, _, v, _) =
    Without-append b'\n' key (b'=' ∷ value) k (refl, v)

is_comment-setting :
    (key value : Text) → is_comment key ≡ false → is_comment (key ++ (b'=' ∷ value)) ≡ false
is_comment-setting [] value e = refl
is_comment-setting (c ∷ key) value e = e

enter_line-line_text :
    (l : Line) (configs : Map Text Text)
    → Plain l
    → enter_line (line_text l) configs ≡ settings (l ∷ []) configs
unfolding enter_line
enter_line-line_text (comment s) configs p = refl
enter_line-line_text (setting key value) configs (first, _, k, _, v) =
    rw (is_comment-setting key value first, getline-stop b'=' key value k, getline-all b'=' value v)
      refl

last_line : (configs : Map Text Text) → enter_lines (file_lines []) configs ≡ insert [] [] configs
unfolding file_lines enter_lines enter_line getline
last_line configs = refl

settings_cons :
    (l : Line) (ls : List Line) (configs : Map Text Text)
    → settings (l ∷ ls) configs ≡ settings ls (settings (l ∷ []) configs)
settings_cons (comment s) ls configs = refl
settings_cons (setting key value) ls configs = refl

enter_lines-config_text :
    (ls : List Line) (configs : Map Text Text)
    → All Plain ls
    → enter_lines (file_lines (config_text ls)) configs ≡ insert [] [] (settings ls configs)
unfolding enter_lines
enter_lines-config_text [] configs p = last_line configs
enter_lines-config_text (l ∷ ls) configs p =
    rw
      (
        file_lines-append (line_text l) (config_text ls) (line_text-Without l p.0),
        enter_lines,
        enter_line-line_text l configs p.0,
        settings_cons l ls configs,
      )
      (enter_lines-config_text ls (settings (l ∷ []) configs) p.1)

-- A file of settings and comments, each on its own line, is read as the table of its settings, a later
-- one in place of an earlier one of the same key, with the empty key for the end of the file. No key or
-- value has a newline or '=', and no key starts with '#'.
pub get_config_map-config_text :
    (ls : List Line) (configs : Map Text Text)
    → All Plain ls
    → get_config_map (some (config_text ls)) configs ≡ (insert [] [] (settings ls configs), pos 0)
unfolding get_config_map
get_config_map-config_text ls configs p = rw (enter_lines-config_text ls configs p) refl
