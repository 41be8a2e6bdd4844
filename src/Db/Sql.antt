-- ===== src/Db/Sql.antt =====
-- atb_adapter/db_helper.cpp: the numbers in its statements, and the buffer that holds a statement.
use vm.Prelude.{
  ℕ, zero, suc, ◌+◌, ◌-◌, ◌*◌, ◌/◌, ◌%◌, ◌^◌, Bool, ◌&&◌, ◌||◌, List, [], ◌∷◌, ◌++◌, if◌then◌else◌,
  length, ltb, leb, nat_beq,
}
use vm.Prelude.Exec.{Exec, ok, crash}
use vm.Prelude.Int.{ℤ, pos, negsuc}
use vm.Prelude.Text.{Text, codes}

abbrev pub is_digit : ℕ → Bool
is_digit c = leb b'0' c && leb c b'9'

-- `isspace`.
abbrev pub is_space : ℕ → Bool
is_space c = nat_beq c b' ' || (leb 9 c && leb c 13)

-- The digits at the start of a text.
unfoldable pub read_digits : ℕ → Text → ℕ
read_digits acc [] = acc
read_digits acc (c ∷ s) =
    let rest = read_digits (10 * acc + (c - b'0')) s in if is_digit c then rest else acc

unfoldable pub skip_spaces : Text → Text
skip_spaces [] = []
skip_spaces (c ∷ s) = let rest = skip_spaces s in if is_space c then rest else c ∷ s

abbrev pub negated : ℕ → ℤ
negated zero = pos 0
negated (suc n) = negsuc n

abbrev pub signed_digits : Text → ℤ
signed_digits [] = pos 0
signed_digits (c ∷ s) =
    if nat_beq c b'-'
    then negated (read_digits 0 s)
    else (if nat_beq c b'+' then pos (read_digits 0 s) else pos (read_digits 0 (c ∷ s)))

-- `atoi`; a number that does not fit an `int` is not looked at.
unfoldable pub atoi : Text → ℤ
unfolding read_digits skip_spaces
atoi s = signed_digits (skip_spaces s)

-- An `int` that is compared with 0 and 1 only, as its bits.
abbrev pub int_word : ℤ → ℕ
int_word (pos n) = n
int_word (negsuc n) = 2 ^ 32 - suc n

-- The decimal digits, the last first; a number below `fuel` has fewer of them than `fuel`.
unfoldable pub digits_up : ℕ → ℕ → Text
digits_up zero n = []
digits_up (suc fuel) n =
    let more = digits_up fuel (n / 10) in
    if ltb n 10 then (b'0' + n) ∷ [] else (b'0' + n % 10) ∷ more

unfoldable pub reversed : Text → Text → Text
reversed acc [] = acc
reversed acc (c ∷ s) = reversed (c ∷ acc) s

-- `%d`.
unfoldable pub decimal : ℤ → Text
unfolding digits_up reversed
decimal (pos n) = reversed [] (digits_up (suc n) n)
decimal (negsuc n) = b'-' ∷ reversed [] (digits_up (suc (suc n)) (suc n))

-- `sprintf` into `char szSql[1024]`: a statement that leaves no room for its end overruns the array.
abbrev pub sql_size : ℕ
sql_size = 1024

unfoldable pub sprintf : Text → Exec Text
sprintf s = if ltb (length s) sql_size then ok s else crash

-- The tables.
abbrev pub table_users : Text
table_users = codes "xxxxxxxxxx"

abbrev pub table_ada : Text
table_ada = codes "xxxxxxxxxxxxxxxx"

abbrev pub table_ada_his : Text
table_ada_his = codes "xxxxxxxxxxxxx"

abbrev pub table_cam : Text
table_cam = codes "xxxxxxxxxxxxxxxxxx"

abbrev pub table_cam_his : Text
table_cam_his = codes "xxxxxxxxxx"

-- Parts of a statement, in order.
unfoldable pub joined : List Text → Text
joined [] = []
joined (p ∷ ps) = p ++ joined ps

-- '…'
abbrev pub quoted : Text → Text
quoted s = codes "'" ++ (s ++ codes "'")

unfoldable pub select_adapter : Text → Text
unfolding joined
select_adapter cmsid =
    joined (codes "select * from " ∷ table_ada ∷ codes " where cmsid=" ∷ quoted cmsid ∷ [])

unfoldable pub select_camera : Text → Text → Text
unfolding joined
select_camera cmsid pid = joined (
    codes "select * from "
    ∷ table_cam
    ∷ codes " where cmsid="
    ∷ quoted cmsid
    ∷ codes " and pid="
    ∷ quoted pid
    ∷ [])

-- The user's number is the text's `atoi`.
unfoldable pub select_user : Text → Text
unfolding joined decimal atoi
select_user kid =
    joined (codes "select * from " ∷ table_users ∷ codes " where id=" ∷ decimal (atoi kid) ∷ [])
