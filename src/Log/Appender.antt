-- ===== src/Log/Appender.antt =====
-- atb_sak/src/log/_atb_log.h and _atb_log.cpp: the log file, which gets a new name every day.
use vm.Prelude.{
  ℕ, suc, ◌+◌, ◌-◌, ◌*◌, ◌/◌, ◌^◌, Bool, true, false, [], ◌∷◌, ◌++◌, if◌then◌else◌, nat_beq, ltb,
  leb, length, take, replicate,
}
use vm.Prelude.Exec.{Exec, ok, crash, ◌>>=◌}
use vm.Prelude.Int.{ℤ, pos, negsuc, minus_one}
use vm.Prelude.Text.{Text, codes, is_empty}
use vm.Db.Sql.{decimal, joined}
use vm.Log.Host.{Host}

-- `is_open` is that of the stream; the file that it is open on is that of `log_file_path`.
pub record FileAppender : Type 0 where
  pub is_inited : Bool
  pub retain_day : ℤ
  pub last_sec : ℕ
  pub log_dir : Text
  pub log_file : Text
  pub log_file_path : Text
  pub is_open : Bool

-- `FileAppender()`: the object is global, so what it does not set is 0 or empty.
abbrev pub new_appender : FileAppender
new_appender = record {
  is_inited = false;
  retain_day = minus_one;
  last_sec = 0;
  log_dir = [];
  log_file = [];
  log_file_path = [];
  is_open = false;
}

abbrev pub max_single_log_size : ℕ
max_single_log_size = 2048

abbrev pub one_day_seconds : ℕ
one_day_seconds = 86400

-- `%0nd`.
unfoldable pub zero_padded : ℕ → ℕ → Text
unfolding decimal
zero_padded n k = let s = decimal (pos k) in replicate (n - length s) b'0' ++ s

-- `sprintf` into an array of `n` characters.
unfoldable pub into_array : ℕ → Text → Exec Text
into_array n s = if ltb (length s) n then ok s else crash

-- "%s.%04d-%02d-%02d".
unfoldable pub dated : Text → ℕ → ℕ → ℕ → Text
unfolding zero_padded joined
dated log_file year month day = joined (
    log_file
    ∷ codes "."
    ∷ zero_padded 4 year
    ∷ codes "-"
    ∷ zero_padded 2 month
    ∷ codes "-"
    ∷ zero_padded 2 day
    ∷ [])

-- A difference of seconds.
abbrev pub minus : ℕ → ℕ → ℤ
minus a b = if leb b a then pos (a - b) else negsuc (b - suc a)

-- `tv_sec - tz_minuteswest * 60`. It is divided by the seconds of a day only, and no zone is a day from
-- 0, so a difference below 0 counts as 0.
abbrev pub fixed : ℕ → ℤ → ℕ
fixed sec (pos west) = sec - west * 60
fixed sec (negsuc east) = sec + suc east * 60

module _ {W : Type 0} (host : Host W) where
  -- `init`. The directory is not kept, and a stream that does not open is not told.
  unfoldable pub init : Text → Text → FileAppender → W → W × FileAppender × ℤ
  init dir log_file a w =
      let (w', made) = if is_empty dir then (w, true) else host.mkdir dir w in
      if made
      then (let path = (if is_empty dir then codes "." else dir) ++ (codes "/" ++ log_file) in
          let (w'', opened) = host.open_append path w' in
          (
            w'',
            record a {
              is_inited = true;
              log_file = log_file;
              log_file_path = path;
              is_open = opened;
            },
            pos 0,
          ))
      else (w', record a { is_inited = true }, minus_one)

  -- `write_log`: `vsnprintf` keeps what fits, and its end.
  unfoldable pub write_log : Text → FileAppender → W → W
  write_log log a w =
      if a.is_open then host.append a.log_file_path (take (max_single_log_size - 2) log) w else w

  -- `delete_old_log`; what `remove` says is not used. The product of the days is an `int`.
  unfoldable pub delete_old_log : ℕ → FileAppender → W → Exec W
  unfolding into_array dated
  delete_old_log sec a w = elim a.retain_day [
    | negsuc n ↦ ok w
    | pos days ↦
        if nat_beq days 0
        then ok w
        else (if leb (2 ^ 31) (days * one_day_seconds) then crash else (do
          let tm = host.localtime (minus sec (days * one_day_seconds))
          old_file ←
              into_array 100 (dated a.log_file (tm.tm_year + 1900) (tm.tm_mon + 1) (tm.tm_mday - 1))
          ok (host.remove (a.log_dir ++ (codes "/" ++ old_file)) w)))
  ]

  -- The file gets its new name, and the stream is opened again.
  unfoldable pub change_file : Text → FileAppender → W → W × FileAppender
  change_file new_file_path a w =
      let (w', opened) =
        host.open_append a.log_file_path (host.rename a.log_file_path new_file_path w) in
      (w', record a { is_open = opened })

  -- The first log of a day: the file is named after the day before it, if there is no such file.
  unfoldable pub new_day : ℕ → FileAppender → W → Exec (W × FileAppender)
  unfolding into_array dated change_file delete_old_log
  new_day sec a w = do
    let tm = host.localtime (minus sec one_day_seconds)
    new_file ← into_array 100 (dated a.log_file (tm.tm_year + 1900) (tm.tm_mon + 1) tm.tm_mday)
    let new_file_path = a.log_dir ++ (codes "/" ++ new_file)
    let (w', a') = if host.exists new_file_path w then (w, a) else change_file new_file_path a w
    w'' ← delete_old_log sec a' w'
    ok (w'', a')

  -- `shift_file_if_need`.
  unfoldable pub shift_file_if_need : ℕ → ℤ → FileAppender → W → Exec (W × FileAppender)
  unfolding new_day
  shift_file_if_need sec minuteswest a w =
      if nat_beq a.last_sec 0 then ok (w, record a { last_sec = sec }) else (do
        (w', a') ←
            if nat_beq (fixed sec minuteswest / one_day_seconds)
              (fixed a.last_sec minuteswest / one_day_seconds)
            then ok (w, a)
            else new_day sec a w
        ok (w', record a' { last_sec = sec }))
