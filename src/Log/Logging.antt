-- ===== src/Log/Logging.antt =====
-- atb_sak/src/log/_atb_log.cpp: the configuration of the log, and the calls that log.
use vm.Prelude.{
  ℕ, ◌+◌, ◌/◌, Bool, true, false, not, ◌&&◌, none, some, List, [], ◌∷◌, ◌++◌, if◌then◌else◌, ltb,
  leb, Map, find, map, ◌-◌,
}
use vm.Prelude.Exec.{Exec, ok, ◌>>=◌}
use vm.Prelude.Int.{ℤ, pos}
use vm.Prelude.Text.{Text, codes, is_empty, text_key, text_beq}
use vm.Db.Sql.{atoi, joined}
use vm.Log.Config.{get_config_map}
use vm.Log.Host.{Host}
use vm.Log.Appender.{
  FileAppender, new_appender, init, write_log, shift_file_if_need, zero_padded, into_array,
}

abbrev pub error_level : ℕ
error_level = 1

abbrev pub warn_level : ℕ
warn_level = 2

abbrev pub info_level : ℕ
info_level = 3

abbrev pub debug_level : ℕ
debug_level = 4

-- `log_level`, `g_dir`, `g_config_file`, `use_file_appender` and `g_file_appender`.
pub record Log : Type 0 where
  pub level : ℕ
  pub dir : Text
  pub config_file : Text
  pub use_file_appender : Bool
  pub appender : FileAppender

abbrev pub new_log : Log
new_log = record {
  level = debug_level;
  dir = [];
  config_file = [];
  use_file_appender = false;
  appender = new_appender;
}

abbrev pub upper : ℕ → ℕ
upper c = if leb b'a' c && leb c b'z' then c - 32 else c

-- `strcasecmp` is 0.
unfoldable pub same_word : Text → Text → Bool
unfolding text_beq
same_word s t = text_beq (map upper s) (map upper t)

unfoldable pub get_log_level : Text → ℕ
unfolding same_word
get_log_level s =
    if same_word s (codes "ERROR")
    then error_level
    else (if same_word s (codes "WARN")
        then warn_level
        else (if same_word s (codes "INFO") then info_level else debug_level))

-- `configs[key]`: a key that is not there has the empty text.
abbrev pub config : Text → Map Text Text → Text
config key configs = elim (find key configs) [ none ↦ [] | some v ↦ v ]

-- A time of the clock: seconds, microseconds, and the minutes west of Greenwich.
pub record Now : Type 0 where
  pub tv_sec : ℕ
  pub tv_usec : ℕ
  pub tz_minuteswest : ℤ

-- A call: its level, its format, and what the format gives with the call's arguments.
pub record LogCall : Type 0 where
  pub level : ℕ
  pub now : Now
  pub format : Text
  pub vprintf : Text → Text

module _ {W : Type 0} (host : Host W) where
  -- What the configuration sets.
  unfoldable pub configure : Map Text Text → Log → W → W × Log × ℤ
  unfolding init get_log_level atoi
  configure configs l w =
      let rd = config (codes "retain_day") configs in
      let a = l.appender in
      let a' = if is_empty rd then a else record a { retain_day = atoi rd } in
      let l' = record l {
        level = get_log_level (config (codes "log_level") configs);
        appender = a';
      } in
      let log_file = config (codes "log_file") configs in
      let (w', a'', ret) = init host (config (codes "log_dir") configs) log_file a' w in
      if is_empty log_file
      then (w, l', pos 0)
      else (if a'.is_inited
          then (w, record l' { use_file_appender = true }, pos 0)
          else (w', record l' { use_file_appender = true; appender = a'' }, ret))

  -- `_check_config_file`, which `sigreload` calls too.
  unfoldable pub check_config_file : Log → W → W × Log × ℤ
  unfolding get_config_map
  check_config_file l w =
      elim (get_config_map (host.read (l.dir ++ (codes "/" ++ l.config_file)) w) []).0 [
        | [] ↦ (w, l, pos 0)
        | e ∷ configs ↦ configure (e ∷ configs) l w
      ]

  unfoldable pub log_init : Text → Text → Log → W → W × Log × ℤ
  log_init dir file l w = check_config_file (record l { dir = dir; config_file = file }) w

  -- `_get_show_time`: "%04d-%02d-%02d %02d:%02d:%02d.%03d".
  unfoldable pub get_show_time : Now → Exec Text
  unfolding zero_padded into_array joined
  get_show_time now =
      let tm = host.localtime (pos now.tv_sec) in
      into_array 40 (
        joined (
          zero_padded 4 (tm.tm_year + 1900)
          ∷ codes "-"
          ∷ zero_padded 2 (tm.tm_mon + 1)
          ∷ codes "-"
          ∷ zero_padded 2 tm.tm_mday
          ∷ codes " "
          ∷ zero_padded 2 tm.tm_hour
          ∷ codes ":"
          ∷ zero_padded 2 tm.tm_min
          ∷ codes ":"
          ∷ zero_padded 2 tm.tm_sec
          ∷ codes "."
          ∷ zero_padded 3 (now.tv_usec / 1000)
          ∷ []))

  -- `_log`.
  unfoldable pub log : LogCall → Log → W → Exec (W × Log)
  unfolding get_show_time shift_file_if_need write_log
  log c l w =
      if not l.use_file_appender
      then ok (host.print (c.vprintf c.format ++ codes "\n") w, l)
      else (do
        time ← get_show_time c.now
        let fin_format = time ++ (codes " " ++ c.format)
        (w', a) ← shift_file_if_need host c.now.tv_sec c.now.tz_minuteswest l.appender w
        ok (write_log host (c.vprintf fin_format) a w', record l { appender = a }))

  -- `log_error`, `log_warn`, `log_info` and `log_debug`, each at its level.
  unfoldable pub log_at : LogCall → Log → W → Exec (W × Log)
  unfolding log
  log_at c l w = if ltb l.level c.level then ok (w, l) else log c l w

  -- The calls, one after another.
  unfoldable pub log_all : List LogCall → Log → W → Exec (W × Log)
  unfolding log_at
  log_all [] l w = ok (w, l)
  log_all (c ∷ cs) l w = do (w', l') ← log_at c l w; log_all cs l' w'

-- What happens to the log: a call, and the signal after which the configuration is read again.
pub data Event : Type 0 where
  called : LogCall → Event
  reloaded : Event

module _ {W : Type 0} (host : Host W) where
  unfoldable pub step : Event → Log → W → Exec (W × Log)
  unfolding log_at check_config_file
  step (called c) l w = log_at host c l w
  step reloaded l w = let (w', l', ret) = check_config_file host l w in ok (w', l')

  unfoldable pub run : List Event → Log → W → Exec (W × Log)
  unfolding step
  run [] l w = ok (w, l)
  run (e ∷ es) l w = do (w', l') ← step e l w; run es l' w'
