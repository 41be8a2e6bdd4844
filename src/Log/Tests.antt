-- ===== src/Log/Tests.antt =====
-- The log at concrete inputs, on files that are a table.
use vm.Prelude.{
  ℕ, ◌≡◌, refl, Bool, true, false, Option, none, some, List, [], ◌∷◌, ◌++◌, arith, ◌==◌,
  if◌then◌else◌, Map, find, insert, erase, find-insert, find-erase, All,
}
use vm.Prelude.Exec.{Exec, ok, crash, no_fuel, Ensures}
use vm.Prelude.Int.{ℤ, pos}
use vm.Prelude.Text.{Text, codes, text_key, text_beq, text_beq_iff, text_before}
use vm.Db.Sql.{decimal, digits_up, reversed, joined, atoi, read_digits, skip_spaces}
use vm.Log.Config.{
  Line, comment, setting, config_text, settings, get_config_map, get_config_map-config_text,
  getline, file_lines, enter_line, enter_lines,
}
use vm.Log.Host.{Tm, Host, IsLawful}
use vm.Log.Appender.{
  FileAppender, zero_padded, into_array, dated, init, write_log, change_file, new_day,
  shift_file_if_need, delete_old_log,
}
use vm.Log.Logging.{
  Now, LogCall, Log, called, reloaded, new_log, log_init, check_config_file, configure,
  get_log_level, same_word, get_show_time, log, log_at, log_all, step, run,
}
use vm.Log.Keeping.{Usable, Logs, Wrote, log_all-Logs}
use vm.Log.Rotation.{new_path, shift_file_if_need-root}

abbrev is_some : Option (List Text) → Bool
is_some none = false
is_some (some ls) = true

abbrev lines_of : Option (List Text) → List Text
lines_of none = []
lines_of (some ls) = ls

-- A day, whatever the time.
abbrev october : Tm
october = record { tm_year = 118; tm_mon = 9; tm_mday = 1; tm_hour = 8; tm_min = 30; tm_sec = 0 }

abbrev Disk : Type 0
Disk = Map Text (List Text)

abbrev renamed : Text → Text → Disk → Option (List Text) → Disk
renamed p q w none = w
renamed p q w (some ls) = insert q ls (erase p w)

abbrev disk : Host Disk
disk = record {
  mkdir = λ dir w. (w, true);
  open_append = λ p w. (insert p (lines_of (find p w)) w, true);
  exists = λ p w. is_some (find p w);
  rename = λ p q w. renamed p q w (find p w);
  remove = λ p w. erase p w;
  append = λ p line w. insert p (lines_of (find p w) ++ line ∷ []) w;
  print = λ s w. w;
  read = λ p w. some (codes "log_level=INFO\nlog_dir=log\nlog_file=atb.log\n");
  localtime = λ t. october;
}

content-open_append :
    (p q : Text) (w : Disk)
    → lines_of (find q (insert p (lines_of (find p w)) w)) ≡ lines_of (find q w)
content-open_append p q w = grind (arith, find-insert p q (lines_of (find p w)) w, text_beq_iff p q)

content-append :
    (p line q : Text) (w : Disk)
    → lines_of (find q (insert p (lines_of (find p w) ++ line ∷ []) w))
      ≡ (if p == q then lines_of (find q w) ++ line ∷ [] else lines_of (find q w))
content-append p line q w =
    grind (arith, find-insert p q (lines_of (find p w) ++ line ∷ []) w, text_beq_iff p q)

content-rename :
    (p q r : Text) (w : Disk)
    → is_some (find q w) ≡ false
    → lines_of (find r (renamed p q w (find p w))) ≡ (
        if is_some (find p w)
        then (if q == r then lines_of (find p w) else (if p == r then [] else lines_of (find r w)))
        else lines_of (find r w))
content-rename p q r w free = by_file (find p w)
  where
    by_file :
        (o : Option (List Text))
        → lines_of (find r (renamed p q w o)) ≡ (
            if is_some o
            then (if q == r then lines_of o else (if p == r then [] else lines_of (find r w)))
            else lines_of (find r w))
    by_file none = refl
    by_file (some ls) = grind (arith, find-insert q r ls (erase p w), find-erase p r w)

abbrev disk-IsLawful : IsLawful disk
disk-IsLawful = record {
  content = λ q w. lines_of (find q w);
  renames = λ p q w. is_some (find p w);
  content-append = content-append;
  content-open_append = content-open_append;
  content-exists = λ q w. grind arith;
  content-rename = content-rename;
}

-- What the tests below compute with.
opened : Unit {0}
unfolding decimal digits_up reversed joined atoi read_digits skip_spaces zero_padded into_array
    dated init write_log change_file new_day shift_file_if_need delete_old_log log_init
    check_config_file configure get_log_level same_word get_show_time log log_at log_all step run
    find insert erase text_beq text_before get_config_map getline file_lines enter_line enter_lines
opened = tt

abbrev lines : List Line
lines = comment (codes "log") ∷ setting (codes "log_dir") (codes "log") ∷ []

get_config_map-config_text_example :
    get_config_map (some (config_text lines)) [] ≡ (insert [] [] (settings lines []), pos 0)
get_config_map-config_text_example = get_config_map-config_text lines [] (
  (refl, (refl, (refl, tt))),
  (
    (
      refl,
      (refl, (refl, (refl, (refl, (refl, (refl, (refl, tt))))))),
      (refl, (refl, (refl, (refl, (refl, (refl, (refl, tt))))))),
      (refl, (refl, (refl, tt))),
      (refl, (refl, (refl, tt))),
    ),
    tt,
  ),
)

-- The log of the configuration above, in its file.
abbrev log_at_start : Disk × Log × ℤ
log_at_start = log_init disk (codes ".") (codes "atb.conf") new_log []

abbrev second : ℕ → Now
second n = record { tv_sec = n; tv_usec = 0; tz_minuteswest = pos 0 }

abbrev started : LogCall
started = record { level = 3; now = second 86401; format = codes "up"; vprintf = λ f. f }

abbrev detail : LogCall
detail = record { level = 4; now = second 86402; format = codes "x"; vprintf = λ f. f }

started_shown : get_show_time disk (second 86401) ≡ ok (codes "2018-10-01 08:30:00.000")
unfolding opened
started_shown = refl

usable : Usable disk disk-IsLawful (λ p v. refl) log_at_start.1
unfolding opened
usable = record {
  uses = refl;
  ready = record { opened = refl; retains = λ days e. grind arith; fits = λ t. refl };
}

-- A call at the level of the configuration, and one that is more detailed.
log_all-Logs_example :
    let (w, l, ret) = log_at_start in
    Ensures
      (λ r.
        Logs disk disk-IsLawful (λ p v. refl) w l r
        × All (λ c. Wrote disk disk-IsLawful (λ p v. refl) l.level c r.0) (started ∷ detail ∷ []))
      (log_all disk (started ∷ detail ∷ []) l w)
unfolding opened
log_all-Logs_example =
    log_all-Logs disk disk-IsLawful (λ p v. refl) (started ∷ detail ∷ []) log_at_start.1
      log_at_start.0
      ((codes "2018-10-01 08:30:00.000", refl), ((codes "2018-10-01 08:30:00.000", refl), tt))
      usable

abbrev value : {A : Type 0} → Exec A → A → A
value (ok a) b = a
value crash b = b
value no_fuel b = b

abbrev after_start : Disk × Log
after_start =
    value (run disk (reloaded ∷ called started ∷ []) log_at_start.1 log_at_start.0) ([], new_log)

shift_file_if_need-root_example :
    let (w, l) = after_start in
    let path = new_path disk 200000 l.appender [] in
    (w' : Disk) × (a : FileAppender) × (shift_file_if_need disk 200000 (pos 0) l.appender w
      ≡ ok (w', a))
    × (lines_of (find path w') ≡ lines_of (find l.appender.log_file_path w))
unfolding opened
shift_file_if_need-root_example =
    shift_file_if_need-root disk disk-IsLawful (codes ".") (codes "atb.conf")
      (reloaded ∷ called started ∷ []) 200000 (pos 0) [] {w = after_start.0} {l = after_start.1}
      refl refl refl refl refl refl (λ days e. grind arith)

-- The file is that of no directory.
root_path : new_path disk 200000 after_start.1.appender [] ≡ codes "/atb.log.2018-10-01"
unfolding opened
root_path = refl
