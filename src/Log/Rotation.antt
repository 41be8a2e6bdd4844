-- ===== src/Log/Rotation.antt =====
-- atb_sak/src/log/_atb_log.cpp: where the log of a day goes on the next day.
use vm.Prelude.{
  ℕ, ◌+◌, ◌/◌, ◌≡◌, refl, true, false, List, [], ◌∷◌, ◌++◌, arith, nat_beq, ltb, length, Map, sym,
  ◌∙◌, beq_refl,
}
use mathlib.Core.Path.{subst}
use vm.Prelude.Exec.{ok, Yields, bind-Yields}
use vm.Prelude.Int.{ℤ, pos}
use vm.Prelude.Text.{Text, codes, text_key}
use vm.Log.Host.{Host, IsLawful}
use vm.Log.Appender.{
  FileAppender, one_day_seconds, fixed, minus, dated, into_array, init, change_file, new_day,
  shift_file_if_need,
}
use vm.Log.Logging.{
  Log, LogCall, Event, called, reloaded, new_log, configure, check_config_file, log_init, log,
  log_at, step, run,
}
use vm.Log.Keeping.{delete_old_log-ok}

module _ {W : Type 0} (host : Host W) where
  init-log_dir :
      (dir log_file : Text) (a : FileAppender) (w : W)
      → (init host dir log_file a w).1.log_dir ≡ a.log_dir
  unfolding init
  init-log_dir dir log_file a w = ground arith

  configure-log_dir :
      (configs : Map Text Text) (l : Log) (w : W)
      → (configure host configs l w).1.appender.log_dir ≡ l.appender.log_dir
  unfolding configure
  configure-log_dir configs l w = grind (arith, init-log_dir)

  check_config_file-log_dir :
      (l : Log) (w : W) → (check_config_file host l w).1.appender.log_dir ≡ l.appender.log_dir
  unfolding check_config_file
  check_config_file-log_dir l w = grind (arith, configure-log_dir)

  new_day-log_dir :
      (sec : ℕ) (a : FileAppender) (w : W)
      → Yields (λ r. r.1.log_dir ≡ a.log_dir) (new_day host sec a w)
  unfolding new_day change_file
  new_day-log_dir sec a w r e = grind arith

  shift_file_if_need-log_dir :
      (sec : ℕ) (minuteswest : ℤ) (a : FileAppender) (w : W)
      → Yields (λ r. r.1.log_dir ≡ a.log_dir) (shift_file_if_need host sec minuteswest a w)
  unfolding shift_file_if_need
  shift_file_if_need-log_dir sec minuteswest a w r e = grind (arith, new_day-log_dir)

  log-log_dir :
      (c : LogCall) (l : Log) (w : W)
      → Yields (λ r. r.1.appender.log_dir ≡ l.appender.log_dir) (log host c l w)
  unfolding log
  log-log_dir c l w r e = grind (arith, shift_file_if_need-log_dir)

  step-log_dir :
      (e : Event) (l : Log) (w : W)
      → Yields (λ r. r.1.appender.log_dir ≡ l.appender.log_dir) (step host e l w)
  unfolding step log_at
  step-log_dir (called c) l w r e = grind (arith, log-log_dir)
  step-log_dir reloaded l w r e = grind (arith, check_config_file-log_dir)

  run-log_dir :
      (es : List Event) (l : Log) (w : W)
      → Yields (λ r. r.1.appender.log_dir ≡ l.appender.log_dir) (run host es l w)
  unfolding run
  run-log_dir [] l w = λ r e. grind arith
  run-log_dir (e ∷ es) l w =
      bind-Yields (λ r. r.1.appender.log_dir ≡ l.appender.log_dir) (step host e l w)
        (λ s. run host es s.1 s.0)
        (λ s one r rest. run-log_dir es s.1 s.0 r rest ∙ step-log_dir e l w s one)

  -- The path that `new_day` gives to the file.
  abbrev pub new_path : ℕ → FileAppender → Text → Text
  new_path sec a dir =
      let tm = host.localtime (minus sec one_day_seconds) in
      dir ++ (codes "/" ++ dated a.log_file (tm.tm_year + 1900) (tm.tm_mon + 1) tm.tm_mday)

  change_file-days :
      (path : Text) (a : FileAppender) (w : W)
      → (change_file host path a w).1.retain_day ≡ a.retain_day
  unfolding change_file
  change_file-days path a w = refl

  new_day-change_file :
      (sec : ℕ) (a : FileAppender) (w : W)
      → let path = new_path sec a a.log_dir in
        let tm = host.localtime (minus sec one_day_seconds) in
        ltb (length (dated a.log_file (tm.tm_year + 1900) (tm.tm_mon + 1) tm.tm_mday)) 100 ≡ true
        → host.exists path w ≡ false
        → ((days : ℕ) → a.retain_day ≡ pos days → days ≡ 0)
        → new_day host sec a w ≡ ok (change_file host path a w)
  unfolding new_day into_array
  new_day-change_file sec a w fits free off =
      let path = new_path sec a a.log_dir in
      let (w', a') = change_file host path a w in
      let none_old =
        delete_old_log-ok host sec (change_file host path a w).1 (change_file host path a w).0
          (λ days e. off days (sym (change_file-days path a w) ∙ e)) in
      rw (fits, new_day, into_array) (rw (free, none_old) refl)

  module _ (lawful : IsLawful host) where
    content-change_file :
        (path : Text) (a : FileAppender) (w : W)
        → host.exists path w ≡ false
        → lawful.renames a.log_file_path path w ≡ true
        → lawful.content path (change_file host path a w).0 ≡ lawful.content a.log_file_path w
    unfolding change_file
    content-change_file path a w free moves =
        rw
          (
            lawful.content-open_append a.log_file_path path _,
            lawful.content-rename a.log_file_path path path w free,
            moves,
            beq_refl path,
          )
          refl

    -- The log is set up by `log_init` with any configuration, and then used: calls log, and the
    -- configuration is read again. The first call of a day finds no file of the dated name, the name
    -- fits, the file can be renamed, and no days are set after which a file is removed. Then the lines of
    -- the log go to a file at the root of the file system, whatever directory the configuration sets.
    pub shift_file_if_need-root :
        (dir config_file : Text) (es : List Event) (sec : ℕ) (minuteswest : ℤ) (w₀ : W) {w : W}
        {l : Log}
        → let (w₁, l₁, ret) = log_init host dir config_file new_log w₀ in
          let path = new_path sec l.appender [] in
          let tm = host.localtime (minus sec one_day_seconds) in
          run host es l₁ w₁ ≡ ok (w, l)
          → nat_beq l.appender.last_sec 0 ≡ false
          → nat_beq
              (fixed sec minuteswest / one_day_seconds)
              (fixed l.appender.last_sec minuteswest / one_day_seconds)
            ≡ false
          → ltb
              (length (dated l.appender.log_file (tm.tm_year + 1900) (tm.tm_mon + 1) tm.tm_mday))
              100
            ≡ true
          → host.exists path w ≡ false
          → lawful.renames l.appender.log_file_path path w ≡ true
          → ((days : ℕ) → l.appender.retain_day ≡ pos days → days ≡ 0)
          → (w' : W) × (a : FileAppender) × (shift_file_if_need host sec minuteswest l.appender w
              ≡ ok (w', a))
            × (lawful.content path w' ≡ lawful.content l.appender.log_file_path w)
    unfolding shift_file_if_need log_init
    shift_file_if_need-root dir config_file es sec minuteswest w₀ {w} {l} e again day fits free
          moves off =
        let (w₁, l₁, ret) = log_init host dir config_file new_log w₀ in
        let a = l.appender in
        let no_dir : a.log_dir ≡ [] =
          run-log_dir es l₁ w₁ (w, l) e
          ∙ check_config_file-log_dir (record new_log { dir = dir; config_file = config_file })
              w₀ in
        let moved =
          new_day-change_file sec a w fits
            (subst (λ d. host.exists (new_path sec a d) w ≡ false) (sym no_dir) free) off in
        let at_root =
          subst (λ d. new_day host sec a w ≡ ok (change_file host (new_path sec a d) a w)) no_dir
            moved in
        let path = new_path sec a [] in
        (
          (change_file host path a w).0,
          record (change_file host path a w).1 { last_sec = sec },
          rw (again, day, at_root) refl,
          content-change_file path a w free moves,
        )
