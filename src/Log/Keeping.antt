-- ===== src/Log/Keeping.antt =====
-- atb_sak/src/log/_atb_log.cpp: every line that is logged stays in some file.
use vm.Prelude.{
  ℕ, ◌+◌, ◌-◌, ◌≡◌, refl, Bool, true, false, ◌||◌, not, List, [], ◌∷◌, ◌++◌, arith, ltb, length,
  All, take, ◌==◌, Bool-cases, beq_refl, sym, ap, ◌∙◌, inl, inr, if◌then◌else◌, nat_beq, ◌/◌,
}
use mathlib.Core.Path.{subst}
use vm.Prelude.Exec.{Exec, ok, ◌>>=◌, Ensures, bind-Ensures, if-Ensures, Ensures-mono}
use vm.Prelude.Int.{ℤ, pos, negsuc}
use vm.Prelude.Text.{Text, codes, text_key, text_beq, text_beq_iff}
use vm.Log.Host.{Host, IsLawful}
use vm.Log.Appender.{
  FileAppender, max_single_log_size, one_day_seconds, fixed, minus, dated, into_array, write_log,
  delete_old_log, change_file, new_day, shift_file_if_need,
}
use vm.Log.Logging.{LogCall, Log, get_show_time, log, log_at, log_all}

abbrev pub has_line : Text → List Text → Bool
has_line line [] = false
has_line line (l ∷ ls) = text_beq l line || has_line line ls

has_line-append_left :
    (line : Text) (ls ms : List Text) → has_line line ls ≡ true → has_line line (ls ++ ms) ≡ true
has_line-append_left line [] ms h = absurd (ground arith)
has_line-append_left line (l ∷ ls) ms h = ground (arith, has_line-append_left line ls ms)

has_line-append_last : (line : Text) (ls : List Text) → has_line line (ls ++ line ∷ []) ≡ true
has_line-append_last line [] = ground (arith, text_beq_iff line line)
has_line-append_last line (l ∷ ls) = ground (arith, has_line-append_last line ls)

-- Nothing is deleted, and a dated name fits its array, whatever the day.
pub record Ready {W : Type 0} (host : Host W) (a : FileAppender) : Type 0 where
  pub opened : a.is_open ≡ true
  pub retains : (days : ℕ) → a.retain_day ≡ pos days → days ≡ 0
  pub fits :
      (t : ℤ)
      → let tm = host.localtime t in
        ltb (length (dated a.log_file (tm.tm_year + 1900) (tm.tm_mon + 1) tm.tm_mday)) 100 ≡ true

module _ {W : Type 0} (host : Host W) where
  pub delete_old_log-ok :
      (sec : ℕ) (a : FileAppender) (w : W)
      → ((days : ℕ) → a.retain_day ≡ pos days → days ≡ 0)
      → delete_old_log host sec a w ≡ ok w
  unfolding delete_old_log
  delete_old_log-ok sec a w off = by_days a.retain_day refl
    where
      by_days : (days : ℤ) → a.retain_day ≡ days → delete_old_log host sec a w ≡ ok w
      by_days (negsuc n) e = rw (e, delete_old_log) refl
      by_days (pos days) e = rw (e, delete_old_log) (rw (off days e) refl)

module _ {W : Type 0} (host : Host W) (lawful : IsLawful host)
    (opens : (p : Text) (w : W) → (host.open_append p w).1 ≡ true) where
  -- Some file has this line.
  abbrev pub In : Text → W → Type 0
  In line w = (q : Text) × (has_line line (lawful.content q w) ≡ true)

  abbrev pub Keeps : W → W → Type 0
  Keeps w w' = (line : Text) → In line w → In line w'

  -- A new name is not that of a file with a line.
  other_name :
      (new q line : Text) (w : W)
      → host.exists new w ≡ false
      → has_line line (lawful.content q w) ≡ true
      → (new == q) ≡ false
  other_name new q line w free h = elim (Bool-cases (new == q)) [
    | inl same ↦
        let here : new ≡ q = (text_beq_iff new q).0 same in
        let empty : lawful.content q w ≡ [] =
          subst (λ t. lawful.content t w ≡ []) here (lawful.content-exists new w free) in
        absurd (grind arith)
    | inr other ↦ other
  ]

  rename-Keeps : (p new : Text) (w : W) → host.exists new w ≡ false → Keeps w (host.rename p new w)
  rename-Keeps p new w free line (q, h) = elim (Bool-cases (lawful.renames p new w)) [
    | inl moves ↦ elim (Bool-cases (p == q)) [
      | inl same ↦
          let moved : lawful.content q w ≡ lawful.content p w =
            ap (λ t. lawful.content t w) (sym ((text_beq_iff p q).0 same)) in
          (new, rw (lawful.content-rename p new new w free, moves, beq_refl new) (rw (← moved) h))
      | inr apart ↦ (
        q,
        rw (lawful.content-rename p new q w free, moves, other_name new q line w free h, apart) h,
      )
    ]
    | inr stays ↦ (q, rw (lawful.content-rename p new q w free, stays) h)
  ]

  change_file-Keeps :
      (new_file_path : Text) (a : FileAppender) (w : W)
      → host.exists new_file_path w ≡ false
      → Keeps w (change_file host new_file_path a w).0
  unfolding change_file
  change_file-Keeps new_file_path a w free line here =
      let (q, h) = rename-Keeps a.log_file_path new_file_path w free line here in
      (q, rw (lawful.content-open_append a.log_file_path q _) h)

  write_log-In :
      (text : Text) (a : FileAppender) (w : W)
      → a.is_open ≡ true
      → In (take (max_single_log_size - 2) text) (write_log host text a w)
  unfolding write_log
  write_log-In text a w opened =
      let p = a.log_file_path in
      (
        p,
        rw (opened, lawful.content-append p (take 2046 text) p w, beq_refl p)
            (has_line-append_last (take 2046 text) (lawful.content p w)),
      )

  write_log-Keeps :
      (text : Text) (a : FileAppender) (w : W)
      → a.is_open ≡ true
      → Keeps w (write_log host text a w)
  unfolding write_log
  write_log-Keeps text a w opened line (q, h) =
      let p = a.log_file_path in
      (
        q,
        rw (opened, lawful.content-append p (take 2046 text) q w)
            (elim (Bool-cases (p == q)) [
              | inl same ↦ rw same (has_line-append_left line (lawful.content q w) _ h)
              | inr other ↦ rw other h
            ]),
      )

  -- What a change of the file leaves: the lines, and an appender that is ready.
  abbrev Still : W → W × FileAppender → Type 0
  Still w r = Keeps w r.0 × Ready host r.1

  reopened-Ready :
      (new_file_path : Text) (a : FileAppender) (w : W)
      → Ready host a
      → Ready host (change_file host new_file_path a w).1
  unfolding change_file
  reopened-Ready new_file_path a w r = record {
    opened = opens a.log_file_path _;
    retains = r.retains;
    fits = r.fits;
  }

  new_day-Still :
      (sec : ℕ) (a : FileAppender) (w : W) → Ready host a → Ensures (Still w) (new_day host sec a w)
  unfolding new_day into_array
  new_day-Still sec a w r =
      let t = minus sec one_day_seconds in
      let tm = host.localtime t in
      let path =
        a.log_dir
        ++ (codes "/" ++ dated a.log_file (tm.tm_year + 1900) (tm.tm_mon + 1) tm.tm_mday) in
      elim (Bool-cases (host.exists path w)) [
        | inl there ↦
            rw (r.fits t, new_day, into_array)
              (rw (there, delete_old_log-ok host sec a w r.retains) (λ line h. h, r))
        | inr free ↦
            let ready = reopened-Ready path a w r in
            rw (r.fits t, new_day, into_array)
              (rw
                (
                  free,
                  delete_old_log-ok host sec (change_file host path a w).1
                      (change_file host path a w).0 ready.retains,
                )
                (change_file-Keeps path a w free, ready))
      ]

  if_new_day-Still :
      (today : Bool) (sec : ℕ) (a : FileAppender) (w : W)
      → Ready host a
      → Ensures (Still w) (if today then ok (w, a) else new_day host sec a w)
  if_new_day-Still true sec a w r = (λ line h. h, r)
  if_new_day-Still false sec a w r = new_day-Still sec a w r

  stamped-Ready :
      (sec : ℕ) (a : FileAppender) → Ready host a → Ready host (record a { last_sec = sec })
  stamped-Ready sec a r = record { opened = r.opened; retains = r.retains; fits = r.fits }

  shift_file_if_need-Still :
      (sec : ℕ) (minuteswest : ℤ) (a : FileAppender) (w : W)
      → Ready host a
      → Ensures (Still w) (shift_file_if_need host sec minuteswest a w)
  unfolding shift_file_if_need
  shift_file_if_need-Still sec minuteswest a w r =
      let day : ℕ → ℕ = λ s. fixed s minuteswest / one_day_seconds in
      elim (Bool-cases (nat_beq a.last_sec 0)) [
        | inl first ↦ rw first (λ line h. h, stamped-Ready sec a r)
        | inr again ↦ rw again (
            bind-Ensures (Still w) (Still w)
              (if nat_beq (day sec) (day a.last_sec) then ok (w, a) else new_day host sec a w)
              (λ s. ok (s.0, record s.1 { last_sec = sec }))
              (if_new_day-Still (nat_beq (day sec) (day a.last_sec)) sec a w r)
              (λ s still. (still.0, stamped-Ready sec s.1 still.1)))
      ]

  -- The log has its file.
  pub record Usable (l : Log) : Type 0 where
    pub uses : l.use_file_appender ≡ true
    pub ready : Ready host l.appender

  -- The line of a call, as it stands in the file.
  abbrev pub written : LogCall → Text → Text
  written c time = take (max_single_log_size - 2) (c.vprintf (time ++ (codes " " ++ c.format)))

  -- What a call leaves: the lines, the log, and its own line if its level is logged.
  abbrev pub Logs : W → Log → W × Log → Type 0
  Logs w l r = Keeps w r.0 × (r.1.level ≡ l.level) × Usable r.1

  abbrev pub Wrote : ℕ → LogCall → W → Type 0
  Wrote level c w =
      ltb level c.level ≡ false
      → (time : Text) × (get_show_time host c.now ≡ ok time) × In (written c time) w

  log-Logs :
      (c : LogCall) (l : Log) (w : W) {time : Text}
      → get_show_time host c.now ≡ ok time
      → Usable l
      → Ensures (λ r. Logs w l r × In (written c time) r.0) (log host c l w)
  unfolding log
  log-Logs c l w {time} shown u =
      let P : W × Log → Type 0 = λ r. Logs w l r × In (written c time) r.0 in
      let with_time : Text → Exec (W × Log) = λ t.
        shift_file_if_need host c.now.tv_sec c.now.tz_minuteswest l.appender w >>= λ s. ok (
          write_log host (c.vprintf (t ++ (codes " " ++ c.format))) s.1 s.0,
          record l { appender = s.1 },
        ) in
      let all : Ensures P (with_time time) =
        bind-Ensures (Still w) P _ _
          (shift_file_if_need-Still c.now.tv_sec c.now.tz_minuteswest l.appender w u.ready)
          (λ s still.
            let line = c.vprintf (time ++ (codes " " ++ c.format)) in
            let kept = write_log-Keeps line s.1 s.0 still.1.opened in
            (
              (λ old h. kept old (still.0 old h), refl, record { uses = u.uses; ready = still.1 }),
              write_log-In line s.1 s.0 still.1.opened,
            )) in
      if-Ensures P (not l.use_file_appender) _ _ (λ e. absurd (grind (arith, u.uses, e)))
        (λ e. subst (λ m. Ensures P (m >>= with_time)) (sym shown) all)

  log_at-Logs :
      (c : LogCall) (l : Log) (w : W) {time : Text}
      → get_show_time host c.now ≡ ok time
      → Usable l
      → Ensures (λ r. Logs w l r × Wrote l.level c r.0) (log_at host c l w)
  unfolding log_at
  log_at-Logs c l w {time} shown u =
      if-Ensures (λ r. Logs w l r × Wrote l.level c r.0) (ltb l.level c.level) _ _
        (λ quiet. ((λ old h. h, refl, u), λ loud. absurd (grind (arith, quiet, loud))))
        (λ loud.
          Ensures-mono (λ r. Logs w l r × In (written c time) r.0)
            (λ r. Logs w l r × Wrote l.level c r.0) (log host c l w) (log-Logs c l w shown u)
            (λ r h. (h.0, λ e. (time, shown, h.1))))

  -- The log has its open file, no days are set after which a file is removed, the dated names and the
  -- times fit their arrays, and every opening of a file succeeds. Then calls that log, at any times, are
  -- carried out, and after them every line of a file before is in some file, and so is the line of each
  -- call whose level is logged, cut to the size of a line. The level is as before, and the log is as it
  -- was supposed to be here.
  pub log_all-Logs :
      (cs : List LogCall) (l : Log) (w : W)
      → All (λ c. (time : Text) × (get_show_time host c.now ≡ ok time)) cs
      → Usable l
      → Ensures (λ r. Logs w l r × All (λ c. Wrote l.level c r.0) cs) (log_all host cs l w)
  unfolding log_all
  log_all-Logs [] l w shown u = ((λ old h. h, refl, u), tt)
  log_all-Logs (c ∷ cs) l w (now, later) u =
      bind-Ensures (λ r. Logs w l r × Wrote l.level c r.0)
        (λ r. Logs w l r × All (λ d. Wrote l.level d r.0) (c ∷ cs)) (log_at host c l w)
        (λ r. log_all host cs r.1 r.0) (log_at-Logs c l w now.1 u)
        (λ r one.
          Ensures-mono (λ s. Logs r.0 r.1 s × All (λ d. Wrote r.1.level d s.0) cs)
            (λ s. Logs w l s × All (λ d. Wrote l.level d s.0) (c ∷ cs)) (log_all host cs r.1 r.0)
            (log_all-Logs cs r.1 r.0 later one.0.2)
            (λ s rest. (
              (λ old h. rest.0.0 old (one.0.0 old h), rest.0.1 ∙ one.0.1, rest.0.2),
              (
                λ loud. let (time, shown, here) = one.1 loud in (time, shown, rest.0.0 _ here),
                subst (λ n. All (λ d. Wrote n d s.0) cs) one.0.1 rest.1,
              ),
            )))
