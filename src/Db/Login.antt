-- ===== src/Db/Login.antt =====
-- atb_adapter/db_helper.cpp: when a login, or the start of a camera, is let through.
use vm.Prelude.{
  ℕ, ◌≤◌, ◌<◌, ◌≡◌, refl, ◌↔◌, ◌⊎◌, true, false, Option, some, List, ◌∷◌, arith, length, get_elem?,
}
use vm.Prelude.Exec.{ok}
use vm.Prelude.Text.{Text, codes, is_empty, text_beq, text_beq_iff}
use vm.Adapter.Clock.{Sections, check_internal}
use vm.Db.Sql.{atoi, read_digits, skip_spaces, sprintf, sql_size, select_adapter, select_camera}
use vm.Db.Query.{Row, rows, Mysql, cell, cell_or_empty, with_connection, select, finish}
use vm.Db.Account.{login_row, login_rows, check_login}
use vm.Db.Camera.{check_sections, start_row, start_rows, check_start_push}

pub login_row_iff :
    (password kid : Text) (r : Row)
    → (login_row password r ≡ ok (0, kid)) ↔ (
        (get_elem? r 1 ≡ some (some password))
        × (length password ≤ 19)
        × (get_elem? r 5 ≡ some (some kid)))
unfolding login_row cell
login_row_iff password kid r = (λ e. grind (arith, text_beq_iff), λ h. grind (arith, text_beq_iff))

-- A row that has the flag 0 and all sections.
pub record Scheduled (t : Sections) (r : Row) : Type 0 where
  pub flag : get_elem? r 4 ≡ some (some (codes "0"))
  pub s0 : get_elem? r 5 ≡ some (some t.s0)
  pub e0 : get_elem? r 6 ≡ some (some t.e0)
  pub s1 : get_elem? r 7 ≡ some (some t.s1)
  pub e1 : get_elem? r 8 ≡ some (some t.e1)

-- The time is in one of the sections, of which the first has a start.
abbrev pub InTime : (Text → Option ℕ) → Text → Sections → Type 0
InTime seconds time t =
    (is_empty t.s0 ≡ false)
    × ((check_internal seconds time t.s0 t.e0 ≡ true)
        ⊎ ((is_empty t.s1 ≡ false) × (check_internal seconds time t.s1 t.e1 ≡ true)))

pub check_sections_iff :
    (seconds : Text → Option ℕ) (time : Text) (t : Sections)
    → (check_sections seconds time t ≡ 0) ↔ (
        (is_empty t.s0 ≡ false)
        × ((check_internal seconds time t.s0 t.e0 ≡ true)
            ⊎ ((is_empty t.s1 ≡ false) × (check_internal seconds time t.s1 t.e1 ≡ true))))
unfolding check_sections
check_sections_iff seconds time t = (λ e. grind arith, λ h. grind arith)

cell-some : (i : ℕ) (r : Row) (c : Option Text) → get_elem? r i ≡ some c → cell i r ≡ ok c
unfolding cell
cell-some i r c e = rw (e, cell) refl

cell_or_empty-some :
    (i : ℕ) (r : Row) (s : Text) → get_elem? r i ≡ some (some s) → cell_or_empty i r ≡ ok s
unfolding cell_or_empty
cell_or_empty-some i r s e = rw (cell-some i r (some s) e) refl

start_row-check_sections :
    (seconds : Text → Option ℕ) (time : Text) (t : Sections) (r : Row)
    → Scheduled t r
    → start_row seconds time r ≡ ok (check_sections seconds time t)
unfolding start_row text_beq atoi read_digits skip_spaces
start_row-check_sections seconds time t r cells =
    let flag = cell-some 4 r (some (codes "0")) cells.flag in
    let s0 = cell_or_empty-some 5 r t.s0 cells.s0 in
    let e0 = cell_or_empty-some 6 r t.e0 cells.e0 in
    let s1 = cell_or_empty-some 7 r t.s1 cells.s1 in
    let e1 = cell_or_empty-some 8 r t.e1 cells.e1 in rw flag (rw (s0, e0, s1, e1) refl)

-- An answer of the pool that is read, and the state of the database then.
module _ {W : Type 0} (m : Mysql W) (w : W) (connected : (m.fetch w).1 ≡ true) where
  -- A login succeeds exactly when the first row of the adapter has a password of at most 19 bytes,
  -- which is the one that was sent, and a user; the user's id is what comes with it. There are a
  -- connection, a statement that fits its buffer, and a row.
  pub check_login_iff :
      (groupid password kid : Text) (r : Row) (rs : List Row)
      → length (select_adapter groupid) < sql_size
      → (m.query (select_adapter groupid) (m.fetch w).0).1 ≡ rows (r ∷ rs)
      → (check_login (some m) groupid password w
          ≡ ok (m.recycle (m.query (select_adapter groupid) (m.fetch w).0).0, (0, kid)))
        ↔ ((get_elem? r 1 ≡ some (some password))
            × (length password ≤ 19)
            × (get_elem? r 5 ≡ some (some kid)))
  unfolding check_login with_connection select finish sprintf login_rows
  check_login_iff groupid password kid r rs short answer =
      let row = login_row_iff password kid r in (λ e. grind arith, λ h. grind arith)

  pub check_start_push-check_sections :
      (seconds : Text → Option ℕ) (time groupid pid : Text) (t : Sections) (r : Row) (rs : List Row)
      → length (select_camera groupid pid) < sql_size
      → (m.query (select_camera groupid pid) (m.fetch w).0).1 ≡ rows (r ∷ rs)
      → Scheduled t r
      → check_start_push seconds (some m) time groupid pid w
        ≡ ok (
          m.recycle (m.query (select_camera groupid pid) (m.fetch w).0).0,
          check_sections seconds time t,
        )
  unfolding check_start_push with_connection select finish sprintf start_rows
  check_start_push-check_sections seconds time groupid pid t r rs short answer cells =
      let row = start_row-check_sections seconds time t r cells in grind arith

  -- A camera with a schedule may be started exactly when its first section has a start, and the time
  -- of day is in one of its sections. There are a connection, a statement that fits its buffer, and a
  -- row that has the flag 0 and the sections.
  pub check_start_push_iff :
      (seconds : Text → Option ℕ) (time groupid pid : Text) (t : Sections) (r : Row) (rs : List Row)
      → length (select_camera groupid pid) < sql_size
      → (m.query (select_camera groupid pid) (m.fetch w).0).1 ≡ rows (r ∷ rs)
      → Scheduled t r
      → (check_start_push seconds (some m) time groupid pid w
          ≡ ok (m.recycle (m.query (select_camera groupid pid) (m.fetch w).0).0, 0))
        ↔ InTime seconds time t
  check_start_push_iff seconds time groupid pid t r rs short answer cells =
      let sections = check_sections_iff seconds time t in
      let checked =
        check_start_push-check_sections seconds time groupid pid t r rs short answer cells in
      (λ e. grind arith, λ h. grind arith)
