-- ===== src/Db/Devices.antt =====
-- atb_adapter/db_helper.cpp: what `get_group_info_ex` reads of the cameras of a client.
use vm.Prelude.{
  ℕ, suc, ◌+◌, ◌≤◌, ◌<◌, ◌≡◌, refl, inl, inr, true, some, List, [], ◌∷◌, arith, length, leb,
  Bool-cases, All, map,
}
use vm.Prelude.Exec.{ok, crash}
use vm.Prelude.Text.{Text}
use vm.Adapter.Session.{DeviceRow}
use vm.Db.Sql.{sprintf, sql_size}
use vm.Db.Query.{Row, Answer, rows, Mysql, with_connection, select, finish, cell}
use vm.Db.Lists.{device_row, device_rows, max_device_num, select_cameras, get_group_info_ex}

-- A row that is read as a camera.
abbrev pub Readable : Row → Type 0
Readable r = (d : DeviceRow) × (device_row 0 r ≡ ok (some d))

device_row-full : (num : ℕ) (r : Row) → Readable r → max_device_num ≤ num → device_row num r ≡ crash
unfolding device_row cell
device_row-full num r (d, e) full = grind arith

device_row-room : (num : ℕ) (r : Row) → num < max_device_num → device_row num r ≡ device_row 0 r
unfolding device_row
device_row-room num r room = grind arith

-- Up to the length of the array, the loop gives one camera for each row that is read, in order.
device_rows-room :
    (num : ℕ) (rs : List Row) (devs : List DeviceRow)
    → map (device_row 0) rs ≡ map (λ d. ok (some d)) devs
    → num + length rs ≤ max_device_num
    → device_rows num rs ≡ ok devs
unfolding device_rows
device_rows-room num [] [] each room = refl
device_rows-room num [] (d ∷ devs) each room = grind arith
device_rows-room num (r ∷ rs) [] each room = grind arith
device_rows-room num (r ∷ rs) (d ∷ devs) each room =
    let first : device_row num r ≡ ok (some d) = grind (arith, device_row-room num r) in
    let rest = device_rows-room (suc num) rs devs (grind arith) (omega arith) in grind arith

device_rows-full :
    (num : ℕ) (rs : List Row)
    → All Readable rs
    → num ≤ max_device_num
    → max_device_num < num + length rs
    → device_rows num rs ≡ crash
unfolding device_rows
device_rows-full num [] readable below full = grind arith
device_rows-full num (r ∷ rs) ((d, e), readable) below full =
    elim (Bool-cases (leb max_device_num num)) [
      | inl past ↦ let full_row = device_row-full num r (d, e) (grind arith) in grind arith
      | inr room ↦
          let same = device_row-room num r (grind arith) in
          let rest = device_rows-full (suc num) rs readable (grind arith) (omega arith) in
          grind arith
    ]

-- A connection that the pool gives, and what the database answers.
module _ {W : Type 0} (m : Mysql W) (groupid : Text) (w : W)
    (connected : (m.fetch w).1 ≡ true) where
  abbrev cameras_answer : W × Answer
  cameras_answer = m.query (select_cameras groupid) ((m.fetch w).0)

  -- Where the pool gives a connection, the statement fits its buffer, and the answer is at most 50
  -- rows, of which each is read as a camera: the cameras are given in the order of the rows, and the
  -- connection goes back.
  pub get_group_info_ex-room :
      (rs : List Row) (devs : List DeviceRow)
      → length (select_cameras groupid) < sql_size
      → cameras_answer.1 ≡ rows rs
      → map (device_row 0) rs ≡ map (λ d. ok (some d)) devs
      → length rs ≤ max_device_num
      → get_group_info_ex (some m) groupid w ≡ ok (m.recycle cameras_answer.0, some devs)
  unfolding get_group_info_ex with_connection select finish sprintf
  get_group_info_ex-room rs devs short answer each room =
      let read = device_rows-room 0 rs devs each (omega arith) in grind arith

  -- Where the pool gives a connection and the answer is more than 50 rows that are read, the array of
  -- the caller is written past its end: the call faults.
  pub get_group_info_ex-full :
      (rs : List Row)
      → cameras_answer.1 ≡ rows rs
      → All Readable rs
      → max_device_num < length rs
      → get_group_info_ex (some m) groupid w ≡ crash
  unfolding get_group_info_ex with_connection select finish sprintf
  get_group_info_ex-full rs answer readable full =
      let read = device_rows-full 0 rs readable (omega arith) (omega arith) in grind arith
