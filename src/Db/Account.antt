-- ===== src/Db/Account.antt =====
-- atb_adapter/db_helper.cpp: the accounts of the adapter clients. The results are 0 for success, 1
-- for a database error, 100 for data that is not valid, and others as said.
use vm.Prelude.{
  ℕ, zero, suc, ◌+◌, Bool, false, not, Option, none, some, List, [], ◌∷◌, if◌then◌else◌, length,
  ltb, nat_beq,
}
use vm.Prelude.Exec.{Exec, ok, ◌>>=◌}
use vm.Prelude.Int.{ℤ, pos, negsuc}
use vm.Prelude.Text.{Text, codes, text_beq}
use vm.Db.Sql.{
  atoi, decimal, joined, quoted, select_adapter, select_user, table_users, table_ada, table_ada_his,
  table_cam,
}
use vm.Db.Query.{Row, Mysql, cell, with_connection, execute, select, finish}

-- The row of an adapter: 3 is a wrong password. With 0 comes the user's id.
unfoldable pub login_row : Text → Row → Exec (ℕ × Text)
login_row password r = do
  c ← cell 1 r
  elim c [
    | none ↦ ok (100, [])
    | some psw ↦
        if ltb 19 (length psw)
        then ok (100, [])
        else (if not (text_beq psw password)
            then ok (3, [])
            else (do k ← cell 5 r; ok (elim k [ none ↦ (100, []) | some kid ↦ (0, kid) ])))
  ]

-- 2 is an unknown adapter.
unfoldable pub login_rows : Text → List Row → Exec (ℕ × Text)
login_rows password [] = ok (2, [])
login_rows password (r ∷ rs) = login_row password r

-- The number of adapters of a user, 42nd in its row, read as a C string.
abbrev pub adapternum : ℕ
adapternum = 42

abbrev pub int_plus_one : ℤ → ℤ
int_plus_one (pos n) = pos (n + 1)
int_plus_one (negsuc n) = elim n [ zero ↦ pos 0 | suc m ↦ negsuc m ]

-- `iCount + 1 > 5`.
abbrev pub reaches_max : ℤ → Bool
reaches_max (pos n) = ltb 5 (n + 1)
reaches_max (negsuc n) = false

unfoldable pub insert_adapter : Text → Text → Text → Text → Text → Text
unfolding joined decimal atoi
insert_adapter groupid password name time kid = joined (
    codes "INSERT INTO "
    ∷ table_ada
    ∷ codes "(cmsid,password,name,datecreate,user)VALUES("
    ∷ quoted groupid
    ∷ codes ","
    ∷ quoted password
    ∷ codes ","
    ∷ quoted name
    ∷ codes ","
    ∷ quoted time
    ∷ codes ","
    ∷ decimal (atoi kid)
    ∷ codes ")"
    ∷ [])

unfoldable pub update_adapternum : ℤ → Text → Text
unfolding joined decimal atoi
update_adapternum n kid = joined (
    codes "UPDATE "
    ∷ table_users
    ∷ codes " SET adapternum="
    ∷ decimal n
    ∷ codes " WHERE id="
    ∷ decimal (atoi kid)
    ∷ [])

unfoldable pub select_own_adapter : Text → Text → Text
unfolding joined decimal atoi
select_own_adapter kid groupid = joined (
    codes "select * from "
    ∷ table_ada
    ∷ codes " where cmsid="
    ∷ quoted groupid
    ∷ codes " and user="
    ∷ decimal (atoi kid)
    ∷ [])

unfoldable pub delete_from : Text → Text → Text
unfolding joined
delete_from table groupid =
    joined (codes "DELETE FROM " ∷ table ∷ codes " WHERE cmsid=" ∷ quoted groupid ∷ [])

unfoldable pub insert_history : Text → Text → Text → Text → Text → Text
unfolding joined decimal atoi
insert_history groupid name datecreate time kid = joined (
    codes "INSERT INTO "
    ∷ table_ada_his
    ∷ codes "(cmsid,name,datecreate,datedelete,user)VALUES("
    ∷ quoted groupid
    ∷ codes ","
    ∷ quoted name
    ∷ codes ","
    ∷ quoted datecreate
    ∷ codes ","
    ∷ quoted time
    ∷ codes ","
    ∷ decimal (atoi kid)
    ∷ codes ")"
    ∷ [])

-- The first argument of `mod_group` that is written: 0 the password, 1 the name, and nothing else.
unfoldable pub update_adapter : ℤ → Text → Text → Text → Text
unfolding joined
update_adapter type value time groupid =
    let rest = joined (
      quoted value
      ∷ codes ",datemodify="
      ∷ quoted time
      ∷ codes " WHERE cmsid="
      ∷ quoted groupid
      ∷ []) in
    elim type [
      | negsuc n ↦ []
      | pos n ↦
          if nat_beq n 0
          then joined (codes "UPDATE " ∷ table_ada ∷ codes " SET password=" ∷ rest ∷ [])
          else (if nat_beq n 1
              then joined (codes "UPDATE " ∷ table_ada ∷ codes " SET name=" ∷ rest ∷ [])
              else [])
    ]

-- A count that is not above 0.
abbrev pub is_positive : ℤ → Bool
is_positive (pos n) = ltb 0 n
is_positive (negsuc n) = false

abbrev pub int_minus_one : ℤ → ℤ
int_minus_one (pos n) = elim n [ zero ↦ negsuc 0 | suc m ↦ pos m ]
int_minus_one (negsuc n) = negsuc (n + 1)

module _ {W : Type 0} (db : Option (Mysql W)) where
  unfoldable pub check_login : Text → Text → W → Exec (W × (ℕ × Text))
  check_login groupid password =
      with_connection db (1, [])
        λ m. select m (select_adapter groupid) (1, []) (1, []) λ rs. finish (login_rows password rs)

  -- `add_group`, after the user's row: 3 is the largest number reached. `token` is the new id.
  unfoldable pub add_group_row :
      Mysql W → Text → Text → Text → Text → Text → Row → W → Exec (W × (ℕ × Text))
  add_group_row m time token kid password name r w = do
    c ← cell adapternum r
    elim c [
      | none ↦ ok (w, (100, []))
      | some count ↦
          if reaches_max (atoi count)
          then ok (w, (3, []))
          else execute m (insert_adapter token password name time kid) (1, [])
              (execute m (update_adapternum (int_plus_one (atoi count)) kid) (1, [])
                (λ w'. ok (w', (0, token))))
              w
    ]

  -- 2 is an unknown user.
  unfoldable pub add_group_rows :
      Mysql W → Text → Text → Text → Text → Text → List Row → W → Exec (W × (ℕ × Text))
  add_group_rows m time token kid password name [] w = ok (w, (2, []))
  add_group_rows m time token kid password name (r ∷ rs) w =
      add_group_row m time token kid password name r w

  unfoldable pub add_group : Text → Text → Text → Text → Text → W → Exec (W × (ℕ × Text))
  add_group time token kid password name =
      with_connection db (1, [])
        λ m.
          select m (select_user kid) (1, []) (1, []) (add_group_rows m time token kid password name)

  -- The last part of `del_group`, the user's count; 2 is an update that fails.
  unfoldable pub drop_count : Mysql W → Text → List Row → W → Exec (W × ℕ)
  drop_count m kid [] w = ok (w, 100)
  drop_count m kid (r ∷ rs) w = do
    c ← cell adapternum r
    elim c [
      | none ↦ ok (w, 100)
      | some count ↦
          if is_positive (atoi count)
          then execute m (update_adapternum (int_minus_one (atoi count)) kid) 2 (λ w'. ok (w', 0)) w
          else ok (w, 100)
    ]

  -- The statements of `del_group`, in order.
  unfoldable pub del_group_row : Mysql W → Text → Text → Text → Text → Text → W → Exec (W × ℕ)
  del_group_row m time kid groupid name created = execute m (delete_from table_ada groupid) 1 (
      execute m (insert_history groupid name created time kid) 1 (
        execute m (delete_from table_cam groupid) 1
          (select m (select_user kid) 1 1 (drop_count m kid))))

  -- `del_group`, after the adapter's row: 2 is an unknown adapter.
  unfoldable pub del_group_rows : Mysql W → Text → Text → Text → List Row → W → Exec (W × ℕ)
  del_group_rows m time kid groupid [] w = ok (w, 2)
  del_group_rows m time kid groupid (r ∷ rs) w = do
    name ← cell 2 r
    elim name [
      | none ↦ ok (w, 100)
      | some n ↦ do
        created ← cell 3 r
        elim created [ none ↦ ok (w, 100) | some d ↦ del_group_row m time kid groupid n d w ]
    ]

  unfoldable pub del_group : Text → Text → Text → W → Exec (W × ℕ)
  del_group time kid groupid =
      with_connection db 1
        λ m. select m (select_own_adapter kid groupid) 1 1 (del_group_rows m time kid groupid)

  -- 2 is a failure to modify.
  unfoldable pub mod_group : Text → Text → ℤ → Text → W → Exec (W × ℕ)
  mod_group time groupid type value =
      with_connection db 1
        λ m. execute m (update_adapter type value time groupid) 2 (λ w. ok (w, 0))
