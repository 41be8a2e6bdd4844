-- ===== src/Db/Balance.antt =====
-- atb_adapter/db_helper.cpp: the connections of the pool. What is documented of the pool is the
-- parameter `Pool`; the operations are run in any order.
use vm.Prelude.{ℕ, suc, ◌≡◌, ◌∙◌, true, false, Option, none, some, List, [], ◌∷◌, arith}
use vm.Prelude.Exec.{Exec, ok, >>=-eq-ok}
use vm.Prelude.Int.{ℤ}
use vm.Prelude.Text.{Text}
use vm.Adapter.Clock.{Sections}
use vm.Db.Query.{Row, Mysql, with_connection, execute, select, finish}
use vm.Db.Account.{
  check_login, add_group, add_group_rows, add_group_row, del_group, del_group_row, del_group_rows,
  drop_count, mod_group,
}
use vm.Db.Camera.{
  Device, check_start_push, add_device, add_device_rows, add_device_checked, add_device_parsed,
  mod_device_parsed, mod_device, del_device, del_device_rows,
}
use vm.Db.Lists.{
  get_group_info_ex, get_user_group, get_group_info, get_user_group_rows, get_group_info_rows,
}
use vm.Db.Calls.{
  Call, login, start, adapters, devices, cameras, add_adapter, delete_adapter, modify_adapter, add,
  delete, modify, serve_call, serve_calls,
}

-- A pool that counts its idle connections: a connection that is fetched is one less, one that is
-- given back is one more, and a statement changes nothing of it.
pub record Pool {W : Type 0} (m : Mysql W) (idle : W → ℕ) : Type 0 where
  pub fetched : (w : W) → (m.fetch w).1 ≡ true → suc (idle (m.fetch w).0) ≡ idle w
  pub refused : (w : W) → (m.fetch w).1 ≡ false → idle (m.fetch w).0 ≡ idle w
  pub given_back : (w : W) → idle (m.recycle w) ≡ suc (idle w)
  pub queried : (sql : Text) (w : W) → idle (m.query sql w).0 ≡ idle w

-- The result, if there is one, leaves `n` connections idle.
abbrev pub Leaves : {W A : Type 0} → (W → ℕ) → ℕ → Exec (W × A) → Type 0
Leaves {W} {A} idle n e = (r : W × A) → e ≡ ok r → idle r.0 ≡ n

module _ {W : Type 0} (m : Mysql W) (idle : W → ℕ) (pool : Pool m idle) where
  module _ {A : Type 0} where
    with_connection-Leaves :
        (fallback : A) (body : Mysql W → W → Exec (W × A)) (w : W)
        → ((w' : W) → Leaves idle (idle w') (body m w'))
        → Leaves idle (idle w) (with_connection (some m) fallback body w)
    unfolding with_connection
    with_connection-Leaves fallback body w keep r e =
        grind (arith, pool.fetched w, pool.refused w, pool.given_back, keep (m.fetch w).0)

    execute-Leaves :
        (text : Text) (fail : A) (k : W → Exec (W × A)) (w : W)
        → ((w' : W) → Leaves idle (idle w') (k w'))
        → Leaves idle (idle w) (execute m text fail k w)
    unfolding execute
    execute-Leaves text fail k w keep r e = grind (arith, pool.queried, keep)

    select-Leaves :
        (text : Text) (fail lost : A) (k : List Row → W → Exec (W × A)) (w : W)
        → ((rs : List Row) (w' : W) → Leaves idle (idle w') (k rs w'))
        → Leaves idle (idle w) (select m text fail lost k w)
    unfolding select
    select-Leaves text fail lost k w keep r e = grind (arith, pool.queried, keep)

    finish-Leaves : (e : Exec A) (w : W) → Leaves idle (idle w) (finish e w)
    unfolding finish
    finish-Leaves e w r h = ground arith

  pub check_login-Leaves :
      (groupid password : Text) (w : W)
      → Leaves idle (idle w) (check_login (some m) groupid password w)
  unfolding check_login
  check_login-Leaves groupid password w =
      with_connection-Leaves _ _ w λ w'. select-Leaves _ _ _ _ w' λ rs w''. finish-Leaves _ w''

  add_group_row-Leaves :
      (time token kid password name : Text) (r : Row) (w : W)
      → Leaves idle (idle w) (add_group_row (some m) m time token kid password name r w)
  unfolding add_group_row
  add_group_row-Leaves time token kid password name r w = grind (arith, execute-Leaves)

  add_group_rows-Leaves :
      (time token kid password name : Text) (rs : List Row) (w : W)
      → Leaves idle (idle w) (add_group_rows (some m) m time token kid password name rs w)
  unfolding add_group_rows
  add_group_rows-Leaves time token kid password name [] w = λ r e. ground arith
  add_group_rows-Leaves time token kid password name (row ∷ rs) w =
      add_group_row-Leaves time token kid password name row w

  add_group-Leaves :
      (time token kid password name : Text) (w : W)
      → Leaves idle (idle w) (add_group (some m) time token kid password name w)
  unfolding add_group
  add_group-Leaves time token kid password name w =
      with_connection-Leaves _ _ w
        λ w'. select-Leaves _ _ _ _ w' (add_group_rows-Leaves time token kid password name)

  drop_count-Leaves :
      (kid : Text) (rs : List Row) (w : W) → Leaves idle (idle w) (drop_count (some m) m kid rs w)
  unfolding drop_count
  drop_count-Leaves kid [] w r e = ground arith
  drop_count-Leaves kid (row ∷ rs) w r e = grind (arith, execute-Leaves)

  del_group_row-Leaves :
      (time kid groupid name created : Text) (w : W)
      → Leaves idle (idle w) (del_group_row (some m) m time kid groupid name created w)
  unfolding del_group_row
  del_group_row-Leaves time kid groupid name created w = execute-Leaves _ _ _ w λ w1.
      execute-Leaves _ _ _ w1
        λ w2. execute-Leaves _ _ _ w2 λ w3. select-Leaves _ _ _ _ w3 (drop_count-Leaves kid)

  del_group_rows-Leaves :
      (time kid groupid : Text) (rs : List Row) (w : W)
      → Leaves idle (idle w) (del_group_rows (some m) m time kid groupid rs w)
  unfolding del_group_rows
  del_group_rows-Leaves time kid groupid [] w r e = ground arith
  del_group_rows-Leaves time kid groupid (row ∷ rs) w r e =
      grind (arith, del_group_row-Leaves time kid groupid)

  del_group-Leaves :
      (time kid groupid : Text) (w : W)
      → Leaves idle (idle w) (del_group (some m) time kid groupid w)
  unfolding del_group
  del_group-Leaves time kid groupid w =
      with_connection-Leaves _ _ w
        λ w'. select-Leaves _ _ _ _ w' (del_group_rows-Leaves time kid groupid)

  mod_group-Leaves :
      (time groupid : Text) (type : ℤ) (value : Text) (w : W)
      → Leaves idle (idle w) (mod_group (some m) time groupid type value w)
  unfolding mod_group
  mod_group-Leaves time groupid type value w =
      with_connection-Leaves _ _ w λ w'. execute-Leaves _ _ _ w' λ w'' r e. ground arith

  pub get_group_info_ex-Leaves :
      (groupid : Text) (w : W) → Leaves idle (idle w) (get_group_info_ex (some m) groupid w)
  unfolding get_group_info_ex
  get_group_info_ex-Leaves groupid w =
      with_connection-Leaves _ _ w λ w'. select-Leaves _ _ _ _ w' λ rs w''. finish-Leaves _ w''

  get_user_group_rows-Leaves :
      (kid : Text) (us : List Row) (w : W)
      → Leaves idle (idle w) (get_user_group_rows (some m) m kid us w)
  unfolding get_user_group_rows
  get_user_group_rows-Leaves kid [] w = λ r e. ground arith
  get_user_group_rows-Leaves kid (u ∷ us) w = select-Leaves _ _ _ _ w λ rs w'. finish-Leaves _ w'

  pub get_user_group-Leaves :
      (kid : Text) (w : W) → Leaves idle (idle w) (get_user_group (some m) kid w)
  unfolding get_user_group
  get_user_group-Leaves kid w =
      with_connection-Leaves _ _ w λ w'. select-Leaves _ _ _ _ w' (get_user_group_rows-Leaves kid)

  get_group_info_rows-Leaves :
      (groupid : Text) (us : List Row) (w : W)
      → Leaves idle (idle w) (get_group_info_rows (some m) m groupid us w)
  unfolding get_group_info_rows
  get_group_info_rows-Leaves groupid [] w = λ r e. ground arith
  get_group_info_rows-Leaves groupid (u ∷ us) w =
      select-Leaves _ _ _ _ w λ rs w'. finish-Leaves _ w'

  pub get_group_info-Leaves :
      (kid groupid : Text) (w : W) → Leaves idle (idle w) (get_group_info (some m) kid groupid w)
  unfolding get_group_info
  get_group_info-Leaves kid groupid w =
      with_connection-Leaves _ _ w
        λ w'. select-Leaves _ _ _ _ w' (get_group_info_rows-Leaves groupid)

  module _ (seconds : Text → Option ℕ) where
    pub check_start_push-Leaves :
        (time groupid pid : Text) (w : W)
        → Leaves idle (idle w) (check_start_push seconds (some m) time groupid pid w)
    unfolding check_start_push
    check_start_push-Leaves time groupid pid w =
        with_connection-Leaves _ _ w λ w'. select-Leaves _ _ _ _ w' λ rs w''. finish-Leaves _ w''

    add_device_rows-Leaves :
        (time : Text) (d : Device) (size : ℕ) (t : Sections) (rs : List Row) (w : W)
        → Leaves idle (idle w) (add_device_rows seconds (some m) m time d size t rs w)
    unfolding add_device_rows
    add_device_rows-Leaves time d size t [] w r e = ground arith
    add_device_rows-Leaves time d size t (row ∷ rs) w r e = grind (arith, execute-Leaves)

    add_device_checked-Leaves :
        (time : Text) (d : Device) (size : ℕ) (t : Sections) (rs : List Row) (w : W)
        → Leaves idle (idle w) (add_device_checked seconds (some m) m time d size t rs w)
    unfolding add_device_checked
    add_device_checked-Leaves time d size t [] w =
        select-Leaves _ _ _ _ w (add_device_rows-Leaves time d size t)
    add_device_checked-Leaves time d size t (row ∷ rs) w = λ r e. ground arith

    add_device_parsed-Leaves :
        (time : Text) (d : Device) (parsed : Option (ℕ × Sections)) (w : W)
        → Leaves idle (idle w) (add_device_parsed seconds (some m) time d parsed w)
    unfolding add_device_parsed
    add_device_parsed-Leaves time d none w = λ r e. ground arith
    add_device_parsed-Leaves time d (some (size, t)) w =
        with_connection-Leaves _ _ w
          λ w'. select-Leaves _ _ _ _ w' (add_device_checked-Leaves time d size t)

    pub add_device-Leaves :
        (time : Text) (d : Device) (w : W)
        → Leaves idle (idle w) (add_device seconds (some m) time d w)
    unfolding add_device
    add_device-Leaves time d w r e = grind (arith, add_device_parsed-Leaves time d)

    mod_device_parsed-Leaves :
        (time : Text) (d : Device) (parsed : Option (ℕ × Sections)) (w : W)
        → Leaves idle (idle w) (mod_device_parsed seconds (some m) time d parsed w)
    unfolding mod_device_parsed
    mod_device_parsed-Leaves time d none w = λ r e. ground arith
    mod_device_parsed-Leaves time d (some (size, t)) w =
        with_connection-Leaves _ _ w λ w'. execute-Leaves _ _ _ w' λ w'' r e. ground arith

    pub mod_device-Leaves :
        (time : Text) (d : Device) (w : W)
        → Leaves idle (idle w) (mod_device seconds (some m) time d w)
    unfolding mod_device
    mod_device-Leaves time d w r e = grind (arith, mod_device_parsed-Leaves time d)

  del_device_rows-Leaves :
      (time groupid pid : Text) (rs : List Row) (w : W)
      → Leaves idle (idle w) (del_device_rows (some m) m time groupid pid rs w)
  unfolding del_device_rows
  del_device_rows-Leaves time groupid pid [] w r e = ground arith
  del_device_rows-Leaves time groupid pid (row ∷ rs) w r e = grind (arith, execute-Leaves)

  pub del_device-Leaves :
      (time groupid pid : Text) (w : W)
      → Leaves idle (idle w) (del_device (some m) time groupid pid w)
  unfolding del_device
  del_device-Leaves time groupid pid w =
      with_connection-Leaves _ _ w
        λ w'. select-Leaves _ _ _ _ w' (del_device_rows-Leaves time groupid pid)

  module _ (seconds : Text → Option ℕ) where
    serve_call-idle :
        (c : Call) (w : W) {w' : W} → serve_call seconds (some m) c w ≡ ok w' → idle w' ≡ idle w
    unfolding serve_call
    serve_call-idle (login groupid password) w e = grind (arith, check_login-Leaves)
    serve_call-idle (start time groupid pid) w e = grind (arith, check_start_push-Leaves seconds)
    serve_call-idle (adapters kid) w e = grind (arith, get_user_group-Leaves)
    serve_call-idle (devices groupid) w e = grind (arith, get_group_info_ex-Leaves)
    serve_call-idle (cameras kid groupid) w e = grind (arith, get_group_info-Leaves)
    serve_call-idle (add_adapter time token kid password name) w e = grind (arith, add_group-Leaves)
    serve_call-idle (delete_adapter time kid groupid) w e = grind (arith, del_group-Leaves)
    serve_call-idle (modify_adapter time groupid type v) w e = grind (arith, mod_group-Leaves)
    serve_call-idle (add time d) w e = grind (arith, add_device-Leaves seconds)
    serve_call-idle (delete time groupid pid) w e = grind (arith, del_device-Leaves)
    serve_call-idle (modify time d) w e = grind (arith, mod_device-Leaves seconds)

    -- Whatever the helper is asked, and whatever the database answers, the pool has as many idle
    -- connections after the calls as before: every connection that was fetched is given back.
    pub serve_calls-idle :
        (cs : List Call) (w : W) {w' : W}
        → serve_calls seconds (some m) cs w ≡ ok w'
        → idle w' ≡ idle w
    unfolding serve_calls
    serve_calls-idle [] w e = ground arith
    serve_calls-idle (c ∷ cs) w e =
        let (w1, first, others) = >>=-eq-ok (serve_call seconds (some m) c w) _ e in
        serve_calls-idle cs w1 others ∙ serve_call-idle c w first
