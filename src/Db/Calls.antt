-- ===== src/Db/Calls.antt =====
-- atb_adapter/db_helper.h: the operations of the database helper, as calls in any order.
use vm.Prelude.{ℕ, Option, List, [], ◌∷◌}
use vm.Prelude.Exec.{Exec, ok, ◌>>=◌}
use vm.Prelude.Int.{ℤ}
use vm.Prelude.Text.{Text}
use vm.Db.Query.{Mysql}
use vm.Db.Account.{check_login, add_group, del_group, mod_group}
use vm.Db.Camera.{Device, check_start_push, add_device, mod_device, del_device}
use vm.Db.Lists.{get_group_info_ex, get_user_group, get_group_info}

-- The times and the new id are what the clock and the random generator give.
pub data Call : Type 0 where
  login : (groupid password : Text) → Call
  start : (time groupid pid : Text) → Call
  adapters : (kid : Text) → Call
  devices : (groupid : Text) → Call
  cameras : (kid groupid : Text) → Call
  add_adapter : (time token kid password name : Text) → Call
  delete_adapter : (time kid groupid : Text) → Call
  modify_adapter : (time groupid : Text) (type : ℤ) (v : Text) → Call
  add : (time : Text) (d : Device) → Call
  delete : (time groupid pid : Text) → Call
  modify : (time : Text) (d : Device) → Call

module _ (seconds : Text → Option ℕ) {W : Type 0} (db : Option (Mysql W)) where
  -- One call; its result is not looked at.
  unfoldable pub serve_call : Call → W → Exec W
  serve_call (login groupid password) w = do (w', r) ← check_login db groupid password w; ok w'
  serve_call (start time groupid pid) w = do
    (w', r) ← check_start_push seconds db time groupid pid w
    ok w'
  serve_call (adapters kid) w = do (w', r) ← get_user_group db kid w; ok w'
  serve_call (devices groupid) w = do (w', r) ← get_group_info_ex db groupid w; ok w'
  serve_call (cameras kid groupid) w = do (w', r) ← get_group_info db kid groupid w; ok w'
  serve_call (add_adapter time token kid password name) w = do
    (w', r) ← add_group db time token kid password name w
    ok w'
  serve_call (delete_adapter time kid groupid) w = do
    (w', r) ← del_group db time kid groupid w
    ok w'
  serve_call (modify_adapter time groupid type v) w = do
    (w', r) ← mod_group db time groupid type v w
    ok w'
  serve_call (add time d) w = do (w', r) ← add_device seconds db time d w; ok w'
  serve_call (delete time groupid pid) w = do (w', r) ← del_device db time groupid pid w; ok w'
  serve_call (modify time d) w = do (w', r) ← mod_device seconds db time d w; ok w'

  unfoldable pub serve_calls : List Call → W → Exec W
  serve_calls [] w = ok w
  serve_calls (c ∷ cs) w = do w' ← serve_call c w; serve_calls cs w'
