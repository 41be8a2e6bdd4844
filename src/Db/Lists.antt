-- ===== src/Db/Lists.antt =====
-- atb_adapter/db_helper.cpp: the lists of adapters and of cameras.
use vm.Prelude.{ℕ, suc, Bool, true, false, Option, none, some, List, [], ◌∷◌, if◌then◌else◌, leb}
use vm.Prelude.Exec.{Exec, ok, crash, ◌>>=◌}
use vm.Prelude.Int.{ℤ, pos, int_beq}
use vm.Prelude.Text.{Text, codes}
use vm.Adapter.Session.{DeviceRow}
use vm.Db.Sql.{atoi, int_word, decimal, joined, quoted, select_user, table_ada, table_cam}
use vm.Db.Query.{Row, Mysql, cell, cell_or_empty, with_connection, select, finish}
use vm.Db.Account.{select_own_adapter}

-- `MAX_DEVICE_NUM_PER_ADAPTER`, the length of the array that the caller gives.
abbrev pub max_device_num : ℕ
max_device_num = 50

unfoldable pub select_cameras : Text → Text
unfolding joined
select_cameras groupid =
    joined (codes "select * from " ∷ table_cam ∷ codes " WHERE cmsid=" ∷ quoted groupid ∷ [])

unfoldable pub select_adapters : Text → Text
unfolding joined decimal atoi
select_adapters kid =
    joined (codes "select * from " ∷ table_ada ∷ codes " WHERE user=" ∷ decimal (atoi kid) ∷ [])

-- The sections of a camera that is not played all day; `none` for data that is not valid.
unfoldable pub section_cells : Text → Text → ℕ → Row → Exec (Option DeviceRow)
section_cells pid name allday r = do
  s0 ← cell 5 r
  elim s0 [
    | none ↦ ok none
    | some s ↦ do
      e0 ← cell 6 r
      elim e0 [
        | none ↦ ok none
        | some e ↦ do
          s1 ← cell 7 r
          elim s1 [
            | none ↦ ok (
                some (record {
                  pid = pid;
                  name = name;
                  allday = allday;
                  s0 = s;
                  e0 = e;
                  s1 = [];
                  e1 = [];
                }))
            | some s' ↦ do
              e1 ← cell 8 r
              ok (elim e1 [
                | none ↦ none
                | some e' ↦ some (record {
                  pid = pid;
                  name = name;
                  allday = allday;
                  s0 = s;
                  e0 = e;
                  s1 = s';
                  e1 = e';
                })
              ])
          ]
      ]
  ]

-- A camera that is played all day.
abbrev pub always_row : Text → Text → DeviceRow
always_row pid name = record {
  pid = pid;
  name = name;
  allday = 1;
  s0 = [];
  e0 = [];
  s1 = [];
  e1 = [];
}

-- One row of `get_group_info_ex`, written to the place `num` of the array, which may be past its end.
-- `none` is data that is not valid.
unfoldable pub device_row : ℕ → Row → Exec (Option DeviceRow)
device_row num r = do
  c1 ← cell 1 r
  elim c1 [
    | none ↦ ok none
    | some pid ↦ do
      c3 ← cell 3 r
      elim c3 [
        | none ↦ ok none
        | some name ↦ do
          c4 ← cell 4 r
          elim c4 [
            | none ↦ ok none
            | some allday ↦
                if leb max_device_num num
                then crash
                else (if int_beq (atoi allday) (pos 1)
                    then ok (some (always_row pid name))
                    else section_cells pid name (int_word (atoi allday)) r)
          ]
      ]
  ]

-- The loop of `get_group_info_ex`: `num` cameras are in the array, and a row that is not valid ends
-- it. The test for the largest number stands after the count, and is not reached.
unfoldable pub device_rows : ℕ → List Row → Exec (List DeviceRow)
device_rows num [] = ok []
device_rows num (r ∷ rs) = do
  d ← device_row num r
  elim d [ none ↦ ok [] | some dev ↦ device_rows (suc num) rs >>= λ devs. ok (dev ∷ devs) ]

-- The item of `get_user_group`: an adapter's id and name.
pub record AdapterItem : Type 0 where
  pub cmsid : Text
  pub name : Text

unfoldable pub adapter_items : List Row → Exec (List AdapterItem)
adapter_items [] = ok []
adapter_items (r ∷ rs) = do
  cmsid ← cell_or_empty 0 r
  name ← cell_or_empty 2 r
  items ← adapter_items rs
  ok (record { cmsid = cmsid; name = name } ∷ items)

-- The item of `get_group_info`.
pub record CameraItem : Type 0 where
  pub devid : Text
  pub name : Text
  pub id : ℤ
  pub s0 : Text
  pub e0 : Text
  pub s1 : Text
  pub e1 : Text
  pub addr : Text

-- One row of `get_group_info`; `none` where the number is NULL. `atoi` of a NULL flag is a fault.
unfoldable pub camera_item : Row → Exec (Option CameraItem)
camera_item r = do
  devid ← cell_or_empty 1 r
  name ← cell_or_empty 3 r
  c0 ← cell 0 r
  elim c0 [
    | none ↦ ok none
    | some id ↦ do
      c4 ← cell 4 r
      elim c4 [
        | none ↦ crash
        | some allday ↦ do
          s0 ← if int_beq (atoi allday) (pos 1) then ok (codes "00:00:00") else cell_or_empty 5 r
          e0 ← if int_beq (atoi allday) (pos 1) then ok (codes "23:59:59") else cell_or_empty 6 r
          s1 ← if int_beq (atoi allday) (pos 1) then ok [] else cell_or_empty 7 r
          e1 ← if int_beq (atoi allday) (pos 1) then ok [] else cell_or_empty 8 r
          addr ← cell_or_empty 11 r
          ok (
              some (record {
                devid = devid;
                name = name;
                id = atoi id;
                s0 = s0;
                e0 = e0;
                s1 = s1;
                e1 = e1;
                addr = addr;
              }))
      ]
  ]

-- The loop of `get_group_info`: the items so far, and whether all rows were valid.
unfoldable pub camera_items : List Row → Exec (List CameraItem × Bool)
camera_items [] = ok ([], true)
camera_items (r ∷ rs) = do
  c ← camera_item r
  elim c [
    | none ↦ ok ([], false)
    | some item ↦ do (items, valid) ← camera_items rs; ok (item ∷ items, valid)
  ]

module _ {W : Type 0} (db : Option (Mysql W)) where
  -- The cameras of a client, or `none` for -1, which only a missing connection gives: the count
  -- takes the place of all other errors.
  unfoldable pub get_group_info_ex : Text → W → Exec (W × Option (List DeviceRow))
  get_group_info_ex groupid = with_connection db none λ m.
      select m (select_cameras groupid) (some []) (some [])
        λ rs. finish (device_rows 0 rs >>= λ devs. ok (some devs))

  -- 2 is an unknown user; the list is empty with any result but 0.
  unfoldable pub get_user_group_rows :
      Mysql W → Text → List Row → W → Exec (W × (ℕ × List AdapterItem))
  get_user_group_rows m kid [] w = ok (w, (2, []))
  get_user_group_rows m kid (u ∷ us) w =
      select m (select_adapters kid) (1, []) (1, [])
        (λ rs. finish (adapter_items rs >>= λ items. ok (0, items))) w

  unfoldable pub get_user_group : Text → W → Exec (W × (ℕ × List AdapterItem))
  get_user_group kid =
      with_connection db (1, [])
        λ m. select m (select_user kid) (1, []) (1, []) (get_user_group_rows m kid)

  -- 2 is an unknown adapter, 100 a row that is not valid. The items of the rows before it are in
  -- the list that is given back, though not counted.
  unfoldable pub get_group_info_rows :
      Mysql W → Text → List Row → W → Exec (W × (ℕ × List CameraItem))
  get_group_info_rows m groupid [] w = ok (w, (2, []))
  get_group_info_rows m groupid (u ∷ us) w =
      select m (select_cameras groupid) (1, []) (1, [])
        (λ rs. finish (camera_items rs >>= λ r. ok (if r.1 then 0 else 100, r.0))) w

  unfoldable pub get_group_info : Text → Text → W → Exec (W × (ℕ × List CameraItem))
  get_group_info kid groupid =
      with_connection db (1, [])
        λ m.
          select m (select_own_adapter kid groupid) (1, []) (1, []) (get_group_info_rows m groupid)
