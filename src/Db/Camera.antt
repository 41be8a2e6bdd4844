-- ===== src/Db/Camera.antt =====
-- atb_adapter/db_helper.cpp: the cameras. `seconds` is the reader of times, `time` the time of day.
use vm.Prelude.{ℕ, not, ◌&&◌, Option, none, some, List, [], ◌∷◌, ◌++◌, if◌then◌else◌, nat_beq}
use vm.Prelude.Exec.{Exec, ok, ◌>>=◌}
use vm.Prelude.Int.{pos, negsuc, int_beq}
use vm.Prelude.Text.{Text, codes, is_empty, text_beq}
use vm.Adapter.Clock.{Sections, no_sections, check_internal, parse_time_section}
use vm.Db.Sql.{
  atoi, decimal, joined, quoted, select_adapter, select_camera, sprintf, table_cam, table_cam_his,
}
use vm.Db.Query.{Row, Mysql, cell, cell_or_empty, with_connection, execute, select, finish}

-- `TBDevice`.
pub record Device : Type 0 where
  pub pid : Text
  pub groupid : Text
  pub name : Text
  pub allday : ℕ
  pub time_sec0 : Text
  pub time_sec1 : Text
  pub broadcast_address : Text

unfoldable pub select_same_camera : Text → Text → Text
unfolding joined
select_same_camera pid cmsid = joined (
    codes "select * from "
    ∷ table_cam
    ∷ codes " where pid="
    ∷ quoted pid
    ∷ codes " and cmsid="
    ∷ quoted cmsid
    ∷ [])

unfoldable pub delete_camera : Text → Text → Text
unfolding joined
delete_camera cmsid pid = joined (
    codes "DELETE FROM "
    ∷ table_cam
    ∷ codes " WHERE cmsid="
    ∷ quoted cmsid
    ∷ codes " and pid="
    ∷ quoted pid
    ∷ [])

-- Texts in quotes, with commas between them.
unfoldable pub quoted_list : List Text → Text
quoted_list [] = []
quoted_list (s ∷ rest) = quoted s ++ (codes "," ++ quoted_list rest)

-- The columns and values differ with the schedule: none, one section or two.
unfoldable pub insert_camera : Device → ℕ → Sections → Text → Text → Text → Text
unfolding joined decimal atoi quoted_list
insert_camera d size t time customer kid =
    let start = codes "INSERT INTO " ++ (table_cam ++ codes "(pid,cmsid,name,allday,") in
    let names = quoted_list (d.pid ∷ d.groupid ∷ d.name ∷ []) in
    let owners = decimal (atoi customer) ++ (codes "," ++ (decimal (atoi kid) ++ codes ")")) in
    if nat_beq d.allday 0
    then (if nat_beq size 2
        then joined (
            start
            ∷ codes
                "starttime1,endtime1,starttime2,endtime2,datecreate,customer_id,kindergarten_id)VALUES("
            ∷ names
            ∷ codes "0,"
            ∷ quoted_list (t.s0 ∷ t.e0 ∷ t.s1 ∷ t.e1 ∷ time ∷ [])
            ∷ owners
            ∷ [])
        else joined (
            start
            ∷ codes "starttime1,endtime1,datecreate,customer_id,kindergarten_id)VALUES("
            ∷ names
            ∷ codes "0,"
            ∷ quoted_list (t.s0 ∷ t.e0 ∷ time ∷ [])
            ∷ owners
            ∷ []))
    else joined (
        start
        ∷ codes "datecreate,customer_id,kindergarten_id)VALUES("
        ∷ names
        ∷ codes "1,"
        ∷ quoted_list (time ∷ [])
        ∷ owners
        ∷ [])

unfoldable pub camera_history : Text → Text → Text → Text → Text → Text
unfolding joined quoted_list
camera_history cmsid pid name created time = joined (
    codes "INSERT INTO "
    ∷ table_cam_his
    ∷ codes "(pid,cmsid,name,datecreate,datedelete)VALUES("
    ∷ quoted_list (pid ∷ cmsid ∷ name ∷ created ∷ [])
    ∷ quoted time
    ∷ codes ")"
    ∷ [])

-- name='value'
abbrev pub assign : Text → Text → Text
assign column value = column ++ (codes "=" ++ (quoted value ++ codes ","))

unfoldable pub update_camera : Device → ℕ → Sections → Text → Text
unfolding joined
update_camera d size t time =
    let start = codes "UPDATE " ++ (table_cam ++ codes " SET allday=") in
    let end = joined (
      codes "datemodify="
      ∷ quoted time
      ∷ codes " WHERE pid="
      ∷ quoted d.pid
      ∷ codes " and cmsid="
      ∷ quoted d.groupid
      ∷ []) in
    let name = assign (codes "name") d.name in
    if nat_beq d.allday 0
    then (let first = assign (codes "starttime1") t.s0 ++ assign (codes "endtime1") t.e0 in
        if nat_beq size 2
        then joined (
            start
            ∷ codes "0,"
            ∷ name
            ∷ first
            ∷ assign (codes "starttime2") t.s1
            ∷ assign (codes "endtime2") t.e1
            ∷ end
            ∷ [])
        else joined
            (start ∷ codes "0," ∷ name ∷ first ∷ codes "starttime2=null,endtime2=null," ∷ end ∷ []))
    else joined (
        start
        ∷ codes "1,"
        ∷ name
        ∷ codes "starttime1=null,endtime1=null,starttime2=null,endtime2=null,"
        ∷ end
        ∷ [])

module _ (seconds : Text → Option ℕ) where
  -- May a camera with these sections be played at this time? 3 says no, 100 that the first section
  -- has no start.
  unfoldable pub check_sections : Text → Sections → ℕ
  check_sections time t =
      if is_empty t.s0
      then 100
      else (if check_internal seconds time t.s0 t.e0
          then 0
          else (if is_empty t.s1
              then 3
              else (if check_internal seconds time t.s1 t.e1 then 0 else 3)))

  unfoldable pub start_row : Text → Row → Exec ℕ
  start_row time r = do
    c ← cell 4 r
    elim c [
      | none ↦ ok 100
      | some allday ↦
          if not (text_beq allday (codes "0")) && not (text_beq allday (codes "1"))
          then ok 100
          else (if int_beq (atoi allday) (pos 0)
              then (do
                s0 ← cell_or_empty 5 r
                e0 ← cell_or_empty 6 r
                s1 ← cell_or_empty 7 r
                e1 ← cell_or_empty 8 r
                ok (check_sections time (record { s0 = s0; e0 = e0; s1 = s1; e1 = e1 })))
              else ok 0)
    ]

  unfoldable pub start_rows : Text → List Row → Exec ℕ
  start_rows time [] = ok 2
  start_rows time (r ∷ rs) = start_row time r

  -- `ParseTimeSection` where the camera is not played all day; `none` is its -1.
  unfoldable pub parsed_sections : Device → Exec (Option (ℕ × Sections))
  parsed_sections d =
      let parsed = parse_time_section seconds d.time_sec0 d.time_sec1 in
      if nat_beq d.allday 0
      then (do (n, t) ← parsed; ok (elim n [ pos k ↦ some (k, t) | negsuc k ↦ none ]))
      else ok (some (0, no_sections))

  module _ {W : Type 0} (db : Option (Mysql W)) where
    -- 0 lets the camera start, 2 is an unknown camera.
    unfoldable pub check_start_push : Text → Text → Text → W → Exec (W × ℕ)
    check_start_push time groupid pid =
        with_connection db 1
          λ m. select m (select_camera groupid pid) 1 100 λ rs. finish (start_rows time rs)

    -- `add_device`, after the adapter's row, where the owners stand.
    unfoldable pub add_device_rows :
        Mysql W → Text → Device → ℕ → Sections → List Row → W → Exec (W × ℕ)
    add_device_rows m time d size t [] w = ok (w, 100)
    add_device_rows m time d size t (r ∷ rs) w = do
      k ← cell 5 r
      elim k [
        | none ↦ ok (w, 100)
        | some kid ↦ do
          c ← cell 6 r
          elim c [
            | none ↦ ok (w, 100)
            | some customer ↦
                execute m (insert_camera d size t time customer kid) 1 (λ w'. ok (w', 0)) w
          ]
      ]

    -- After the look for the same camera.
    unfoldable pub add_device_checked :
        Mysql W → Text → Device → ℕ → Sections → List Row → W → Exec (W × ℕ)
    add_device_checked m time d size t [] w =
        select m (select_adapter d.groupid) 1 1 (add_device_rows m time d size t) w
    add_device_checked m time d size t (r ∷ rs) w = ok (w, 3)

    -- After the schedule is read. 2 is one that is not valid, 3 a camera that is there already.
    unfoldable pub add_device_parsed : Text → Device → Option (ℕ × Sections) → W → Exec (W × ℕ)
    add_device_parsed time d none w = ok (w, 2)
    add_device_parsed time d (some (size, t)) w =
        with_connection db 1
          (λ m.
            select m (select_same_camera d.pid d.groupid) 1 1 (add_device_checked m time d size t))
          w

    unfoldable pub add_device : Text → Device → W → Exec (W × ℕ)
    add_device time d w = do parsed ← parsed_sections d; add_device_parsed time d parsed w

    -- 3 is a schedule that is not valid.
    unfoldable pub mod_device_parsed : Text → Device → Option (ℕ × Sections) → W → Exec (W × ℕ)
    mod_device_parsed time d none w = ok (w, 3)
    mod_device_parsed time d (some (size, t)) w =
        with_connection db 1 (λ m. execute m (update_camera d size t time) 1 (λ w'. ok (w', 0))) w

    unfoldable pub mod_device : Text → Device → W → Exec (W × ℕ)
    mod_device time d w = do parsed ← parsed_sections d; mod_device_parsed time d parsed w

module _ {W : Type 0} (db : Option (Mysql W)) where
  -- The statement for the history is made, and not run.
  unfoldable pub del_device_rows : Mysql W → Text → Text → Text → List Row → W → Exec (W × ℕ)
  del_device_rows m time groupid pid [] w = ok (w, 2)
  del_device_rows m time groupid pid (r ∷ rs) w = do
    name ← cell 3 r
    elim name [
      | none ↦ ok (w, 100)
      | some n ↦ do
        created ← cell 9 r
        elim created [
          | none ↦ ok (w, 100)
          | some d ↦
              execute m (delete_camera groupid pid) 1
                (λ w'. do sql ← sprintf (camera_history groupid pid n d time); ok (w', 0)) w
        ]
    ]

  -- 2 is an unknown camera.
  unfoldable pub del_device : Text → Text → Text → W → Exec (W × ℕ)
  del_device time groupid pid =
      with_connection db 1
        λ m. select m (select_camera groupid pid) 1 1 (del_device_rows m time groupid pid)
