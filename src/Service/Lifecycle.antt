-- ===== src/Service/Lifecycle.antt =====
-- AdapterService.cpp, with AdapterServer.cpp, main.cpp and atb_sak/src/singleton.h: how the parts are
-- started and stopped. `new` does not give a null pointer.
use vm.Prelude.{ℕ, Option, none, some, Bool, true, false, not, if◌then◌else◌}
use vm.Prelude.Exec.{Exec, ok, crash, ◌>>=◌}
use vm.Prelude.Int.{ℤ, pos, negsuc, minus_one, int_beq}
use vm.Pool.Threads.{Workers, new_workers, start_workers, delete_workers}

-- The instance of the database helper: not made yet, made, with or without its pool, and deleted. A
-- deleted instance is still the one that `GetInstance` gives.
pub data Helper : Type 0 where
  unmade : Helper
  made : (has_pool : Bool) → Helper
  deleted : Helper

-- `singleton::GetInstance`.
unfoldable pub get_instance : Helper → Helper
get_instance unmade = made false
get_instance (made p) = made p
get_instance deleted = deleted

-- `DBHelper::init` through the pointer.
unfoldable pub init_helper : Helper → Exec (Helper × ℤ)
init_helper unmade = crash
init_helper (made false) = ok (made true, pos 0)
init_helper (made true) = ok (made true, minus_one)
init_helper deleted = crash

-- `delete` of the pointer.
unfoldable pub delete_helper : Helper → Exec Helper
delete_helper unmade = crash
delete_helper (made p) = ok deleted
delete_helper deleted = crash

-- `AdapterServer`: `absent` is a null pointer, and the TCP server is there, with the thread in its `Run`, or
-- not.
pub data AdapterPart : Type 0 where
  absent : AdapterPart
  present : (exit has_server : Bool) → AdapterPart

-- `AdapterService`: whether each of its pointers is set, with the threads of the pool, and whether the
-- threads of the play manager run. These never end.
pub record Parts : Type 0 where
  pub exit : Bool
  pub mysql : Bool
  pub threads : Option Workers
  pub http : Bool
  pub adapter : AdapterPart
  pub play : Bool
  pub play_runs : Bool
  pub helper : Helper

-- What the calls of Start meet: true where the call succeeds, and how many threads of the pool can be
-- created before one cannot.
pub record Outcome : Type 0 where
  pub mysql_init : Bool
  pub mysql_open : Bool
  pub threads_created : ℕ
  pub http_start : Bool
  pub tcp_connect : Bool
  pub thread_create : Bool
  pub play_start : Bool

-- The constructor.
abbrev pub new_service : Parts
new_service = record {
  exit = true;
  mysql = false;
  threads = none;
  http = false;
  adapter = absent;
  play = false;
  play_runs = false;
  helper = unmade;
}

-- `AdapterServer::Stop`. It deletes the TCP server, and does not wait for the thread that is in its `Run`.
unfoldable pub adapter_stop : Bool → Helper → Exec (Helper × AdapterPart)
adapter_stop runs h =
    if runs then crash else (do h' ← delete_helper (get_instance h); ok (h', present true false))

-- `AdapterServer::Start`, where `bExit_` is set and the host given.
unfoldable pub adapter_start : Outcome → Helper → Exec (Helper × (AdapterPart × ℤ))
adapter_start o h = do
  (h', ret) ← init_helper (get_instance h)
  elim ret [
    | pos n ↦
        if o.tcp_connect
        then (if o.thread_create
            then ok (h', (present false true, pos 0))
            else adapter_start_fails h')
        else adapter_start_fails h'
    | negsuc n ↦ adapter_start_fails h'
  ]
  where
    adapter_start_fails : Helper → Exec (Helper × (AdapterPart × ℤ))
    adapter_start_fails h = do (h', a) ← adapter_stop false h; ok (h', (a, negsuc 1))

-- `AdapterService::Stop`. It deletes the play manager, also under its running threads: the `Stop` of
-- that is empty.
unfoldable pub stop : Parts → Exec Parts
stop s = do
  gone ← if s.play_runs then crash else ok false
  h ← elim s.adapter [
    | absent ↦ ok s.helper
    | present e t ↦ do (h', a) ← adapter_stop t s.helper; ok h'
  ]
  joined ← elim s.threads [ none ↦ ok none | some p ↦ do p' ← delete_workers p; ok (some p') ]
  ok (record new_service { helper = h; play = gone })

-- The steps of `AdapterService::Start` up to the first failure, and its `iRet`. A thread pool that
-- does not start leaves `iRet` at 0.
unfoldable pub start_parts : Outcome → Parts → Exec (Parts × ℤ)
start_parts o s =
    let s1 = record s { mysql = true } in
    let (workers, all) = start_workers o.threads_created (new_workers 8) in
    let s2 = record s1 { threads = some workers } in
    let s3 = record s2 { http = true } in
    if not o.mysql_init
    then ok (s1, negsuc 3)
    else (if not o.mysql_open
        then ok (s1, negsuc 3)
        else (if not (int_beq all (pos 0))
            then ok (s2, pos 0)
            else (if not o.http_start then ok (s3, negsuc 2) else (do
              (h, (a, ret)) ← adapter_start o s.helper
              let s4 = record s3 { adapter = a; helper = h }
              let s5 = record s4 { play = true; play_runs = o.play_start }
              elim ret [
                | negsuc n ↦ ok (s4, negsuc 3)
                | pos n ↦ ok (s5, if o.play_start then pos 0 else negsuc 5)
              ]))))

unfoldable pub start : Outcome → Parts → Exec (Parts × ℤ)
start o s = if not s.exit then ok (s, minus_one) else (do
  (s', ret) ← start_parts o s
  elim ret [
    | negsuc n ↦ do s'' ← stop s'; ok (s'', minus_one)
    | pos n ↦ ok (record s' { exit = false }, pos 0)
  ])

-- The destructor stops once more.
unfoldable pub delete_service : Parts → Exec Parts
delete_service s = do s' ← stop s; stop s'

-- What `main` does with the service: it starts it, and stops and deletes it after a start that fails
-- or, else, when the console loop has ended. The result is the process's.
unfoldable pub main : Outcome → Exec ℤ
main o = do
  (s, ret) ← start o new_service
  s' ← delete_service s
  elim ret [ negsuc n ↦ ok minus_one | pos n ↦ ok (pos 0) ]
