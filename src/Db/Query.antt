-- ===== src/Db/Query.antt =====
-- atb_adapter/db_helper.cpp: what each operation does with the pool and with an answer.
use vm.Prelude.{ℕ, Bool, Option, none, some, List, [], if◌then◌else◌, get_elem?}
use vm.Prelude.Exec.{Exec, ok, crash, ◌>>=◌}
use vm.Prelude.Int.{ℤ, pos, minus_one}
use vm.Prelude.Text.{Text}
use vm.Db.Sql.{sprintf}

-- A row of cells; `none` is NULL.
abbrev pub Row : Type 0
Row = List (Option Text)

-- What `executeSql` and the `mysql_store_result` after it give: `executeSql` fails, or there is no
-- result, or there are rows.
pub data Answer : Type 0 where
  failed : Answer
  no_result : Answer
  rows : List Row → Answer

-- The connection pool over the state of the database: `fetch` is false where it gives no connection.
pub record Mysql (W : Type 0) : Type 0 where
  pub fetch : W → W × Bool
  pub recycle : W → W
  pub query : Text → W → W × Answer

-- `init`: the pool is set once. The helper keeps `pool_`.
unfoldable pub init : {W : Type 0} → Mysql W → Option (Mysql W) → Option (Mysql W) × ℤ
init m none = (some m, pos 0)
init m (some n) = (some n, minus_one)

-- A cell of a row; a column that the row does not have is read past its end.
unfoldable pub cell : ℕ → Row → Exec (Option Text)
cell i r = elim (get_elem? r i) [ none ↦ crash | some c ↦ ok c ]

-- A cell where NULL is read as the empty text.
unfoldable pub cell_or_empty : ℕ → Row → Exec Text
unfolding cell
cell_or_empty i r = do c ← cell i r; ok (elim c [ none ↦ [] | some s ↦ s ])

module _ {W A : Type 0} where
  -- Each operation: no pool and no connection give `fallback`; the connection is given back at the
  -- end, whatever the result.
  unfoldable pub with_connection :
      Option (Mysql W) → A → (Mysql W → W → Exec (W × A)) → W → Exec (W × A)
  with_connection none fallback body w = ok (w, fallback)
  with_connection (some m) fallback body w =
      let (w', connected) = m.fetch w in
      if connected then (do (w'', r) ← body m w'; ok (m.recycle w'', r)) else ok (w', fallback)

  -- A statement that is only run: a failure ends the operation with `fail`.
  unfoldable pub execute : Mysql W → Text → A → (W → Exec (W × A)) → W → Exec (W × A)
  execute m text fail k w = do
    sql ← sprintf text
    let (w', a) = m.query sql w
    elim a [ failed ↦ ok (w', fail) | no_result ↦ k w' | rows rs ↦ k w' ]

  -- A statement whose rows are read: `fail` where it fails, `lost` where it has no result.
  unfoldable pub select : Mysql W → Text → A → A → (List Row → W → Exec (W × A)) → W → Exec (W × A)
  select m text fail lost k w = do
    sql ← sprintf text
    let (w', a) = m.query sql w
    elim a [ failed ↦ ok (w', fail) | no_result ↦ ok (w', lost) | rows rs ↦ k rs w' ]

  -- The end of an operation that looks at its answer only.
  unfoldable pub finish : Exec A → W → Exec (W × A)
  finish e w = do r ← e; ok (w, r)
