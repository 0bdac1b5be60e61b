-- ===== src/Storage/Table.antt =====
-- A table of the database schema as the list of its rows, with a primary key, and the statement
-- `INSERT … ON CONFLICT(key) DO UPDATE SET …` that the repositories use. `merge old new` is the
-- row that the update leaves, with `new` the row called `excluded` in the statement.
pub mod Laws
pub mod Replay
pub mod Reading
use cn_property_agent.Prelude.{
  Bool, Option, none, some, List, [], ◌∷◌, map, Eq, ◌==◌, if◌then◌else◌,
}

module _ {K R : Type 0} ⦃e : Eq K⦄ (key : R → K) where
  -- `SELECT … WHERE key = ?`
  unfoldable pub find : K → List R → Option R
  find k [] = none
  find k (x ∷ t) = if key x == k then some x else find k t

  abbrev pub keys : List R → List K
  keys = map key

module _ {K R : Type 0} ⦃e : Eq K⦄ (key : R → K) (merge : R → R → R) where
  unfoldable pub upsert : R → List R → List R
  upsert r [] = r ∷ []
  upsert r (x ∷ t) = if key x == key r then merge x r ∷ t else x ∷ upsert r t

  -- One statement for each row, in order.
  unfoldable pub upsert_all : List R → List R → List R
  upsert_all [] t = t
  upsert_all (r ∷ rs) t = upsert_all rs (upsert r t)

-- `SET column = excluded.column` for every column
abbrev pub overwrite : {R : Type 0} → R → R → R
overwrite old new = new
