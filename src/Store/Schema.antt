-- ===== src/Store/Schema.antt =====
-- store._ensure_schema and the migrations of older databases. A row is its id and its other columns
-- by name; indexes, which hold no data, are left out, and so are the CHECK constraints.
pub mod Kept
pub mod Upgrade
use spoolctl.Base.{
  ℕ, zero, suc, Bool, true, false, ◌&&◌, List, [], ◌∷◌, ◌++◌, map, Option, none, some, String,
  str_eq, leb, ltb, max, ◌==◌, if◌then◌else◌,
}
use spoolctl.Base.Int.{ℤ, pos}
use spoolctl.Sql.{count}

pub data Cell : Type 0 where
  null : Cell
  number : ℤ → Cell
  content : String → Cell

pub record Row : Type 0 where
  pub id : ℕ
  pub cells : List (String × Cell)

-- `mark` is the table's row of sqlite_sequence.
pub record Table : Type 0 where
  pub rows : List Row
  pub mark : Option ℕ

pub record OldDb : Type 0 where
  pub version : ℕ
  pub jobs : Table
  pub attempts : Table

unfoldable pub cell_in : String → List (String × Cell) → Cell
cell_in c [] = null
cell_in c ((k, v) ∷ cells) = let rest = cell_in c cells in if str_eq k c then v else rest

abbrev pub cell : String → Row → Cell
cell c row = cell_in c row.cells

unfoldable pub put_cell : String → Cell → List (String × Cell) → List (String × Cell)
put_cell c v [] = (c, v) ∷ []
put_cell c v ((k, u) ∷ cells) =
    let rest = put_cell c v cells in if str_eq k c then (k, v) ∷ cells else (k, u) ∷ rest

abbrev pub with_cell : String → (Row → Cell) → Row → Row
with_cell c f r = record r { cells = put_cell c (f r) r.cells }

abbrev pub append_cell : String → Cell → Row → Row
append_cell c v r = record r { cells = r.cells ++ (c, v) ∷ [] }

-- UPDATE ... SET c = f(row), on every row.
unfoldable pub set_column : String → (Row → Cell) → Table → Table
unfolding put_cell
set_column c f t = record t { rows = map (with_cell c f) t.rows }

-- ALTER TABLE ... ADD COLUMN c ... DEFAULT v
unfoldable pub add_column : String → Cell → Table → Table
add_column c v t = record t { rows = map (append_cell c v) t.rows }

abbrev pub higher : ℕ → Option ℕ → Option ℕ
higher id none = some id
higher id (some m) = some (max m id)

unfoldable pub highest_id : List Row → Option ℕ
highest_id [] = none
highest_id (r ∷ rows) = higher r.id (highest_id rows)

-- The copied rows set the mark of the new table, and the old mark is restored over it.
unfoldable pub restored_mark : Option ℕ → Option ℕ → Option ℕ
restored_mark none copied = copied
restored_mark (some seq) none = some seq
restored_mark (some seq) (some m) = some (max m seq)

-- _rebuild_table
unfoldable pub rebuild_table : Table → Table
unfolding highest_id restored_mark
rebuild_table t = record t { mark = restored_mark t.mark (highest_id t.rows) }

-- Each migration reads the version again inside its transaction, and does nothing where it is reached.
unfoldable pub migrate_v1_to_v2 : OldDb → OldDb
unfolding rebuild_table
migrate_v1_to_v2 db = if leb 2 db.version then db else record db {
  jobs = rebuild_table db.jobs;
  attempts = rebuild_table db.attempts;
  version = 2;
}

unfoldable pub migrate_v2_to_v3 : OldDb → OldDb
unfolding add_column
migrate_v2_to_v3 db = if leb 3 db.version then db else record db {
  jobs =
      add_column "note" null
        (add_column "tags_json" (content "{}") (add_column "idempotency_key" null db.jobs));
  version = 3;
}

unfoldable pub migrate_v3_to_v4 : OldDb → OldDb
unfolding add_column
migrate_v3_to_v4 db = if leb 4 db.version then db else record db {
  jobs = add_column "queue" (content "default") (add_column "priority" (number (pos 0)) db.jobs);
  version = 4;
}

abbrev pub says : String → Cell → Bool
says s (content t) = str_eq t s
says s _ = false

abbrev pub is_number : ℕ → Cell → Bool
is_number n (number (pos m)) = m == n
is_number n _ = false

-- SELECT COUNT(*) FROM attempts a WHERE a.job_id = jobs.id AND ...
unfoldable pub crashes_of : Table → Row → Cell
unfolding cell_in
crashes_of attempts job = number (
    pos (
      count
        (λ a.
          is_number job.id (cell "job_id" a)
          && (says "abandoned" (cell "state" a) && says "worker died" (cell "error" a)))
        attempts.rows))

unfoldable pub migrate_v4_to_v5 : OldDb → OldDb
unfolding add_column set_column crashes_of
migrate_v4_to_v5 db = if leb 5 db.version then db else record db {
  jobs = set_column "crashes" (crashes_of db.attempts) (
      add_column "max_crashes" null (
        add_column "crashes" (number (pos 0))
          (add_column "env_json" (content "{}") (add_column "cwd" null db.jobs))));
  version = 5;
}

-- The CASE expression of the backfill.
unfoldable pub reason_of : Row → Cell
unfolding cell_in
reason_of a =
    let state = cell "state" a in
    let error = cell "error" a in
    if says "timed_out" state
    then content "timeout"
    else if says "abandoned" state && says "worker died" error
    then content "worker_crash"
    else if says "abandoned" state && says "force-retried" error
    then content "canceled"
    else if says "canceled" state
    then content "canceled"
    else if says "failed" state
    then content "unknown"
    else null

unfoldable pub migrate_v5_to_v6 : OldDb → OldDb
unfolding add_column set_column reason_of
migrate_v5_to_v6 db = if leb 6 db.version then db else record db {
  attempts = set_column "failure_reason" reason_of (add_column "failure_reason" null db.attempts);
  version = 6;
}

-- What is done next about the version found.
pub data Found : Type 0 where
  newer current v1 v2 v3 v4 v5 strange : Found

unfoldable pub found_of : ℕ → Found
found_of v =
    if ltb 6 v
    then newer
    else if v == 6
    then current
    else if v == 1
    then v1
    else if v == 2
    then v2
    else if v == 3
    then v3
    else if v == 4
    then v4
    else if v == 5
    then v5
    else strange

-- SchemaTooNewError, sqlite3.DatabaseError, sqlite3.IntegrityError with the database that is left, or
-- `unfinished` where the fuel runs out.
pub data Outcome : Type 0 where
  ready : OldDb → Outcome
  too_new unsupported : ℕ → Outcome
  broken : OldDb → Outcome
  unfinished : Outcome

-- The end of _migrate_v1_to_v2, with the number of rows that PRAGMA foreign_key_check lists: the
-- transaction is committed before it.
abbrev pub checked : ℕ → OldDb → Outcome → Outcome
checked zero db rest = rest
checked (suc n) db rest = broken db

abbrev no_table : Table
no_table = record { rows = []; mark = none }

-- How many rows PRAGMA foreign_key_check lists is SQLite's answer.
module _ (violations : OldDb → ℕ) where
  -- The loop of _ensure_schema.
  unfoldable pub ensure_loop : ℕ → OldDb → Outcome
  unfolding found_of migrate_v1_to_v2 migrate_v2_to_v3 migrate_v3_to_v4 migrate_v4_to_v5
      migrate_v5_to_v6
  ensure_loop zero db = unfinished
  ensure_loop (suc fuel) db = elim (found_of db.version) [
    | newer ↦ too_new db.version
    | current ↦ ready db
    | v1 ↦ let db' = migrate_v1_to_v2 db in checked (violations db') db' (ensure_loop fuel db')
    | v2 ↦ ensure_loop fuel (migrate_v2_to_v3 db)
    | v3 ↦ ensure_loop fuel (migrate_v3_to_v4 db)
    | v4 ↦ ensure_loop fuel (migrate_v4_to_v5 db)
    | v5 ↦ ensure_loop fuel (migrate_v5_to_v6 db)
    | strange ↦ unsupported db.version
  ]

  -- `none` is a database without the version's row: its tables are created.
  unfoldable pub ensure_schema : Option OldDb → Outcome
  unfolding ensure_loop
  ensure_schema none = ready (record { version = 6; jobs = no_table; attempts = no_table })
  ensure_schema (some db) = ensure_loop 6 db
