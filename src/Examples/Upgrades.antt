-- ===== src/Examples/Upgrades.antt =====
-- The theorem on the schema, at a database of version 4 with one job that lost a worker.
use spoolctl.Base.{ℕ, [], ◌∷◌, some}
use spoolctl.Base.Int.{pos}
use spoolctl.Store.Schema.{number, content, Table, OldDb, ensure_schema}
use spoolctl.Store.Schema.Upgrade.{EnsureMeans, ensure_schema-EnsureMeans}

abbrev old_jobs : Table
old_jobs = record {
  rows = record { id = 3; cells = ("state", content "queued") ∷ [] } ∷ [];
  mark = some 7;
}

abbrev old_attempts : Table
old_attempts = record {
  rows =
      record {
        id = 5;
        cells =
            ("job_id", number (pos 3))
            ∷ ("state", content "abandoned")
            ∷ ("error", content "worker died")
            ∷ [];
      }
      ∷ [];
  mark = some 5;
}

abbrev old_queue : OldDb
old_queue = record { version = 1; jobs = old_jobs; attempts = old_attempts }

-- No row is listed.
abbrev all_kept : OldDb → ℕ
all_kept db = 0

ensure_schema-EnsureMeans_example :
    EnsureMeans all_kept old_queue (ensure_schema all_kept (some old_queue))
ensure_schema-EnsureMeans_example = ensure_schema-EnsureMeans all_kept old_queue
