-- ===== src/Store/Prune.antt =====
-- store.prune_matches and store.prune_delete: removal of old terminal jobs.
pub mod Exact
pub mod Matched
use spoolctl.Base.{
  ℕ, ◌+◌, Bool, false, ◌&&◌, List, [], ◌∷◌, none, some, ltb, any, map, length, sql_eq,
  if◌then◌else◌,
}
use spoolctl.Models.{Time, Job, JobState, FilePath, job_state_eq}
use spoolctl.Sql.{select, delete, count}
use spoolctl.Store.Db.{Db, has_id, of_job, event_of_job, get_job, get_attempts}

-- state IN (...) AND finished_at IS NOT NULL AND finished_at < cutoff
abbrev pub is_prunable : List JobState → Time → Job → Bool
is_prunable states cutoff j = any (job_state_eq j.state) states && sql_eq ltb j.finished_at cutoff

pub record PruneMatch : Type 0 where
  pub job_id : ℕ
  pub n_attempts : ℕ
  pub n_events : ℕ
  pub paths : List (FilePath × FilePath)

unfoldable pub prune_match : Db → Job → PruneMatch
unfolding get_attempts
prune_match db j =
    let attempts = get_attempts j.id db in
    record {
      job_id = j.id;
      n_attempts = length attempts;
      n_events = count (event_of_job j.id) db.events;
      paths = map (λ a. (a.stdout_path, a.stderr_path)) attempts;
    }

-- ORDER BY id is the order of the table.
unfoldable pub prune_matches : List JobState → Time → Db → List PruneMatch
unfolding prune_match
prune_matches states cutoff db = map (prune_match db) (select (is_prunable states cutoff) db.jobs)

pub record Deleted : Type 0 where
  pub jobs : ℕ
  pub attempts : ℕ
  pub events : ℕ

-- The deletions for one job: its attempts, its events, then its row.
unfoldable pub delete_job : ℕ → Db → Db
delete_job k db = record db {
  jobs = delete (has_id k) db.jobs;
  attempts = delete (of_job k) db.attempts;
  events = delete (event_of_job k) db.events;
}

unfoldable pub count_deleted : ℕ → Db → Deleted → Deleted
count_deleted k db d = record {
  jobs = d.jobs + count (has_id k) db.jobs;
  attempts = d.attempts + count (of_job k) db.attempts;
  events = d.events + count (event_of_job k) db.events;
}

-- The check again, inside the transaction.
unfoldable pub still_prunable : List JobState → Time → ℕ → Db → Bool
unfolding get_job
still_prunable states cutoff k db = elim (get_job k db) [
  | none ↦ false
  | some j ↦ is_prunable states cutoff j
]

module _ (states : List JobState) (cutoff : Time) where
  -- One round of the loop.
  unfoldable pub prune_one : ℕ → Db × Deleted → Db × Deleted
  unfolding still_prunable delete_job count_deleted
  prune_one k (db, d) =
      if still_prunable states cutoff k db then (delete_job k db, count_deleted k db d) else (db, d)

  unfoldable pub prune_loop : List ℕ → Db × Deleted → Db × Deleted
  unfolding prune_one
  prune_loop [] s = s
  prune_loop (k ∷ ks) s = prune_loop ks (prune_one k s)

  unfoldable pub prune_delete : List ℕ → Db → Db × Deleted
  unfolding prune_loop
  prune_delete job_ids db = prune_loop job_ids (db, record { jobs = 0; attempts = 0; events = 0 })
