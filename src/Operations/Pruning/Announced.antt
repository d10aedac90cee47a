-- ===== src/Operations/Pruning/Announced.antt =====
-- What `prune --dry-run` announces, against what the prune then does to the rows.
use spoolctl.Base.{◌≡◌, refl, true, false, List}
use spoolctl.Models.{Time, JobState}
use spoolctl.Sql.{delete}
use spoolctl.Store.Db.{Db}
use spoolctl.Store.Invariant.{Inv}
use spoolctl.Store.Prune.{is_prunable, still_prunable}
use spoolctl.Store.Prune.Matched.{prune_delete-PrunedAll}
use spoolctl.Operations.Pruning.{FileCalls, prune_operation}

module _ {Files : Type 0} (os : FileCalls Files) (states : List JobState) (cutoff : Time) where
  -- The dry run changes nothing, and announces the counts that the prune reports; the prune deletes
  -- the jobs that may be pruned, with their attempts and their events, and no other row.
  pub record AsAnnounced (db : Db) (files : Files) : Type 0 where
    pub untouched : (prune_operation os states cutoff true (λ d. d) db files).0 ≡ (db, files)
    pub same_jobs :
        (prune_operation os states cutoff false (λ d. d) db files).1.deleted_jobs
        ≡ (prune_operation os states cutoff true (λ d. d) db files).1.deleted_jobs
    pub same_attempts :
        (prune_operation os states cutoff false (λ d. d) db files).1.deleted_attempts
        ≡ (prune_operation os states cutoff true (λ d. d) db files).1.deleted_attempts
    pub same_events :
        (prune_operation os states cutoff false (λ d. d) db files).1.deleted_events
        ≡ (prune_operation os states cutoff true (λ d. d) db files).1.deleted_events
    pub jobs :
        (prune_operation os states cutoff false (λ d. d) db files).0.0.jobs
        ≡ delete (is_prunable states cutoff) db.jobs
    pub attempts :
        (prune_operation os states cutoff false (λ d. d) db files).0.0.attempts
        ≡ delete (λ a. still_prunable states cutoff a.job_id db) db.attempts
    pub events :
        (prune_operation os states cutoff false (λ d. d) db files).0.0.events
        ≡ delete (λ e. still_prunable states cutoff e.job_id db) db.events

  -- In a well-formed database that no other process changes meanwhile: a dry run changes neither the
  -- database nor the files and announces the counts of jobs, attempts and events that the prune then
  -- reports; and the prune leaves exactly the rows of the jobs that may not be pruned, and of the
  -- attempts and events those whose job may not be pruned.
  pub prune_operation-AsAnnounced : (db : Db) (files : Files) → Inv db → AsAnnounced db files
  unfolding prune_operation
  prune_operation-AsAnnounced db files v =
      let p = prune_delete-PrunedAll states cutoff db v in
      record {
        untouched = refl;
        same_jobs = p.job_count;
        same_attempts = p.attempt_count;
        same_events = p.event_count;
        jobs = p.jobs;
        attempts = p.attempts;
        events = p.events;
      }
