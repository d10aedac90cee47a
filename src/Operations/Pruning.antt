-- ===== src/Operations/Pruning.antt =====
-- operations.prune_operation: output files first, rows second. What os.stat, os.unlink and os.rmdir
-- do to the files, and os.path.dirname, are parameters; `none` is an OSError.
pub mod Announced
pub mod Spared
use spoolctl.Base.{
  ℕ, ◌+◌, Bool, true, false, List, [], ◌∷◌, Option, none, some, length, map, sum_of, if◌then◌else◌,
}
use spoolctl.Models.{Time, JobState, FilePath}
use spoolctl.Store.Db.{Db}
use spoolctl.Store.Prune.{PruneMatch, prune_matches, prune_delete}

pub record FileCalls (Files : Type 0) : Type 0 where
  pub stat_size : FilePath → Files → Option ℕ
  pub unlink : FilePath → Files → Option Files
  pub rmdir : FilePath → Files → Option Files
  pub dirname : FilePath → FilePath

pub record PruneData : Type 0 where
  pub deleted_attempts : ℕ
  pub deleted_events : ℕ
  pub deleted_jobs : ℕ
  pub actual : Bool
  pub freed_bytes : ℕ
  pub matched : ℕ

abbrev pub or_same {ℓ} : {A : Type ℓ} → A → Option A → A
or_same a none = a
or_same a (some b) = b

module _ {Files : Type 0} (os : FileCalls Files) where
  -- The bytes of one file in a dry run.
  unfoldable pub size_of : Files → FilePath → ℕ
  size_of files path = or_same 0 (os.stat_size path files)

  unfoldable pub announced_bytes : Files → List PruneMatch → ℕ
  unfolding size_of
  announced_bytes files matches =
      sum_of
        (λ m. sum_of (λ (p : FilePath × FilePath). size_of files p.0 + size_of files p.1) m.paths)
        matches

  -- A file that os.stat finds counts as freed, also where os.unlink then fails.
  unfoldable pub remove_file : FilePath → Files × ℕ → Files × ℕ
  remove_file path (files, freed) = elim (os.stat_size path files) [
    | none ↦ (files, freed)
    | some size ↦ (or_same files (os.unlink path files), freed + size)
  ]

  unfoldable pub remove_dir : FilePath → Files × ℕ → Files × ℕ
  remove_dir path (files, freed) = (or_same files (os.rmdir path files), freed)

  -- The two files of an attempt, and its directory.
  unfoldable pub remove_attempt : FilePath × FilePath → Files × ℕ → Files × ℕ
  unfolding remove_file remove_dir
  remove_attempt (stdout_path, stderr_path) s =
      remove_dir (os.dirname stdout_path) (remove_file stderr_path (remove_file stdout_path s))

  unfoldable pub remove_attempts : List (FilePath × FilePath) → Files × ℕ → Files × ℕ
  unfolding remove_attempt
  remove_attempts [] s = s
  remove_attempts (p ∷ ps) s = remove_attempts ps (remove_attempt p s)

  -- The directory of the job, named by its first attempt.
  unfoldable pub remove_job_dir : List (FilePath × FilePath) → Files × ℕ → Files × ℕ
  unfolding remove_dir
  remove_job_dir [] s = s
  remove_job_dir ((stdout_path, stderr_path) ∷ ps) s =
      remove_dir (os.dirname (os.dirname stdout_path)) s

  unfoldable pub remove_files : List PruneMatch → Files × ℕ → Files × ℕ
  unfolding remove_attempts remove_job_dir
  remove_files [] s = s
  remove_files (m ∷ ms) s = remove_files ms (remove_job_dir m.paths (remove_attempts m.paths s))

  -- `meanwhile` is what other processes do to the database while the files are removed.
  unfoldable pub prune_operation :
      List JobState → Time → Bool → (Db → Db) → Db → Files → (Db × Files) × PruneData
  unfolding announced_bytes remove_files
  prune_operation states cutoff dry_run meanwhile db files =
      let matches = prune_matches states cutoff db in
      if dry_run
      then (
        (db, files),
        record {
          deleted_attempts = sum_of (λ m. m.n_attempts) matches;
          deleted_events = sum_of (λ m. m.n_events) matches;
          deleted_jobs = length matches;
          actual = false;
          freed_bytes = announced_bytes files matches;
          matched = length matches;
        },
      )
      else let (files', freed) = remove_files matches (files, 0) in
        let (db', deleted) =
          prune_delete states cutoff (map (λ m. m.job_id) matches) (meanwhile db) in
        (
          (db', files'),
          record {
            deleted_attempts = deleted.attempts;
            deleted_events = deleted.events;
            deleted_jobs = deleted.jobs;
            actual = true;
            freed_bytes = freed;
            matched = length matches;
          },
        )
