-- ===== src/Operations/Pruning/Spared.antt =====
-- The output files that operations.prune_operation leaves alone.
use spoolctl.Base.{
  ℕ, ◌≡◌, ◌≢◌, ◌⊎◌, refl, sym, ◌∙◌, inl, inr, Bool, true, false, List, [], ◌∷◌, some, All, map,
  ◌==◌, ==_iff, arith, Bool-cases, Option-cases,
}
use spoolctl.Models.{Time, JobState, Job, Attempt, FilePath, PathPart, number}
use spoolctl.Sql.{select, first}
use spoolctl.Sql.Laws.{All-imp}
use spoolctl.Sql.Keys.{All-found}
use spoolctl.Sql.Order.{All-select, All-order_by}
use spoolctl.Store.Db.{Db, of_job, get_job, get_attempts}
use spoolctl.Store.Prune.{PruneMatch, is_prunable, prune_match, prune_matches, still_prunable}
use spoolctl.Store.Invariant.{Inv, AttemptOk}
use spoolctl.Operations.Pruning.{
  FileCalls, remove_file, remove_dir, remove_attempt, remove_attempts, remove_job_dir, remove_files,
  prune_operation,
}

-- The path lies in the directory of job `k`.
abbrev IsOutputOf : ℕ → FilePath → Type 0
IsOutputOf k p = (rest : List PathPart) × (p.parts ≡ number k ∷ rest)

IsOutputOf-ne :
    (k i : ℕ) (p q : FilePath)
    → (k == i) ≡ false
    → IsOutputOf k p
    → IsOutputOf i q
    → p.parts ≢ q.parts
IsOutputOf-ne k i p q ne (r, e) (s, d) same =
    let parts : number k ∷ r ≡ number i ∷ s = sym e ∙ same ∙ d in
    let ids : k ≡ i = cc in absurd (ground (arith, ids, ne))

-- Neither of the two paths ends as `q` does behind the output root.
abbrev Apart : FilePath → FilePath × FilePath → Type 0
Apart q p = (p.0.parts ≢ q.parts) × (p.1.parts ≢ q.parts)

All-mapped :
    {A B : Type 0} (P : B → Type 0) (f : A → B) (xs : List A)
    → All (λ x. P (f x)) xs
    → All P (map f xs)
All-mapped P f [] h = tt
All-mapped P f (x ∷ xs) h = (h.0, All-mapped P f xs h.1)

module _ (db : Db) (v : Inv db) where
  -- The paths of a match lie in the directory of its job.
  paths-Apart :
      (k i : ℕ) (q : FilePath)
      → (k == i) ≡ false
      → IsOutputOf i q
      → All (Apart q) (map (λ b. (b.stdout_path, b.stderr_path)) (get_attempts k db))
  unfolding get_attempts
  paths-Apart k i q ne own =
      All-mapped (Apart q) (λ (b : Attempt). (b.stdout_path, b.stderr_path)) (get_attempts k db)
        (All-order_by _ _ (select (of_job k) db.attempts) (
          All-imp (λ b. (of_job k b ≡ true) × AttemptOk b) _
            (λ b h.
              let own_id : (b.job_id == i) ≡ false = ground (arith, h.0, ne) in
              (
                IsOutputOf-ne b.job_id i b.stdout_path q own_id (_, h.1.stdout_at) own,
                IsOutputOf-ne b.job_id i b.stderr_path q own_id (_, h.1.stderr_at) own,
              ))
            (select (of_job k) db.attempts)
            (All-select AttemptOk (of_job k) db.attempts v.attempts_ok)))

  module _ (states : List JobState) (cutoff : Time) where
    matched-Apart :
        (i : ℕ) (q : FilePath) (j : Job)
        → still_prunable states cutoff i db ≡ false
        → IsOutputOf i q
        → (is_prunable states cutoff j ≡ true) × (first (λ z. z.id == j.id) db.jobs ≡ some j)
        → All (Apart q) (prune_match db j).paths
    unfolding prune_match still_prunable get_job
    matched-Apart i q j kept own (t, e) = paths-Apart j.id i q (other (Bool-cases (j.id == i))) own
      where
        other : ((j.id == i) ≡ true) ⊎ ((j.id == i) ≡ false) → (j.id == i) ≡ false
        other (inr ne) = ne
        other (inl same) =
            let here : still_prunable states cutoff j.id db ≡ true = rw (e, still_prunable) t in
            absurd (cc (kept, here, (==_iff j.id i).0 same))

    matches-Apart :
        (i : ℕ) (q : FilePath)
        → still_prunable states cutoff i db ≡ false
        → IsOutputOf i q
        → All (λ m. All (Apart q) m.paths) (prune_matches states cutoff db)
    unfolding prune_matches
    matches-Apart i q kept own =
        All-mapped (λ m. All (Apart q) m.paths) (prune_match db)
          (select (is_prunable states cutoff) db.jobs)
          (All-imp _ _ (λ j h. matched-Apart i q j kept own h)
            (select (is_prunable states cutoff) db.jobs)
            (All-select (λ (j : Job). first (λ (z : Job). z.id == j.id) db.jobs ≡ some j)
              (is_prunable states cutoff) db.jobs (All-found (λ j. j.id) 0 db.jobs v.job_ids)))

module _ {Files Content : Type 0} (os : FileCalls Files) (content : FilePath → Files → Content)
    (unlink_spares : (p q : FilePath) (files files' : Files)
      → os.unlink p files ≡ some files'
      → p.parts ≢ q.parts
      → content q files' ≡ content q files)
    (rmdir_spares : (d q : FilePath) (files files' : Files)
      → os.rmdir d files ≡ some files'
      → content q files' ≡ content q files) where
  abbrev SameFile : FilePath → Files × ℕ → Files × ℕ → Type 0
  SameFile q s s' = content q s'.0 ≡ content q s.0

  remove_file-spares :
      (q p : FilePath) (s : Files × ℕ) → p.parts ≢ q.parts → SameFile q s (remove_file os p s)
  unfolding remove_file
  remove_file-spares q p (files, freed) ne = elim (Option-cases (os.stat_size p files)) [
    | inl e ↦ rw (e, remove_file) refl
    | inr (n, e) ↦ elim (Option-cases (os.unlink p files)) [
      | inl u ↦ rw (e, u, remove_file) refl
      | inr (files', u) ↦ rw (e, u, remove_file) (unlink_spares p q files files' u ne)
    ]
  ]

  remove_dir-spares : (q d : FilePath) (s : Files × ℕ) → SameFile q s (remove_dir os d s)
  unfolding remove_dir
  remove_dir-spares q d (files, freed) = elim (Option-cases (os.rmdir d files)) [
    | inl e ↦ rw (e, remove_dir) refl
    | inr (files', e) ↦ rw (e, remove_dir) (rmdir_spares d q files files' e)
  ]

  remove_attempts-spares :
      (q : FilePath) (ps : List (FilePath × FilePath)) (s : Files × ℕ)
      → All (Apart q) ps
      → SameFile q s (remove_attempts os ps s)
  unfolding remove_attempts remove_attempt
  remove_attempts-spares q [] s h = refl
  remove_attempts-spares q ((o, e) ∷ ps) s h =
      remove_attempts-spares q ps (remove_attempt os (o, e) s) h.1
      ∙ remove_dir-spares q (os.dirname o) (remove_file os e (remove_file os o s))
      ∙ remove_file-spares q e (remove_file os o s) h.0.1
      ∙ remove_file-spares q o s h.0.0

  remove_job_dir-spares :
      (q : FilePath) (ps : List (FilePath × FilePath)) (s : Files × ℕ)
      → SameFile q s (remove_job_dir os ps s)
  unfolding remove_job_dir
  remove_job_dir-spares q [] s = refl
  remove_job_dir-spares q ((o, e) ∷ ps) s = remove_dir-spares q (os.dirname (os.dirname o)) s

  remove_files-spares :
      (q : FilePath) (ms : List PruneMatch) (s : Files × ℕ)
      → All (λ m. All (Apart q) m.paths) ms
      → SameFile q s (remove_files os ms s)
  unfolding remove_files
  remove_files-spares q [] s h = refl
  remove_files-spares q (m ∷ ms) s h =
      remove_files-spares q ms (remove_job_dir os m.paths (remove_attempts os m.paths s)) h.1
      ∙ remove_job_dir-spares q m.paths (remove_attempts os m.paths s)
      ∙ remove_attempts-spares q m.paths s h.0

  module _ (states : List JobState) (cutoff : Time) (dry_run : Bool) (meanwhile : Db → Db) (db : Db)
      (files : Files) where
    abbrev files_after : Files
    files_after = (prune_operation os states cutoff dry_run meanwhile db files).0.1

    operation-spares :
        (q : FilePath)
        → All (λ m. All (Apart q) m.paths) (prune_matches states cutoff db)
        → content q files_after ≡ content q files
    unfolding prune_operation
    operation-spares q apart = by_mode dry_run
      where
        by_mode :
            (dry : Bool)
            → content q (prune_operation os states cutoff dry meanwhile db files).0.1
              ≡ content q files
        by_mode true = refl
        by_mode false = remove_files-spares q (prune_matches states cutoff db) (files, 0) apart

    -- In a well-formed database, whatever other processes do to it meanwhile, a prune leaves the
    -- output files of each attempt alone whose job was not to be pruned when the matches were read.
    -- This asks of os.unlink that it changes no file whose last three names are others,
    -- and of os.rmdir that it changes no file.
    pub prune_operation-spares :
        Inv db
        → All
            (λ a.
              still_prunable states cutoff a.job_id db ≡ false
              → (content a.stdout_path files_after ≡ content a.stdout_path files)
                × (content a.stderr_path files_after ≡ content a.stderr_path files))
            db.attempts
    prune_operation-spares v =
        All-imp AttemptOk _
          (λ a ok kept. (
            operation-spares a.stdout_path
                (matches-Apart db v states cutoff a.job_id a.stdout_path kept (_, ok.stdout_at)),
            operation-spares a.stderr_path
                (matches-Apart db v states cutoff a.job_id a.stderr_path kept (_, ok.stderr_at)),
          ))
          db.attempts v.attempts_ok
