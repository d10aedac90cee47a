-- ===== src/Cli/Verbs/Consent.antt =====
-- What cancel and prune leave alone without --yes.
use spoolctl.Base.{
  ℕ, ◌≡◌, refl, ap, ◌∙◌, inl, inr, List, Bool, true, false, some, arith, Bool-cases, Option-cases,
}
use spoolctl.Models.{Time, Job, JobState, is_running}
use spoolctl.Models.Suggest.{Word}
use spoolctl.Store.Db.{Db, has_id, get_job}
use spoolctl.Store.Manual.{cancel_job, cancel_found, cancel_queued_job, write_cancel_queued}
use spoolctl.Store.Invariant.Effects.{get_job-id}
use spoolctl.Store.Lifecycle.Writes.{Writes, updated-Writes, noted}
use spoolctl.Operations.Errors.{Result, ok}
use spoolctl.Operations.Requests.{cancel_operation}
use spoolctl.Operations.Pruning.{FileCalls, prune_operation}
use spoolctl.Validation.{Python, Parsed, value, refused, raised}
use spoolctl.Validation.Ints.{job_id_arg}
use spoolctl.Validation.States.{parse_prune_states}
use spoolctl.Validation.Floats.{Floats, parse_duration_seconds}
use spoolctl.Cli.Verbs.{cmd_cancel, cmd_prune, with_value, nat_of, prune_gate, cancel_gate}

-- A cancellation that may not end a running job leaves each running row as it is.
module _ (k : ℕ) (now : Time) (db : Db) (i : ℕ) (j : Job) (found : get_job i db ≡ some j)
    (runs : is_running j.state ≡ true) where
  other_row :
      (row : Job) → get_job k db ≡ some row → is_running row.state ≡ false → has_id k j ≡ false
  other_row row e idle = elim (Bool-cases (has_id k j)) [
    | inr f ↦ f
    | inl t ↦
        let same : i ≡ k = ground (arith, t, get_job-id i db j found) in
        cc (ap (λ n. get_job n db) same, found, e, runs, idle)
  ]

  queued-spares :
      (row : Job)
      → get_job k db ≡ some row
      → is_running row.state ≡ false
      → get_job i (write_cancel_queued k now db) ≡ some j
  unfolding write_cancel_queued
  queued-spares row e idle =
      let w : Writes (has_id k) (cancel_queued_job now) db (write_cancel_queued k now db) =
        noted _ _ _ _ _ (
          updated-Writes (has_id k) (cancel_queued_job now) db _
            (λ r. unfold cancel_queued_job in refl) refl refl) in
      w.rows i ∙ rw (found, other_row row e idle) refl

  found-spares :
      (row : Job) (state : JobState)
      → get_job k db ≡ some row
      → row.state ≡ state
      → get_job i (cancel_found k now false row state db).0 ≡ some j
  unfolding cancel_found
  found-spares row JobState.queued e s = queued-spares row e (ap is_running s)
  found-spares row JobState.running e s = found
  found-spares row JobState.done e s = found
  found-spares row JobState.failed e s = found
  found-spares row JobState.dead e s = found
  found-spares row JobState.canceled e s = found

  cancel_job-spares : get_job i (cancel_job k now false db).0 ≡ some j
  unfolding cancel_job
  cancel_job-spares = elim (Option-cases (get_job k db)) [
    | inl e ↦ rw (e, cancel_job) found
    | inr (row, e) ↦ rw (e, cancel_job) (found-spares row row.state e refl)
  ]

-- A handler that only goes on with what was parsed.
with_value-keeps :
    {A S B : Type 0} (P : S → Type 0) (s : S) (o : Parsed A) (k : A → S × Result B)
    → P s
    → ((a : A) → P (k a).0)
    → P (with_value s o k).0
with_value-keeps P s (value a) k h g = g a
with_value-keeps P s (refused hint) k h g = h
with_value-keeps P s raised k h g = h

module _ (py : Python) (now : Time) (db : Db) where
  cancel-spares :
      (k : ℕ) (running : Bool) (i : ℕ) (j : Job)
      → get_job i db ≡ some j
      → is_running j.state ≡ true
      → get_job i (cancel_gate db running false (cancel_operation k running now db)).0 ≡ some j
  unfolding cancel_operation
  cancel-spares k true i j found runs = found
  cancel-spares k false i j found runs = cancel_job-spares k now db i j found runs

  cmd_cancel-spares :
      (id : Word) (running : Bool) (i : ℕ) (j : Job)
      → get_job i db ≡ some j
      → is_running j.state ≡ true
      → get_job i (cmd_cancel py id running false now db).0 ≡ some j
  unfolding cmd_cancel
  cmd_cancel-spares id running i j found runs =
      with_value-keeps (λ d. get_job i d ≡ some j) db (job_id_arg py id) _ found
        (λ k. cancel-spares (nat_of k) running i j found runs)

module _ (py : Python) {F Files : Type 0} (fl : Floats F) (is_alpha : ℕ → Bool)
    (os : FileCalls Files) (cutoff_of : F → Time) (meanwhile : Db → Db) (db : Db)
    (files : Files) where
  prune-spares :
      (states : List JobState) (cutoff : Time) (dry_run : Bool)
      → (prune_gate
          (db, files)
          false
          dry_run
          (let (s, d) = prune_operation os states cutoff dry_run meanwhile db files in (s, ok d))).0
        ≡ (db, files)
  unfolding prune_operation
  prune-spares states cutoff true = refl
  prune-spares states cutoff false = refl

  cmd_prune-spares :
      (older_than state : Word) (dry_run : Bool)
      → (cmd_prune py fl is_alpha os cutoff_of older_than state false dry_run meanwhile db files).0
        ≡ (db, files)
  unfolding cmd_prune
  cmd_prune-spares older_than state dry_run =
      with_value-keeps (λ s. s ≡ (db, files)) (db, files)
        (parse_duration_seconds py fl is_alpha older_than) _ refl
        (λ seconds.
          with_value-keeps (λ s. s ≡ (db, files)) (db, files) (parse_prune_states py state) _ refl
            (λ states. prune-spares states (cutoff_of seconds) dry_run))

  -- Without --yes, and whatever else is given, `cancel` leaves the row of each running job as it is, and
  -- `prune` changes neither the database nor the files.
  pub unconfirmed-spares :
      (now : Time) (id older_than state : Word) (flag : Bool)
      → ((i : ℕ) (j : Job)
          → get_job i db ≡ some j
          → is_running j.state ≡ true
          → get_job i (cmd_cancel py id flag false now db).0 ≡ some j)
        × ((cmd_prune py fl is_alpha os cutoff_of older_than state false flag meanwhile db files).0
            ≡ (db, files))
  unconfirmed-spares now id older_than state flag =
      (cmd_cancel-spares py now db id flag, cmd_prune-spares older_than state flag)
