-- ===== src/Store/Record/Ownership.antt =====
-- The ownership guard: who may write the outcome of a run, and what a heartbeat proves.
use spoolctl.Base.{ℕ, ◌≡◌, refl, inl, inr, Option, none, arith, String, Bool-cases, Option-cases}
use spoolctl.Base.Int.{ℤ}
use spoolctl.Models.{Time, ErrorText, FailureReason}
use spoolctl.Sql.Keys.{one_if, some_if}
use spoolctl.Store.Db.{Db, get_job}
use spoolctl.Store.Record.{FailureKind, record_success, commit_failure, update_heartbeat}
use spoolctl.Store.Invariant.{Inv}
use spoolctl.Store.Invariant.Recorded.{owns, count-owned, first-owned}

module _ (k attempt_id : ℕ) (w : String) (pid : ℕ) (now : Time) (db : Db) (v : Inv db) where
  -- In a well-formed database, a worker that does not own the row cannot write an outcome: neither a success nor a failure of
  -- whatever kind changes the database, and both report that the result is discarded.
  pub record-not_owned :
      (kind : FailureKind) (code : Option ℤ) (error : ErrorText) (reason : FailureReason)
      → some_if (owns w pid) (get_job k db) ≡ none
      → (record_success k attempt_id w pid now db ≡ (db, none))
        × (commit_failure k attempt_id w pid kind code error now reason db ≡ (db, none))
  unfolding record_success commit_failure
  record-not_owned kind code error reason e = (
    rw (count-owned k w pid db v) (elim (Option-cases (get_job k db)) [
      | inl n ↦ rw n refl
      | inr (row, n) ↦ elim (Bool-cases (owns w pid row)) [
        | inl t ↦ absurd (ground (arith, n, t, e))
        | inr t ↦ rw (n, t) refl
      ]
    ]),
    rw (first-owned k w pid db v, e, commit_failure) refl,
  )

  -- In a well-formed database, a heartbeat matches one row if the worker owns the job's row, and none otherwise: zero rows
  -- prove that the ownership is lost.
  pub update_heartbeat-count :
      (update_heartbeat k w pid now db).1 ≡ one_if (owns w pid) (get_job k db)
  unfolding update_heartbeat
  update_heartbeat-count = count-owned k w pid db v
