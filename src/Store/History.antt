-- ===== src/Store/History.antt =====
-- The queue's history as a step relation: one step is one transaction of spoolctl/store.py, by any
-- worker, reaper or operator, at any time and in any order (BEGIN IMMEDIATE serialises them). The
-- one thing asked of a worker is that it records an attempt that it holds.
use spoolctl.Base.{ℕ, String, Bool, List, Option, ◌≡◌, some, refl}
use spoolctl.Base.Int.{ℤ}
use spoolctl.Models.{Time, JobState, ErrorText, FailureReason}
use spoolctl.Sql.{count, first}
use spoolctl.Store.Db.{Db, empty, get_job}
use spoolctl.Store.Submit.{Execution, Metadata, add_job_checked}
use spoolctl.Store.Claim.{claim_next}
use spoolctl.Store.Record.{FailureKind, record_success, record_failure, update_heartbeat}
use spoolctl.Store.Reap.{reap}
use spoolctl.Store.Manual.{retry_job, cancel_job}
use spoolctl.Store.Prune.{prune_delete}
use spoolctl.Store.Invariant.{Inv}
use spoolctl.Store.Invariant.Recorded.{
  Holds, record_success-Inv, record_failure-Inv, update_heartbeat-Inv,
}
use spoolctl.Store.Invariant.Recovered.{reap-Inv}
use spoolctl.Store.Invariant.Requested.{retry_job-Inv, cancel_job-Inv}
use spoolctl.Store.Invariant.Grown.{claim_next-Inv, add_job_checked-Inv}
use spoolctl.Store.Invariant.Pruned.{prune_delete-Inv}

pub data Step (db : Db) : Db → Type 0 where
  submits :
      (x : Execution) (now : Time) (key : Option String) (m : Metadata)
      → Step db (add_job_checked x now key m db).0
  claims :
      (w : String) (pid : ℕ) (now : Time) (out_root lane : String) (slots : Option ℕ)
      → Step db (claim_next w pid now out_root lane slots db).0
  succeeds :
      (k attempt_id : ℕ) (w : String) (pid : ℕ) (now : Time)
      → Holds db k attempt_id w pid
      → Step db (record_success k attempt_id w pid now db).0
  fails :
      (k attempt_id : ℕ) (w : String) (pid : ℕ) (kind : FailureKind) (code : Option ℤ)
      (error : ErrorText) (now : Time) (reason : Option FailureReason) (db' : Db)
      (state : Option JobState)
      → Holds db k attempt_id w pid
      → record_failure k attempt_id w pid kind code error now reason db ≡ some (db', state)
      → Step db db'
  beats : (k : ℕ) (w : String) (pid : ℕ) (now : Time) → Step db (update_heartbeat k w pid now db).0
  reaps :
      (k pid : ℕ) (cutoff now : Time) (reaper : String)
      → Step db (reap k pid cutoff now reaper db).0
  retries : (k : ℕ) (force : Bool) (now : Time) → Step db (retry_job k force now db).0
  cancels : (k : ℕ) (now : Time) (allow : Bool) → Step db (cancel_job k now allow db).0
  prunes :
      (states : List JobState) (cutoff : Time) (ks : List ℕ)
      → Step db (prune_delete states cutoff ks db).0

pub data Reach (start : Db) : Db → Type 0 where
  here : Reach start start
  next : {db db' : Db} → Reach start db → Step db db' → Reach start db'

pub Step-Inv : {db db' : Db} → Step db db' → Inv db → Inv db'
Step-Inv {db} (submits x now key m) v = add_job_checked-Inv x now key m db v
Step-Inv {db} (claims w pid now out_root lane slots) v =
    claim_next-Inv w pid now out_root db v lane slots
Step-Inv {db} (succeeds k a w pid now holds) v = record_success-Inv k a w pid db v holds now
Step-Inv {db} (fails k a w pid kind code error now reason db' state holds e) v =
    record_failure-Inv k a w pid db v holds kind code error now reason db' state e
Step-Inv {db} (beats k w pid now) v = update_heartbeat-Inv k w pid now db v
Step-Inv {db} (reaps k pid cutoff now reaper) v = reap-Inv k pid cutoff now reaper db v
Step-Inv {db} (retries k force now) v = retry_job-Inv k now db v force
Step-Inv {db} (cancels k now allow) v = cancel_job-Inv k now db v allow
Step-Inv {db} (prunes states cutoff ks) v = prune_delete-Inv states cutoff ks db v

pub Reach-Inv : {start db : Db} → Inv start → Reach start db → Inv db
Reach-Inv v here = v
Reach-Inv v (next r s) = Step-Inv s (Reach-Inv v r)

empty-Inv : Inv empty
unfolding get_job count first
empty-Inv = record {
  jobs_ok = tt;
  job_ids = tt;
  jobs_below = tt;
  attempts_ok = tt;
  attempt_ids = tt;
  attempts_below = tt;
  rising = tt;
  event_ids = tt;
  events_below = tt;
  one_open = λ k. refl;
  attempt_refs = λ k e. refl;
  event_refs = λ k e. refl;
}

-- Whatever the workers (each recording only an attempt that it holds), reapers and operators do, in
-- whatever order, to a queue that starts empty, the database is well formed: every job that may still
-- run is within its two budgets, the lock columns are set exactly while a job runs, a running job has
-- exactly one running attempt and any other job none, attempt numbers of a job never repeat, and no
-- attempt or event outlives its job.
pub Reach-empty-Inv : {db : Db} → Reach empty db → Inv db
Reach-empty-Inv r = Reach-Inv empty-Inv r
