-- ===== src/Store/Ledger.antt =====
-- The event ledger through the queue's history: rows are only appended, under ids above every id that
-- was issued before, or deleted with their job.
use spoolctl.Base.{
  ℕ, ◌≤◌, ◌<◌, ◌≡◌, refl, sym, inl, inr, Bool, true, false, List, [], ◌∷◌, Option, some, arith, All,
  String, ◌==◌, subst, Option-cases, Bool-cases,
}
use spoolctl.Base.Int.{ℤ}
use spoolctl.Models.{Time, Event, EventType, Detail, JobState, Job, ErrorText, FailureReason}
use spoolctl.Sql.{count, first}
use spoolctl.Sql.Laws.{All-append, All-delete}
use spoolctl.Store.Db.{Db, add_event, get_job, owned_by, event_of_job}
use spoolctl.Store.Submit.{Execution, Metadata, add_job_checked, active_job, insert_job}
use spoolctl.Store.Claim.{claim_next, slots_full, next_eligible, take_job}
use spoolctl.Store.Record.{
  FailureKind, add_dead_event, record_success, write_success, record_failure, commit_failure,
  write_failure, update_heartbeat, reason_or_default, reason_fits,
}
use spoolctl.Store.Reap.{reap, is_reapable, write_reap}
use spoolctl.Store.Manual.{
  retry_job, retry_refusal, write_retry, cancel_job, cancel_found, cancel_running,
  write_cancel_queued, write_cancel_running, is_running_job,
}
use spoolctl.Store.Prune.{Deleted, delete_job, still_prunable, prune_one, prune_loop, prune_delete}
use spoolctl.Store.History.{
  Step, Reach, submits, claims, succeeds, fails, beats, reaps, retries, cancels, prunes, here, next,
}

-- What is true of each event of `db`, and of each that gets an id issued later, is true of each event
-- of `db'`.
pub record Extends (db db' : Db) : Type 1 where
  pub mark : db.last_event ≤ db'.last_event
  pub rows :
      (P : Event → Type 0)
      → All P db.events
      → ((e : Event) → db.last_event < e.id → P e)
      → All P db'.events

pub Extends-refl : (db : Db) → Extends db db
Extends-refl db = record { mark = omega arith; rows = λ P h n. h }

pub Extends-trans : {a b c : Db} → Extends a b → Extends b c → Extends a c
Extends-trans {a} {b} {c} p q = record {
  mark = omega (arith, p.mark, q.mark);
  rows = λ P h n. q.rows P (p.rows P h n) (λ e l. n e (omega (arith, p.mark, l)));
}

-- A change of jobs and attempts alone.
same_ledger :
    (db db' : Db) → db'.events ≡ db.events → db'.last_event ≡ db.last_event → Extends db db'
same_ledger db db' e m = record { mark = omega (arith, m); rows = λ P h n. subst (All P) (sym e) h }

noted :
    (k : ℕ) (at : Time) (event : EventType) (worker : Option String) (detail : Option Detail)
    (db db' : Db)
    → Extends db db'
    → Extends db (add_event k at event worker detail db')
unfolding add_event
noted k at event worker detail db db' x = record {
  mark = omega (arith, x.mark);
  rows = λ P h n. All-append P db'.events _ (x.rows P h n) (n _ (omega (arith, x.mark)), tt);
}

noted_dead :
    (retry : Bool) (k : ℕ) (now : Time) (worker : String) (db db' : Db)
    → Extends db db'
    → Extends db (add_dead_event retry k now worker db')
unfolding add_dead_event
noted_dead true k now worker db db' x = x
noted_dead false k now worker db db' x = noted k now _ _ _ db db' x

module _ (db : Db) where
  added :
      (x : Execution) (now : Time) (key : Option String) (m : Metadata)
      → Extends db (add_job_checked x now key m db).0
  unfolding add_job_checked insert_job
  added x now key m = elim (Option-cases (active_job key db)) [
    | inl e ↦ rw (e, add_job_checked) (noted _ _ _ _ _ db _ (same_ledger db _ refl refl))
    | inr (row, e) ↦ rw (e, add_job_checked) (Extends-refl db)
  ]

  claimed :
      (w : String) (pid : ℕ) (now : Time) (out_root lane : String) (slots : Option ℕ)
      → Extends db (claim_next w pid now out_root lane slots db).0
  unfolding claim_next take_job
  claimed w pid now out_root lane slots = elim (Bool-cases (slots_full lane slots db)) [
    | inl full ↦ rw full (Extends-refl db)
    | inr free ↦ elim (Option-cases (next_eligible now lane db)) [
      | inl e ↦ rw (free, e, claim_next) (Extends-refl db)
      | inr (row, e) ↦ rw (free, e, claim_next) (noted _ _ _ _ _ db _ (same_ledger db _ refl refl))
    ]
  ]

  succeeded :
      (k attempt_id : ℕ) (w : String) (pid : ℕ) (now : Time)
      → Extends db (record_success k attempt_id w pid now db).0
  unfolding record_success write_success
  succeeded k attempt_id w pid now = elim (Bool-cases (count (owned_by k w pid) db.jobs == 0)) [
    | inl e ↦ rw e (Extends-refl db)
    | inr e ↦ rw e (noted _ _ _ _ _ db _ (same_ledger db _ refl refl))
  ]

  written_failure :
      (k attempt_id : ℕ) (w : String) (pid : ℕ) (kind : FailureKind) (code : Option ℤ)
      (error : ErrorText) (now : Time) (reason : FailureReason) (retry : Bool)
      → Extends db (write_failure k attempt_id w pid kind code error now reason retry db)
  unfolding write_failure
  written_failure k attempt_id w pid kind code error now reason retry =
      noted_dead retry k now w db _ (noted _ _ _ _ _ db _ (same_ledger db _ refl refl))

  committed :
      (k attempt_id : ℕ) (w : String) (pid : ℕ) (kind : FailureKind) (code : Option ℤ)
      (error : ErrorText) (now : Time) (reason : FailureReason)
      → Extends db (commit_failure k attempt_id w pid kind code error now reason db).0
  unfolding commit_failure
  committed k attempt_id w pid kind code error now reason =
      elim (Option-cases (first (owned_by k w pid) db.jobs)) [
        | inl e ↦ rw (e, commit_failure) (Extends-refl db)
        | inr (row, e) ↦
            rw (e, commit_failure) (written_failure k attempt_id w pid kind code error now reason _)
      ]

  failed :
      (k attempt_id : ℕ) (w : String) (pid : ℕ) (kind : FailureKind) (code : Option ℤ)
      (error : ErrorText) (now : Time) (given : Option FailureReason) (db' : Db)
      (state : Option JobState)
      → record_failure k attempt_id w pid kind code error now given db ≡ some (db', state)
      → Extends db db'
  unfolding record_failure
  failed k attempt_id w pid kind code error now given db' state e =
      let reason = reason_or_default kind code given in
      elim (Bool-cases (reason_fits kind code reason)) [
        | inr t ↦ cc (rw t at e)
        | inl t ↦
            let same : commit_failure k attempt_id w pid kind code error now reason db
                ≡ (db', state) =
              cc (rw t at e) in
            subst (λ (r : Db × Option JobState). Extends db r.0) same
              (committed k attempt_id w pid kind code error now reason)
      ]

  written_reap :
      (k pid : ℕ) (cutoff now : Time) (reaper : String) (retry : Bool)
      → Extends db (write_reap k pid cutoff now reaper retry db)
  unfolding write_reap
  written_reap k pid cutoff now reaper retry =
      noted_dead retry k now reaper db _ (noted _ _ _ _ _ db _ (same_ledger db _ refl refl))

  reaped :
      (k pid : ℕ) (cutoff now : Time) (reaper : String)
      → Extends db (reap k pid cutoff now reaper db).0
  unfolding reap
  reaped k pid cutoff now reaper = elim (Option-cases (first (is_reapable k pid cutoff) db.jobs)) [
    | inl e ↦ rw (e, reap) (Extends-refl db)
    | inr (row, e) ↦ rw (e, reap) (written_reap k pid cutoff now reaper _)
  ]

  retried : (k : ℕ) (force : Bool) (now : Time) → Extends db (retry_job k force now db).0
  unfolding retry_job write_retry
  retried k force now = elim (Option-cases (get_job k db)) [
    | inl e ↦ rw (e, retry_job) (Extends-refl db)
    | inr (row, e) ↦ elim (Option-cases (retry_refusal force row.state)) [
      | inl r ↦ rw (e, r, retry_job) (noted _ _ _ _ _ db _ (same_ledger db _ refl refl))
      | inr (o, r) ↦ rw (e, r, retry_job) (Extends-refl db)
    ]
  ]

  stopped : (k : ℕ) (now : Time) (row : Job) → Extends db (cancel_running k now row db).0
  unfolding cancel_running write_cancel_running
  stopped k now row = elim (Bool-cases (count (is_running_job k) db.jobs == 0)) [
    | inl e ↦ rw e (Extends-refl db)
    | inr e ↦ rw e (noted _ _ _ _ _ db _ (same_ledger db _ refl refl))
  ]

  canceled_as :
      (k : ℕ) (now : Time) (allow : Bool) (row : Job) (state : JobState)
      → Extends db (cancel_found k now allow row state db).0
  unfolding cancel_found write_cancel_queued
  canceled_as k now allow row JobState.queued = noted _ _ _ _ _ db _ (same_ledger db _ refl refl)
  canceled_as k now false row JobState.running = Extends-refl db
  canceled_as k now true row JobState.running = stopped k now row
  canceled_as k now allow row JobState.done = Extends-refl db
  canceled_as k now allow row JobState.failed = Extends-refl db
  canceled_as k now allow row JobState.dead = Extends-refl db
  canceled_as k now allow row JobState.canceled = Extends-refl db

  canceled : (k : ℕ) (now : Time) (allow : Bool) → Extends db (cancel_job k now allow db).0
  unfolding cancel_job
  canceled k now allow = elim (Option-cases (get_job k db)) [
    | inl e ↦ rw (e, cancel_job) (Extends-refl db)
    | inr (row, e) ↦ rw (e, cancel_job) (canceled_as k now allow row row.state)
  ]

  deleted : (k : ℕ) → Extends db (delete_job k db)
  unfolding delete_job
  deleted k = record {
    mark = omega arith;
    rows = λ P h n. All-delete P (event_of_job k) db.events h;
  }

module _ (states : List JobState) (cutoff : Time) where
  pruned_one : (k : ℕ) (s : Db × Deleted) → Extends s.0 (prune_one states cutoff k s).0
  unfolding prune_one
  pruned_one k (db, d) = elim (Bool-cases (still_prunable states cutoff k db)) [
    | inl e ↦ rw e (deleted db k)
    | inr e ↦ rw e (Extends-refl db)
  ]

  pruned_loop : (ks : List ℕ) (s : Db × Deleted) → Extends s.0 (prune_loop states cutoff ks s).0
  unfolding prune_loop
  pruned_loop [] s = Extends-refl s.0
  pruned_loop (k ∷ ks) s =
      Extends-trans (pruned_one k s) (pruned_loop ks (prune_one states cutoff k s))

pub Step-Extends : {db db' : Db} → Step db db' → Extends db db'
unfolding update_heartbeat prune_delete
Step-Extends {db} (submits x now key m) = added db x now key m
Step-Extends {db} (claims w pid now out_root lane slots) = claimed db w pid now out_root lane slots
Step-Extends {db} (succeeds k a w pid now holds) = succeeded db k a w pid now
Step-Extends {db} (fails k a w pid kind code error now reason db' state holds e) =
    failed db k a w pid kind code error now reason db' state e
Step-Extends {db} (beats k w pid now) = same_ledger db _ refl refl
Step-Extends {db} (reaps k pid cutoff now reaper) = reaped db k pid cutoff now reaper
Step-Extends {db} (retries k force now) = retried db k force now
Step-Extends {db} (cancels k now allow) = canceled db k now allow
Step-Extends {db} (prunes states cutoff ks) = pruned_loop states cutoff ks _

-- The ledger of any later database extends that of the earlier one.
pub Reach-Extends : {start db : Db} → Reach start db → Extends start db
Reach-Extends {start} here = Extends-refl start
Reach-Extends (next r s) = Extends-trans (Reach-Extends r) (Step-Extends s)
