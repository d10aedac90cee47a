-- ===== src/Store/Claim.antt =====
-- store.claim_next: the choice of a job, and the rows that a claim writes.
pub mod Among
pub mod Choice
pub mod Effect
pub mod Slots
use spoolctl.Base.{
  ℕ, suc, ◌+◌, String, Bool, true, false, ◌&&◌, List, [], ◌∷◌, ◌++◌, Option, none, some, head?, ltb,
  leb, ◌==◌, str_eq, if◌then◌else◌,
}
use spoolctl.Base.Int.{ltb_ℤ, eq_ℤ}
use spoolctl.Models.{
  Time, Job, JobState, Attempt, AttemptState, EventType, FilePath, PathPart, text, number,
  is_queued, is_running,
}
use spoolctl.Sql.{select, update, count, max_of, order_by}
use spoolctl.Store.Db.{Db, has_id, of_job, add_event, get_job, get_attempt}

-- state='queued' AND next_run_at <= now AND queue=lane
abbrev pub is_eligible : Time → String → Job → Bool
is_eligible now lane j = is_queued j.state && (leb j.next_run_at now && str_eq j.queue lane)

-- state='running' AND queue=lane
abbrev pub occupies : String → Job → Bool
occupies lane j = is_running j.state && str_eq j.queue lane

-- ORDER BY priority DESC, next_run_at ASC, id ASC: j stands strictly before i.
abbrev pub runs_before : Job → Job → Bool
runs_before j i =
    if ltb_ℤ i.priority j.priority
    then true
    else if eq_ℤ i.priority j.priority
    then if ltb j.next_run_at i.next_run_at
      then true
      else j.next_run_at == i.next_run_at && ltb j.id i.id
    else false

unfoldable pub next_eligible : Time → String → Db → Option Job
next_eligible now lane db = head? (order_by runs_before (select (is_eligible now lane) db.jobs))

-- SELECT COUNT(*) ... >= slots, for a worker with a slot ceiling.
unfoldable pub slots_full : String → Option ℕ → Db → Bool
slots_full lane none db = false
slots_full lane (some slots) db = leb slots (count (occupies lane) db.jobs)

unfoldable pub next_attempt_no : ℕ → Db → ℕ
next_attempt_no job_id db = max_of (λ a. a.attempt_no) (of_job job_id) db.attempts + 1

unfoldable pub stream_path : String → ℕ → ℕ → String → FilePath
stream_path out_root job_id attempt_no stream = record {
  root = out_root;
  parts = number job_id ∷ number attempt_no ∷ text stream ∷ [];
}

-- The reads behind COMMIT, with what others commit before each.
unfoldable pub read_back :
    (Db → Db) → (Db → Db) → Db × Option (ℕ × ℕ) → Db × Option (Option Job × Option Attempt)
unfolding get_job get_attempt
read_back before_job before_attempt (db, none) = (db, none)
read_back before_job before_attempt (db, some (job_id, attempt_id)) =
    let at_job = before_job db in
    let at_attempt = before_attempt at_job in
    (at_attempt, some (get_job job_id at_job, get_attempt attempt_id at_attempt))

module _ (worker_id : String) (worker_pid : ℕ) (now : Time) where
  -- UPDATE jobs SET state='running', locked_by=?, ...
  abbrev pub lock : Job → Job
  lock j = record j {
    state = JobState.running;
    locked_by = some worker_id;
    locked_pid = some worker_pid;
    locked_at = some now;
    heartbeat_at = some now;
    started_at = some now;
  }

  module _ (out_root : String) (job_id : ℕ) (db : Db) where
    unfoldable pub new_attempt : Attempt
    unfolding next_attempt_no stream_path
    new_attempt =
        let attempt_no = next_attempt_no job_id db in
        record {
          id = suc db.last_attempt;
          job_id = job_id;
          attempt_no = attempt_no;
          worker_id = worker_id;
          worker_pid = worker_pid;
          state = AttemptState.running;
          started_at = now;
          stdout_path = stream_path out_root job_id attempt_no "stdout";
          stderr_path = stream_path out_root job_id attempt_no "stderr";
          finished_at = none;
          exit_code = none;
          error = none;
          failure_reason = none;
        }

    -- The writes of a claim, once the job is chosen.
    unfoldable pub take_job : Db
    unfolding new_attempt add_event
    take_job = add_event job_id now EventType.claimed (some worker_id) none (record db {
      jobs = update (has_id job_id) lock db.jobs;
      attempts = db.attempts ++ new_attempt ∷ [];
      last_attempt = suc db.last_attempt;
    })

  -- The transaction of a claim, with the ids of the job and of the attempt.
  unfoldable pub claim_transaction : String → String → Option ℕ → Db → Db × Option (ℕ × ℕ)
  unfolding slots_full next_eligible take_job
  claim_transaction out_root lane slots db =
      if slots_full lane slots db then (db, none) else elim (next_eligible now lane db) [
        | none ↦ (db, none)
        | some row ↦ (take_job out_root row.id db, some (row.id, suc db.last_attempt))
      ]

  -- After COMMIT the job and the attempt are read again, each by a statement of its own: others may
  -- commit before the one and before the other, and what the caller gets are the rows as they are then.
  unfoldable pub claim_next_among :
      (Db → Db)
      → (Db → Db)
      → String
      → String
      → Option ℕ
      → Db
      → Db × Option (Option Job × Option Attempt)
  unfolding claim_transaction read_back
  claim_next_among before_job before_attempt out_root lane slots db =
      read_back before_job before_attempt (claim_transaction out_root lane slots db)

  -- The same where nobody else commits before the two reads.
  unfoldable pub claim_next :
      String → String → Option ℕ → Db → Db × Option (Option Job × Option Attempt)
  unfolding slots_full next_eligible take_job get_job get_attempt
  claim_next out_root lane slots db =
      if slots_full lane slots db then (db, none) else elim (next_eligible now lane db) [
        | none ↦ (db, none)
        | some row ↦
            let db' = take_job out_root row.id db in
            (db', some (get_job row.id db', get_attempt (suc db.last_attempt) db'))
      ]
