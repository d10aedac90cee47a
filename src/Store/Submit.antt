-- ===== src/Store/Submit.antt =====
-- store.add_job_checked: submission of a job, with the idempotency key's comparison of the submitted
-- payload against the active job. The payload's types hold by the types of the model
-- (_validate_execution_payload), and a dictionary is stored as it is (its JSON sorts the keys).
pub mod Idempotent
use spoolctl.Base.{
  ℕ, suc, String, Bool, true, false, ◌&&◌, ◌||◌, List, [], ◌∷◌, ◌++◌, Option, none, some, ◌==◌,
  sql_eq, option_eq, str_eq, texts_eq, dict_eq, Dict, if◌then◌else◌,
}
use spoolctl.Base.Int.{ℤ, eq_ℤ}
use spoolctl.Models.{Time, Job, JobState, EventType, is_queued, is_running}
use spoolctl.Sql.{first}
use spoolctl.Store.Db.{Db, add_event}

pub record Execution : Type 0 where
  pub argv : List String
  pub timeout_seconds : ℕ
  pub max_retries : ℕ
  pub priority : ℤ
  pub queue : String
  pub cwd : Option String
  pub env : Dict
  pub max_crashes : Option ℕ

pub record Metadata : Type 0 where
  pub tags : Dict
  pub note : Option String
  pub next_run_at : Option Time

pub data ExecutionField : Type 0 where
  argv cwd env max_crashes max_retries priority queue timeout_seconds : ExecutionField

-- A key of the metadata, with the existing and the submitted value.
pub data MetadataDifference : Type 0 where
  schedule_differs : Option Time → Option Time → MetadataDifference
  note_differs : Option String → Option String → MetadataDifference
  tags_differ : Dict → Dict → MetadataDifference

-- The fourth result of add_job_checked.
pub data AddDetail : Type 0 where
  nothing : AddDetail
  execution_differences : List ExecutionField → AddDetail
  metadata_differences : List MetadataDifference → AddDetail

pub record AddResult : Type 0 where
  pub job_id : ℕ
  pub state : JobState
  pub deduplicated : Bool
  pub detail : AddDetail

unfoldable pub execution_of_row : Job → Execution
execution_of_row j = record {
  argv = j.argv;
  timeout_seconds = j.timeout_seconds;
  max_retries = j.max_retries;
  priority = j.priority;
  queue = j.queue;
  cwd = j.cwd;
  env = j.env;
  max_crashes = j.max_crashes;
}

unfoldable pub resolved_schedule : Time → Time → Option Time
resolved_schedule created_at next_run_at =
    if next_run_at == created_at then none else some next_run_at

unfoldable pub submitted_schedule : Time → Option Time → Option Time
submitted_schedule now none = none
submitted_schedule now (some at) = if at == now then none else some at

unfoldable pub metadata_of_row : Job → Metadata
unfolding resolved_schedule
metadata_of_row j = record {
  tags = j.tags;
  note = j.note;
  next_run_at = resolved_schedule j.created_at j.next_run_at;
}

abbrev differs {ℓ} : {A : Type ℓ} → Bool → A → List A
differs equal key = if equal then [] else key ∷ []

-- sorted(_payload_diff(existing, submitted)) on execution payloads: the keys that differ.
unfoldable pub execution_diff : Execution → Execution → List ExecutionField
unfolding texts_eq dict_eq
execution_diff old new =
    differs (texts_eq old.argv new.argv) ExecutionField.argv
    ++ (differs (option_eq str_eq old.cwd new.cwd) ExecutionField.cwd
        ++ (differs (dict_eq old.env new.env) ExecutionField.env
            ++ (differs (option_eq ◌==◌ old.max_crashes new.max_crashes) ExecutionField.max_crashes
                ++ (differs (old.max_retries == new.max_retries) ExecutionField.max_retries
                    ++ (differs (eq_ℤ old.priority new.priority) ExecutionField.priority
                        ++ (differs (str_eq old.queue new.queue) ExecutionField.queue
                            ++ differs (old.timeout_seconds == new.timeout_seconds)
                                ExecutionField.timeout_seconds))))))

-- _payload_diff on metadata payloads.
unfoldable pub metadata_diff : Metadata → Metadata → List MetadataDifference
unfolding dict_eq
metadata_diff old new =
    differs (option_eq ◌==◌ old.next_run_at new.next_run_at)
      (schedule_differs old.next_run_at new.next_run_at)
    ++ (differs (option_eq str_eq old.note new.note) (note_differs old.note new.note)
        ++ differs (dict_eq old.tags new.tags) (tags_differ old.tags new.tags))

-- WHERE idempotency_key=? AND state IN ('queued','running')
abbrev pub is_active_key : String → Job → Bool
is_active_key key j =
    sql_eq str_eq j.idempotency_key key && (is_queued j.state || is_running j.state)

-- ... ORDER BY id ASC LIMIT 1; with no key nothing is looked up.
unfoldable pub active_job : Option String → Db → Option Job
active_job none db = none
active_job (some key) db = first (is_active_key key) db.jobs

abbrev pub or_now : Time → Option Time → Time
or_now now none = now
or_now now (some at) = at

module _ (x : Execution) (now : Time) (key : Option String) (m : Metadata) where
  -- The row that INSERT INTO jobs makes, with the defaults of the other columns. `m.next_run_at` is
  -- the argument `next_run_at`, before it becomes metadata.
  unfoldable pub new_job : ℕ → Job
  new_job id = record {
    id = id;
    argv = x.argv;
    state = JobState.queued;
    attempts = 0;
    max_retries = x.max_retries;
    timeout_seconds = x.timeout_seconds;
    created_at = now;
    next_run_at = or_now now m.next_run_at;
    priority = x.priority;
    queue = x.queue;
    locked_by = none;
    locked_pid = none;
    locked_at = none;
    heartbeat_at = none;
    started_at = none;
    finished_at = none;
    last_exit_code = none;
    last_error = none;
    idempotency_key = key;
    tags = m.tags;
    note = m.note;
    cwd = x.cwd;
    env = x.env;
    crashes = 0;
    max_crashes = x.max_crashes;
  }

  unfoldable pub insert_job : Db → Db
  unfolding new_job add_event
  insert_job db =
      let job_id = suc db.last_job in
      add_event job_id now EventType.added none none
        (record db { jobs = db.jobs ++ new_job job_id ∷ []; last_job = job_id })

  -- What is answered where an active job has the key.
  unfoldable pub compare_active : Job → AddResult
  unfolding execution_diff metadata_diff execution_of_row metadata_of_row submitted_schedule
  compare_active row = elim (execution_diff (execution_of_row row) x) [
    | d ∷ ds ↦ record {
      job_id = row.id;
      state = row.state;
      deduplicated = false;
      detail = execution_differences (d ∷ ds);
    }
    | [] ↦ record {
      job_id = row.id;
      state = row.state;
      deduplicated = true;
      detail = metadata_differences (
          metadata_diff (metadata_of_row row)
            (record m { next_run_at = submitted_schedule now m.next_run_at }));
    }
  ]

  unfoldable pub add_job_checked : Db → Db × AddResult
  unfolding active_job compare_active insert_job
  add_job_checked db = elim (active_job key db) [
    | some row ↦ (db, compare_active row)
    | none ↦ (
      insert_job db,
      record {
        job_id = suc db.last_job;
        state = JobState.queued;
        deduplicated = false;
        detail = nothing;
      },
    )
  ]

-- add_job: the same with no key, no tags and no note.
unfoldable pub add_job : Execution → Time → Option Time → Db → Db × ℕ
unfolding add_job_checked
add_job x now next_run_at db =
    let (db', result) =
      add_job_checked x now none (record { tags = []; note = none; next_run_at = next_run_at })
        db in
    (db', result.job_id)
