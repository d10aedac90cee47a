-- ===== src/Operations/Requests.antt =====
-- operations.cancel_operation, retry_operation and add_operation: the store's outcome becomes the
-- verb's data or a contract error.
use spoolctl.Base.{ℕ, refl, Bool, true, false, List, [], ◌∷◌, Option, String}
use spoolctl.Models.{Time, JobState}
use spoolctl.Store.Db.{Db}
use spoolctl.Store.Manual.{RetryOutcome, CancelOutcome, retry_job, cancel_job}
use spoolctl.Store.Submit.{
  Execution, Metadata, MetadataDifference, AddDetail, AddResult, nothing, execution_differences,
  metadata_differences, add_job_checked,
}
use spoolctl.Operations.Errors.{
  ErrorCode, Result, ok, err, cli_error, exit_conflict, exit_safety, ErrorsRegistered,
  registered_exit,
}

pub data WarningCode : Type 0 where
  kill_async no_attempts_yet idempotency_metadata_differs tag_filter_scan_capped : WarningCode

pub record CancelData : Type 0 where
  pub job_id : ℕ
  pub was_running : Bool
  pub warnings : List WarningCode

unfoldable pub cancel_answer : ℕ → CancelOutcome → Result CancelData
cancel_answer job_id CancelOutcome.ok =
    ok (record { job_id = job_id; was_running = false; warnings = [] })
cancel_answer job_id CancelOutcome.ok_running =
    ok (record { job_id = job_id; was_running = true; warnings = kill_async ∷ [] })
cancel_answer job_id CancelOutcome.not_found = err (cli_error ErrorCode.not_found)
cancel_answer job_id CancelOutcome.running_unforced =
    err (record { code = ErrorCode.safety_block; exit_code = exit_safety })
cancel_answer job_id CancelOutcome.raced =
    err (record { code = ErrorCode.conflict; exit_code = exit_conflict })
cancel_answer job_id CancelOutcome.terminal =
    err (record { code = ErrorCode.conflict; exit_code = exit_conflict })

unfoldable pub cancel_operation : ℕ → Bool → Time → Db → Db × Result CancelData
unfolding cancel_answer
cancel_operation job_id running now db =
    let (db', outcome, state) = cancel_job job_id now running db in
    (db', cancel_answer job_id outcome)

unfoldable pub retry_answer : ℕ → RetryOutcome → Result ℕ
retry_answer job_id RetryOutcome.ok = ok job_id
retry_answer job_id RetryOutcome.not_found = err (cli_error ErrorCode.not_found)
retry_answer job_id RetryOutcome.already_queued =
    err (record { code = ErrorCode.conflict; exit_code = exit_conflict })
retry_answer job_id RetryOutcome.done =
    err (record { code = ErrorCode.conflict; exit_code = exit_conflict })
retry_answer job_id RetryOutcome.running_unforced =
    err (record { code = ErrorCode.safety_block; exit_code = exit_safety })
retry_answer job_id RetryOutcome.raced =
    err (record { code = ErrorCode.conflict; exit_code = exit_conflict })

unfoldable pub retry_operation : ℕ → Bool → Time → Db → Db × Result ℕ
unfolding retry_answer
retry_operation job_id force now db =
    let (db', outcome, argv) = retry_job job_id force now db in (db', retry_answer job_id outcome)

pub record AddData : Type 0 where
  pub job_id : ℕ
  pub state : JobState
  pub deduplicated : Bool
  pub differences : List MetadataDifference
  pub warnings : List WarningCode

abbrev differences_of : AddDetail → List MetadataDifference
differences_of nothing = []
differences_of (execution_differences ds) = []
differences_of (metadata_differences ds) = ds

abbrev differ_warning : List MetadataDifference → List WarningCode
differ_warning [] = []
differ_warning (d ∷ ds) = idempotency_metadata_differs ∷ []

abbrev add_data : AddResult → AddData
add_data r = record {
  job_id = r.job_id;
  state = r.state;
  deduplicated = r.deduplicated;
  differences = differences_of r.detail;
  warnings = differ_warning (differences_of r.detail);
}

-- A non-empty list of execution differences is IDEMPOTENCY_CONFLICT.
unfoldable pub add_answer : AddDetail → AddResult → Result AddData
add_answer (execution_differences (d ∷ ds)) r =
    err (record { code = ErrorCode.idempotency_conflict; exit_code = exit_conflict })
add_answer (execution_differences []) r = ok (add_data r)
add_answer nothing r = ok (add_data r)
add_answer (metadata_differences ds) r = ok (add_data r)

unfoldable pub add_operation :
    Execution → Time → Option String → Metadata → Db → Db × Result AddData
unfolding add_answer
add_operation x now key m db =
    let (db', r) = add_job_checked x now key m db in (db', add_answer r.detail r)

-- The verbs cancel, retry and add report each refusal with the exit code that the registry gives its error code.
pub requests-ErrorsRegistered :
    (job_id : ℕ) (force : Bool) (now : Time) (x : Execution) (key : Option String) (m : Metadata)
    (db : Db)
    → ErrorsRegistered (cancel_operation job_id force now db).1
      × ErrorsRegistered (retry_operation job_id force now db).1
      × ErrorsRegistered (add_operation x now key m db).1
unfolding cancel_operation retry_operation add_operation registered_exit
requests-ErrorsRegistered job_id force now x key m db = (
  cancel_registered (cancel_job job_id now force db).1,
  retry_registered (retry_job job_id force now db).1,
  add_registered (add_job_checked x now key m db).1.detail (add_job_checked x now key m db).1,
)
  where
    cancel_registered : (o : CancelOutcome) → ErrorsRegistered (cancel_answer job_id o)
    cancel_registered CancelOutcome.ok = tt
    cancel_registered CancelOutcome.ok_running = tt
    cancel_registered _ = refl

    retry_registered : (o : RetryOutcome) → ErrorsRegistered (retry_answer job_id o)
    retry_registered RetryOutcome.ok = tt
    retry_registered _ = refl

    add_registered : (d : AddDetail) (r : AddResult) → ErrorsRegistered (add_answer d r)
    add_registered (execution_differences (d ∷ ds)) r = refl
    add_registered (execution_differences []) r = tt
    add_registered nothing r = tt
    add_registered (metadata_differences ds) r = tt
