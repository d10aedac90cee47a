-- ===== src/Models.antt =====
-- spoolctl/models.py: the states, the tunables, the row classes, and the retry backoff.
-- A time is a number of microseconds since the epoch (the source keeps epoch seconds as floats);
-- texts are the native `String`.
pub mod Backoff
pub mod Suggest
pub mod States
use spoolctl.Base.{ℕ, ◌*◌, ◌^◌, ◌-◌, String, Bool, true, false, Option, List, ◌==◌, min, Dict, []}
use spoolctl.Base.Int.{ℤ}

abbrev pub Time : Type 0
Time = ℕ

-- One second, in the unit of `Time`.
abbrev pub second : ℕ
second = 1000000

pub data JobState : Type 0 where
  queued running done failed dead canceled : JobState

pub data AttemptState : Type 0 where
  running succeeded failed timed_out abandoned canceled : AttemptState

pub data FailureReason : Type 0 where
  process_exit timeout spawn_failed worker_crash canceled unknown : FailureReason

pub data EventType : Type 0 where
  added claimed succeeded failed timed_out reaped dead retried canceled : EventType

-- The texts of last_error and error that the code writes, with what it puts into them.
pub data ErrorText : Type 0 where
  worker_died force_retried canceled : ErrorText
  exit_with : ℤ → ErrorText
  timed_out_after : ℕ → ErrorText
  spawn_failed : String → ErrorText

-- The texts of an event's detail.
pub data Detail : Type 0 where
  of_error : ErrorText → Detail
  dead_worker_pid : ℕ → Detail
  forced forced_was_running : Detail

-- `state='running'` and the like, in a query's condition.
abbrev pub is_queued : JobState → Bool
is_queued JobState.queued = true
is_queued _ = false

abbrev pub is_running : JobState → Bool
is_running JobState.running = true
is_running _ = false

abbrev pub is_done : JobState → Bool
is_done JobState.done = true
is_done _ = false

abbrev pub is_dead : JobState → Bool
is_dead JobState.dead = true
is_dead _ = false

-- `state in _WAIT_TERMINAL`, which is also PRUNABLE_STATES.
abbrev pub is_wait_terminal : JobState → Bool
is_wait_terminal JobState.canceled = true
is_wait_terminal JobState.dead = true
is_wait_terminal JobState.done = true
is_wait_terminal _ = false

abbrev pub is_att_running : AttemptState → Bool
is_att_running AttemptState.running = true
is_att_running _ = false

abbrev pub job_state_rank : JobState → ℕ
job_state_rank JobState.queued = 0
job_state_rank JobState.running = 1
job_state_rank JobState.done = 2
job_state_rank JobState.failed = 3
job_state_rank JobState.dead = 4
job_state_rank JobState.canceled = 5

abbrev pub job_state_eq : JobState → JobState → Bool
job_state_eq s t = job_state_rank s == job_state_rank t

abbrev pub max_backoff : ℕ
max_backoff = 60

abbrev pub backoff_base : ℕ
backoff_base = 2

-- max(4 * HEARTBEAT_INTERVAL, 30.0) seconds.
abbrev pub reap_threshold : Time
reap_threshold = 30 * second

abbrev pub schema_version : ℕ
schema_version = 6

abbrev pub feedback_tail_max : ℕ
feedback_tail_max = 65536

abbrev pub tag_filter_scan_limit : ℕ
tag_filter_scan_limit = 1000

-- The delay, in seconds, after `attempts` failed executions (at least 1).
unfoldable pub backoff_seconds : ℕ → ℕ
backoff_seconds attempts = min max_backoff (backoff_base * 2 ^ (attempts - 1))

-- The same in the unit of `Time`.
unfoldable pub backoff : ℕ → Time
unfolding backoff_seconds
backoff attempts = backoff_seconds attempts * second

pub data PathPart : Type 0 where
  text : String → PathPart
  number : ℕ → PathPart

-- os.path.join(root, part, ...), with the parts apart; a number stands for its decimal text.
pub record FilePath : Type 0 where
  pub root : String
  pub parts : List PathPart

pub record Job : Type 0 where
  pub id : ℕ
  pub argv : List String
  pub state : JobState
  pub attempts : ℕ
  pub max_retries : ℕ
  pub timeout_seconds : ℕ
  pub created_at : Time
  pub next_run_at : Time
  pub priority : ℤ
  pub queue : String
  pub locked_by : Option String
  pub locked_pid : Option ℕ
  pub locked_at : Option Time
  pub heartbeat_at : Option Time
  pub started_at : Option Time
  pub finished_at : Option Time
  pub last_exit_code : Option ℤ
  pub last_error : Option ErrorText
  pub idempotency_key : Option String
  pub tags : Dict
  pub note : Option String
  pub cwd : Option String
  pub env : Dict
  pub crashes : ℕ
  pub max_crashes : Option ℕ

pub record Attempt : Type 0 where
  pub id : ℕ
  pub job_id : ℕ
  pub attempt_no : ℕ
  pub worker_id : String
  pub worker_pid : ℕ
  pub state : AttemptState
  pub started_at : Time
  pub stdout_path : FilePath
  pub stderr_path : FilePath
  pub finished_at : Option Time
  pub exit_code : Option ℤ
  pub error : Option ErrorText
  pub failure_reason : Option FailureReason

pub record Event : Type 0 where
  pub id : ℕ
  pub job_id : ℕ
  pub at : Time
  pub event : EventType
  pub worker_id : Option String
  pub detail : Option Detail
