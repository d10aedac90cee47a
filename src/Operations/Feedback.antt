-- ===== src/Operations/Feedback.antt =====
-- operations.current_job_failure_reason, _latest_failure_reason, _decode_tail, _feedback_stream and
-- feedback_operation. A byte is a number below 256; reading a file is a parameter, `none` for an
-- OSError; the decoding of a tail to text, the duration and the remediation texts are left out.
pub mod Tail
pub mod Agreement
use spoolctl.Base.{
  ℕ, suc, zero, ◌+◌, ◌-◌, ◌≤◌, ◌<◌, ◌≡◌, ◌↔◌, refl, sym, ap, ◌∙◌, Bool, true, false, not, ◌&&◌,
  ◌||◌, List, [], ◌∷◌, ◌++◌, Option, none, some, length, last?, ltb, leb, ◌==◌, arith, Bool-cases,
  inl, inr, if◌then◌else◌, is_some, is_none,
}
use mathlib.Core.Option
use spoolctl.Base.Int.{ℤ, pos}
use spoolctl.Models.{
  Time, Job, JobState, Attempt, AttemptState, FailureReason, ErrorText, FilePath, feedback_tail_max,
  is_wait_terminal,
}
use spoolctl.Sql.{order_by}
use spoolctl.Store.Db.{Db, get_job, get_attempts}
use spoolctl.Operations.Errors.{ErrorCode, Result, ok, err, cli_error}
use spoolctl.Operations.Requests.{WarningCode, no_attempts_yet}

abbrev newest_first : Attempt → Attempt → Bool
newest_first a b = ltb b.attempt_no a.attempt_no

abbrev has_succeeded : AttemptState → Bool
has_succeeded AttemptState.succeeded = true
has_succeeded _ = false

unfoldable first_reason : List Attempt → Option FailureReason
first_reason [] = none
first_reason (a ∷ as') =
    let rest = first_reason as' in
    if not (has_succeeded a.state) && is_some a.failure_reason then a.failure_reason else rest

unfoldable pub latest_failure_reason : List Attempt → Option FailureReason
unfolding first_reason
latest_failure_reason attempts = first_reason (order_by newest_first attempts)

unfoldable pub current_job_failure_reason : Job → List Attempt → Option FailureReason
unfolding latest_failure_reason
current_job_failure_reason job attempts = elim job.state [
  | JobState.done ↦ none
  | JobState.queued ↦ none
  | JobState.running ↦ none
  | JobState.failed ↦ latest_failure_reason attempts
  | JobState.dead ↦ latest_failure_reason attempts
  | JobState.canceled ↦ latest_failure_reason attempts
]

-- chunk[start] & 0b1100_0000 == 0b1000_0000
abbrev pub is_continuation : ℕ → Bool
is_continuation b = leb 128 b && ltb b 192

abbrev pub drop : ℕ → List ℕ → List ℕ
drop zero bs = bs
drop (suc n) [] = []
drop (suc n) (b ∷ bs) = drop n bs

-- The loop that drops at most `n` continuation bytes in front.
unfoldable pub drop_orphans : ℕ → List ℕ → List ℕ
drop_orphans zero bs = bs
drop_orphans (suc n) [] = []
drop_orphans (suc n) (b ∷ bs) =
    let rest = drop_orphans n bs in if is_continuation b then rest else b ∷ bs

-- The bytes of _decode_tail that are decoded; blob[-n:] is the last n bytes, or all of them.
unfoldable pub decode_tail : List ℕ → ℕ → List ℕ × Bool
unfolding drop_orphans
decode_tail blob tail_bytes =
    let truncated = ltb tail_bytes (length blob) in
    let chunk = if tail_bytes == 0 then [] else drop (length blob - tail_bytes) blob in
    (if truncated then drop_orphans 3 chunk else chunk, truncated)

pub record StreamEntry : Type 0 where
  pub tail : List ℕ
  pub size_bytes : ℕ
  pub truncated : Bool
  pub missing : Bool
  pub path : Option FilePath

pub record Feedback : Type 0 where
  pub attempts : ℕ
  pub attempts_total : ℕ
  pub exit_code : Option ℤ
  pub failure_reason : Option FailureReason
  pub job_id : ℕ
  pub last_error : Option ErrorText
  pub latest_attempt_no : Option ℕ
  pub state : JobState
  pub stdout : StreamEntry
  pub stderr : StreamEntry
  pub succeeded : Option Bool
  pub terminal : Bool
  pub warnings : List WarningCode

unfoldable pub succeeded_of : JobState → Option Bool
succeeded_of JobState.done = some true
succeeded_of JobState.dead = some false
succeeded_of JobState.canceled = some false
succeeded_of _ = none

abbrev last_exit : Option Attempt → Option ℤ
last_exit none = none
last_exit (some a) = a.exit_code

-- The exit code and the failure reason that are reported.
unfoldable pub outcome_of : Job → List Attempt → Option ℤ × Option FailureReason
unfolding latest_failure_reason
outcome_of job attempts =
    let prior =
      if ltb 0 job.attempts
      then (job.last_exit_code, latest_failure_reason attempts)
      else (none, none) in
    elim job.state [
      | JobState.done ↦ (some (pos 0), none)
      | JobState.dead ↦ (last_exit (last? attempts), latest_failure_reason attempts)
      | JobState.canceled ↦
          (none, if ltb 0 (length attempts) then some FailureReason.canceled else none)
      | JobState.running ↦ (none, none)
      | JobState.queued ↦ prior
      | JobState.failed ↦ prior
    ]

module _ (read : FilePath → Option (List ℕ)) where
  unfoldable pub feedback_stream : Option FilePath → ℕ → StreamEntry
  unfolding decode_tail
  feedback_stream none tail_bytes = record {
    tail = [];
    size_bytes = 0;
    truncated = false;
    missing = true;
    path = none;
  }
  feedback_stream (some path) tail_bytes = elim (read path) [
    | none ↦ record {
      tail = [];
      size_bytes = 0;
      truncated = false;
      missing = true;
      path = some path;
    }
    | some blob ↦
        let (tail, truncated) = decode_tail blob tail_bytes in
        record {
          tail = tail;
          size_bytes = length blob;
          truncated = truncated;
          missing = false;
          path = some path;
        }
  ]

  unfoldable pub feedback_of : Job → List Attempt → ℕ → Feedback
  unfolding outcome_of succeeded_of feedback_stream
  feedback_of job attempts tail_bytes =
      let (exit_code, failure_reason) = outcome_of job attempts in
      let latest = last? attempts in
      record {
        attempts = job.attempts;
        attempts_total = length attempts;
        exit_code = exit_code;
        failure_reason = failure_reason;
        job_id = job.id;
        last_error = job.last_error;
        latest_attempt_no = Option.map (λ a. a.attempt_no) latest;
        state = job.state;
        stdout = feedback_stream (Option.map (λ a. a.stdout_path) latest) tail_bytes;
        stderr = feedback_stream (Option.map (λ a. a.stderr_path) latest) tail_bytes;
        succeeded = succeeded_of job.state;
        terminal = is_wait_terminal job.state;
        warnings = if length attempts == 0 then no_attempts_yet ∷ [] else [];
      }

  unfoldable pub feedback_operation : ℕ → ℕ → Db → Result Feedback
  unfolding feedback_of
  feedback_operation job_id tail_bytes db =
      let found = get_job job_id db in
      if ltb tail_bytes 1 || ltb feedback_tail_max tail_bytes
      then err (cli_error ErrorCode.invalid_input)
      else elim found [
        | none ↦ err (cli_error ErrorCode.not_found)
        | some job ↦ ok (feedback_of job (get_attempts job_id db) tail_bytes)
      ]
