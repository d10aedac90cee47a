-- ===== src/Examples/Answers.antt =====
-- The theorems on the verbs, at the small queue.
use spoolctl.Base.{
  arith, ◌↔◌, ℕ, ◌≡◌, ◌≤◌, ◌<◌, refl, true, false, List, [], ◌∷◌, Option, none, some, any, is_none,
}
use mathlib.Core.Option
use spoolctl.Models.{JobState, FilePath, feedback_tail_max}
use spoolctl.Sql.{count, first, select, update, order_by}
use spoolctl.Store.Queries.{event_high_water}
use spoolctl.Sql.{max_of}
use spoolctl.Examples.States.{submitted-Inv, running_job, submitted, claimed}
use spoolctl.Store.Db.{get_job, get_attempts, of_job}
use spoolctl.Store.Submit.{add_job_checked}
use spoolctl.Store.Claim.{claim_next}
use spoolctl.Operations.Errors.{ErrorCode, cli_error}
use spoolctl.Operations.Events.{ExactPage, event_page-ExactPage}
use spoolctl.Operations.Waiting.{
  Poll, WaitMeans, WaitOutcome, jobs_of, deadline_of, wait_operation, wait_operation-Means,
}
use spoolctl.Operations.Feedback.{feedback_of, feedback_operation}
use spoolctl.Operations.Feedback.Agreement.{Agrees, feedback_operation-Agrees}

-- The first of the two events of the queue, on a page of one; the job is claimed between the reads.
event_page-ExactPage_example : ExactPage 0 none 1 submitted claimed claimed
unfolding event_high_water max_of add_job_checked claim_next count order_by select update first
event_page-ExactPage_example =
    event_page-ExactPage 0 none 1 submitted claimed claimed submitted-Inv (omega arith)

-- Two polls, the second past the deadline.
abbrev polls : List Poll
polls = record { db = submitted; clock = 150 } ∷ record { db = claimed; clock = 400 } ∷ []

wait_operation-Means_example :
    (any is_none (jobs_of (1 ∷ []) submitted) ≡ true
      → wait_operation (1 ∷ []) (some 200) 100 submitted polls
        ≡ WaitOutcome.refused (cli_error ErrorCode.not_found))
    × (any is_none (jobs_of (1 ∷ []) submitted) ≡ false
        → WaitMeans
            (1 ∷ [])
            (deadline_of (some 200) 100)
            polls
            (wait_operation (1 ∷ []) (some 200) 100 submitted polls))
wait_operation-Means_example = wait_operation-Means (1 ∷ []) (some 200) 100 submitted polls

-- Four bytes of which the last two are asked for, the first of them a continuation byte.
abbrev euro : List ℕ
euro = 65 ∷ 226 ∷ 130 ∷ 172 ∷ []

abbrev no_file : FilePath → Option (List ℕ)
no_file path = none

feedback_operation-Agrees_example :
    (0 < 2048)
    × (2048 ≤ feedback_tail_max)
    × (Option.map (λ j. j.state) (get_job 1 claimed) ≡ some JobState.running)
    × ((feedback_of no_file running_job (get_attempts 1 claimed) 2048).attempts_total
        ≡ count (of_job 1) claimed.attempts)
    × (((feedback_of no_file running_job (get_attempts 1 claimed) 2048).warnings ≡ [])
        ↔ (0 < count (of_job 1) claimed.attempts))
    × Agrees (feedback_of no_file running_job (get_attempts 1 claimed) 2048)
unfolding get_job first add_job_checked claim_next count order_by select update feedback_operation
    feedback_of
feedback_operation-Agrees_example =
    feedback_operation-Agrees no_file 1 2048 claimed
      (feedback_of no_file running_job (get_attempts 1 claimed) 2048) refl
