-- ===== src/Examples/Recoveries.antt =====
-- The theorems on recovery and resubmission, at the small queue.
use spoolctl.Base.{◌≡◌, refl, true, [], ◌∷◌, some}
use spoolctl.Models.{Job, JobState}
use spoolctl.Sql.{count, first, select, update, order_by}
use spoolctl.Examples.States.{command, no_metadata, claimed, running_job, claimed-Inv, claimed_job}
use spoolctl.Store.Db.{get_job, empty}
use spoolctl.Store.Submit.{Execution, add_job_checked}
use spoolctl.Store.Submit.Idempotent.{add_job_checked-again}
use spoolctl.Store.Claim.{claim_next}
use spoolctl.Store.Reap.{crash_job, reap}
use spoolctl.Store.Reap.Recovery.{Recovery, reap-Recovery}

-- The job after its first crash, of the three that it may have.
abbrev crashed_once : Job
crashed_once = crash_job true 400 running_job

reap-Recovery_example :
    Recovery 1 7 300 400 "w2" claimed claimed-Inv running_job claimed_job refl crashed_once
      JobState.queued
unfolding get_job first add_job_checked claim_next count order_by select update reap crash_job
reap-Recovery_example =
    reap-Recovery 1 7 300 400 "w2" claimed claimed-Inv running_job claimed_job refl crashed_once
      JobState.queued refl refl

-- Another command under the key of the first.
abbrev other_command : Execution
other_command = record command { argv = "make" ∷ "clean" ∷ [] }

add_job_checked-again_example :
    ((add_job_checked other_command 300
        (some "nightly")
        no_metadata
        (add_job_checked command 100 (some "nightly") no_metadata empty).0).0
      ≡ (add_job_checked command 100 (some "nightly") no_metadata empty).0)
    × ((add_job_checked other_command 300
          (some "nightly")
          no_metadata
          (add_job_checked command 100 (some "nightly") no_metadata empty).0).1.job_id
        ≡ (add_job_checked command 100 (some "nightly") no_metadata empty).1.job_id)
add_job_checked-again_example =
    add_job_checked-again command other_command 100 300 "nightly" no_metadata no_metadata empty
