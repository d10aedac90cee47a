-- ===== src/Examples/States.antt =====
-- A small queue: one job is submitted, claimed by a worker, and fails or is canceled.
use spoolctl.Base.{◌≡◌, refl, [], ◌∷◌, none, some}
use spoolctl.Base.Int.{pos}
use spoolctl.Models.{Job, JobState}
use spoolctl.Sql.{count, first, select, update, order_by}
use spoolctl.Store.Db.{Db, empty, get_job}
use spoolctl.Store.Submit.{Execution, Metadata, add_job_checked}
use spoolctl.Store.Claim.{lock, claim_next}
use spoolctl.Store.Invariant.{Inv}
use spoolctl.Store.History.{submits, claims, Reach, here, next, Reach-empty-Inv}

abbrev pub command : Execution
command = record {
  argv = "make" ∷ "test" ∷ [];
  timeout_seconds = 60;
  max_retries = 1;
  priority = pos 0;
  queue = "default";
  cwd = none;
  env = [];
  max_crashes = some 3;
}

abbrev pub no_metadata : Metadata
no_metadata = record { tags = []; note = none; next_run_at = none }

-- The queue with one job, submitted at 100.
abbrev pub submitted : Db
submitted = (add_job_checked command 100 none no_metadata empty).0

-- The same after worker w1, of pid 7, has claimed it at 200.
abbrev pub claimed : Db
claimed = (claim_next "w1" 7 200 "/out" "default" (some 1) submitted).0

pub submitted-Reach : Reach empty submitted
submitted-Reach = next here (submits command 100 none no_metadata)

pub claimed-Reach : Reach empty claimed
claimed-Reach = next submitted-Reach (claims "w1" 7 200 "/out" "default" (some 1))

pub submitted-Inv : Inv submitted
submitted-Inv = Reach-empty-Inv submitted-Reach

pub claimed-Inv : Inv claimed
claimed-Inv = Reach-empty-Inv claimed-Reach

abbrev pub waiting_job : Job
waiting_job = record {
  id = 1;
  argv = "make" ∷ "test" ∷ [];
  state = JobState.queued;
  attempts = 0;
  max_retries = 1;
  timeout_seconds = 60;
  created_at = 100;
  next_run_at = 100;
  priority = pos 0;
  queue = "default";
  locked_by = none;
  locked_pid = none;
  locked_at = none;
  heartbeat_at = none;
  started_at = none;
  finished_at = none;
  last_exit_code = none;
  last_error = none;
  idempotency_key = none;
  tags = [];
  note = none;
  cwd = none;
  env = [];
  crashes = 0;
  max_crashes = some 3;
}

abbrev pub running_job : Job
running_job = lock "w1" 7 200 waiting_job

pub submitted_job : get_job 1 submitted ≡ some waiting_job
unfolding get_job first add_job_checked
submitted_job = refl

pub claimed_job : get_job 1 claimed ≡ some running_job
unfolding get_job first add_job_checked claim_next count order_by select update
claimed_job = refl
