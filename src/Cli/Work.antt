-- ===== src/Cli/Work.antt =====
-- cli.cmd_work, and the check of the environment in front of it (validation.
-- _validate_positive_float_env). The surroundings of its cycles are those of worker.process_one and
-- worker.work_loop.
pub mod Answered
use spoolctl.Base.{ℕ, ◌-◌, ◌^◌, Bool, true, false, not, ◌&&◌, List, Option, none, some, String}
use spoolctl.Base.Int.{ℤ}
use spoolctl.Models.Suggest.{Word}
use spoolctl.Store.Db.{Db}
use spoolctl.Validation.{Python, Parsed, value, refused, raised, ◌>>=◌, ◌>>◌, require}
use spoolctl.Validation.Floats.{
  Floats, parse_positive_float, max_wait_seconds, max_poll_interval_seconds,
}
use spoolctl.Validation.Names.{parse_queue, parse_worker_id}
use spoolctl.Worker.Running.{Surroundings, Summary, process_one}
use spoolctl.Worker.Loop.{Round, LoopEnd, work_loop}
use spoolctl.Cli.Verbs.{optional_float}
use spoolctl.Cli.Events.{int64_max, map_nat, optional_int}

pub record WorkArgs : Type 0 where
  pub once : Bool
  pub drain : Bool
  pub poll_interval : Option Word
  pub queue : Word
  pub slots : Option Word
  pub worker_id : Option Word

-- The two variables of the environment that are read.
pub record WorkEnv : Type 0 where
  pub heartbeat_interval : Option Word
  pub reap_threshold : Option Word

pub record WorkValues : Type 0 where
  pub lane : Word
  pub slots : Option ℤ
  pub worker_id : Option Word

-- What is answered: with --once, the summary of the job that was run, if there was one; with --drain,
-- whether it drained and how many jobs were run; and otherwise that the worker stopped. An exception of
-- the store ends as INTERNAL, and `working` says that the rounds given do not end the loop.
pub data WorkAnswer : Type 0 where
  ran_once : Option Summary → WorkAnswer
  drained : Bool → ℕ → WorkAnswer
  stopped : WorkAnswer
  internal : WorkAnswer
  working : ℕ → WorkAnswer

module _ (py : Python) {F : Type 0} (fl : Floats F) where
  unfoldable pub validate_positive_float_env : Option Word → Parsed (Option F)
  validate_positive_float_env raw = optional_float py fl max_wait_seconds raw

  unfoldable pub work_values : WorkEnv → WorkArgs → Parsed WorkValues
  unfolding validate_positive_float_env
  work_values env args = do
    interval ← validate_positive_float_env env.heartbeat_interval
    threshold ← validate_positive_float_env env.reap_threshold
    poll_interval ← optional_float py fl max_poll_interval_seconds args.poll_interval
    require (not (args.drain && args.once)) none
    lane ← parse_queue py args.queue
    slots ← optional_int py 1 int64_max args.slots
    worker_id ← parse_worker_id py args.worker_id
    value (record { lane = lane; slots = slots; worker_id = worker_id })

-- `text` makes the string of the store from its code points.
abbrev pub or_default : (Word → String) → String → Option Word → String
or_default text default_worker_id none = default_worker_id
or_default text default_worker_id (some w) = text w

abbrev pub once_answer : Db → Option (Db × Option Summary) → Db × WorkAnswer
once_answer db none = (db, internal)
once_answer db (some (db', summary)) = (db', ran_once summary)

abbrev pub loop_answer : Bool → LoopEnd → WorkAnswer
loop_answer drain LoopEnd.raised = internal
loop_answer drain (LoopEnd.going_on executed) = working executed
loop_answer true (LoopEnd.returned settled executed) = drained settled executed
loop_answer false (LoopEnd.returned settled executed) = stopped

module _ (text : Word → String) (default_worker_id : String) (pid : ℕ) (out_root : String) where
  -- The work of a worker with those values.
  unfoldable pub work_with :
      WorkArgs → WorkValues → Surroundings → List Round → Db → Db × WorkAnswer
  unfolding process_one work_loop
  work_with args v around rounds db =
      let worker_id = or_default text default_worker_id v.worker_id in
      let lane = text v.lane in
      let slots = map_nat v.slots in
      elim args.once [
        | true ↦ once_answer db (process_one worker_id pid out_root lane slots around db)
        | false ↦
            let (db', end) = work_loop worker_id pid out_root lane slots args.drain rounds db in
            (db', loop_answer args.drain end)
      ]

  unfoldable pub cmd_work :
      Python
      → {F : Type 0} → Floats F
      → WorkEnv
      → WorkArgs
      → Surroundings
      → List Round
      → Db
      → Parsed (Db × WorkAnswer)
  unfolding work_values work_with
  cmd_work py fl env args around rounds db = do
    v ← work_values py fl env args
    value (work_with args v around rounds db)
