-- ===== src/Examples/Loops.antt =====
-- The theorems on a worker's cycles, at the small queue.
use spoolctl.Base.{◌≡◌, refl, true, false, List, [], ◌∷◌, Option, none, some, String}
use spoolctl.Base.Int.{pos}
use spoolctl.Sql.{count, first, select, update, order_by}
use spoolctl.Examples.States.{submitted, submitted-Inv}
use spoolctl.Store.Db.{Db, get_job, get_attempt}
use spoolctl.Store.Submit.{add_job_checked}
use spoolctl.Store.Claim.{claim_next, claim_next_among}
use spoolctl.Store.Reap.{stale_running_candidates}
use spoolctl.Store.Manual.{cancel_job}
use spoolctl.Store.History.{Reach, cancels}
use spoolctl.Store.Lease.{nothing, more}
use spoolctl.Models.Suggest.{Word, codes}
use spoolctl.Validation.{value}
use spoolctl.Validation.Ints.{parse_int_bound}
use spoolctl.Validation.Names.{parse_queue, parse_worker_id}
use spoolctl.Cli.Work.{WorkArgs, WorkEnv, WorkValues, WorkAnswer, work_values, cmd_work}
use spoolctl.Cli.Work.Answered.{Works, cmd_work-Works}
use spoolctl.Examples.Parsed.{ascii}
use spoolctl.Examples.Commands.{wholes}
use spoolctl.Worker.Reaping.{reap_pass}
use spoolctl.Worker.Running.{Surroundings, Summary, exited, process_one}
use spoolctl.Models.{reap_threshold}
use spoolctl.Worker.Leased.{AmongOthers, process_one-Reach}
use spoolctl.Worker.Running.{after_claim}
use spoolctl.Worker.Loop.{Round, work_loop}
use spoolctl.Worker.Loop.Ends.{Visited, Ends, work_loop-Ends}

-- The job ends well, but an operator cancels it while its child runs.
abbrev canceled_during : Surroundings
canceled_during = record {
  dead = λ pid. false;
  threshold = reap_threshold;
  before_round = λ i db. db;
  before_claim = λ db. db;
  before_job = λ db. db;
  before_attempt = λ db. db;
  reaped_at = 200;
  claimed_at = 200;
  recorded_at = 500;
  ending = exited (pos 0);
  meanwhile = λ db. (cancel_job 1 400 true db).0;
}

operator_cancels : AmongOthers "w1" 7 canceled_during
operator_cancels = record {
  in_pass = λ i d. nothing;
  at_claim = λ d. nothing;
  at_job = λ d. nothing;
  at_attempt = λ d. nothing;
  running = λ d. more nothing (cancels 1 400 true) refl;
}

abbrev after_cycle : Option (Db × Option Summary) → Db × Option Summary
after_cycle none = (submitted, none)
after_cycle (some result) = result

abbrev cycle : Db × Option Summary
cycle = after_cycle (process_one "w1" 7 "/out" "default" (some 1) canceled_during submitted)

cycle_lem :
    process_one "w1" 7 "/out" "default" (some 1) canceled_during submitted ≡ some (cycle.0, cycle.1)
unfolding process_one after_claim reap_pass stale_running_candidates get_job get_attempt first
    add_job_checked claim_next claim_next_among count order_by select update
cycle_lem = refl

process_one-Reach_example : Reach submitted cycle.0
process_one-Reach_example =
    process_one-Reach "w1" 7 "/out" "default" (some 1) canceled_during submitted cycle.0 cycle.1
      submitted-Inv operator_cancels cycle_lem

abbrev quiet_round : Round
quiet_round = record {
  stopped = false;
  before = λ db. db;
  around = canceled_during;
  before_count = λ db. db;
  counted_at = 600;
}

abbrev last_round : Round
last_round = record {
  stopped = true;
  before = λ db. db;
  around = canceled_during;
  before_count = λ db. db;
  counted_at = 700;
}

abbrev two_rounds : List Round
two_rounds = quiet_round ∷ last_round ∷ []

visits :
    Visited "w1" 7 "/out" "default" (some 1) true quiet_round
    × (Visited "w1" 7 "/out" "default" (some 1) true last_round × Unit {0})
visits = (
  record { first = λ d. nothing; during = operator_cancels; last = λ d. nothing },
  (record { first = λ d. nothing; during = operator_cancels; last = λ d. nothing }, tt),
)

work_loop-Ends_example :
    Ends "w1" 7 "/out" "default"
      (some 1)
      true
      two_rounds
      2
      submitted
      (work_loop "w1" 7 "/out" "default" (some 1) true two_rounds submitted)
work_loop-Ends_example =
    work_loop-Ends "w1" 7 "/out" "default" (some 1) true two_rounds submitted submitted-Inv visits

abbrev drain_args : WorkArgs
drain_args = record {
  once = false;
  drain = true;
  poll_interval = none;
  queue = codes "default";
  slots = some (codes "1");
  worker_id = none;
}

abbrev empty_env : WorkEnv
empty_env = record { heartbeat_interval = none; reap_threshold = none }

abbrev drain_values : WorkValues
drain_values = record { lane = codes "default"; slots = some (pos 1); worker_id = none }

drain_accepted : work_values ascii wholes empty_env drain_args ≡ value drain_values
unfolding work_values parse_queue parse_int_bound parse_worker_id
drain_accepted = refl

-- The only lane here.
abbrev text : Word → String
text w = "default"

cmd_work-Works_example :
    (s : Db × WorkAnswer) × (cmd_work text "w1" 7 "/out" ascii wholes empty_env drain_args
        canceled_during two_rounds submitted
      ≡ value s)
    × Works text "w1" 7 "/out" drain_args drain_values canceled_during two_rounds submitted s
cmd_work-Works_example =
    cmd_work-Works ascii wholes text "w1" 7 "/out" empty_env drain_args drain_values canceled_during
      two_rounds submitted drain_accepted submitted-Inv operator_cancels visits
