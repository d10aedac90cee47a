-- ===== src/Examples/Readers.antt =====
-- The handlers that only read, at the small queue.
use spoolctl.Base.{String, ◌≤◌, ℕ, ◌≡◌, refl, true, false, List, [], ◌∷◌, none, some}
use spoolctl.Models.{JobState, tag_filter_scan_limit}
use spoolctl.Models.Suggest.{Word, codes}
use spoolctl.Store.Db.{get_job}
use spoolctl.Validation.{value}
use spoolctl.Validation.Ints.{job_id_arg, parse_int_bound}
use spoolctl.Validation.Floats.{parse_positive_float}
use spoolctl.Operations.Events.{event_page}
use spoolctl.Operations.Output.{
  StreamName, only, output_operation, output_of, choose_attempt, read_stream,
}
use spoolctl.Operations.Errors.{ok}
use spoolctl.Models.{FilePath}
use spoolctl.Sql.{first, select, order_by, count, update, max_of}
use spoolctl.Store.Submit.{add_job_checked}
use spoolctl.Store.Claim.{claim_next}
use spoolctl.Store.Db.{get_attempts}
use spoolctl.Base.{Option}
use spoolctl.Cli.Output.{OutputArgs, bytes, output_values, cmd_output}
use spoolctl.Cli.Output.Raw.{IsForm, cmd_output-IsForm}
use spoolctl.Operations.Listing.{ListInput, IsComplete, list_operation}
use spoolctl.Validation.Names.{parse_queue}
use spoolctl.Validation.States.{parse_states}
use spoolctl.Validation.Tags.{parse_list_tags}
use spoolctl.Cli.Lists.{ListArgs, list_limit_max, list_input, cmd_list}
use spoolctl.Cli.Lists.Complete.{cmd_list-IsComplete}
use spoolctl.Cli.Events.{
  EventsArgs, EventsValues, page, cmd_events, validate_events_args, events_values, events_checks,
}
use spoolctl.Cli.Events.Limits.{IsLimited, cmd_events-IsLimited}
use spoolctl.Examples.States.{claimed, claimed-Inv}
use spoolctl.Examples.Parsed.{ascii}
use spoolctl.Examples.Commands.{wholes}

-- A page of one event.
abbrev one_event : EventsArgs
one_event = record {
  follow = false;
  wait = false;
  job = some (codes "1");
  since_id = none;
  limit = some (codes "1");
  max_events = none;
  idle_timeout = none;
  poll_interval = codes "1";
  wait_timeout = codes "30";
}

one_event_accepted :
    cmd_events ascii wholes (λ s. s) one_event 0 claimed claimed claimed []
    ≡ value (page (event_page 0 (some 1) 1 claimed claimed claimed))
unfolding cmd_events validate_events_args events_values events_checks parse_int_bound
    parse_positive_float
one_event_accepted = refl

cmd_events-IsLimited_example :
    (v : EventsValues ℕ) × (events_values ascii wholes one_event ≡ value v)
    × IsLimited ascii wholes
        (λ s. s)
        one_event
        0
        claimed
        claimed
        claimed
        []
        v
        (page (event_page 0 (some 1) 1 claimed claimed claimed))
cmd_events-IsLimited_example =
    cmd_events-IsLimited ascii wholes (λ s. s) one_event 0 claimed claimed claimed []
      (page (event_page 0 (some 1) 1 claimed claimed claimed)) claimed-Inv one_event_accepted

abbrev unfinished : ListArgs
unfinished = record {
  state = some (codes "queued,running");
  tag = [];
  queue = some (codes "default");
  priority_min = none;
  limit = codes "0";
}

-- The only lane here.
abbrev lane_text : Word → String
lane_text w = "default"

abbrev unfinished_input : ListInput
unfinished_input = record {
  states = some (JobState.queued ∷ JobState.running ∷ []);
  tag_predicates = [];
  queue = some "default";
  priority_min = none;
  effective_limit = 1000;
}

unfinished_accepted :
    cmd_list lane_text ascii unfinished claimed ≡ value (list_operation unfinished_input claimed)
unfolding cmd_list list_input parse_states parse_queue parse_int_bound parse_list_tags
unfinished_accepted = refl

cmd_list-IsComplete_example :
    (input : ListInput) × (list_input lane_text ascii unfinished ≡ value input)
    × (1 ≤ input.effective_limit)
    × (input.effective_limit ≤ list_limit_max)
    × IsComplete input claimed tag_filter_scan_limit (list_operation unfinished_input claimed)
cmd_list-IsComplete_example =
    cmd_list-IsComplete lane_text ascii unfinished claimed (list_operation unfinished_input claimed)
      unfinished_accepted

-- The raw bytes of the first attempt.
abbrev raw_output : OutputArgs
raw_output = record {
  id = codes "1";
  attempt = some (codes "1");
  raw = true;
  json = false;
  stream = only StreamName.stdout;
}

abbrev one_blob : FilePath → Option (List ℕ)
one_blob path = some (104 ∷ 105 ∷ [])

raw_accepted : cmd_output ascii one_blob raw_output claimed ≡ value (ok (bytes (104 ∷ 105 ∷ [])))
unfolding cmd_output output_values output_operation output_of choose_attempt read_stream job_id_arg
    parse_int_bound get_job get_attempts first select order_by add_job_checked claim_next count
    update max_of
raw_accepted = refl

cmd_output-IsForm_example :
    (v : ℕ × Option ℕ) × (output_values ascii raw_output ≡ value v)
    × IsForm one_blob v.0 v.1 claimed
        (only StreamName.stdout)
        true
        false
        (ok (bytes (104 ∷ 105 ∷ [])))
cmd_output-IsForm_example =
    cmd_output-IsForm ascii one_blob raw_output claimed (ok (bytes (104 ∷ 105 ∷ []))) raw_accepted
