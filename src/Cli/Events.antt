-- ===== src/Cli/Events.antt =====
-- cli._validate_events_args and cmd_events. The long poll in front of a page, which does not change the
-- page, is that of operations.events_operation.
pub mod Accepted
pub mod Limits
use spoolctl.Base.{
  ℕ, Bool, true, false, not, ◌&&◌, List, Option, none, some, is_some, if◌then◌else◌, ◌-◌, ◌^◌,
}
use spoolctl.Base.Int.{ℤ, pos, leb_ℤ}
use spoolctl.Models.{Time}
use spoolctl.Models.Suggest.{Word}
use spoolctl.Store.Db.{Db}
use spoolctl.Operations.Events.{EventPage, event_page}
use spoolctl.Validation.{Python, Parsed, value, refused, raised, ◌>>=◌, ◌>>◌, require}
use spoolctl.Validation.Ints.{parse_int_bound}
use spoolctl.Validation.Floats.{
  Floats, parse_positive_float, max_wait_seconds, max_poll_interval_seconds,
}
use spoolctl.Cli.Follow.{Look, Followed, run_events_follow}
use spoolctl.Cli.Verbs.{nat_of, optional_float, micros_of}

abbrev pub event_limit_max : ℕ
event_limit_max = 10000

-- SQLITE_INT64_MAX
abbrev pub int64_max : ℕ
int64_max = 2 ^ 63 - 1

pub record EventsArgs : Type 0 where
  pub follow : Bool
  pub wait : Bool
  pub job : Option Word
  pub since_id : Option Word
  pub limit : Option Word
  pub max_events : Option Word
  pub idle_timeout : Option Word
  pub poll_interval : Word
  pub wait_timeout : Word

pub record EventsValues (F : Type 0) : Type 0 where
  pub job : Option ℤ
  pub since_id : Option ℤ
  pub limit : Option ℤ
  pub max_events : Option ℤ
  pub idle_timeout : Option F
  pub poll_interval : F
  pub wait_timeout : F

abbrev pub holds_at_least : ℤ → Option ℤ → Bool
holds_at_least least none = true
holds_at_least least (some v) = leb_ℤ least v

abbrev pub map_nat : Option ℤ → Option ℕ
map_nat none = none
map_nat (some v) = some (nat_of v)

module _ (py : Python) where
  abbrev pub optional_int : ℕ → ℕ → Option Word → Parsed (Option ℤ)
  optional_int minimum maximum none = value none
  optional_int minimum maximum (some raw) = do
    v ← parse_int_bound py (pos minimum) (pos maximum) raw
    value (some v)

  module _ {F : Type 0} (fl : Floats F) where
    unfoldable pub events_values : EventsArgs → Parsed (EventsValues F)
    events_values args = do
      job ← optional_int 1 int64_max args.job
      since_id ← optional_int 0 int64_max args.since_id
      limit ← optional_int 0 event_limit_max args.limit
      max_events ← optional_int 1 event_limit_max args.max_events
      idle_timeout ← optional_float py fl max_wait_seconds args.idle_timeout
      poll_interval ← parse_positive_float py fl max_poll_interval_seconds args.poll_interval
      wait_timeout ← parse_positive_float py fl max_wait_seconds args.wait_timeout
      value (record {
        job = job;
        since_id = since_id;
        limit = limit;
        max_events = max_events;
        idle_timeout = idle_timeout;
        poll_interval = poll_interval;
        wait_timeout = wait_timeout;
      })

    -- The checks on the values, the first five of which the parsers have made already.
    unfoldable pub events_checks : EventsArgs → EventsValues F → Parsed (Unit {0})
    events_checks args v = do
      require (holds_at_least (pos 1) v.job) none
      require (holds_at_least (pos 0) v.since_id) none
      require (holds_at_least (pos 0) v.limit) none
      require (not (fl.leq v.poll_interval (fl.whole 0))) none
      require (not (fl.leq v.wait_timeout (fl.whole 0))) none
      require (not (args.follow && args.wait)) none
      require (not (args.follow && is_some v.limit)) none
      require (not (not args.follow && is_some v.max_events)) none
      require (not (not args.follow && is_some v.idle_timeout)) none

    unfoldable pub validate_events_args : EventsArgs → Parsed (EventsValues F)
    unfolding events_values events_checks
    validate_events_args args = do v ← events_values args; checked ← events_checks args v; value v

abbrev pub or_limit : Option ℤ → ℕ
or_limit none = 1000
or_limit (some v) = nat_of v

abbrev pub or_start : Option ℤ → ℕ
or_start none = 0
or_start (some v) = nat_of v

-- A stream, or a page (none where events[-1] would raise).
pub data EventsAnswer : Type 0 where
  stream : Followed → EventsAnswer
  page : Option EventPage → EventsAnswer

module _ (py : Python) {F : Type 0} (fl : Floats F) (micros : F → Time) where
  unfoldable pub cmd_events : EventsArgs → Time → Db → Db → Db → List Look → Parsed EventsAnswer
  unfolding validate_events_args
  cmd_events args started db at_mark at_first looks = do
    v ← validate_events_args py fl args
    value (
        if args.follow
        then stream (
            run_events_follow (map_nat v.job) (micros_of micros v.idle_timeout)
              (map_nat v.max_events) (map_nat v.since_id) started db looks)
        else page (
            event_page (or_start v.since_id) (map_nat v.job) (or_limit v.limit) db at_mark
              at_first))
