-- ===== src/Cli/Events/Limits.antt =====
-- How much the answers of cli.cmd_events hold.
use spoolctl.Base.{
  ◌≤◌, ◌≡◌, ◌≢◌, refl, ap, subst, ◌∙◌, Bool, true, false, List, Option, none, some, arith, length,
  is_some, if◌then◌else◌,
}
use spoolctl.Base.Int.{ℤ}
use spoolctl.Models.{Time}
use spoolctl.Store.Db.{Db}
use spoolctl.Store.Invariant.{Inv}
use spoolctl.Operations.Events.{EventPage, event_page, event_page-bounded}
use spoolctl.Validation.{Python, value, bound}
use spoolctl.Validation.Floats.{Floats}
use spoolctl.Cli.Follow.{FollowEnd, Look, run_events_follow}
use spoolctl.Cli.Follow.Bounded.{run_events_follow-IsBounded}
use spoolctl.Cli.Verbs.{nat_of, micros_of}
use spoolctl.Cli.Events.{
  EventsArgs, EventsValues, EventsAnswer, stream, page, event_limit_max, map_nat, optional_int,
  events_values, validate_events_args, or_limit, or_start, cmd_events,
}
use spoolctl.Cli.Events.Accepted.{
  value_injective, optional_int-bounds, IsExclusive, events_values-bounds, accepted-checked,
}

module _ (py : Python) where
  module _ {F : Type 0} (fl : Floats F) (micros : F → Time) (args : EventsArgs) (started : Time)
      (db at_mark at_first : Db) (looks : List Look) where
    -- What an answer holds, for the values of the arguments.
    abbrev pub IsLimited : EventsValues F → EventsAnswer → Type 0
    IsLimited v (stream f) =
        (args.follow ≡ true)
        × (args.wait ≡ false)
        × (v.limit ≡ none)
        × ((m : ℤ)
            → v.max_events ≡ some m
            → (length f.events ≤ nat_of m)
              × (f.ended ≡ FollowEnd.max_events → length f.events ≡ nat_of m))
    IsLimited v (page p) =
        (args.follow ≡ false)
        × (v.max_events ≡ none)
        × (v.idle_timeout ≡ none)
        × (q : EventPage) × (p ≡ some q)
        × (or_limit v.limit ≢ 0 → length q.events ≤ or_limit v.limit)
        × (or_limit v.limit ≤ event_limit_max)

    is_none_of : {A : Type 0} (o : Option A) → is_some o ≡ false → o ≡ none
    is_none_of none e = refl
    is_none_of (some a) e = cc e

    or_limit-bound :
        (o : Option ℤ)
        → optional_int py 0 event_limit_max args.limit ≡ value o
        → or_limit o ≤ event_limit_max
    or_limit-bound none e = omega arith
    or_limit-bound (some v) e = (optional_int-bounds py 0 event_limit_max args.limit v e).1

    follows-IsLimited :
        (v : EventsValues F)
        → events_values py fl args ≡ value v
        → IsExclusive py fl args v
        → args.follow ≡ true
        → IsLimited v (
            stream (
              run_events_follow
                (map_nat v.job)
                (micros_of micros v.idle_timeout)
                (map_nat v.max_events)
                (map_nat v.since_id)
                started
                db
                looks))
    follows-IsLimited v e (no_wait, no_limit, _, _) follows = (
      follows,
      ground (arith, no_wait, follows),
      is_none_of v.limit (ground (arith, no_limit, follows)),
      λ m given.
          let positive =
            optional_int-bounds py 1 event_limit_max args.max_events m
              ((events_values-bounds py fl args v e).1 ∙ ap value given) in
          let b =
            run_events_follow-IsBounded (map_nat v.job) (micros_of micros v.idle_timeout) (nat_of m)
              (map_nat v.since_id) started db looks positive.0 in
          rw given (omega (arith, b.at_most), λ t. omega (arith, b.exact t)),
    )

    pages-IsLimited :
        (v : EventsValues F)
        → Inv db
        → events_values py fl args ≡ value v
        → IsExclusive py fl args v
        → args.follow ≡ false
        → IsLimited v (
            page (
              event_page
                (or_start v.since_id)
                (map_nat v.job)
                (or_limit v.limit)
                db
                at_mark
                at_first))
    pages-IsLimited v inv e (_, _, no_max, no_idle) waits =
        let (q, answered, bounded) =
          event_page-bounded (or_start v.since_id) (map_nat v.job) (or_limit v.limit) db at_mark
            at_first inv in
        (
          waits,
          is_none_of v.max_events (ground (arith, no_max, waits)),
          is_none_of v.idle_timeout (ground (arith, no_idle, waits)),
          q,
          answered,
          bounded,
          or_limit-bound v.limit (events_values-bounds py fl args v e).0,
        )

    answer-IsLimited :
        (v : EventsValues F) (follow : Bool)
        → Inv db
        → events_values py fl args ≡ value v
        → IsExclusive py fl args v
        → args.follow ≡ follow
        → IsLimited v (
            if follow
            then stream (
                run_events_follow
                  (map_nat v.job)
                  (micros_of micros v.idle_timeout)
                  (map_nat v.max_events)
                  (map_nat v.since_id)
                  started
                  db
                  looks)
            else page (
                event_page
                  (or_start v.since_id)
                  (map_nat v.job)
                  (or_limit v.limit)
                  db
                  at_mark
                  at_first))
    answer-IsLimited v true inv read exclusive t = follows-IsLimited v read exclusive t
    answer-IsLimited v false inv read exclusive t = pages-IsLimited v inv read exclusive t

    -- When events' arguments are accepted, in a well-formed database: with --follow, and then without
    -- --wait and --limit, the stream writes at most as many events as --max-events says where it is
    -- given, and exactly so many where it ends with the frame "max_events"; without --follow, and then
    -- without --max-events and --idle-timeout, there is a page, and a limit that is not 0, by default
    -- 1000 and never above 10000, bounds it.
    pub cmd_events-IsLimited :
        (answer : EventsAnswer)
        → Inv db
        → cmd_events py fl micros args started db at_mark at_first looks ≡ value answer
        → (v : EventsValues F) × (events_values py fl args ≡ value v) × IsLimited v answer
    unfolding cmd_events
    cmd_events-IsLimited answer inv e =
        let (v, accepted, k) = bound (validate_events_args py fl args) _ e in
        let (read, exclusive) = accepted-checked py fl args v accepted in
        (
          v,
          read,
          subst (IsLimited v) (value_injective k)
              (answer-IsLimited v args.follow inv read exclusive refl),
        )
