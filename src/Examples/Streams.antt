-- ===== src/Examples/Streams.antt =====
-- The stream of the event ledger, while the job of the small queue is claimed.
use spoolctl.Base.{[], ◌∷◌, none, some, false}
use spoolctl.Examples.States.{submitted, claimed, submitted-Inv}
use spoolctl.Store.History.{here, next, claims}
use spoolctl.Cli.Follow.{Look, undisturbed, signalled, run_events_follow, start_cursor}
use spoolctl.Cli.Follow.Stream.{Carries, Linked, run_events_follow-Carries}
use spoolctl.Base.{List}

-- Nothing new, then the claim, then a signal.
abbrev looks : List Look
looks =
    record {
      stopped = false;
      db = some submitted;
      clock = 10;
      written_at = 10;
      interrupt = undisturbed;
    }
    ∷ record {
      stopped = false;
      db = some claimed;
      clock = 20;
      written_at = 21;
      interrupt = signalled 5;
    }
    ∷ []

looks-Linked : Linked claimed submitted looks
looks-Linked = (here, (next here (claims "w1" 7 200 "/out" "default" (some 1)), here))

run_events_follow-Carries_example :
    Carries
      (some 1)
      claimed
      (start_cursor none submitted)
      (run_events_follow (some 1) (some 60) none none 0 submitted looks)
run_events_follow-Carries_example =
    run_events_follow-Carries (some 1) claimed (some 60) none none 0 submitted looks submitted-Inv
      looks-Linked
