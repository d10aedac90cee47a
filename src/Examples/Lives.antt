-- ===== src/Examples/Lives.antt =====
-- The abstract queue at the small queue, whose job is claimed and then done.
use spoolctl.Base.{[], ◌∷◌, none, some}
use spoolctl.Models.{JobState}
use spoolctl.Sql.{count, first, select, update, delete, order_by}
use spoolctl.Examples.States.{command, no_metadata, submitted, claimed, submitted-Inv, claimed-Inv}
use spoolctl.Store.Db.{Db, get_job}
use spoolctl.Store.Submit.{add_job_checked}
use spoolctl.Store.Claim.{claim_next}
use spoolctl.Store.Claim.Effect.{new_attempt-Open}
use spoolctl.Store.Record.{record_success}
use spoolctl.Store.Prune.{prune_delete}
use spoolctl.Store.Invariant.{Inv}
use spoolctl.Store.Invariant.Recorded.{Holds, record_success-Inv}
use spoolctl.Store.History.{here, next, submits, claims, prunes}
use spoolctl.Store.Lifecycle.{Move, lives, gone}
use spoolctl.Store.Lifecycle.Settled.{Step-Move, Rests, is_done, Reach-Rests}

Step-Move_example : Move (lives JobState.queued) (lives JobState.running)
unfolding get_job first add_job_checked claim_next count order_by select update
Step-Move_example = Step-Move submitted-Inv (claims "w1" 7 200 "/out" "default" (some 1)) 1

held : Holds claimed 1 1 "w1" 7
unfolding get_job first add_job_checked claim_next count order_by select update
held row found own = new_attempt-Open "w1" 7 200 "/out" submitted 1 submitted-Inv

abbrev pub finished : Db
finished = (record_success 1 1 "w1" 7 300 claimed).0

pub finished-Inv : Inv finished
finished-Inv = record_success-Inv 1 1 "w1" 7 claimed claimed-Inv held 300

-- Pruned, and then submitted again: the new job has another id.
abbrev cleaned : Db
cleaned = (prune_delete (JobState.done ∷ []) 1000 (1 ∷ []) finished).0

Reach-Rests_example : Rests (lives JobState.done) gone
unfolding get_job first add_job_checked claim_next count order_by select update delete
    record_success prune_delete
Reach-Rests_example = Reach-Rests finished-Inv 1 is_done (
    next (next here (prunes (JobState.done ∷ []) 1000 (1 ∷ [])))
      (submits command 2000 none no_metadata))
