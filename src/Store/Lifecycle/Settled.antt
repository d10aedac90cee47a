-- ===== src/Store/Lifecycle/Settled.antt =====
-- The transactions of spoolctl/store.py refine the abstract queue: each moves each job by its rules.
use spoolctl.Base.{ℕ}
use spoolctl.Models.{JobState}
use spoolctl.Store.Db.{Db}
use spoolctl.Store.Invariant.{Inv}
use spoolctl.Store.History.{
  Step, Reach, submits, claims, succeeds, fails, beats, reaps, retries, cancels, prunes, here, next,
  Reach-Inv,
}
use spoolctl.Store.Lifecycle.{Life, lives, gone, life, Move, stays, born, turns, pruned}
use spoolctl.Store.Lifecycle.Moves.{
  record_success-Move, record_failure-Move, update_heartbeat-Move, claim_next-Move,
}
use spoolctl.Store.Lifecycle.Forced.{reap-Move, retry_job-Move, cancel_job-Move}
use spoolctl.Store.Lifecycle.Rows.{add_job_checked-Move, prune_delete-Move}

-- In a well-formed database, each transaction of the store (a submission, a claim, a success or failure
-- recorded by a worker that holds the attempt, a heartbeat, a reap, a manual retry, a cancellation or a prune, by anyone and at any
-- time) moves each job by the abstract rules: the job stays as it is; or an id that is not issued yet
-- becomes a queued job; or the job turns from queued to running or canceled, from running to done,
-- queued, dead or canceled, or from dead or canceled back to queued; or its row is pruned.
pub Step-Move : {db db' : Db} → Inv db → Step db db' → (i : ℕ) → Move (life i db) (life i db')
Step-Move {db} v (submits x now key m) i = add_job_checked-Move x now key m db v i
Step-Move {db} v (claims w pid now out_root lane slots) i =
    claim_next-Move db i w pid now out_root lane slots v
Step-Move {db} v (succeeds k a w pid now holds) i = record_success-Move db i k a w pid now
Step-Move {db} v (fails k a w pid kind code error now reason db' state holds e) i =
    record_failure-Move db i k a w pid kind code error now reason db' state e
Step-Move {db} v (beats k w pid now) i = update_heartbeat-Move db i k w pid now
Step-Move {db} v (reaps k pid cutoff now reaper) i = reap-Move k now db v i pid cutoff reaper
Step-Move {db} v (retries k force now) i = retry_job-Move k now db v i force
Step-Move {db} v (cancels k now allow) i = cancel_job-Move k now db v i allow
Step-Move {db} v (prunes states cutoff ks) i = prune_delete-Move i states cutoff ks db v

-- Done or gone.
pub data Ended : Life → Type 0 where
  is_done : Ended (lives JobState.done)
  is_gone : Ended gone

-- How a life that ended goes on.
pub data Rests : Life → Life → Type 0 where
  still_done : Rests (lives JobState.done) (lives JobState.done)
  cleared : Rests (lives JobState.done) gone
  still_gone : Rests gone gone

Ended-Rests : {l : Life} → Ended l → Rests l l
Ended-Rests is_done = still_done
Ended-Rests is_gone = still_gone

Rests-Move : {l l' l'' : Life} → Rests l l' → Move l' l'' → Rests l l''
Rests-Move r (stays _) = r
Rests-Move r born = elim r [ ]
Rests-Move still_done (turns t) = elim t [ ]
Rests-Move still_done (pruned _) = cleared

-- From a well-formed database, whatever transactions follow: a job that is done stays done until its
-- row is pruned, and an id whose row was pruned never has a row again.
pub Reach-Rests :
    {start db : Db}
    → Inv start
    → (i : ℕ) → Ended (life i start)
    → Reach start db
    → Rests (life i start) (life i db)
Reach-Rests v i e here = Ended-Rests e
Reach-Rests v i e (next r s) = Rests-Move (Reach-Rests v i e r) (Step-Move (Reach-Inv v r) s i)
