-- ===== src/Store/Lease/Steps.antt =====
-- What a worker holds stays its own, or is lost to it for good: the transactions of others never make
-- it own a row together with another attempt than the one that it was given.
use spoolctl.Base.{ℕ, ◌≡◌, false, String}
use spoolctl.Store.Db.{Db}
use spoolctl.Store.Invariant.{Inv}
use spoolctl.Store.Invariant.Recorded.{Holds}
use spoolctl.Store.History.{
  Step, Reach, submits, claims, succeeds, fails, beats, reaps, retries, cancels, prunes, here, next,
  Step-Inv,
}
use spoolctl.Store.Lease.{is_claim_of, Others, nothing, more}
use spoolctl.Store.Lease.Kept.{record_success-Holds}
use spoolctl.Store.Lease.Recorded.{record_failure-Holds, update_heartbeat-Holds}
use spoolctl.Store.Lease.Forced.{reap-Holds, retry_job-Holds, cancel_job-Holds}
use spoolctl.Store.Lease.Rows.{claim_next-Holds, add_job_checked-Holds, prune_delete-Holds}

module _ (k attempt_id : ℕ) (w : String) (pid : ℕ) where
  Step-Holds :
      {db db' : Db}
      → Inv db
      → (s : Step db db') → is_claim_of w pid s ≡ false
      → Holds db k attempt_id w pid
      → Holds db' k attempt_id w pid
  Step-Holds {db} v (submits x now key m) other h =
      add_job_checked-Holds db k attempt_id w pid h x now key m v
  Step-Holds {db} v (claims w' pid' now out_root lane slots) other h =
      claim_next-Holds db k attempt_id w pid h w' pid' now out_root lane slots other
  Step-Holds {db} v (succeeds k' a w' pid' now holds') other h =
      record_success-Holds db k attempt_id w pid h k' a w' pid' v holds' now
  Step-Holds {db} v (fails k' a w' pid' kind code error now reason db' state holds' e) other h =
      record_failure-Holds db k attempt_id w pid h k' a w' pid' v holds' kind code error now reason
        db' state e
  Step-Holds {db} v (beats k' w' pid' now) other h =
      update_heartbeat-Holds db k attempt_id w pid h k' w' pid' now
  Step-Holds {db} v (reaps k' pid' cutoff now reaper) other h =
      reap-Holds db k attempt_id w pid h k' now pid' cutoff reaper v
  Step-Holds {db} v (retries k' force now) other h =
      retry_job-Holds db k attempt_id w pid h k' now force
  Step-Holds {db} v (cancels k' now allow) other h =
      cancel_job-Holds db k attempt_id w pid h k' now allow
  Step-Holds {db} v (prunes states cutoff ks) other h =
      prune_delete-Holds k attempt_id w pid states cutoff ks db v h

  pub Others-Inv : {db db' : Db} → Inv db → Others w pid db db' → Inv db'
  Others-Inv v nothing = v
  Others-Inv v (more o s e) = Step-Inv s (Others-Inv v o)

  -- In a well-formed database, a worker that is given an attempt of a job by a claim may record it
  -- whatever others do before, in any number of transactions: as long as it makes no other claim, if
  -- it owns the job's row then the attempt that it names is the one that runs for the job.
  pub Others-Holds :
      {db db' : Db}
      → Inv db
      → Holds db k attempt_id w pid
      → Others w pid db db'
      → Holds db' k attempt_id w pid
  Others-Holds v h nothing = h
  Others-Holds v h (more o s e) = Step-Holds (Others-Inv v o) s e (Others-Holds v h o)

pub Reach-append : {a b c : Db} → Reach a b → Reach b c → Reach a c
Reach-append r here = r
Reach-append r (next q s) = next (Reach-append r q) s

pub Others-Reach : {w : String} {pid : ℕ} {db db' : Db} → Others w pid db db' → Reach db db'
Others-Reach nothing = here
Others-Reach (more o s e) = next (Others-Reach o) s
