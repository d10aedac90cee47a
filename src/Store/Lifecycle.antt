-- ===== src/Store/Lifecycle.antt =====
-- The abstract view of the queue: what a job is in, by its id. A row that was pruned is gone for
-- good, because ids are not issued again.
pub mod Writes
pub mod Moves
pub mod Forced
pub mod Rows
pub mod Settled
use spoolctl.Base.{ℕ, Bool, true, false, Option, none, some, leb}
use spoolctl.Models.{Job, JobState}
use spoolctl.Store.Db.{Db, get_job}

-- `unborn`: the id is not issued yet; `gone`: its row was pruned.
pub data Life : Type 0 where
  unborn gone : Life
  lives : JobState → Life

abbrev pub life_of : Option Job → Bool → Life
life_of (some j) issued = lives j.state
life_of none true = gone
life_of none false = unborn

abbrev pub life : ℕ → Db → Life
life k db = life_of (get_job k db) (leb k db.last_job)

-- The moves of a job that lives.
pub data Turn : JobState → JobState → Type 0 where
  starts : Turn JobState.queued JobState.running
  succeeds : Turn JobState.running JobState.done
  goes_back : Turn JobState.running JobState.queued
  dies : Turn JobState.running JobState.dead
  withdrawn : Turn JobState.queued JobState.canceled
  stopped : Turn JobState.running JobState.canceled
  revived : Turn JobState.dead JobState.queued
  reinstated : Turn JobState.canceled JobState.queued

-- One step of the abstract queue, for one job.
pub data Move : Life → Life → Type 0 where
  stays : (l : Life) → Move l l
  born : Move unborn (lives JobState.queued)
  turns : {s t : JobState} → Turn s t → Move (lives s) (lives t)
  pruned : (s : JobState) → Move (lives s) gone
