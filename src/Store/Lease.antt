-- ===== src/Store/Lease.antt =====
-- The lease of a worker: what a claim gives it, and what the others' transactions leave of it.
pub mod Writes
pub mod Kept
pub mod Recorded
pub mod Forced
pub mod Rows
pub mod Steps
use spoolctl.Base.{ℕ, Bool, false, ◌&&◌, String, str_eq, ◌==◌, ◌≡◌}
use spoolctl.Store.Db.{Db}
use spoolctl.Store.History.{
  Step, submits, claims, succeeds, fails, beats, reaps, retries, cancels, prunes,
}

-- A claim by that worker.
abbrev pub is_claim_of : {db db' : Db} → String → ℕ → Step db db' → Bool
is_claim_of w pid (claims w' pid' now out_root lane slots) = str_eq w' w && pid' == pid
is_claim_of w pid _ = false

-- Whatever happens while the worker does not claim: any transactions, but its own claims.
pub data Others (w : String) (pid : ℕ) (start : Db) : Db → Type 0 where
  nothing : Others w pid start start
  more :
      {db db' : Db}
      → Others w pid start db
      → (s : Step db db') → is_claim_of w pid s ≡ false
      → Others w pid start db'
