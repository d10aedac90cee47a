-- ===== src/Store/Claim/Choice.antt =====
-- Which job claim_next takes.
use spoolctl.Base.{◌≡◌, true, false, none, some, All, arith, String}
use spoolctl.Models.{Time, Job}
use spoolctl.Sql.Keys.{Ascending, All-found}
use spoolctl.Sql.Laws.{All-first, select-nil}
use spoolctl.Sql.Order.{
  All-select, All-order_by, All-head, All-unselect, IsWeakOrder, head-order_by-least, order_by-none,
}
use spoolctl.Store.Db.{Db, get_job}
use spoolctl.Store.Claim.{is_eligible, runs_before, next_eligible}

-- The chosen row is a row of the table, and it is eligible.
pub next_eligible-eligible :
    (now : Time) (lane : String) (db : Db) (row : Job)
    → Ascending (λ j. j.id) 0 db.jobs
    → next_eligible now lane db ≡ some row
    → (is_eligible now lane row ≡ true) × (get_job row.id db ≡ some row)
unfolding next_eligible get_job
next_eligible-eligible now lane db row ids e =
    All-head _ _ row
      (All-order_by _ runs_before _
        (All-select _ (is_eligible now lane) db.jobs (All-found (λ j. j.id) 0 db.jobs ids)))
      e

runs_before-IsWeakOrder : IsWeakOrder runs_before
runs_before-IsWeakOrder = record {
  asym = λ x y e. ground arith;
  negtrans = λ x y z e f. ground arith;
}

-- No eligible row runs before the chosen one.
pub next_eligible-least :
    (now : Time) (lane : String) (db : Db) (row : Job)
    → next_eligible now lane db ≡ some row
    → All (λ j. is_eligible now lane j ≡ true → runs_before j row ≡ false) db.jobs
unfolding next_eligible
next_eligible-least now lane db row e =
    All-unselect _ (is_eligible now lane) db.jobs
      (head-order_by-least runs_before runs_before-IsWeakOrder _ row e)

-- No row is chosen exactly when none is eligible.
pub next_eligible-none :
    (now : Time) (lane : String) (db : Db)
    → next_eligible now lane db ≡ none
    → All (λ j. is_eligible now lane j ≡ false) db.jobs
unfolding next_eligible
next_eligible-none now lane db e =
    select-nil (is_eligible now lane) db.jobs (order_by-none runs_before _ e)

pub next_eligible-some :
    (now : Time) (lane : String) (db : Db) (row : Job)
    → Ascending (λ j. j.id) 0 db.jobs
    → next_eligible now lane db ≡ some row
    → ¬ All (λ j. is_eligible now lane j ≡ false) db.jobs
unfolding get_job
next_eligible-some now lane db row ids e all =
    let (eligible, found) = next_eligible-eligible now lane db row ids e in
    cc (All-first (λ j. is_eligible now lane j ≡ false) _ db.jobs row all found, eligible)
