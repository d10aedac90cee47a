-- ===== src/Store/Claim/Effect.antt =====
-- What a claim gives to the worker, and where the attempt's output goes.
use spoolctl.Base.{
  ℕ, suc, ◌+◌, ◌≤◌, ◌<◌, ◌≡◌, refl, ◌∙◌, inl, inr, true, false, Option, none, some, All, arith,
  String, ◌==◌, ==_refl, Bool-cases, Option-cases,
}
use spoolctl.Base.{str_eq, ap}
use spoolctl.Base.Int.{ltb_ℤ, eq_ℤ}
use spoolctl.Models.{is_queued, Time, Job, JobState, Attempt, AttemptState}
use spoolctl.Models.States.{queued_state}
use spoolctl.Sql.{max_of}
use spoolctl.Sql.Laws.{All-imp, first-none, first-append, first-update, max_of_bound}
use spoolctl.Store.Db.{Db, has_id, of_job, get_job, get_attempt}
use spoolctl.Store.Claim.{
  lock, next_attempt_no, new_attempt, take_job, slots_full, next_eligible, claim_next, is_eligible,
  runs_before,
}
use spoolctl.Store.Claim.Choice.{next_eligible-eligible, next_eligible-least}
use spoolctl.Store.Invariant.{Inv}
use spoolctl.Store.Invariant.Attempts.{Open}

-- A job that a worker may take: queued, due and in the lane.
abbrev pub IsReady : Time → String → Job → Type 0
IsReady now lane j =
    (j.state ≡ JobState.queued) × (j.next_run_at ≤ now) × (str_eq j.queue lane ≡ true)

-- The job j has no claim to run before i: its priority is not higher, at the same priority it is not
-- due earlier, and due at the same time its id is not smaller.
abbrev pub NotBefore : Job → Job → Type 0
NotBefore j i =
    (ltb_ℤ i.priority j.priority ≡ false)
    × (eq_ℤ i.priority j.priority ≡ true → i.next_run_at ≤ j.next_run_at)
    × (eq_ℤ i.priority j.priority ≡ true → j.next_run_at ≡ i.next_run_at → i.id ≤ j.id)

runs_before_lem : (j i : Job) → runs_before j i ≡ false → NotBefore j i
runs_before_lem j i e =
    (ground (arith, e), (λ p. ground (arith, e, p)), (λ p t. ground (arith, e, p, t)))

pub eligible-IsReady :
    (now : Time) (lane : String) (j : Job) → is_eligible now lane j ≡ true → IsReady now lane j
eligible-IsReady now lane j e =
    (queued_state j.state (ground (arith, e)), ground (arith, e), ground (arith, e))

pub IsReady-eligible :
    (now : Time) (lane : String) (j : Job) → IsReady now lane j → is_eligible now lane j ≡ true
IsReady-eligible now lane j h = ground (arith, ap is_queued h.0, h.1, h.2)

module _ (w : String) (pid : ℕ) (now : Time) (out_root : String) where
  get_job-take_job :
      (db : Db) (row : Job)
      → get_job row.id db ≡ some row
      → get_job row.id (take_job w pid now out_root row.id db) ≡ some (lock w pid now row)
  unfolding take_job get_job
  get_job-take_job db row found =
      first-update (has_id row.id) (has_id row.id) (lock w pid now) db.jobs (λ j. refl)
      ∙ rw found (ground (arith, ==_refl row.id))

  get_attempt-take_job :
      (db : Db) (k : ℕ)
      → Inv db
      → get_attempt (suc db.last_attempt) (take_job w pid now out_root k db)
        ≡ some (new_attempt w pid now out_root k db)
  unfolding take_job get_attempt new_attempt
  get_attempt-take_job db k v =
      first-append (λ a. a.id == suc db.last_attempt) db.attempts _
      ∙ rw
          (first-none (λ a. a.id == suc db.last_attempt) db.attempts
            (All-imp (λ a. a.id ≤ db.last_attempt) _ (λ a h. ground arith) db.attempts
              v.attempts_below))
          (ground (arith, ==_refl (suc db.last_attempt)))

  numbers_below :
      (k : ℕ) (db : Db)
      → All
          (λ b. of_job k b ≡ true → b.attempt_no < (new_attempt w pid now out_root k db).attempt_no)
          db.attempts
  unfolding new_attempt next_attempt_no
  numbers_below k db =
      let top = max_of (λ b. b.attempt_no) (of_job k) db.attempts in
      All-imp (λ b. of_job k b ≡ true → b.attempt_no ≤ top)
        (λ b. of_job k b ≡ true → b.attempt_no < top + 1) (λ b h e. omega (arith, h e)) db.attempts
        (max_of_bound (λ b. b.attempt_no) (of_job k) top db.attempts (omega arith))

  pub new_attempt-Open :
      (db : Db) (k : ℕ) → Inv db → Open (take_job w pid now out_root k db) k (suc db.last_attempt)
  unfolding new_attempt
  new_attempt-Open db k v = record {
    row = new_attempt w pid now out_root k db;
    found = get_attempt-take_job db k v;
    of_k = refl;
    runs = refl;
  }

  module _ (lane : String) (slots : Option ℕ) (db : Db) (v : Inv db) where
    -- What a claim that succeeds means, in terms of the database before it and after it.
    pub record Granted (o : Option Job) (a : Option Attempt) : Type 0 where
      pub row : Job
      pub stored : get_job row.id db ≡ some row
      pub eligible : IsReady now lane row
      pub first_in_order : All (λ j. IsReady now lane j → NotBefore j row) db.jobs
      pub locked : o ≡ some (lock w pid now row)
      pub attempt : Attempt
      pub given : a ≡ some attempt
      pub opened :
          get_attempt attempt.id (claim_next w pid now out_root lane slots db).0 ≡ some attempt
      pub for_job : (attempt.job_id ≡ row.id) × (attempt.state ≡ AttemptState.running)
      pub new_number :
          All (λ b. of_job row.id b ≡ true → b.attempt_no < attempt.attempt_no) db.attempts

    nothing :
        next_eligible now lane db ≡ none → (claim_next w pid now out_root lane slots db).1 ≡ none
    unfolding claim_next
    nothing n = elim (Bool-cases (slots_full lane slots db)) [
      | inl full ↦ rw full refl
      | inr free ↦ rw (free, n, claim_next) refl
    ]

    full_lane :
        slots_full lane slots db ≡ true → (claim_next w pid now out_root lane slots db).1 ≡ none
    unfolding claim_next
    full_lane full = rw full refl

    module _ (row : Job) (n : next_eligible now lane db ≡ some row)
        (free : slots_full lane slots db ≡ false) where
      claimed_db :
          (claim_next w pid now out_root lane slots db).0 ≡ take_job w pid now out_root row.id db
      unfolding claim_next
      claimed_db = rw (free, n, claim_next) refl

      claimed :
          (claim_next w pid now out_root lane slots db).1
          ≡ some (
            get_job row.id (take_job w pid now out_root row.id db),
            get_attempt (suc db.last_attempt) (take_job w pid now out_root row.id db),
          )
      unfolding claim_next
      claimed = rw (free, n, claim_next) refl

      opened_attempt :
          get_attempt
            (new_attempt w pid now out_root row.id db).id
            (claim_next w pid now out_root lane slots db).0
          ≡ some (new_attempt w pid now out_root row.id db)
      opened_attempt = rw claimed_db (unfold new_attempt in get_attempt-take_job db row.id v)

      granted :
          (o : Option Job) (a : Option Attempt)
          → (claim_next w pid now out_root lane slots db).1 ≡ some (o, a)
          → Granted o a
      granted o a e =
          let (eligible, found) = next_eligible-eligible now lane db row v.job_ids n in
          record {
            row = row;
            stored = found;
            eligible = eligible-IsReady now lane row eligible;
            first_in_order =
                All-imp (λ j. is_eligible now lane j ≡ true → runs_before j row ≡ false) _
                  (λ j h r. runs_before_lem j row (h (IsReady-eligible now lane j r))) db.jobs
                  (next_eligible-least now lane db row n);
            locked = ground (arith, e, claimed, get_job-take_job db row found);
            attempt = new_attempt w pid now out_root row.id db;
            given = ground (arith, e, claimed, get_attempt-take_job db row.id v);
            opened = opened_attempt;
            for_job = unfold new_attempt in (refl, refl);
            new_number = numbers_below row.id db;
          }

    -- In a well-formed database, a claim that returns a job takes a row that was queued, due and in the
    -- worker's lane, such that no other row like it has a higher priority, or the same and an earlier
    -- due time, or both the same and a smaller id; the row is locked by the worker, and the attempt
    -- returned is stored, runs for that job, and has a number above all its earlier ones.
    pub claim_next-Granted :
        (o : Option Job) (a : Option Attempt)
        → (claim_next w pid now out_root lane slots db).1 ≡ some (o, a)
        → Granted o a
    claim_next-Granted o a e = elim (Option-cases (next_eligible now lane db)) [
      | inl n ↦ cc (nothing n, e)
      | inr (row, n) ↦ elim (Bool-cases (slots_full lane slots db)) [
        | inl full ↦ cc (full_lane full, e)
        | inr free ↦ granted row n free o a e
      ]
    ]
