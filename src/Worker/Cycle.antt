-- ===== src/Worker/Cycle.antt =====
-- A whole cycle of a worker, process_one.
use spoolctl.Base.{
  ℕ, ◌≡◌, ◌≢◌, ◌⊎◌, refl, sym, ap, ◌∙◌, inl, inr, Option, none, some, String, Option-cases,
}
use spoolctl.Models.{Time, Job, Attempt}
use spoolctl.Store.Db.{Db, get_job, get_attempt}
use spoolctl.Store.Claim.Among.{claimed, ids, among-idle, among-read}
use spoolctl.Store.Record.{record_failure}
use spoolctl.Worker.Reaping.{reap_pass}
use spoolctl.Worker.Running.{
  RunResult, success, failure, FitsStore, execute_attempt, execute_attempt-FitsStore, Surroundings,
  record_result, run_claimed, after_claim, process_one,
}

module _ (w : String) (pid : ℕ) (out_root lane : String) (slots : Option ℕ) where
  record_result-ne-none :
      (now : Time) (job : Job) (attempt : Attempt) (r : RunResult) (db : Db)
      → FitsStore r
      → record_result w pid out_root lane slots now job attempt r db ≢ none
  unfolding record_result record_failure
  record_result-ne-none now job attempt success db fits e = cc
  record_result-ne-none now job attempt (failure kind code error reason) db fits e =
      cc (rw fits at e)

  run_claimed-ne-none :
      (s : Surroundings) (job : Job) (attempt : Attempt) (db : Db)
      → run_claimed w pid out_root lane slots s job attempt db ≢ none
  unfolding run_claimed
  run_claimed-ne-none s job attempt db e =
      let result = execute_attempt job s.ending in
      elim (Option-cases (
        record_result w pid out_root lane slots s.recorded_at job attempt result
          (s.meanwhile db))) [
            | inl n ↦
                record_result-ne-none s.recorded_at job attempt result (s.meanwhile db)
                  (execute_attempt-FitsStore job s.ending) n
            | inr (r, n) ↦ cc (rw (n, run_claimed) at e)
          ]

  -- The database on which the claim's transaction begins, that which it leaves, and its ids.
  module _ (s : Surroundings) (db : Db) where
    abbrev pub start : Db
    start = s.before_claim (reap_pass s.dead s.threshold s.reaped_at w s.before_round db).0

    abbrev pub after : Db
    after = claimed w pid s.claimed_at out_root lane slots start

    abbrev pub found : Option (ℕ × ℕ)
    found = ids w pid s.claimed_at out_root lane slots start

    -- A row that the worker has just claimed is removed by others before it is read back.
    pub record Lost : Type 0 where
      pub job_id : ℕ
      pub attempt_id : ℕ
      pub taken : found ≡ some (job_id, attempt_id)
      pub gone :
          (get_job job_id (s.before_job after) ≡ none)
          ⊎ (get_attempt attempt_id (s.before_attempt (s.before_job after)) ≡ none)

    pub idle_run : found ≡ none → process_one w pid out_root lane slots s db ≡ some (after, none)
    unfolding process_one after_claim
    idle_run e =
        ap (after_claim w pid out_root lane slots s)
          (among-idle w pid s.claimed_at out_root lane slots start s.before_job s.before_attempt e)

    module _ (k a : ℕ) (e : found ≡ some (k, a)) where
      abbrev pub read : Db
      read = s.before_attempt (s.before_job after)

      pub read_run :
          process_one w pid out_root lane slots s db
          ≡ after_claim w pid out_root lane slots s
              (read, some (get_job k (s.before_job after), get_attempt a read))
      unfolding process_one
      read_run = ap (after_claim w pid out_root lane slots s) (
          among-read w pid s.claimed_at out_root lane slots start s.before_job s.before_attempt k a
            e)

      given :
          (o : Option Job) (p : Option Attempt) (job : Job) (attempt : Attempt)
          → o ≡ some job
          → p ≡ some attempt
          → after_claim w pid out_root lane slots s (read, some (o, p))
            ≡ run_claimed w pid out_root lane slots s job attempt read
      unfolding after_claim
      given o p job attempt at_job at_attempt = rw (at_job, at_attempt) refl

      pub granted_run :
          (job : Job) (attempt : Attempt)
          → get_job k (s.before_job after) ≡ some job
          → get_attempt a read ≡ some attempt
          → process_one w pid out_root lane slots s db
            ≡ run_claimed w pid out_root lane slots s job attempt read
      granted_run job attempt at_job at_attempt = read_run ∙ given _ _ job attempt at_job at_attempt

    -- A cycle ends by an exception of the store only where others have removed the job or the attempt
    -- between the claim's COMMIT and the read of its row; the outcome of the child is one that the
    -- store takes.
    pub process_one-Lost : process_one w pid out_root lane slots s db ≡ none → Lost
    process_one-Lost n = elim (Option-cases found) [
      | inl e ↦ cc (idle_run e, n)
      | inr ((k, a), e) ↦ elim (Option-cases (get_job k (s.before_job after))) [
        | inl no_job ↦ record { job_id = k; attempt_id = a; taken = e; gone = inl no_job }
        | inr (job, at_job) ↦
            elim (Option-cases (get_attempt a (s.before_attempt (s.before_job after)))) [
              | inl no_attempt ↦ record {
                job_id = k;
                attempt_id = a;
                taken = e;
                gone = inr no_attempt;
              }
              | inr (attempt, at_attempt) ↦ absurd (
                  run_claimed-ne-none s job attempt (s.before_attempt (s.before_job after))
                    (sym (granted_run k a e job attempt at_job at_attempt) ∙ n))
            ]
      ]
    ]
