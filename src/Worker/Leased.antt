-- ===== src/Worker/Leased.antt =====
-- process_one as a part of the queue's history: a worker records an attempt that it holds.
use spoolctl.Base.{
  ℕ, ◌-◌, ◌≡◌, refl, sym, ◌∙◌, subst, inl, inr, List, [], ◌∷◌, Option, none, some, String,
  Option-cases, Bool-cases,
}
use spoolctl.Models.{Time, Job, JobState, Attempt}
use spoolctl.Store.Db.{Db, get_job, get_attempt}
use spoolctl.Store.Record.{record_success}
use spoolctl.Store.Reap.{stale_running_candidates}
use spoolctl.Store.Invariant.{Inv}
use spoolctl.Store.Invariant.Recorded.{Holds}
use spoolctl.Store.History.{Reach, Reach-Inv, here, next, claims, reaps, succeeds, fails}
use spoolctl.Store.Lease.{Others}
use spoolctl.Store.Lease.Steps.{Others-Inv, Others-Holds, Others-Reach, Reach-append}
use spoolctl.Worker.Reaping.{Oracle, reap_candidate, reap_candidates, reap_pass}
use spoolctl.Worker.Cycle.{start, after, found, idle_run, read_run}
use spoolctl.Store.Claim.Among.{get_attempt-id, transaction-claim_next, transaction-Holds}
use spoolctl.Store.Invariant.Effects.{get_job-id}
use spoolctl.Worker.Running.{
  RunResult, Summary, success, failure, execute_attempt, Surroundings, record_result, run_claimed,
  after_claim, process_one,
}

module _ (dead : Oracle) (cutoff now : Time) (reaper : String) where
  reap_candidate-Reach :
      (job : Job) (db : Db) → Reach db (reap_candidate dead cutoff now reaper job db).0
  unfolding reap_candidate
  reap_candidate-Reach job db = elim (Option-cases job.locked_pid) [
    | inl e ↦ rw (e, reap_candidate) here
    | inr (pid, e) ↦ elim (Bool-cases (dead pid)) [
      | inl t ↦ rw (e, t, reap_candidate) (next here (reaps job.id pid cutoff now reaper))
      | inr t ↦ rw (e, t, reap_candidate) here
    ]
  ]

  module _ (between : ℕ → Db → Db) (others : (i : ℕ) (d : Db) → Reach d (between i d)) where
    reap_candidates-Reach :
        (jobs : List Job) (db : Db)
        → Reach db (reap_candidates dead cutoff now reaper between jobs db).0
    unfolding reap_candidates
    reap_candidates-Reach [] db = here
    reap_candidates-Reach (job ∷ jobs) db =
        let seen = between job.id db in
        Reach-append (Reach-append (others job.id db) (reap_candidate-Reach job seen))
          (reap_candidates-Reach jobs (reap_candidate dead cutoff now reaper job seen).0)

reap_pass-Reach :
    (dead : Oracle) (threshold now : Time) (reaper : String) (between : ℕ → Db → Db)
    → ((i : ℕ) (d : Db) → Reach d (between i d))
    → (db : Db) → Reach db (reap_pass dead threshold now reaper between db).0
unfolding reap_pass
reap_pass-Reach dead threshold now reaper between others db =
    reap_candidates-Reach dead (now - threshold) now reaper between others
      (stale_running_candidates (now - threshold) db) db

-- All that happens to the database around the steps of a cycle, and while the child runs, are
-- transactions of others.
pub record AmongOthers (w : String) (pid : ℕ) (s : Surroundings) : Type 0 where
  pub in_pass : (i : ℕ) (d : Db) → Others w pid d (s.before_round i d)
  pub at_claim : (d : Db) → Others w pid d (s.before_claim d)
  pub at_job : (d : Db) → Others w pid d (s.before_job d)
  pub at_attempt : (d : Db) → Others w pid d (s.before_attempt d)
  pub running : (d : Db) → Others w pid d (s.meanwhile d)

module _ (w : String) (pid : ℕ) (out_root lane : String) (slots : Option ℕ) where
  record_result-Reach :
      (now : Time) (job : Job) (attempt : Attempt) (r : RunResult) (db db' : Db)
      (state : Option JobState)
      → Holds db job.id attempt.id w pid
      → record_result w pid out_root lane slots now job attempt r db ≡ some (db', state)
      → Reach db db'
  unfolding record_result
  record_result-Reach now job attempt success db db' state holds e =
      let same : record_success job.id attempt.id w pid now db ≡ (db', state) = cc e in
      subst (λ s. Reach db s.0) same (next here (succeeds job.id attempt.id w pid now holds))
  record_result-Reach now job attempt (failure kind code error reason) db db' state holds e =
      next here (fails job.id attempt.id w pid kind code error now (some reason) db' state holds e)

  run_claimed-Reach :
      (s : Surroundings) (job : Job) (attempt : Attempt) (db db' : Db) (summary : Option Summary)
      → Holds (s.meanwhile db) job.id attempt.id w pid
      → run_claimed w pid out_root lane slots s job attempt db ≡ some (db', summary)
      → Reach (s.meanwhile db) db'
  unfolding run_claimed
  run_claimed-Reach s job attempt db db' summary holds e =
      let result = execute_attempt job s.ending in
      elim (Option-cases (
        record_result w pid out_root lane slots s.recorded_at job attempt result
          (s.meanwhile db))) [
            | inl n ↦ cc (rw (n, run_claimed) at e)
            | inr ((recorded, state), n) ↦
                let same : recorded ≡ db' = cc (rw (n, run_claimed) at e) in
                subst (λ d. Reach (s.meanwhile db) d) same
                  (record_result-Reach s.recorded_at job attempt result (s.meanwhile db) recorded
                    state holds n)
          ]

  module _ (s : Surroundings) (db : Db) (others : AmongOthers w pid s) where
    start-Reach : Reach db (start w pid out_root lane slots s db)
    start-Reach =
        Reach-append
          (reap_pass-Reach s.dead s.threshold s.reaped_at w s.before_round
            (λ i d. Others-Reach (others.in_pass i d)) db)
          (Others-Reach (others.at_claim _))

    after-Reach : Reach db (after w pid out_root lane slots s db)
    after-Reach =
        subst (λ d. Reach db d)
          (sym (
            transaction-claim_next w pid s.claimed_at out_root lane slots
              (start w pid out_root lane slots s db)))
          (next start-Reach (claims w pid s.claimed_at out_root lane slots))

    abbrev seen : Db
    seen = s.before_job (after w pid out_root lane slots s db)

    -- The cycle after the two rows are read back.
    read-Reach :
        (k a : ℕ) (o : Option Job) (p : Option Attempt) (db' : Db) (summary : Option Summary)
        → Inv db
        → found w pid out_root lane slots s db ≡ some (k, a)
        → get_job k seen ≡ o
        → get_attempt a (s.before_attempt seen) ≡ p
        → after_claim w pid out_root lane slots s (s.before_attempt seen, some (o, p))
          ≡ some (db', summary)
        → Reach db db'
    unfolding after_claim
    read-Reach k a none p db' summary v e at_job at_attempt run = cc run
    read-Reach k a (some job) none db' summary v e at_job at_attempt run = cc run
    read-Reach k a (some job) (some attempt) db' summary v e at_job at_attempt run =
        let u = Reach-Inv v start-Reach in
        let v1 = Reach-Inv v after-Reach in
        let first = others.at_job (after w pid out_root lane slots s db) in
        let second = others.at_attempt seen in
        let third = others.running (s.before_attempt seen) in
        let v2 = Others-Inv k a w pid v1 first in
        let v3 = Others-Inv k a w pid v2 second in
        let holds = transaction-Holds w pid s.claimed_at out_root lane slots _ k a u e in
        let later : Holds (s.meanwhile (s.before_attempt seen)) k a w pid =
          Others-Holds k a w pid v3
            (Others-Holds k a w pid v2 (Others-Holds k a w pid v1 holds first) second) third in
        let named : Holds (s.meanwhile (s.before_attempt seen)) job.id attempt.id w pid =
          subst (λ i. Holds (s.meanwhile (s.before_attempt seen)) job.id i w pid)
            (sym (get_attempt-id a (s.before_attempt seen) attempt at_attempt))
            (subst (λ i. Holds (s.meanwhile (s.before_attempt seen)) i a w pid)
              (sym (get_job-id k seen job at_job)) later) in
        Reach-append
          (Reach-append
            (Reach-append (Reach-append after-Reach (Others-Reach first)) (Others-Reach second))
            (Others-Reach third))
          (run_claimed-Reach s job attempt (s.before_attempt seen) db' summary named run)

  -- From a well-formed database, a whole cycle of a worker is a sequence of the store's transactions in
  -- which the worker records only an attempt that it holds, if all that happens to the database between
  -- the rounds of its reap pass, before and after its claim and while the child runs are transactions of
  -- others (any number, in any order, without a claim by this worker).
  pub process_one-Reach :
      (s : Surroundings) (db db' : Db) (summary : Option Summary)
      → Inv db
      → AmongOthers w pid s
      → process_one w pid out_root lane slots s db ≡ some (db', summary)
      → Reach db db'
  process_one-Reach s db db' summary v others e =
      elim (Option-cases (found w pid out_root lane slots s db)) [
        | inl n ↦
            let same : after w pid out_root lane slots s db ≡ db' =
              cc (idle_run w pid out_root lane slots s db n, e) in
            subst (λ d. Reach db d) same (after-Reach s db others)
        | inr ((k, a), n) ↦
            read-Reach s db others k a _ _ db' summary v n refl refl
              (sym (read_run w pid out_root lane slots s db k a n) ∙ e)
      ]
