-- ===== src/Worker/Reaping.antt =====
-- worker.reap_pass: stale heartbeats nominate, the probe of the owner decides, and store.reap checks
-- again.
use spoolctl.Base.{
  ℕ, ◌-◌, ◌≡◌, refl, All, sym, ◌∙◌, ap, inl, inr, Bool, true, false, List, [], ◌∷◌, Option, none,
  some, arith, String, ◌==◌, ==_iff, if◌then◌else◌, Bool-cases, Option-cases,
}
use spoolctl.Models.{Time, Job, JobState}
use spoolctl.Store.Db.{Db, get_job}
use spoolctl.Store.Reap.{stale_running_candidates, reap}
use spoolctl.Store.Invariant.{Inv}
use spoolctl.Store.Invariant.Recovered.{is_lost, reap-Inv, reap-other, reap-not_lost}

-- Whether the probe proves the process dead, for each pid.
abbrev pub Oracle : Type 0
Oracle = ℕ → Bool

abbrev pub last_or : Db → List (Db × Db) → Db
last_or db [] = db
last_or db ((before, after) ∷ rounds) = last_or after rounds

module _ (dead : Oracle) (cutoff now : Time) (reaper : String) where
  abbrev add_id : ℕ → Option JobState → List ℕ → List ℕ
  add_id k none reaped = reaped
  add_id k (some state) reaped = k ∷ reaped

  -- One round of the loop; the ids reaped are collected behind it.
  unfoldable pub reap_candidate : Job → Db → Db × Option JobState
  reap_candidate job db = elim job.locked_pid [
    | none ↦ (db, none)
    | some pid ↦ if dead pid then reap job.id pid cutoff now reaper db else (db, none)
  ]

  -- What others commit before each round, by the id of its candidate: the candidates were read by a
  -- statement of its own, and the probes take their time.
  module _ (between : ℕ → Db → Db) where
    unfoldable pub reap_candidates : List Job → Db → Db × List ℕ
    unfolding reap_candidate
    reap_candidates [] db = (db, [])
    reap_candidates (job ∷ jobs) db =
        let (db', state) = reap_candidate job (between job.id db) in
        let (db'', reaped) = reap_candidates jobs db' in (db'', add_id job.id state reaped)

    -- The database before and after each round of the same loop.
    unfoldable pub reap_rounds : List Job → Db → List (Db × Db)
    unfolding reap_candidate
    reap_rounds [] db = []
    reap_rounds (job ∷ jobs) db =
        let seen = between job.id db in
        let after = (reap_candidate job seen).0 in (seen, after) ∷ reap_rounds jobs after

-- `threshold` is what reap_threshold gives: the default, or the environment's.
module _ (dead : Oracle) (threshold now : Time) (reaper : String) (between : ℕ → Db → Db) where
  unfoldable pub reap_pass : Db → Db × List ℕ
  unfolding reap_candidates
  reap_pass db =
      let cutoff = now - threshold in
      reap_candidates dead cutoff now reaper between (stale_running_candidates cutoff db) db

  unfoldable pub pass_rounds : Db → List (Db × Db)
  unfolding reap_rounds
  pass_rounds db =
      let cutoff = now - threshold in
      reap_rounds dead cutoff now reaper between (stale_running_candidates cutoff db) db

module _ (dead : Oracle) (cutoff now : Time) (reaper : String) where
  reap_candidate-Inv :
      (job : Job) (db : Db) → Inv db → Inv (reap_candidate dead cutoff now reaper job db).0
  unfolding reap_candidate
  reap_candidate-Inv job db v = elim (Option-cases job.locked_pid) [
    | inl e ↦ rw (e, reap_candidate) v
    | inr (pid, e) ↦ elim (Bool-cases (dead pid)) [
      | inl t ↦ rw (e, t, reap_candidate) (reap-Inv job.id pid cutoff now reaper db v)
      | inr t ↦ rw (e, t, reap_candidate) v
    ]
  ]

module _ (dead : Oracle) (cutoff now : Time) (reaper : String) (k : ℕ) (row : Job)
    (living : (pid : ℕ) → row.locked_pid ≡ some pid → dead pid ≡ false) where
  not_lost_to : (pid : ℕ) → dead pid ≡ true → is_lost pid cutoff row ≡ false
  not_lost_to pid d = elim (Option-cases row.locked_pid) [
    | inl e ↦ ground arith
    | inr (owner, e) ↦ elim (Bool-cases (owner == pid)) [
      | inl t ↦ absurd (ground (arith, living owner e, ap dead ((==_iff owner pid).0 t), d))
      | inr t ↦ ground arith
    ]
  ]

  -- A row is left alone by a reap that names a pid which is not its owner's.
  reap-kept :
      (pid i : ℕ) (db : Db)
      → Inv db
      → dead pid ≡ true
      → get_job k db ≡ some row
      → get_job k (reap i pid cutoff now reaper db).0 ≡ some row
  reap-kept pid i db v d e = elim (Bool-cases (k == i)) [
    | inl t ↦
        let same : k ≡ i = (==_iff k i).0 t in
        let kept : (reap i pid cutoff now reaper db).0 ≡ db =
          reap-not_lost i pid cutoff now reaper db v row (ap (λ n. get_job n db) (sym same) ∙ e)
            (not_lost_to pid d) in
        ap (get_job k) kept ∙ e
    | inr t ↦ reap-other i pid cutoff now reaper db v k t ∙ e
  ]

  reap_candidate-kept :
      (job : Job) (db : Db)
      → Inv db
      → get_job k db ≡ some row
      → get_job k (reap_candidate dead cutoff now reaper job db).0 ≡ some row
  unfolding reap_candidate
  reap_candidate-kept job db v found = elim (Option-cases job.locked_pid) [
    | inl e ↦ rw (e, reap_candidate) found
    | inr (pid, e) ↦ elim (Bool-cases (dead pid)) [
      | inl t ↦ rw (e, t, reap_candidate) (reap-kept pid job.id db v t found)
      | inr t ↦ rw (e, t, reap_candidate) found
    ]
  ]

-- Unless the pid that locks the row of k is proved dead, the row stays as it is.
abbrev pub KeepsRow : Oracle → ℕ → Db × Db → Type 0
KeepsRow dead k (before, after) =
    (row : Job)
    → get_job k before ≡ some row
    → ((pid : ℕ) → row.locked_pid ≡ some pid → dead pid ≡ false)
    → get_job k after ≡ some row

module _ (dead : Oracle) (cutoff now : Time) (reaper : String) (between : ℕ → Db → Db)
    (keep : (i : ℕ) (db : Db) → Inv db → Inv (between i db)) where
  reap_rounds-spare :
      (k : ℕ) (jobs : List Job) (db : Db)
      → Inv db
      → All (KeepsRow dead k) (reap_rounds dead cutoff now reaper between jobs db)
  unfolding reap_rounds
  reap_rounds-spare k [] db v = tt
  reap_rounds-spare k (job ∷ jobs) db v =
      let u : Inv (between job.id db) = keep job.id db v in
      (
        λ row found living.
            reap_candidate-kept dead cutoff now reaper k row living job (between job.id db) u found,
        reap_rounds-spare k jobs _ (reap_candidate-Inv dead cutoff now reaper job _ u),
      )

  reap_candidates-Inv :
      (jobs : List Job) (db : Db)
      → Inv db
      → Inv (reap_candidates dead cutoff now reaper between jobs db).0
  unfolding reap_candidates
  reap_candidates-Inv [] db v = v
  reap_candidates-Inv (job ∷ jobs) db v =
      reap_candidates-Inv jobs _
        (reap_candidate-Inv dead cutoff now reaper job _ (keep job.id db v))

  -- The last database of the rounds is the one that the loop leaves.
  rounds-last :
      (jobs : List Job) (db : Db)
      → last_or db (reap_rounds dead cutoff now reaper between jobs db)
        ≡ (reap_candidates dead cutoff now reaper between jobs db).0
  unfolding reap_rounds reap_candidates
  rounds-last [] db = refl
  rounds-last (job ∷ jobs) db = rounds-last jobs _

module _ (dead : Oracle) (threshold now : Time) (reaper : String) (between : ℕ → Db → Db)
    (keep : (i : ℕ) (db : Db) → Inv db → Inv (between i db)) where
  -- From a well-formed database, with others committing anything that keeps it so between the rounds of
  -- a reap pass: each round, however stale its candidate is by then, leaves a job's row as it is unless
  -- the pid that locks the row when the round begins is proved dead, so never is a job reclaimed while
  -- the process that owns it is alive, or may be; and the rounds are those that lead to the database
  -- that the pass leaves.
  pub reap_pass-spares :
      (db : Db) (k : ℕ)
      → Inv db
      → All (KeepsRow dead k) (pass_rounds dead threshold now reaper between db)
        × (last_or db (pass_rounds dead threshold now reaper between db)
            ≡ (reap_pass dead threshold now reaper between db).0)
  unfolding reap_pass pass_rounds
  reap_pass-spares db k v =
      let cutoff = now - threshold in
      (
        reap_rounds-spare dead cutoff now reaper between keep k (stale_running_candidates cutoff db)
            db v,
        rounds-last dead cutoff now reaper between keep (stale_running_candidates cutoff db) db,
      )

  -- A reap pass keeps the database well formed.
  pub reap_pass-Inv : (db : Db) → Inv db → Inv (reap_pass dead threshold now reaper between db).0
  unfolding reap_pass
  reap_pass-Inv db v =
      reap_candidates-Inv dead (now - threshold) now reaper between keep
        (stale_running_candidates (now - threshold) db) db v
