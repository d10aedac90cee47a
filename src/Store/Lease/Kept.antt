-- ===== src/Store/Lease/Kept.antt =====
-- A lease through each transaction of others.
use spoolctl.Base.{
  ℕ, ◌≡◌, refl, sym, ◌∙◌, ap, subst, inl, inr, Bool, true, false, some, arith, String, ◌==◌, ==_iff,
  Option-cases, Bool-cases,
}
use spoolctl.Models.{Time, Job, Attempt, is_running}
use spoolctl.Sql.{update}
use spoolctl.Sql.Laws.{first-holds}
use spoolctl.Store.Db.{Db, owned_by, get_job, get_attempt, add_event}
use spoolctl.Store.Record.{
  record_success, write_success, finish_done, attempt_succeeds, is_open_attempt,
}
use spoolctl.Store.Invariant.{Inv}
use spoolctl.Store.Invariant.Attempts.{Open}
use spoolctl.Store.Invariant.Effects.{get_job-id}
use spoolctl.Store.Invariant.Recorded.{owns, Holds, count-owned}
use spoolctl.Store.Lifecycle.Writes.{Writes, updated-Writes, noted}
use spoolctl.Store.Lease.Writes.{Open-update, Holds-Writes, owns-running}

-- The attempt that a worker holds for another job is not the one open for this job.
other_attempt :
    (db : Db) (k k' attempt_id attempt_id' : ℕ) (o : Open db k attempt_id)
    → Open db k' attempt_id'
    → (k == k') ≡ false
    → is_open_attempt attempt_id' o.row ≡ false
unfolding get_attempt
other_attempt db k k' attempt_id attempt_id' o o' ne = elim (Bool-cases (o.row.id == attempt_id')) [
  | inr t ↦ rw t refl
  | inl t ↦
      let mine : (o.row.id == attempt_id) ≡ true =
        first-holds (λ a. a.id == attempt_id) db.attempts o.row o.found in
      let ids : attempt_id ≡ attempt_id' =
        sym ((==_iff o.row.id attempt_id).0 mine) ∙ (==_iff o.row.id attempt_id').0 t in
      let same : o.row ≡ o'.row = cc (ap (λ n. get_attempt n db) ids, o.found, o'.found) in
      let job : k ≡ k' = sym o.of_k ∙ ap (λ a. a.job_id) same ∙ o'.of_k in
      cc (ne, (==_iff k k').1 job)
]

module _ (db : Db) (k attempt_id : ℕ) (w : String) (pid : ℕ)
    (holds : Holds db k attempt_id w pid) where
  -- A write that ends the runs of job k' only.
  pub ended-Holds :
      (db' : Db) (k' : ℕ) (p : Job → Bool) (f : Job → Job)
      → Writes p f db db'
      → ((j : Job) → is_running (f j).state ≡ false)
      → ((row : Job)
          → get_job k db ≡ some row
          → owns w pid row ≡ true
          → (k == k') ≡ true
          → p row ≡ true)
      → (Open db k attempt_id → (k == k') ≡ false → Open db' k attempt_id)
      → Holds db' k attempt_id w pid
  ended-Holds db' k' p f written stops hits leaves =
      Holds-Writes db db' k attempt_id w pid p f written
        (λ row found hit own. absurd (ground (arith, owns-running w pid (f row) own, stops row)))
        (λ row found own o. elim (Bool-cases (p row)) [
          | inl t ↦ absurd (ground (arith, owns-running w pid (f row) (rw t at own), stops row))
          | inr t ↦ elim (Bool-cases (k == k')) [
            | inl here ↦ cc (hits row found (rw t at own) here, t)
            | inr away ↦ leaves o away
          ]
        ])
        holds

  module _ (k' attempt_id' : ℕ) (w' : String) (pid' : ℕ) (v : Inv db)
      (holds' : Holds db k' attempt_id' w' pid') where
    -- An outcome that another worker writes of its own job and attempt.
    pub settled-Holds :
        (db' : Db) (f : Job → Job) (g : Attempt → Attempt) (row' : Job)
        → get_job k' db ≡ some row'
        → owns w' pid' row' ≡ true
        → Writes (owned_by k' w' pid') f db db'
        → db'.attempts ≡ update (is_open_attempt attempt_id') g db.attempts
        → ((j : Job) → is_running (f j).state ≡ false)
        → ((a : Attempt) → (g a).id ≡ a.id)
        → Holds db' k attempt_id w pid
    settled-Holds db' f g row' found' own' written tries stops same_id =
        ended-Holds db' k' (owned_by k' w' pid') f written stops
          (λ row found own here.
            let same : row ≡ row' =
              cc (ap (λ n. get_job n db) ((==_iff k k').0 here), found, found') in
            subst (λ r. owned_by k' w' pid' r ≡ true) (sym same)
              (ground (arith, own', get_job-id k' db row' found')))
          (λ o away.
            Open-update db db' k attempt_id (is_open_attempt attempt_id') g tries same_id o
              (other_attempt db k k' attempt_id attempt_id' o (holds' row' found' own') away))

    pub record_success-Holds :
        (now : Time) → Holds (record_success k' attempt_id' w' pid' now db).0 k attempt_id w pid
    unfolding record_success
    record_success-Holds now = elim (Option-cases (get_job k' db)) [
      | inl e ↦ rw (count-owned k' w' pid' db v, e) holds
      | inr (row, e) ↦ elim (Bool-cases (owns w' pid' row)) [
        | inl own ↦
            rw (count-owned k' w' pid' db v, e, own)
              (settled-Holds (write_success k' attempt_id' w' pid' now db) (finish_done now)
                (attempt_succeeds now) row e own
                (unfold write_success in
                  noted _ _ _ _ _ (
                    updated-Writes (owned_by k' w' pid') (finish_done now) db _ (λ j. refl) refl
                      refl))
                (unfold write_success add_event in refl) (λ j. refl) (λ a. refl))
        | inr away ↦ rw (count-owned k' w' pid' db v, e, away) holds
      ]
    ]
