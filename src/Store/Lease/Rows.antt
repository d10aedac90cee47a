-- ===== src/Store/Lease/Rows.antt =====
-- A lease through claims of others, submissions and prunes.
use spoolctl.Base.{
  ℕ, ◌≡◌, refl, sym, ◌∙◌, ap, subst, inl, inr, Bool, true, false, ◌&&◌, List, [], ◌∷◌, Option, some,
  arith, String, ◌==◌, ==_iff, str_eq, Option-cases, Bool-cases, All,
}
use spoolctl.Models.{Time, Attempt, JobState}
use spoolctl.Sql.{first, delete}
use spoolctl.Sql.Laws.{first-append, All-imp}
use spoolctl.Sql.Keys.{All-at_key}
use spoolctl.Store.Db.{Db, has_id, of_job, get_job, get_attempt, add_event}
use spoolctl.Store.Invariant.{Inv}
use spoolctl.Store.Invariant.Recorded.{owns, Holds}
use spoolctl.Store.Lifecycle.Writes.{updated-Writes, noted}
use spoolctl.Store.Lease.Writes.{Holds-Writes}
use spoolctl.Store.Claim.{claim_next, take_job, new_attempt, lock, slots_full, next_eligible}
use spoolctl.Store.Submit.{Execution, Metadata, active_job, new_job, insert_job, add_job_checked}
use spoolctl.Store.Prune.{Deleted, delete_job, still_prunable, prune_one, prune_loop, prune_delete}
use spoolctl.Store.Invariant.Grown.{inserted, fresh, get_job-inserted}
use spoolctl.Store.Invariant.Pruned.{get_job-delete_self, get_job-delete_other, prune_one-Inv}

-- Deleting rows that the test does not name.
first-delete_kept :
    (q p : Attempt → Bool) (xs : List Attempt)
    → All (λ x. q x ≡ true → p x ≡ false) xs
    → first q (delete p xs) ≡ first q xs
unfolding first delete
first-delete_kept q p [] h = refl
first-delete_kept q p (x ∷ xs) h = ground (arith, h.0, first-delete_kept q p xs h.1)

module _ (db : Db) (k attempt_id : ℕ) (w : String) (pid : ℕ)
    (holds : Holds db k attempt_id w pid) where
  take_job-Holds :
      (w' : String) (pid' : ℕ) (now : Time) (out_root : String) (k' : ℕ)
      → (str_eq w' w && pid' == pid) ≡ false
      → Holds (take_job w' pid' now out_root k' db) k attempt_id w pid
  unfolding take_job get_attempt
  take_job-Holds w' pid' now out_root k' other =
      Holds-Writes db (take_job w' pid' now out_root k' db) k attempt_id w pid (has_id k')
        (lock w' pid' now)
        (noted _ _ _ _ _ (updated-Writes (has_id k') (lock w' pid' now) db _ (λ j. refl) refl refl))
        (λ row found hit own. absurd (ground (arith, own, other)))
        (λ row found own o. record {
          row = o.row;
          found =
              unfold add_event in
              (first-append (λ a. a.id == attempt_id) db.attempts
                  (new_attempt w' pid' now out_root k' db)
                ∙ rw o.found refl);
          of_k = o.of_k;
          runs = o.runs;
        })
        holds

  pub claim_next-Holds :
      (w' : String) (pid' : ℕ) (now : Time) (out_root lane : String) (slots : Option ℕ)
      → (str_eq w' w && pid' == pid) ≡ false
      → Holds (claim_next w' pid' now out_root lane slots db).0 k attempt_id w pid
  unfolding claim_next
  claim_next-Holds w' pid' now out_root lane slots other =
      elim (Bool-cases (slots_full lane slots db)) [
        | inl full ↦ rw full holds
        | inr free ↦ elim (Option-cases (next_eligible now lane db)) [
          | inl e ↦ rw (free, e, claim_next) holds
          | inr (row, e) ↦
              rw (free, e, claim_next) (take_job-Holds w' pid' now out_root row.id other)
        ]
      ]

  module _ (x : Execution) (now : Time) (key : Option String) (m : Metadata) (v : Inv db) where
    -- The row that is inserted is queued, so nobody owns it.
    inserted-Holds : Holds (inserted x now key m db v) k attempt_id w pid
    unfolding get_attempt
    inserted-Holds row' found' own' = elim (Option-cases (get_job k db)) [
      | inr (row, n) ↦
          let same : row ≡ row' = ground (arith, get_job-inserted x now key m db v k, n, found') in
          let o = holds row n (subst (λ r. owns w pid r ≡ true) (sym same) own') in
          record { row = o.row; found = o.found; of_k = o.of_k; runs = o.runs }
      | inl n ↦ absurd (unowned (rw (get_job-inserted x now key m db v k, n) at found'))
    ]
      where
        unowned : fresh x now key m db v k ≡ some row' → ⊥
        unowned e = unfold new_job in ground (arith, e, own')

    pub add_job_checked-Holds : Holds (add_job_checked x now key m db).0 k attempt_id w pid
    unfolding add_job_checked insert_job add_event get_job get_attempt
    add_job_checked-Holds = elim (Option-cases (active_job key db)) [
      | inl e ↦
          rw (e, add_job_checked)
            (λ row' found' own'.
              let o = inserted-Holds row' found' own' in
              record { row = o.row; found = o.found; of_k = o.of_k; runs = o.runs })
      | inr (row, e) ↦ rw (e, add_job_checked) holds
    ]

module _ (k attempt_id : ℕ) (w : String) (pid : ℕ) where
  delete_job-Holds :
      (k' : ℕ) (db : Db)
      → Inv db
      → Holds db k attempt_id w pid
      → Holds (delete_job k' db) k attempt_id w pid
  unfolding delete_job get_attempt
  delete_job-Holds k' db v holds row' found' own' = elim (Bool-cases (k == k')) [
    | inl t ↦ cc (
      ap (λ n. get_job n (delete_job k' db)) ((==_iff k k').0 t),
      get_job-delete_self k' db,
      found',
    )
    | inr t ↦
        let o = holds row' (sym (get_job-delete_other k' k db t) ∙ found') own' in
        record {
          row = o.row;
          found =
              first-delete_kept (λ a. a.id == attempt_id) (of_job k') db.attempts
                (All-imp (λ a. (a.id == attempt_id) ≡ true → a ≡ o.row) _
                  (λ a only hit.
                    let job : a.job_id ≡ k = ap (λ b. b.job_id) (only hit) ∙ o.of_k in
                    ground (arith, job, t))
                  db.attempts
                  (All-at_key (λ a. a.id) attempt_id 0 db.attempts o.row v.attempt_ids o.found))
              ∙ o.found;
          of_k = o.of_k;
          runs = o.runs;
        }
  ]

  module _ (states : List JobState) (cutoff : Time) where
    prune_one-Holds :
        (k' : ℕ) (s : Db × Deleted)
        → Inv s.0
        → Holds s.0 k attempt_id w pid
        → Holds (prune_one states cutoff k' s).0 k attempt_id w pid
    unfolding prune_one
    prune_one-Holds k' (db, d) v holds = elim (Bool-cases (still_prunable states cutoff k' db)) [
      | inl t ↦ rw t (delete_job-Holds k' db v holds)
      | inr t ↦ rw t holds
    ]

    prune_loop-Holds :
        (ks : List ℕ) (s : Db × Deleted)
        → Inv s.0
        → Holds s.0 k attempt_id w pid
        → Holds (prune_loop states cutoff ks s).0 k attempt_id w pid
    unfolding prune_loop
    prune_loop-Holds [] s v holds = holds
    prune_loop-Holds (k' ∷ ks) s v holds =
        prune_loop-Holds ks (prune_one states cutoff k' s)
          (prune_one-Inv states cutoff k' s.0 s.1 v) (prune_one-Holds k' s v holds)

    pub prune_delete-Holds :
        (ks : List ℕ) (db : Db)
        → Inv db
        → Holds db k attempt_id w pid
        → Holds (prune_delete states cutoff ks db).0 k attempt_id w pid
    unfolding prune_delete
    prune_delete-Holds ks db v holds = prune_loop-Holds ks _ v holds
