-- ===== src/Store/Invariant/Pruned.antt =====
-- The invariant under prune_delete.
use spoolctl.Base.{
  ℕ, ◌≡◌, sym, ◌∙◌, subst, inl, inr, Bool, false, List, [], ◌∷◌, none, arith, ◌==◌, ==_iff,
  Bool-cases,
}
use spoolctl.Models.{Time, JobState, Attempt}
use spoolctl.Sql.{delete, count}
use spoolctl.Sql.Laws.{
  All-delete, first-delete_self, first-delete_other, count-delete_self, count-delete_other,
  count-le,
}
use spoolctl.Sql.Keys.{Ascending-delete, one_if}
use spoolctl.Store.Db.{Db, has_id, of_job, event_of_job, running_of_job, get_job}
use spoolctl.Store.Prune.{Deleted, delete_job, still_prunable, prune_one, prune_loop, prune_delete}
use spoolctl.Store.Invariant.{Rising, is_running_row, Inv}

Rising-delete : (p : Attempt → Bool) (as' : List Attempt) → Rising as' → Rising (delete p as')
unfolding delete
Rising-delete p [] h = tt
Rising-delete p (a ∷ as') h = elim (Bool-cases (p a)) [
  | inl e ↦ rw e (Rising-delete p as' h.1)
  | inr e ↦ rw e (All-delete _ p as' h.0, Rising-delete p as' h.1)
]

pub get_job-delete_self : (k : ℕ) (db : Db) → get_job k (delete_job k db) ≡ none
unfolding get_job delete_job
get_job-delete_self k db = first-delete_self (has_id k) db.jobs

pub get_job-delete_other :
    (k i : ℕ) (db : Db) → (i == k) ≡ false → get_job i (delete_job k db) ≡ get_job i db
unfolding get_job delete_job
get_job-delete_other k i db ne =
    first-delete_other (has_id i) (has_id k) db.jobs (λ j e. ground arith)

-- Deleting a job with its attempts and its events keeps the database well formed: the foreign keys
-- stay intact.
pub delete_job-Inv : (k : ℕ) (db : Db) → Inv db → Inv (delete_job k db)
unfolding delete_job
delete_job-Inv k db v = record {
  jobs_ok = All-delete _ (has_id k) db.jobs v.jobs_ok;
  job_ids = Ascending-delete (λ j. j.id) (has_id k) 0 db.jobs v.job_ids;
  jobs_below = All-delete _ (has_id k) db.jobs v.jobs_below;
  attempts_ok = All-delete _ (of_job k) db.attempts v.attempts_ok;
  attempt_ids = Ascending-delete (λ a. a.id) (of_job k) 0 db.attempts v.attempt_ids;
  attempts_below = All-delete _ (of_job k) db.attempts v.attempts_below;
  rising = Rising-delete (of_job k) db.attempts v.rising;
  event_ids = Ascending-delete (λ e. e.id) (event_of_job k) 0 db.events v.event_ids;
  events_below = All-delete _ (event_of_job k) db.events v.events_below;
  one_open = λ i. elim (Bool-cases (i == k)) [
    | inl t ↦
        subst
          (λ n.
            count (running_of_job n) (delete (of_job k) db.attempts)
            ≡ one_if is_running_row (get_job n (delete_job k db)))
          (sym ((==_iff i k).0 t)) (rw (get_job-delete_self k db) none_open)
    | inr t ↦ rw (get_job-delete_other k i db t) (
        count-delete_other (running_of_job i) (of_job k) db.attempts (λ a e. ground arith)
        ∙ v.one_open i)
  ];
  attempt_refs = λ i e. elim (Bool-cases (i == k)) [
    | inl t ↦
        subst (λ n. count (of_job n) (delete (of_job k) db.attempts) ≡ 0) (sym ((==_iff i k).0 t))
          (count-delete_self (of_job k) db.attempts)
    | inr t ↦
        count-delete_other (of_job i) (of_job k) db.attempts (λ a e. ground arith)
        ∙ v.attempt_refs i (sym (get_job-delete_other k i db t) ∙ e)
  ];
  event_refs = λ i e. elim (Bool-cases (i == k)) [
    | inl t ↦
        subst (λ n. count (event_of_job n) (delete (event_of_job k) db.events) ≡ 0)
          (sym ((==_iff i k).0 t)) (count-delete_self (event_of_job k) db.events)
    | inr t ↦
        count-delete_other (event_of_job i) (event_of_job k) db.events (λ a e. ground arith)
        ∙ v.event_refs i (sym (get_job-delete_other k i db t) ∙ e)
  ];
}
  where
    none_open : count (running_of_job k) (delete (of_job k) db.attempts) ≡ 0
    none_open = omega (
      arith,
      count-delete_self (of_job k) db.attempts,
      count-le (running_of_job k) (of_job k) (delete (of_job k) db.attempts) (λ a e. ground arith),
    )

module _ (states : List JobState) (cutoff : Time) where
  pub prune_one-Inv :
      (k : ℕ) (db : Db) (d : Deleted) → Inv db → Inv (prune_one states cutoff k (db, d)).0
  unfolding prune_one
  prune_one-Inv k db d v = elim (Bool-cases (still_prunable states cutoff k db)) [
    | inl t ↦ rw t (delete_job-Inv k db v)
    | inr t ↦ rw t v
  ]

  prune_loop-Inv :
      (ks : List ℕ) (s : Db × Deleted) → Inv s.0 → Inv (prune_loop states cutoff ks s).0
  unfolding prune_loop
  prune_loop-Inv [] s v = v
  prune_loop-Inv (k ∷ ks) s v =
      prune_loop-Inv ks (prune_one states cutoff k s) (prune_one-Inv k s.0 s.1 v)

  -- So does a whole prune.
  pub prune_delete-Inv : (ks : List ℕ) (db : Db) → Inv db → Inv (prune_delete states cutoff ks db).0
  unfolding prune_delete
  prune_delete-Inv ks db v = prune_loop-Inv ks _ v
