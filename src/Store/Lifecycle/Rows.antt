-- ===== src/Store/Lifecycle/Rows.antt =====
-- What add_job_checked and prune_delete do to a job, in the abstract view.
use spoolctl.Base.{
  ℕ, suc, ◌≤◌, ◌≡◌, refl, ◌∙◌, ap, subst, inl, inr, Bool, true, false, List, [], ◌∷◌, Option, none,
  some, leb, String, arith, ◌==◌, ==_iff, Option-cases, Bool-cases, if◌then◌else◌,
}
use spoolctl.Models.{Time, Job, JobState}
use spoolctl.Sql.Laws.{All-first}
use spoolctl.Store.Db.{Db, has_id, get_job, add_event}
use spoolctl.Store.Submit.{Execution, Metadata, active_job, new_job, insert_job, add_job_checked}
use spoolctl.Store.Prune.{Deleted, delete_job, still_prunable, prune_one, prune_loop, prune_delete}
use spoolctl.Store.Invariant.{Inv}
use spoolctl.Store.Invariant.Grown.{inserted, fresh, get_job-inserted}
use spoolctl.Store.Invariant.Pruned.{get_job-delete_self, get_job-delete_other, prune_one-Inv}
use spoolctl.Store.Invariant.Effects.{get_job-id}
use spoolctl.Store.Lifecycle.{Life, lives, gone, life_of, life, Move, stays, born, pruned}

below : (db : Db) → Inv db → (k : ℕ) (row : Job) → get_job k db ≡ some row → k ≤ db.last_job
unfolding get_job
below db v k row e =
    subst (λ n. n ≤ db.last_job) (get_job-id k db row (unfold get_job in e))
      (All-first (λ j. j.id ≤ db.last_job) (has_id k) db.jobs row v.jobs_below e)

module _ (x : Execution) (now : Time) (key : Option String) (m : Metadata) (db : Db) (v : Inv db)
    (i : ℕ) where
  next_issued : (i == suc db.last_job) ≡ false → leb i (suc db.last_job) ≡ leb i db.last_job
  next_issued ne = ground arith

  not_issued : (i == suc db.last_job) ≡ true → leb i db.last_job ≡ false
  not_issued e = ground arith

  fresh_if :
      (b : Bool)
      → has_id i (new_job x now key m (suc db.last_job)) ≡ b
      → fresh x now key m db v i
        ≡ (if b then some (new_job x now key m (suc db.last_job)) else none)
  fresh_if b e = ap (λ c. if c then some (new_job x now key m (suc db.last_job)) else none) e

  fresh_hit :
      (i == suc db.last_job) ≡ true
      → fresh x now key m db v i ≡ some (new_job x now key m (suc db.last_job))
  unfolding new_job
  fresh_hit e = fresh_if true (ground arith)

  fresh_miss : (i == suc db.last_job) ≡ false → fresh x now key m db v i ≡ none
  unfolding new_job
  fresh_miss e = fresh_if false (ground arith)

  inserted-Move :
      (o : Option Job)
      → get_job i db ≡ o
      → Move (life_of o (leb i db.last_job)) (life i (inserted x now key m db v))
  inserted-Move (some j) e = rw (get_job-inserted x now key m db v i, e) (stays _)
  inserted-Move none e = elim (Bool-cases (i == suc db.last_job)) [
    | inl t ↦
        rw (get_job-inserted x now key m db v i, e, fresh_hit t, not_issued t)
          (unfold new_job in born)
    | inr t ↦ rw (get_job-inserted x now key m db v i, e, fresh_miss t, next_issued t) (stays _)
  ]

  pub add_job_checked-Move : Move (life i db) (life i (add_job_checked x now key m db).0)
  unfolding add_job_checked insert_job add_event get_job
  add_job_checked-Move = elim (Option-cases (active_job key db)) [
    | inl e ↦ rw (e, add_job_checked) (inserted-Move (get_job i db) refl)
    | inr (row, e) ↦ rw (e, add_job_checked) (stays _)
  ]

-- A job stays, or its row goes for good.
data Fade : Life → Life → Type 0 where
  keeps : (l : Life) → Fade l l
  goes : (s : JobState) → Fade (lives s) gone

Fade-Move : {l l' : Life} → Fade l l' → Move l l'
Fade-Move (keeps l) = stays l
Fade-Move (goes s) = pruned s

Fade-trans : {l l' l'' : Life} → Fade l l' → Fade l' l'' → Fade l l''
Fade-trans (keeps l) h = h
Fade-trans (goes s) (keeps _) = goes s

module _ (i : ℕ) where
  faded :
      (k : ℕ) (db : Db)
      → Inv db
      → get_job i (delete_job k db) ≡ none
      → (o : Option Job) → get_job i db ≡ o
      → Fade (life_of o (leb i db.last_job)) (life i (delete_job k db))
  unfolding delete_job
  faded k db v g none e = rw g (keeps _)
  faded k db v g (some j) e =
      let issued : leb i db.last_job ≡ true = ground (arith, below db v i j e) in
      rw (g, issued) (goes j.state)

  delete_job-Fade : (k : ℕ) (db : Db) → Inv db → Fade (life i db) (life i (delete_job k db))
  unfolding delete_job
  delete_job-Fade k db v = elim (Bool-cases (i == k)) [
    | inl t ↦
        faded k db v
          (ap (λ n. get_job n (delete_job k db)) ((==_iff i k).0 t) ∙ get_job-delete_self k db)
          (get_job i db) refl
    | inr t ↦ rw (get_job-delete_other k i db t) (keeps _)
  ]

  module _ (states : List JobState) (cutoff : Time) where
    prune_one-Fade :
        (k : ℕ) (s : Db × Deleted)
        → Inv s.0
        → Fade (life i s.0) (life i (prune_one states cutoff k s).0)
    unfolding prune_one
    prune_one-Fade k (db, d) v = elim (Bool-cases (still_prunable states cutoff k db)) [
      | inl t ↦ rw t (delete_job-Fade k db v)
      | inr t ↦ rw t (keeps _)
    ]

    prune_loop-Fade :
        (ks : List ℕ) (s : Db × Deleted)
        → Inv s.0
        → Fade (life i s.0) (life i (prune_loop states cutoff ks s).0)
    unfolding prune_loop
    prune_loop-Fade [] s v = keeps _
    prune_loop-Fade (k ∷ ks) s v =
        Fade-trans (prune_one-Fade k s v) (
          prune_loop-Fade ks (prune_one states cutoff k s)
            (prune_one-Inv states cutoff k s.0 s.1 v))

    pub prune_delete-Move :
        (ks : List ℕ) (db : Db)
        → Inv db
        → Move (life i db) (life i (prune_delete states cutoff ks db).0)
    unfolding prune_delete
    prune_delete-Move ks db v = Fade-Move (prune_loop-Fade ks _ v)
