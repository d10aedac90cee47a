-- ===== src/Store/Invariant/Edits.antt =====
-- How the invariant passes through a write of one job's row in place, with the attempts that go
-- with it.
use spoolctl.Base.{
  ℕ, ◌≤◌, ◌≡◌, refl, sym, ◌∙◌, ap, subst, inl, inr, Bool, true, false, List, Option, none, some,
  arith, All, ◌==◌, ==_iff, Bool-cases,
}
use spoolctl.Models.{Job, Attempt}
use spoolctl.Sql.{update, count}
use spoolctl.Sql.Laws.{map_if, All-update, All-update_with, first-update}
use spoolctl.Sql.Keys.{Ascending, Ascending-update, All-at_key, one_if}
use spoolctl.Store.Db.{Db, has_id, of_job, running_of_job, get_job}
use spoolctl.Store.Invariant.{JobOk, AttemptOk, Rising, is_running_row, Inv}
use spoolctl.Store.Invariant.Effects.{get_job-id, SameTries}

-- What the invariant asks of the attempts that go with an edit of job k.
pub record TriesKept (db : Db) (k : ℕ) (as' : List Attempt) (last : ℕ) : Type 0 where
  pub ok : Inv db → All AttemptOk as'
  pub ids : Inv db → Ascending (λ a. a.id) 0 as'
  pub below : Inv db → All (λ a. a.id ≤ last) as'
  pub rising : Inv db → Rising as'
  pub refs : (i : ℕ) → (i == k) ≡ false → count (of_job i) as' ≡ count (of_job i) db.attempts

-- An edit of the job `row` that is found under `k`, with the attempts that go with it, which may
-- have one more row.
module _ (db : Db) (k : ℕ) (row : Job) (p : Job → Bool) (f : Job → Job) (as' : List Attempt)
    (last : ℕ) where
  abbrev pub grown : Db
  grown = record db { jobs = update p f db.jobs; attempts = as'; last_attempt = last }

  module _ (found : get_job k db ≡ some row) (hit : p row ≡ true)
      (same_id : (j : Job) → (f j).id ≡ j.id) where
    pub get_job-grown : get_job k grown ≡ some (f row)
    unfolding get_job
    get_job-grown =
        first-update (has_id k) p f db.jobs (λ j. ap (λ (n : ℕ). n == k) (same_id j))
        ∙ rw (found, hit) refl

    module _ (names : (j : Job) → p j ≡ true → j.id ≡ k) where
      untouched :
          (i : ℕ) → (i == k) ≡ false → (o : Option Job) → get_job i db ≡ o → map_if p f o ≡ o
      untouched i ne none e = refl
      untouched i ne (some j) e = elim (Bool-cases (p j)) [
        | inl t ↦ absurd (ground (arith, names j t, get_job-id i db j e))
        | inr t ↦ rw t refl
      ]

      pub get_job-grown_other : (i : ℕ) → (i == k) ≡ false → get_job i grown ≡ get_job i db
      unfolding get_job
      get_job-grown_other i ne =
          first-update (has_id i) p f db.jobs (λ j. ap (λ (n : ℕ). n == i) (same_id j))
          ∙ untouched i ne (get_job i db) refl

      missing : (i : ℕ) → get_job i grown ≡ none → (i == k) ≡ false
      missing i e = elim (Bool-cases (i == k)) [
        | inl t ↦ cc (ap (λ n. get_job n grown) ((==_iff i k).0 t), get_job-grown)
        | inr t ↦ t
      ]

      gone : (i : ℕ) → get_job i grown ≡ none → get_job i db ≡ none
      gone i e = cc (get_job-grown_other i (missing i e))

      only_row : Inv db → All (λ j. (j.id == k) ≡ true → j ≡ row) db.jobs
      unfolding get_job
      only_row v = All-at_key (λ j. j.id) k 0 db.jobs row v.job_ids found

      pub grown-Inv :
          (JobOk row → JobOk (f row))
          → TriesKept db k as' last
          → ((i : ℕ)
              → (i == k) ≡ false
              → count (running_of_job i) as' ≡ count (running_of_job i) db.attempts)
          → count (running_of_job k) as' ≡ one_if is_running_row (some (f row))
          → Inv db
          → Inv grown
      grown-Inv good same other here v = record {
        jobs_ok =
            All-update_with JobOk (λ j. (j.id == k) ≡ true → j ≡ row) p f db.jobs
              (λ j t only ok.
                let e : j ≡ row = only ((==_iff j.id k).1 (names j t)) in
                subst (λ i. JobOk (f i)) (sym e) (good (subst JobOk e ok)))
              (only_row v) v.jobs_ok;
        job_ids = Ascending-update (λ j. j.id) p f 0 db.jobs same_id v.job_ids;
        jobs_below =
            All-update (λ j. j.id ≤ db.last_job) p f db.jobs (λ j _ h. omega (arith, same_id j))
              v.jobs_below;
        attempts_ok = same.ok v;
        attempt_ids = same.ids v;
        attempts_below = same.below v;
        rising = same.rising v;
        event_ids = v.event_ids;
        events_below = v.events_below;
        one_open = λ i. elim (Bool-cases (i == k)) [
          | inl t ↦
              subst (λ n. count (running_of_job n) as' ≡ one_if is_running_row (get_job n grown))
                (sym ((==_iff i k).0 t)) (rw get_job-grown here)
          | inr t ↦ rw (other i t, get_job-grown_other i t) (v.one_open i)
        ];
        attempt_refs = λ i e. same.refs i (missing i e) ∙ v.attempt_refs i (gone i e);
        event_refs = λ i e. v.event_refs i (gone i e);
      }

module _ (db : Db) (k : ℕ) (row : Job) (p : Job → Bool) (f : Job → Job) (as' : List Attempt) where
  abbrev pub edited : Db
  edited = grown db k row p f as' db.last_attempt

  module _ (found : get_job k db ≡ some row) (hit : p row ≡ true)
      (same_id : (j : Job) → (f j).id ≡ j.id) where
    pub get_job-edited : get_job k edited ≡ some (f row)
    get_job-edited = get_job-grown db k row p f as' db.last_attempt found hit same_id

    -- The same where no row is added.
    pub edited-Inv :
        ((j : Job) → p j ≡ true → j.id ≡ k)
        → (JobOk row → JobOk (f row))
        → SameTries db.attempts as'
        → ((i : ℕ)
            → (i == k) ≡ false
            → count (running_of_job i) as' ≡ count (running_of_job i) db.attempts)
        → count (running_of_job k) as' ≡ one_if is_running_row (some (f row))
        → Inv db
        → Inv edited
    edited-Inv names good same other here v =
        grown-Inv db k row p f as' db.last_attempt found hit same_id names good
          (record {
            ok = λ u. same.ok u.attempts_ok;
            ids = λ u. same.ids u.attempt_ids;
            below = λ u. same.below db.last_attempt u.attempts_below;
            rising = λ u. same.rising u.rising;
            refs = λ i _. same.refs i;
          })
          other here v
