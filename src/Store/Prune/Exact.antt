-- ===== src/Store/Prune/Exact.antt =====
-- The rows that store.prune_delete removes when it is given the ids of store.prune_matches.
use spoolctl.Base.{
  ℕ, ◌+◌, ◌<◌, ◌≡◌, refl, sym, ap, ◌∙◌, inl, inr, Bool, true, false, ◌||◌, List, [], ◌∷◌, Option,
  none, some, arith, All, any, length, sum_of, ◌==◌, Bool-cases,
}
use spoolctl.Models.{Time, JobState, Job}
use spoolctl.Sql.{delete, count, first}
use spoolctl.Sql.Laws.{All-imp, count-delete_other}
use spoolctl.Sql.Keys.{Ascending, Ascending-above, Ascending-weaken, Ascending-delete}
use spoolctl.Store.Db.{Db, has_id, of_job, event_of_job, get_job}
use spoolctl.Store.Prune.{
  Deleted, is_prunable, delete_job, count_deleted, still_prunable, prune_one, prune_loop,
}
use spoolctl.Store.Invariant.Pruned.{get_job-delete_other}

-- k in ks
abbrev pub is_among : List ℕ → ℕ → Bool
is_among ks k = any (λ i. k == i) ks

module _ {ℓ} {A : Type ℓ} where
  delete-delete :
      (p q : A → Bool) (xs : List A) → delete p (delete q xs) ≡ delete (λ x. q x || p x) xs
  unfolding delete
  delete-delete p q [] = refl
  delete-delete p q (x ∷ xs) = ground (arith, delete-delete p q xs)

  pub delete-alike :
      (p q : A → Bool) (xs : List A) → All (λ x. p x ≡ q x) xs → delete p xs ≡ delete q xs
  unfolding delete
  delete-alike p q [] h = refl
  delete-alike p q (x ∷ xs) h = ground (arith, h.0, delete-alike p q xs h.1)

  delete-nothing : (xs : List A) → delete (λ x. false) xs ≡ xs
  unfolding delete
  delete-nothing [] = refl
  delete-nothing (x ∷ xs) = ap (λ ys. x ∷ ys) (delete-nothing xs)

module _ {ℓ} {A : Type ℓ} (key : A → ℕ) where
  count-none_above :
      (k : ℕ) (xs : List A) → All (λ x. k < key x) xs → count (λ x. key x == k) xs ≡ 0
  unfolding count
  count-none_above k [] h = refl
  count-none_above k (x ∷ xs) h = ground (arith, h.0, count-none_above k xs h.1)

  -- A key that is there names one row.
  count-one_key :
      (k low : ℕ) (xs : List A) (a : A)
      → Ascending key low xs
      → first (λ x. key x == k) xs ≡ some a
      → count (λ x. key x == k) xs ≡ 1
  unfolding count first
  count-one_key k low [] a h e = cc
  count-one_key k low (x ∷ xs) a h e = elim (Bool-cases (key x == k)) [
    | inl t ↦ ground (
      arith,
      count-none_above k xs
          (Ascending-above key k xs (Ascending-weaken key k (key x) xs (ground arith) h.1)),
    )
    | inr t ↦ ground (arith, count-one_key k (key x) xs a h.1 (ground arith))
  ]

sum_of-alike : (f g : ℕ → ℕ) (ks : List ℕ) → All (λ k. f k ≡ g k) ks → sum_of f ks ≡ sum_of g ks
sum_of-alike f g [] h = refl
sum_of-alike f g (k ∷ ks) h = omega (arith, h.0, sum_of-alike f g ks h.1)

-- What the deletion of the jobs `ks` makes of a database and of the counts so far.
pub record Pruned (ks : List ℕ) (db : Db) (d : Deleted) (db' : Db) (d' : Deleted) : Type 0 where
  pub jobs : db'.jobs ≡ delete (λ j. is_among ks j.id) db.jobs
  pub attempts : db'.attempts ≡ delete (λ a. is_among ks a.job_id) db.attempts
  pub events : db'.events ≡ delete (λ e. is_among ks e.job_id) db.events
  pub job_count : d'.jobs ≡ d.jobs + length ks
  pub attempt_count : d'.attempts ≡ d.attempts + sum_of (λ k. count (of_job k) db.attempts) ks
  pub event_count : d'.events ≡ d.events + sum_of (λ k. count (event_of_job k) db.events) ks

module _ (states : List JobState) (cutoff : Time) where
  abbrev IsThere : Db → ℕ → Type 0
  IsThere db k = still_prunable states cutoff k db ≡ true

  still-IsThere :
      (db : Db) (k i : ℕ) → (i == k) ≡ false → IsThere db i → IsThere (delete_job k db) i
  unfolding still_prunable
  still-IsThere db k i ne t = rw (get_job-delete_other k i db ne, still_prunable) t

  one_row :
      (db : Db) (k : ℕ)
      → Ascending (λ j. j.id) 0 db.jobs
      → IsThere db k
      → count (has_id k) db.jobs ≡ 1
  unfolding still_prunable get_job
  one_row db k a t = by_row (first (has_id k) db.jobs) refl t
    where
      by_row :
          (o : Option Job)
          → first (has_id k) db.jobs ≡ o
          → elim o [ none ↦ false | some j ↦ is_prunable states cutoff j ] ≡ true
          → count (has_id k) db.jobs ≡ 1
      by_row none e t = cc
      by_row (some j) e t = count-one_key (λ j. j.id) k 0 db.jobs j a e

  -- A round: the first of the jobs is deleted, and the others are as they were.
  round-Pruned :
      (k : ℕ) (ks : List ℕ) (db db' : Db) (d d' : Deleted)
      → All (λ i. k < i) ks
      → count (has_id k) db.jobs ≡ 1
      → Pruned ks (delete_job k db) (count_deleted k db d) db' d'
      → Pruned (k ∷ ks) db d db' d'
  unfolding delete_job count_deleted
  round-Pruned k ks db db' d d' above one p = record {
    jobs = p.jobs ∙ delete-delete (λ j. is_among ks j.id) (has_id k) db.jobs;
    attempts = p.attempts ∙ delete-delete (λ a. is_among ks a.job_id) (of_job k) db.attempts;
    events = p.events ∙ delete-delete (λ e. is_among ks e.job_id) (event_of_job k) db.events;
    job_count = omega (arith, p.job_count, one);
    attempt_count = omega (
      arith,
      p.attempt_count,
      sum_of-alike (λ i. count (of_job i) (delete (of_job k) db.attempts))
          (λ i. count (of_job i) db.attempts) ks
          (All-imp (λ i. k < i) _
            (λ i h.
              count-delete_other (of_job i) (of_job k) db.attempts (λ a t. ground (arith, h, t)))
            ks above),
    );
    event_count = omega (
      arith,
      p.event_count,
      sum_of-alike (λ i. count (event_of_job i) (delete (event_of_job k) db.events))
          (λ i. count (event_of_job i) db.events) ks
          (All-imp (λ i. k < i) _
            (λ i h.
              count-delete_other (event_of_job i) (event_of_job k) db.events
                (λ e t. ground (arith, h, t)))
            ks above),
    );
  }

  -- The loop over ids that ascend, each of a job that may still be pruned.
  pub prune_loop-Pruned :
      (ks : List ℕ) (low : ℕ) (db : Db) (d : Deleted)
      → Ascending (λ k. k) low ks
      → All (λ k. still_prunable states cutoff k db ≡ true) ks
      → Ascending (λ j. j.id) 0 db.jobs
      → let r = prune_loop states cutoff ks (db, d) in Pruned ks db d r.0 r.1
  unfolding prune_loop prune_one
  prune_loop-Pruned [] low db d a t rows = record {
    jobs = sym (delete-nothing db.jobs);
    attempts = sym (delete-nothing db.attempts);
    events = sym (delete-nothing db.events);
    job_count = omega arith;
    attempt_count = omega arith;
    event_count = omega arith;
  }
  prune_loop-Pruned (k ∷ ks) low db d a t rows =
      rw (t.0, prune_loop)
        (round-Pruned k ks db _ d _ (Ascending-above (λ i. i) k ks a.1) (one_row db k rows t.0) (
          prune_loop-Pruned ks k (delete_job k db) (count_deleted k db d) a.1
            (All-later ks (Ascending-above (λ i. i) k ks a.1) t.1)
            (unfold delete_job in Ascending-delete (λ j. j.id) (has_id k) 0 db.jobs rows)))
    where
      All-later :
          (is : List ℕ)
          → All (λ i. k < i) is
          → All (λ i. still_prunable states cutoff i db ≡ true) is
          → All (λ i. still_prunable states cutoff i (delete_job k db) ≡ true) is
      All-later [] h t = tt
      All-later (i ∷ is) h t =
          (still-IsThere db k i (ground (arith, h.0)) t.0, All-later is h.1 t.1)
