-- ===== src/Store/Prune/Matched.antt =====
-- The ids of store.prune_matches: they are those of the jobs that may be pruned, and deleting them
-- removes these jobs and what belongs to them.
use spoolctl.Base.{
  ℕ, suc, ◌<◌, ◌≡◌, refl, sym, ap, subst, ◌∙◌, inl, inr, Bool, true, false, List, [], ◌∷◌, Option,
  none, some, arith, All, map, length, sum_of, ◌==◌, Bool-cases,
}
use spoolctl.Models.{Time, JobState, Job}
use spoolctl.Sql.{select, delete, count, first, order_by, insert_by}
use spoolctl.Sql.Laws.{All-imp, All-of}
use spoolctl.Sql.Keys.{Ascending, Ascending-above, Ascending-weaken, All-found}
use spoolctl.Sql.Limit.{Ascending-select}
use spoolctl.Store.Db.{Db, of_job, event_of_job, get_job, get_attempts}
use spoolctl.Store.Prune.{
  Deleted, PruneMatch, is_prunable, prune_match, prune_matches, still_prunable, prune_delete,
}
use spoolctl.Store.Prune.Exact.{is_among, delete-alike, prune_loop-Pruned}
use spoolctl.Store.Invariant.{Inv}

abbrev holds_of {ℓ} : {A : Type ℓ} → (A → Bool) → Option A → Bool
holds_of p none = false
holds_of p (some x) = p x

module _ {ℓ} {A : Type ℓ} (key : A → ℕ) where
  among-above :
      (k : ℕ) (p : A → Bool) (xs : List A)
      → All (λ x. k < key x) xs
      → is_among (map key (select p xs)) k ≡ false
  unfolding select
  among-above k p [] h = refl
  among-above k p (x ∷ xs) h = elim (Bool-cases (p x)) [
    | inl t ↦ rw t (ground (arith, h.0, among-above k p xs h.1))
    | inr t ↦ rw t (among-above k p xs h.1)
  ]

  -- A key is among those selected exactly when its row passes the test.
  among-select :
      (k low : ℕ) (p : A → Bool) (xs : List A)
      → Ascending key low xs
      → is_among (map key (select p xs)) k ≡ holds_of p (first (λ x. key x == k) xs)
  unfolding select first
  among-select k low p [] h = refl
  among-select k low p (x ∷ xs) h =
      let later = among-select k (key x) p xs h.1 in
      elim (Bool-cases (key x == k)) [
        | inl t ↦
            let gone =
              among-above k p xs
                (Ascending-above key k xs (Ascending-weaken key k (key x) xs (ground arith) h.1)) in
            elim (Bool-cases (p x)) [
              | inl e ↦ rw (t, e) (ground (arith, t))
              | inr e ↦ rw (t, e) gone
            ]
        | inr t ↦ elim (Bool-cases (p x)) [
          | inl e ↦ rw (t, e) (ground (arith, t, later))
          | inr e ↦ rw (t, e) later
        ]
      ]

Ascending-map :
    {A : Type 0} (key : A → ℕ) (low : ℕ) (xs : List A)
    → Ascending key low xs
    → Ascending (λ k. k) low (map key xs)
Ascending-map key low [] h = tt
Ascending-map key low (x ∷ xs) h = (h.0, Ascending-map key (key x) xs h.1)

length-map : {A B : Type 0} (f : A → B) (xs : List A) → length (map f xs) ≡ length xs
length-map f [] = refl
length-map f (x ∷ xs) = omega (arith, length-map f xs)

length-select : {A : Type 0} (p : A → Bool) (xs : List A) → length (select p xs) ≡ count p xs
unfolding select count
length-select p [] = refl
length-select p (x ∷ xs) = ground (arith, length-select p xs)

length-insert_by :
    {A : Type 0} (before : A → A → Bool) (x : A) (xs : List A)
    → length (insert_by before x xs) ≡ suc (length xs)
unfolding insert_by
length-insert_by before x [] = refl
length-insert_by before x (y ∷ ys) = ground (arith, length-insert_by before x ys)

length-order_by :
    {A : Type 0} (before : A → A → Bool) (xs : List A) → length (order_by before xs) ≡ length xs
unfolding order_by
length-order_by before [] = refl
length-order_by before (x ∷ xs) =
    omega (arith, length-insert_by before x (order_by before xs), length-order_by before xs)

among_self : (ks : List ℕ) → All (λ k. is_among ks k ≡ true) ks
among_self [] = tt
among_self (k ∷ ks) = (
  ground arith,
  All-imp (λ i. is_among ks i ≡ true) (λ i. is_among (k ∷ ks) i ≡ true) (λ i h. ground (arith, h))
      ks (among_self ks),
)

-- The counts of a match are those of the rows that belong to the job.
pub length-get_attempts :
    (db : Db) (k : ℕ) → length (get_attempts k db) ≡ count (of_job k) db.attempts
unfolding get_attempts
length-get_attempts db k =
    length-order_by _ (select (of_job k) db.attempts) ∙ length-select (of_job k) db.attempts

module _ (states : List JobState) (cutoff : Time) (db : Db) where
  abbrev pub matched_ids : List ℕ
  matched_ids = map (λ m. m.job_id) (prune_matches states cutoff db)

  sums_of :
      (f : PruneMatch → ℕ) (g : ℕ → ℕ) (js : List Job)
      → ((j : Job) → f (prune_match db j) ≡ g j.id)
      → sum_of g (map (λ m. m.job_id) (map (prune_match db) js))
        ≡ sum_of f (map (prune_match db) js)
  unfolding prune_match
  sums_of f g [] e = refl
  sums_of f g (j ∷ js) e = omega (arith, e j, sums_of f g js e)

  ids_of : (js : List Job) → map (λ m. m.job_id) (map (prune_match db) js) ≡ map (λ j. j.id) js
  unfolding prune_match
  ids_of [] = refl
  ids_of (j ∷ js) = ap (λ ks. j.id ∷ ks) (ids_of js)

  attempts_sum :
      sum_of (λ k. count (of_job k) db.attempts) matched_ids
      ≡ sum_of (λ m. m.n_attempts) (prune_matches states cutoff db)
  unfolding prune_matches prune_match
  attempts_sum =
      sums_of (λ m. m.n_attempts) (λ k. count (of_job k) db.attempts)
        (select (is_prunable states cutoff) db.jobs) (λ j. length-get_attempts db j.id)

  events_sum :
      sum_of (λ k. count (event_of_job k) db.events) matched_ids
      ≡ sum_of (λ m. m.n_events) (prune_matches states cutoff db)
  unfolding prune_matches prune_match
  events_sum =
      sums_of (λ m. m.n_events) (λ k. count (event_of_job k) db.events)
        (select (is_prunable states cutoff) db.jobs) (λ j. refl)

  -- What a prune that is given the matches of the same database leaves and reports: without the jobs
  -- that may be pruned, and without the attempts and the events of these.
  pub record PrunedAll (db' : Db) (d : Deleted) : Type 0 where
    pub jobs : db'.jobs ≡ delete (is_prunable states cutoff) db.jobs
    pub attempts : db'.attempts ≡ delete (λ a. still_prunable states cutoff a.job_id db) db.attempts
    pub events : db'.events ≡ delete (λ e. still_prunable states cutoff e.job_id db) db.events
    pub job_count : d.jobs ≡ length (prune_matches states cutoff db)
    pub attempt_count : d.attempts ≡ sum_of (λ m. m.n_attempts) (prune_matches states cutoff db)
    pub event_count : d.events ≡ sum_of (λ m. m.n_events) (prune_matches states cutoff db)

  module _ (v : Inv db) where
    among-matched : (k : ℕ) → is_among matched_ids k ≡ still_prunable states cutoff k db
    unfolding prune_matches still_prunable get_job
    among-matched k =
        ap (λ ks. is_among ks k) (ids_of (select (is_prunable states cutoff) db.jobs))
        ∙ among-select (λ j. j.id) k 0 (is_prunable states cutoff) db.jobs v.job_ids

    -- Each of the matches may still be pruned when the transaction looks again.
    matched_there : All (λ k. still_prunable states cutoff k db ≡ true) matched_ids
    matched_there =
        All-imp (λ k. is_among matched_ids k ≡ true) _ (λ k h. sym (among-matched k) ∙ h)
          matched_ids (among_self matched_ids)

    matched_Ascending : Ascending (λ k. k) 0 matched_ids
    unfolding prune_matches
    matched_Ascending =
        subst (Ascending (λ k. k) 0) (sym (ids_of (select (is_prunable states cutoff) db.jobs))) (
          Ascending-map (λ j. j.id) 0 (select (is_prunable states cutoff) db.jobs)
            (Ascending-select (λ j. j.id) (is_prunable states cutoff) 0 db.jobs v.job_ids))

    prunable_rows : All (λ j. is_among matched_ids j.id ≡ is_prunable states cutoff j) db.jobs
    unfolding still_prunable get_job
    prunable_rows =
        All-imp (λ (j : Job). first (λ (z : Job). z.id == j.id) db.jobs ≡ some j) _
          (λ j h. among-matched j.id ∙ ap (holds_of (is_prunable states cutoff)) h) db.jobs
          (All-found (λ j. j.id) 0 db.jobs v.job_ids)

    -- Given its own matches, the prune deletes exactly the rows of the jobs that may be pruned, with
    -- the attempts and the events of these, and the counts that it reports are those of the matches.
    pub prune_delete-PrunedAll :
        let r = prune_delete states cutoff matched_ids db in PrunedAll r.0 r.1
    unfolding prune_delete
    prune_delete-PrunedAll =
        let p =
          prune_loop-Pruned states cutoff matched_ids 0 db
            (record { jobs = 0; attempts = 0; events = 0 }) matched_Ascending matched_there
            v.job_ids in
        record {
          jobs = p.jobs ∙ delete-alike _ _ db.jobs prunable_rows;
          attempts =
              p.attempts
              ∙ delete-alike _ _ db.attempts (All-of _ (λ a. among-matched a.job_id) db.attempts);
          events =
              p.events
              ∙ delete-alike _ _ db.events (All-of _ (λ e. among-matched e.job_id) db.events);
          job_count =
              omega
                (arith, p.job_count, length-map (λ m. m.job_id) (prune_matches states cutoff db));
          attempt_count = omega (arith, p.attempt_count, attempts_sum);
          event_count = omega (arith, p.event_count, events_sum);
        }
