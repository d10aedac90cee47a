-- ===== src/Store/Queries/Totals.antt =====
-- The totals of store.status_counts, summed over the queues, against the counts over the whole table.
use spoolctl.Base.{
  ℕ, ◌+◌, ◌≤◌, ◌≡◌, refl, sym, subst, ◌∙◌, ap, inl, inr, String, Bool, false, ◌&&◌, List, [], ◌∷◌,
  All, map, sum_of, arith, str_eq, str_eq_iff, str_eq_refl, if◌then◌else◌, Bool-cases,
}
use mathlib.Core.Path.{fun_ext}
use spoolctl.Models.{Time, Job, JobState}
use spoolctl.Sql.{count}
use spoolctl.Sql.Laws.{All-imp}
use spoolctl.Store.Db.{Db}
use spoolctl.Store.Queries.{
  StateCounts, QueueStatus, in_state, is_scheduled, counts_where, state_counts, add_queue,
  queue_names, queue_status, add_up, status_counts, add_counts, no_counts,
}

-- How often a name stands among the queues.
abbrev times_named : String → List String → ℕ
times_named q names = count (λ r. str_eq q r) names

str_eq_sym : (s t : String) → str_eq s t ≡ str_eq t s
str_eq_sym s t = elim (Bool-cases (str_eq t s)) [
  | inl e ↦ (str_eq_iff s t).1 (sym ((str_eq_iff t s).0 e)) ∙ sym e
  | inr e ↦ elim (Bool-cases (str_eq s t)) [
    | inl d ↦ cc ((str_eq_iff t s).1 (sym ((str_eq_iff s t).0 d)))
    | inr d ↦ d ∙ sym e
  ]
]

named-add_queue_self :
    (q : String) (names : List String)
    → times_named q names ≤ 1
    → times_named q (add_queue q names) ≡ 1
unfolding count add_queue
named-add_queue_self q [] h = ground (arith, str_eq_refl q)
named-add_queue_self q (r ∷ rs) h = elim (Bool-cases (str_eq r q)) [
  | inl e ↦ rw e (ground (arith, str_eq_sym q r, e, h))
  | inr e ↦ rw e (ground (arith, str_eq_sym q r, e, h, named-add_queue_self q rs))
]

named-add_queue_other :
    (q s : String) (names : List String)
    → str_eq q s ≡ false
    → times_named q (add_queue s names) ≡ times_named q names
unfolding count add_queue
named-add_queue_other q s [] ne = ground (arith, ne)
named-add_queue_other q s (r ∷ rs) ne = elim (Bool-cases (str_eq r s)) [
  | inl e ↦ rw e refl
  | inr e ↦ rw e (ground (arith, named-add_queue_other q s rs ne))
]

named_once : (q : String) (js : List Job) → times_named q (queue_names js) ≤ 1
unfolding queue_names count
named_once q [] = omega arith
named_once q (j ∷ js) = elim (Bool-cases (str_eq q j.queue)) [
  | inr e ↦ omega (arith, named-add_queue_other q j.queue (queue_names js) e, named_once q js)
  | inl e ↦
      subst (λ s. times_named s (add_queue j.queue (queue_names js)) ≤ 1)
        (sym ((str_eq_iff q j.queue).0 e))
        (omega (arith, named-add_queue_self j.queue (queue_names js) (named_once j.queue js)))
]

still_named :
    (q s : String) (names : List String)
    → times_named q names ≡ 1
    → times_named q (add_queue s names) ≡ 1
still_named q s names h = elim (Bool-cases (str_eq q s)) [
  | inr e ↦ named-add_queue_other q s names e ∙ h
  | inl e ↦
      subst (λ r. times_named q (add_queue r names) ≡ 1) ((str_eq_iff q s).0 e)
        (named-add_queue_self q names (omega (arith, h)))
]

-- Each job's queue is named exactly once.
queues-named : (js : List Job) → All (λ j. times_named j.queue (queue_names js) ≡ 1) js
unfolding queue_names
queues-named [] = tt
queues-named (j ∷ js) = (
  named-add_queue_self j.queue (queue_names js) (named_once j.queue js),
  All-imp (λ i. times_named i.queue (queue_names js) ≡ 1) _
      (λ i h. still_named i.queue j.queue (queue_names js) h) js (queues-named js),
)

module _ (p : Job → Bool) where
  abbrev of_queue : String → Job → Bool
  of_queue r j = str_eq j.queue r && p j

  sum-nothing : (names : List String) → sum_of (λ r. count (of_queue r) []) names ≡ 0
  unfolding count
  sum-nothing [] = refl
  sum-nothing (r ∷ rs) = omega (arith, sum-nothing rs)

  sum-cons :
      (j : Job) (js : List Job) (names : List String)
      → sum_of (λ r. count (of_queue r) (j ∷ js)) names
        ≡ (if p j then times_named j.queue names else 0) + sum_of (λ r. count (of_queue r) js) names
  unfolding count
  sum-cons j js [] = ground arith
  sum-cons j js (r ∷ rs) = ground (arith, sum-cons j js rs)

  sum-count :
      (names : List String) (js : List Job)
      → All (λ j. times_named j.queue names ≡ 1) js
      → sum_of (λ r. count (of_queue r) js) names ≡ count p js
  unfolding count
  sum-count names [] h = sum-nothing names
  sum-count names (j ∷ js) h = ground (arith, sum-cons j js names, h.0, sum-count names js h.1)

  sum-queues :
      (db : Db) → sum_of (λ r. count (of_queue r) db.jobs) (queue_names db.jobs) ≡ count p db.jobs
  sum-queues db = sum-count (queue_names db.jobs) db.jobs (queues-named db.jobs)

-- The totals over the queues, for one column of the counts.
add_up-sum :
    (column : StateCounts → ℕ)
    → ((c d : StateCounts) → column (add_counts c d) ≡ column c + column d)
    → column no_counts ≡ 0
    → (qs : List QueueStatus) → column (add_up qs).0 ≡ sum_of (λ q. column q.counts) qs
unfolding add_up
add_up-sum column adds none [] = none
add_up-sum column adds none (q ∷ qs) =
    omega (arith, adds q.counts (add_up qs).0, add_up-sum column adds none qs)

add_up-scheduled : (qs : List QueueStatus) → (add_up qs).1 ≡ sum_of (λ q. q.scheduled) qs
unfolding add_up
add_up-scheduled [] = refl
add_up-scheduled (q ∷ qs) = omega (arith, add_up-scheduled qs)

sum_of-map :
    {A B : Type 0} (f : A → B) (g : B → ℕ) (xs : List A)
    → sum_of g (map f xs) ≡ sum_of (λ x. g (f x)) xs
sum_of-map f g [] = refl
sum_of-map f g (x ∷ xs) = omega (arith, sum_of-map f g xs)

module _ (now : Time) (db : Db) where
  abbrev queues : List QueueStatus
  queues = map (queue_status now db) (queue_names db.jobs)

  total :
      (column : StateCounts → ℕ) (s : JobState)
      → ((c d : StateCounts) → column (add_counts c d) ≡ column c + column d)
      → column no_counts ≡ 0
      → ((q : String)
          → column (queue_status now db q).counts ≡ count (of_queue (in_state s) q) db.jobs)
      → column (add_up queues).0 ≡ count (in_state s) db.jobs
  total column s adds none is_column =
      add_up-sum column adds none queues
      ∙ sum_of-map (queue_status now db) (λ q. column q.counts) (queue_names db.jobs)
      ∙ ap (λ f. sum_of f (queue_names db.jobs)) (fun_ext is_column)
      ∙ sum-queues (in_state s) db

  -- The totals of a status are the counts over the whole table.
  pub record TotalsAgree : Type 0 where
    pub canceled : (status_counts now db).0.canceled ≡ (state_counts db).canceled
    pub dead : (status_counts now db).0.dead ≡ (state_counts db).dead
    pub done : (status_counts now db).0.done ≡ (state_counts db).done
    pub failed : (status_counts now db).0.failed ≡ (state_counts db).failed
    pub queued : (status_counts now db).0.queued ≡ (state_counts db).queued
    pub running : (status_counts now db).0.running ≡ (state_counts db).running
    pub scheduled : (status_counts now db).1 ≡ count (is_scheduled now) db.jobs

  -- The totals that status_counts sums over its queues are those of the whole table: of each state, as
  -- many as state_counts says, and of the jobs scheduled for later all that are queued with a due
  -- time after `now`. So no job is counted twice or in no queue.
  pub status_counts-TotalsAgree : TotalsAgree
  unfolding status_counts state_counts queue_status counts_where
  status_counts-TotalsAgree = record {
    canceled = total (λ c. c.canceled) JobState.canceled (λ c d. refl) refl (λ q. refl);
    dead = total (λ c. c.dead) JobState.dead (λ c d. refl) refl (λ q. refl);
    done = total (λ c. c.done) JobState.done (λ c d. refl) refl (λ q. refl);
    failed = total (λ c. c.failed) JobState.failed (λ c d. refl) refl (λ q. refl);
    queued = total (λ c. c.queued) JobState.queued (λ c d. refl) refl (λ q. refl);
    running = total (λ c. c.running) JobState.running (λ c d. refl) refl (λ q. refl);
    scheduled =
        add_up-scheduled queues
        ∙ sum_of-map (queue_status now db) (λ q. q.scheduled) (queue_names db.jobs)
        ∙ sum-queues (is_scheduled now) db;
  }
