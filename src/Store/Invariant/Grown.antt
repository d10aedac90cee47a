-- ===== src/Store/Invariant/Grown.antt =====
-- The invariant under claim_next and add_job_checked, which insert rows.
use spoolctl.Base.{
  ℕ, suc, ◌+◌, ◌≤◌, ◌<◌, ◌≡◌, refl, sym, ◌∙◌, ap, inl, inr, Bool, true, false, List, [], ◌∷◌, ◌++◌,
  Option, none, some, All, arith, ◌==◌, ==_iff, ==_refl, is_some, if◌then◌else◌, Bool-cases,
  Option-cases, and_true, String,
}
use spoolctl.Models.{Time, Job, Attempt, is_queued}
use spoolctl.Sql.{count, max_of}
use spoolctl.Sql.Laws.{All-append, All-imp, count-append, max_of_bound, or_else, first-append}
use spoolctl.Sql.Keys.{Ascending-append, one_if}
use spoolctl.Store.Db.{Db, has_id, of_job, running_of_job, get_job}
use spoolctl.Store.Claim.{
  next_attempt_no, lock, new_attempt, take_job, slots_full, next_eligible, claim_next,
}
use spoolctl.Store.Submit.{Execution, Metadata, active_job, new_job, insert_job, add_job_checked}
use spoolctl.Store.Reap.{may_redeliver}
use spoolctl.Store.Claim.Choice.{next_eligible-eligible}
use spoolctl.Store.Invariant.{JobOk, AttemptOk, Rising, is_running_row, Inv}
use spoolctl.Store.Invariant.Effects.{add_event-Inv}
use spoolctl.Store.Invariant.Edits.{TriesKept, get_job-grown, grown-Inv}

Rising-append :
    (as' : List Attempt) (b : Attempt)
    → All (λ a. (a.job_id == b.job_id) ≡ true → a.attempt_no < b.attempt_no) as'
    → Rising as'
    → Rising (as' ++ b ∷ [])
Rising-append [] b less h = (tt, tt)
Rising-append (a ∷ as') b less h =
    (All-append _ as' _ h.0 ((λ e. less.0 (ground arith)), tt), Rising-append as' b less.1 h.1)

module _ (w : String) (pid : ℕ) (now : Time) (out_root : String) (k : ℕ) (db : Db) where
  new_attempt-AttemptOk : AttemptOk (new_attempt w pid now out_root k db)
  unfolding new_attempt next_attempt_no
  new_attempt-AttemptOk = ground arith

  abbrev more : List Attempt
  more = db.attempts ++ new_attempt w pid now out_root k db ∷ []

  count-more_other :
      (i : ℕ)
      → (i == k) ≡ false
      → count (running_of_job i) more ≡ count (running_of_job i) db.attempts
  unfolding new_attempt count
  count-more_other i ne = rw (count-append (running_of_job i) db.attempts) (ground arith)

  count-more_here : count (running_of_job k) more ≡ suc (count (running_of_job k) db.attempts)
  unfolding new_attempt count
  count-more_here = count-append (running_of_job k) db.attempts _ ∙ ground (arith, ==_refl k)

  new_number :
      All
        (λ a.
          (a.job_id == (new_attempt w pid now out_root k db).job_id) ≡ true
          → a.attempt_no < (new_attempt w pid now out_root k db).attempt_no)
        db.attempts
  unfolding new_attempt next_attempt_no
  new_number =
      let top = max_of (λ a. a.attempt_no) (of_job k) db.attempts in
      All-imp (λ a. of_job k a ≡ true → a.attempt_no ≤ top)
        (λ a. of_job k a ≡ true → a.attempt_no < top + 1) (λ a h e. omega (arith, h e)) db.attempts
        (max_of_bound (λ a. a.attempt_no) (of_job k) top db.attempts (omega arith))

  more-TriesKept : TriesKept db k more (suc db.last_attempt)
  more-TriesKept = record {
    ok = λ v. All-append AttemptOk db.attempts _ v.attempts_ok (new_attempt-AttemptOk, tt);
    ids = λ v.
        Ascending-append (λ a. a.id) 0 db.last_attempt db.attempts _ (unfold new_attempt in refl)
          (omega arith) v.attempts_below v.attempt_ids;
    below = λ v.
        All-append _ db.attempts _
          (All-imp (λ a. a.id ≤ db.last_attempt) (λ a. a.id ≤ suc db.last_attempt)
            (λ a h. omega arith) db.attempts v.attempts_below)
          (unfold new_attempt in (omega arith, tt));
    rising = λ v. Rising-append db.attempts _ new_number v.rising;
    refs =
        λ i ne. unfold new_attempt count in rw (count-append (of_job i) db.attempts) (ground arith);
  }

lock-JobOk :
    (w : String) (pid : ℕ) (now : Time) (j : Job)
    → is_queued j.state ≡ true
    → JobOk j
    → JobOk (lock w pid now j)
lock-JobOk w pid now j e ok = ground (arith, ok.crashes_counted, ok.in_budget, ok.in_crash_budget)

module _ (w : String) (pid : ℕ) (now : Time) (out_root : String) (db : Db) (v : Inv db) where
  pub take_job-Inv :
      (row : Job)
      → get_job row.id db ≡ some row
      → is_queued row.state ≡ true
      → Inv (take_job w pid now out_root row.id db)
  unfolding take_job
  take_job-Inv row found queued =
      add_event-Inv row.id now _ (some w) none _
        (ap is_some (
          get_job-grown db row.id row (has_id row.id) (lock w pid now) _ _ found (==_refl row.id)
            (λ j. refl)))
        (grown-Inv db row.id row (has_id row.id) (lock w pid now) _ _ found (==_refl row.id)
          (λ j. refl) (λ j t. (==_iff j.id row.id).0 t) (lock-JobOk w pid now row queued)
          (more-TriesKept w pid now out_root row.id db)
          (count-more_other w pid now out_root row.id db)
          (count-more_here w pid now out_root row.id db
            ∙ ground (arith, v.one_open row.id, found, queued))
          v)

  -- A claim keeps the database well formed.
  pub claim_next-Inv :
      (lane : String) (slots : Option ℕ) → Inv (claim_next w pid now out_root lane slots db).0
  unfolding claim_next
  claim_next-Inv lane slots = elim (Bool-cases (slots_full lane slots db)) [
    | inl full ↦ rw full v
    | inr free ↦ elim (Option-cases (next_eligible now lane db)) [
      | inl e ↦ rw (free, e, claim_next) v
      | inr (row, e) ↦
          let (eligible, found) = next_eligible-eligible now lane db row v.job_ids e in
          rw (free, e, claim_next) (take_job-Inv row found (and_true _ _ eligible).0)
    ]
  ]

module _ (x : Execution) (now : Time) (key : Option String) (m : Metadata) (db : Db)
    (v : Inv db) where
  new_job-JobOk : (k : ℕ) → JobOk (new_job x now key m k)
  unfolding new_job may_redeliver
  new_job-JobOk k = ground arith

  abbrev pub inserted : Db
  inserted = record db {
    jobs = db.jobs ++ new_job x now key m (suc db.last_job) ∷ [];
    last_job = suc db.last_job;
  }

  abbrev pub fresh : ℕ → Option Job
  fresh k =
      if has_id k (new_job x now key m (suc db.last_job))
      then some (new_job x now key m (suc db.last_job))
      else none

  pub get_job-inserted : (k : ℕ) → get_job k inserted ≡ or_else (get_job k db) (fresh k)
  unfolding get_job
  get_job-inserted k = first-append (has_id k) db.jobs _

  not_inserted : (k : ℕ) → get_job k inserted ≡ none → get_job k db ≡ none
  not_inserted k e = ground (arith, get_job-inserted k, e)

  -- The new row is queued, so nothing runs for it.
  running-inserted :
      (k : ℕ) (o : Option Job) (b : Bool)
      → one_if is_running_row
          (or_else o (if b then some (new_job x now key m (suc db.last_job)) else none))
        ≡ one_if is_running_row o
  unfolding new_job
  running-inserted k none true = refl
  running-inserted k none false = refl
  running-inserted k (some j) b = refl

  inserted-Inv : Inv inserted
  inserted-Inv = record {
    jobs_ok = All-append JobOk db.jobs _ v.jobs_ok (new_job-JobOk (suc db.last_job), tt);
    job_ids =
        Ascending-append (λ j. j.id) 0 db.last_job db.jobs _ (unfold new_job in refl) (omega arith)
          v.jobs_below v.job_ids;
    jobs_below =
        All-append _ db.jobs _
          (All-imp (λ j. j.id ≤ db.last_job) (λ j. j.id ≤ suc db.last_job) (λ j h. omega arith)
            db.jobs v.jobs_below)
          (unfold new_job in (omega arith, tt));
    attempts_ok = v.attempts_ok;
    attempt_ids = v.attempt_ids;
    attempts_below = v.attempts_below;
    rising = v.rising;
    event_ids = v.event_ids;
    events_below = v.events_below;
    one_open =
        λ k. v.one_open k ∙ sym (rw (get_job-inserted k) (running-inserted k (get_job k db) _));
    attempt_refs = λ k e. v.attempt_refs k (not_inserted k e);
    event_refs = λ k e. v.event_refs k (not_inserted k e);
  }

  known-inserted : is_some (get_job (suc db.last_job) inserted) ≡ true
  known-inserted = rw (get_job-inserted (suc db.last_job)) (settle (get_job (suc db.last_job) db))
    where
      settle : (o : Option Job) → is_some (or_else o (fresh (suc db.last_job))) ≡ true
      settle none = unfold new_job in ground (arith, ==_refl (suc db.last_job))
      settle (some j) = refl

  -- A submission keeps the database well formed, whether a row is inserted or the key is active.
  pub add_job_checked-Inv : Inv (add_job_checked x now key m db).0
  unfolding add_job_checked insert_job
  add_job_checked-Inv = elim (Option-cases (active_job key db)) [
    | inl e ↦
        rw (e, add_job_checked)
          (add_event-Inv (suc db.last_job) now _ none none inserted known-inserted inserted-Inv)
    | inr (row, e) ↦ rw (e, add_job_checked) v
  ]
