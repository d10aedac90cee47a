-- ===== src/Store/Invariant/Effects.antt =====
-- How the invariant passes through the two shapes that the writes have: rows of one job changed in
-- place, and a row appended to the event ledger.
use spoolctl.Base.{
  ℕ, suc, ◌≤◌, ◌<◌, ◌≡◌, refl, sym, ◌∙◌, ap, inl, inr, Bool, true, false, List, [], ◌∷◌, Option,
  none, some, arith, is_some, All, ◌==◌, ==_iff, Bool-cases, String,
}
use spoolctl.Models.{Time, Job, Attempt, EventType, Detail}
use spoolctl.Sql.{update, count}
use spoolctl.Sql.Laws.{
  set_if, All-of, All-imp, All-set, All-update, set_if-column, All-append, first-holds,
  count-append, count-update,
}
use spoolctl.Sql.Keys.{Ascending, Ascending-update, Ascending-append}
use spoolctl.Store.Db.{Db, has_id, of_job, event_of_job, get_job, add_event}
use spoolctl.Store.Record.{add_dead_event}
use spoolctl.Store.Invariant.{AttemptOk, Rising, Inv}

pub get_job-id : (k : ℕ) (db : Db) (j : Job) → get_job k db ≡ some j → j.id ≡ k
unfolding get_job
get_job-id k db j e = (==_iff j.id k).0 (first-holds (has_id k) db.jobs j e)

known_ne :
    (i k : ℕ) (db : Db) → is_some (get_job i db) ≡ true → get_job k db ≡ none → (i == k) ≡ false
known_ne i k db known e = elim (Bool-cases (i == k)) [
  | inl t ↦
      let same : i ≡ k = ground arith in cc (ap is_some (ap (λ n. get_job n db) same ∙ e), known)
  | inr t ↦ t
]

-- An event about a job that exists.
pub add_event-Inv :
    (job_id : ℕ) (at : Time) (event : EventType) (worker_id : Option String)
    (detail : Option Detail) (db : Db)
    → is_some (get_job job_id db) ≡ true
    → Inv db
    → Inv (add_event job_id at event worker_id detail db)
unfolding add_event get_job count
add_event-Inv job_id at event worker_id detail db known v = record {
  jobs_ok = v.jobs_ok;
  job_ids = v.job_ids;
  jobs_below = v.jobs_below;
  attempts_ok = v.attempts_ok;
  attempt_ids = v.attempt_ids;
  attempts_below = v.attempts_below;
  rising = v.rising;
  event_ids =
      Ascending-append (λ e. e.id) 0 db.last_event db.events _ refl (omega arith) v.events_below
        v.event_ids;
  events_below =
      All-append (λ e. e.id ≤ suc db.last_event) db.events _
        (All-imp (λ e. e.id ≤ db.last_event) (λ e. e.id ≤ suc db.last_event) (λ e h. omega arith)
          db.events v.events_below)
        (omega arith, tt);
  one_open = v.one_open;
  attempt_refs = v.attempt_refs;
  event_refs = λ k e.
      rw (count-append (event_of_job k) db.events)
        (ground (arith, v.event_refs k e, known_ne job_id k db known e));
}

pub get_job-add_event :
    (i job_id : ℕ) (at : Time) (event : EventType) (worker_id : Option String)
    (detail : Option Detail) (db : Db)
    → get_job i (add_event job_id at event worker_id detail db) ≡ get_job i db
unfolding get_job add_event
get_job-add_event i job_id at event worker_id detail db = refl

add_dead_event-Inv :
    (retry : Bool) (k : ℕ) (now : Time) (w : String) (db : Db)
    → is_some (get_job k db) ≡ true
    → Inv db
    → Inv (add_dead_event retry k now w db)
unfolding add_dead_event
add_dead_event-Inv true k now w db known v = v
add_dead_event-Inv false k now w db known v = add_event-Inv k now _ (some w) none db known v

pub get_job-add_dead_event :
    (retry : Bool) (i k : ℕ) (now : Time) (w : String) (db : Db)
    → get_job i (add_dead_event retry k now w db) ≡ get_job i db
unfolding add_dead_event
get_job-add_dead_event true i k now w db = refl
get_job-add_dead_event false i k now w db = get_job-add_event i k now _ (some w) none db

-- An event about a job, and the event 'dead' where the job is dead-lettered.
pub reported-Inv :
    (retry : Bool) (k : ℕ) (now : Time) (event : EventType) (w : String) (detail : Option Detail)
    (db : Db)
    → is_some (get_job k db) ≡ true
    → Inv db
    → Inv (add_dead_event retry k now w (add_event k now event (some w) detail db))
reported-Inv retry k now event w detail db known v =
    add_dead_event-Inv retry k now w _
      (ap is_some (get_job-add_event k k now event (some w) detail db) ∙ known)
      (add_event-Inv k now event (some w) detail db known v)

-- What a table of attempts keeps when some of its rows are changed in place.
pub record SameTries (old new : List Attempt) : Type 0 where
  pub ok : All AttemptOk old → All AttemptOk new
  pub ids : Ascending (λ a. a.id) 0 old → Ascending (λ a. a.id) 0 new
  pub below : (n : ℕ) → All (λ a. a.id ≤ n) old → All (λ a. a.id ≤ n) new
  pub rising : Rising old → Rising new
  pub refs : (k : ℕ) → count (of_job k) new ≡ count (of_job k) old

pub SameTries-refl : (as' : List Attempt) → SameTries as' as'
SameTries-refl as' = record {
  ok = λ h. h;
  ids = λ h. h;
  below = λ n h. h;
  rising = λ h. h;
  refs = λ k. refl;
}

-- A change of an attempt that leaves its id, its job and its number alone.
pub record KeepsPlace (f : Attempt → Attempt) : Type 0 where
  pub same_id : (a : Attempt) → (f a).id ≡ a.id
  pub same_job : (a : Attempt) → (f a).job_id ≡ a.job_id
  pub same_no : (a : Attempt) → (f a).attempt_no ≡ a.attempt_no

module _ (p : Attempt → Bool) (f : Attempt → Attempt) (keeps : KeepsPlace f) where
  Rising-update : (xs : List Attempt) → Rising xs → Rising (update p f xs)
  unfolding update
  Rising-update [] h = tt
  Rising-update (x ∷ xs) h = (
    All-set (λ b. b.job_id ≡ x.job_id → x.attempt_no < b.attempt_no) _ p f moved xs h.0,
    Rising-update xs h.1,
  )
    where
      job_of : (a : Attempt) → (set_if p f a).job_id ≡ a.job_id
      job_of a = set_if-column (λ b. b.job_id) p f a (keeps.same_job a)

      no_of : (a : Attempt) → (set_if p f a).attempt_no ≡ a.attempt_no
      no_of a = set_if-column (λ b. b.attempt_no) p f a (keeps.same_no a)

      moved :
          (b : Attempt)
          → (b.job_id ≡ x.job_id → x.attempt_no < b.attempt_no)
          → (set_if p f b).job_id ≡ (set_if p f x).job_id
          → (set_if p f x).attempt_no < (set_if p f b).attempt_no
      moved b less same = rw (no_of x, no_of b) (less (sym (job_of b) ∙ same ∙ job_of x))

  -- UPDATE attempts, where every row that is changed stays well formed.
  pub SameTries-update :
      (as' : List Attempt)
      → ((a : Attempt) → p a ≡ true → AttemptOk a → AttemptOk (f a))
      → SameTries as' (update p f as')
  SameTries-update as' good = record {
    ok = All-update AttemptOk p f as' good;
    ids = Ascending-update (λ a. a.id) p f 0 as' keeps.same_id;
    below = λ n. All-update (λ a. a.id ≤ n) p f as' (λ a _ h. omega (arith, keeps.same_id a));
    rising = Rising-update as';
    refs = λ k. count-update (of_job k) p f as' (
        All-of _
          (λ a. ap (λ (n : ℕ). n == k) (set_if-column (λ b. b.job_id) p f a (keeps.same_job a)))
          as');
  }
