-- ===== src/Store/Lifecycle/Writes.antt =====
-- A write of job rows in place, seen through the abstract view.
use spoolctl.Base.{
  ℕ, ◌≡◌, refl, sym, ◌∙◌, ap, subst, ◌⊎◌, inl, inr, Bool, true, false, Option, none, some, leb,
  ◌==◌, Bool-cases, ==_iff, String,
}
use spoolctl.Models.{Time, Job, EventType, Detail}
use spoolctl.Sql.{update}
use spoolctl.Sql.Laws.{map_if, first-update}
use spoolctl.Store.Db.{Db, has_id, get_job, add_event}
use spoolctl.Store.Record.{add_dead_event}
use spoolctl.Store.Invariant.Effects.{get_job-id}
use spoolctl.Store.Lifecycle.{life_of, life, Turn, Move, stays, turns}

-- From `db` to `db'` the rows that pass p are changed by f, and nothing else is done to jobs.
pub record Writes (p : Job → Bool) (f : Job → Job) (db db' : Db) : Type 0 where
  pub rows : (i : ℕ) → get_job i db' ≡ map_if p f (get_job i db)
  pub same_last : db'.last_job ≡ db.last_job

pub updated-Writes :
    (p : Job → Bool) (f : Job → Job) (db db' : Db)
    → ((j : Job) → (f j).id ≡ j.id)
    → db'.jobs ≡ update p f db.jobs
    → db'.last_job ≡ db.last_job
    → Writes p f db db'
unfolding get_job
updated-Writes p f db db' same_id jobs last = record {
  rows =
      λ i. rw jobs (first-update (has_id i) p f db.jobs (λ j. ap (λ (n : ℕ). n == i) (same_id j)));
  same_last = last;
}

-- Each job stays, or turns by the rule that the write follows.
pub write-Move :
    (p : Job → Bool) (f : Job → Job) (db db' : Db)
    → Writes p f db db'
    → ((i : ℕ) (j : Job)
        → get_job i db ≡ some j
        → p j ≡ true
        → (j.state ≡ (f j).state) ⊎ Turn j.state (f j).state)
    → (i : ℕ) → Move (life i db) (life i db')
write-Move p f db db' w rule i = rw (w.rows i, w.same_last) (by_row (get_job i db) refl)
  where
    by_row :
        (o : Option Job)
        → get_job i db ≡ o
        → Move (life_of o (leb i db.last_job)) (life_of (map_if p f o) (leb i db.last_job))
    by_row none e = stays _
    by_row (some j) e = elim (Bool-cases (p j)) [
      | inr out ↦ rw out (stays _)
      | inl hit ↦ elim (rule i j e hit) [
        | inl same ↦ rw (hit, ← same) (stays _)
        | inr turn ↦ rw hit (turns turn)
      ]
    ]

-- Two rows found under ids that agree are the same.
same_row :
    (db : Db) (k i : ℕ) (row j : Job)
    → get_job k db ≡ some row
    → get_job i db ≡ some j
    → has_id k j ≡ true
    → j ≡ row
same_row db k i row j found e hit =
    let same : i ≡ k = sym (get_job-id i db j e) ∙ (==_iff j.id k).0 hit in
    cc (ap (λ n. get_job n db) same, found, e)

-- A write of the one row that is found under k.
pub row-Move :
    (k : ℕ) (row : Job) (p : Job → Bool) (f : Job → Job) (db db' : Db)
    → get_job k db ≡ some row
    → ((j : Job) → p j ≡ true → has_id k j ≡ true)
    → Turn row.state (f row).state
    → Writes p f db db'
    → (i : ℕ) → Move (life i db) (life i db')
row-Move k row p f db db' found only turn w = write-Move p f db db' w (λ i j e t.
    inr
      (subst (λ r. Turn r.state (f r).state) (sym (same_row db k i row j found e (only j t))) turn))

-- Events leave jobs alone.
module _ {p : Job → Bool} {f : Job → Job} {db : Db} where
  pub noted :
      (k : ℕ) (at : Time) (event : EventType) (worker : Option String) (detail : Option Detail)
      {db' : Db}
      → Writes p f db db'
      → Writes p f db (add_event k at event worker detail db')
  unfolding add_event get_job
  noted k at event worker detail w = record { rows = w.rows; same_last = w.same_last }

  pub noted_dead :
      (retry : Bool) (k : ℕ) (now : Time) (worker : String) {db' : Db}
      → Writes p f db db'
      → Writes p f db (add_dead_event retry k now worker db')
  unfolding add_dead_event
  noted_dead true k now worker w = w
  noted_dead false k now worker w = noted k now EventType.dead (some worker) none w
