-- ===== src/Store/Lease/Writes.antt =====
-- A lease through a write of job rows and of attempts in place.
use spoolctl.Base.{
  ℕ, ◌≡◌, refl, sym, ◌∙◌, ap, inl, inr, Bool, true, false, some, arith, String, ◌==◌, Option-cases,
  Bool-cases,
}
use spoolctl.Models.{Job, Attempt, is_running}
use spoolctl.Sql.{update}
use spoolctl.Sql.Laws.{map_if, set_if, first-update}
use spoolctl.Store.Db.{Db, get_job, get_attempt}
use spoolctl.Store.Invariant.Attempts.{Open}
use spoolctl.Store.Invariant.Recorded.{owns, Holds}
use spoolctl.Store.Lifecycle.Writes.{Writes}

-- An open attempt that is not among the rows changed stays open.
pub Open-update :
    (db db' : Db) (k attempt_id : ℕ) (q : Attempt → Bool) (g : Attempt → Attempt)
    → db'.attempts ≡ update q g db.attempts
    → ((a : Attempt) → (g a).id ≡ a.id)
    → (o : Open db k attempt_id) → q o.row ≡ false
    → Open db' k attempt_id
unfolding get_attempt
Open-update db db' k attempt_id q g e same_id o out = record {
  row = o.row;
  found = rw e (
      first-update (λ a. a.id == attempt_id) q g db.attempts
        (λ a. ap (λ (n : ℕ). n == attempt_id) (same_id a))
      ∙ rw (o.found, out) refl);
  of_k = o.of_k;
  runs = o.runs;
}

-- The worker owns the row after the write only if it did before, and then its attempt is left open.
pub Holds-Writes :
    (db db' : Db) (k attempt_id : ℕ) (w : String) (pid : ℕ) (p : Job → Bool) (f : Job → Job)
    → Writes p f db db'
    → ((row : Job)
        → get_job k db ≡ some row
        → p row ≡ true
        → owns w pid (f row) ≡ true
        → owns w pid row ≡ true)
    → ((row : Job)
        → get_job k db ≡ some row
        → owns w pid (set_if p f row) ≡ true
        → Open db k attempt_id
        → Open db' k attempt_id)
    → Holds db k attempt_id w pid
    → Holds db' k attempt_id w pid
Holds-Writes db db' k attempt_id w pid p f written back leave holds row' found' own' =
    elim (Option-cases (get_job k db)) [
      | inl n ↦ cc (ap (map_if p f) n, written.rows k, found')
      | inr (row, n) ↦
          let same : row' ≡ set_if p f row = cc (ap (map_if p f) n, written.rows k, found') in
          let own : owns w pid (set_if p f row) ≡ true = ap (owns w pid) (sym same) ∙ own' in
          leave row n own (
            holds row n (elim (Bool-cases (p row)) [
              | inl t ↦ back row n t (rw t at own)
              | inr t ↦ rw t at own
            ]))
    ]

-- A row that does not run is not owned.
pub owns-running :
    (w : String) (pid : ℕ) (j : Job) → owns w pid j ≡ true → is_running j.state ≡ true
owns-running w pid j e = ground (arith, e)
