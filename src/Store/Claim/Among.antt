-- ===== src/Store/Claim/Among.antt =====
-- The transaction of claim_next apart from the reads behind it.
use spoolctl.Base.{
  ℕ, suc, Bool, true, false, if◌then◌else◌, ◌≡◌, refl, sym, ap, subst, Option, none, some, String,
  ==_iff, ◌==◌,
}
use spoolctl.Models.{Time, Job, Attempt, is_att_running}
use mathlib.Core.Option
use spoolctl.Sql.Laws.{first-holds}
use spoolctl.Store.Db.{Db, get_job, get_attempt}
use spoolctl.Store.Claim.{
  slots_full, next_eligible, take_job, read_back, claim_transaction, claim_next_among, claim_next,
}
use spoolctl.Store.Claim.Effect.{claim_next-Granted}
use spoolctl.Store.Invariant.{Inv}
use spoolctl.Store.Invariant.Effects.{get_job-id}
use spoolctl.Store.Invariant.Recorded.{Holds}

pub get_attempt-id : (k : ℕ) (db : Db) (a : Attempt) → get_attempt k db ≡ some a → a.id ≡ k
unfolding get_attempt
get_attempt-id k db a e = (==_iff a.id k).0 (first-holds (λ b. b.id == k) db.attempts a e)

module _ (w : String) (pid : ℕ) (now : Time) (out_root lane : String) (slots : Option ℕ)
    (db : Db) where
  abbrev pub claimed : Db
  claimed = (claim_transaction w pid now out_root lane slots db).0

  abbrev pub ids : Option (ℕ × ℕ)
  ids = (claim_transaction w pid now out_root lane slots db).1

  abbrev taken : Job → Db
  taken row = take_job w pid now out_root row.id db

  abbrev transaction : Bool → Option Job → Db × Option (ℕ × ℕ)
  transaction full o =
      if full
      then (db, none)
      else elim o [ none ↦ (db, none) | some row ↦ (taken row, some (row.id, suc db.last_attempt)) ]

  abbrev call : Bool → Option Job → Db × Option (Option Job × Option Attempt)
  call full o = if full then (db, none) else elim o [
    | none ↦ (db, none)
    | some row ↦ (
      taken row,
      some (get_job row.id (taken row), get_attempt (suc db.last_attempt) (taken row)),
    )
  ]

  same_db : (full : Bool) (o : Option Job) → (transaction full o).0 ≡ (call full o).0
  same_db true o = refl
  same_db false none = refl
  same_db false (some row) = refl

  same_rows :
      (full : Bool) (o : Option Job) (k a : ℕ)
      → (transaction full o).1 ≡ some (k, a)
      → (call full o).1
        ≡ some (get_job k (transaction full o).0, get_attempt a (transaction full o).0)
  same_rows true o k a e = cc e
  same_rows false none k a e = cc e
  same_rows false (some row) k a e =
      ap (Option.map (λ (p : ℕ × ℕ). (get_job p.0 (taken row), get_attempt p.1 (taken row)))) e

  pub transaction-claim_next : claimed ≡ (claim_next w pid now out_root lane slots db).0
  unfolding claim_transaction claim_next
  transaction-claim_next = same_db (slots_full lane slots db) (next_eligible now lane db)

  transaction-read :
      (k a : ℕ)
      → ids ≡ some (k, a)
      → (claim_next w pid now out_root lane slots db).1
        ≡ some (get_job k claimed, get_attempt a claimed)
  unfolding claim_transaction claim_next
  transaction-read k a e = same_rows (slots_full lane slots db) (next_eligible now lane db) k a e

  module _ (before_job before_attempt : Db → Db) where
    pub among-idle :
        ids ≡ none
        → claim_next_among w pid now before_job before_attempt out_root lane slots db
          ≡ (claimed, none)
    unfolding claim_next_among read_back
    among-idle e = ap (λ o. read_back before_job before_attempt (claimed, o)) e

    pub among-read :
        (k a : ℕ)
        → ids ≡ some (k, a)
        → claim_next_among w pid now before_job before_attempt out_root lane slots db ≡ (
          before_attempt (before_job claimed),
          some
              (get_job k (before_job claimed), get_attempt a (before_attempt (before_job claimed))),
        )
    unfolding claim_next_among read_back
    among-read k a e = ap (λ o. read_back before_job before_attempt (claimed, o)) e

  -- What the worker holds right after COMMIT.
  pub transaction-Holds : (k a : ℕ) → Inv db → ids ≡ some (k, a) → Holds claimed k a w pid
  transaction-Holds k a v e =
      let g =
        claim_next-Granted w pid now out_root lane slots db v (get_job k claimed)
          (get_attempt a claimed) (transaction-read k a e) in
      let same_job : g.row.id ≡ k = get_job-id k claimed _ g.locked in
      let same_attempt : g.attempt.id ≡ a = get_attempt-id a claimed g.attempt g.given in
      let holds : Holds (claim_next w pid now out_root lane slots db).0 g.row.id g.attempt.id w
          pid =
        λ row found own. record {
          row = g.attempt;
          found = g.opened;
          of_k = g.for_job.0;
          runs = ap is_att_running g.for_job.1;
        } in
      subst (λ d. Holds d k a w pid) (sym transaction-claim_next)
        (subst (λ i. Holds (claim_next w pid now out_root lane slots db).0 i a w pid) same_job
          (subst (λ i. Holds (claim_next w pid now out_root lane slots db).0 g.row.id i w pid)
            same_attempt holds))
