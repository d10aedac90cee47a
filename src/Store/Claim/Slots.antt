-- ===== src/Store/Claim/Slots.antt =====
-- The slot ceiling, and when a claim finds nothing.
use spoolctl.Base.{
  ℕ, suc, ◌≤◌, ◌<◌, ◌≡◌, ◌↔◌, ◌⊎◌, refl, inl, inr, true, false, ◌&&◌, str_eq, List, [], ◌∷◌, Option,
  none, some, leb, All, arith, String, Bool-cases, Option-cases,
}
use spoolctl.Models.{Time, Job, is_running}
use spoolctl.Store.Claim.Effect.{IsReady, eligible-IsReady, IsReady-eligible}
use spoolctl.Sql.{count, update}
use spoolctl.Sql.Laws.{All-imp, count-update}
use spoolctl.Sql.Keys.{Ascending, Ascending-above}
use spoolctl.Store.Db.{Db, has_id}
use spoolctl.Store.Claim.{
  lock, occupies, take_job, slots_full, next_eligible, claim_next, is_eligible,
}
use spoolctl.Store.Claim.Choice.{next_eligible-none, next_eligible-some}

module _ (w : String) (pid : ℕ) (now : Time) (out_root lane : String) where
  -- The lane has at least as many running jobs as the worker has slots.
  abbrev pub IsFull : Option ℕ → Db → Type 0
  IsFull none db = ⊥
  IsFull (some slots) db = slots ≤ count (λ j. is_running j.state && str_eq j.queue lane) db.jobs

  abbrev pub NothingReady : Db → Type 0
  NothingReady db = All (λ j. ¬ IsReady now lane j) db.jobs

  is_full : (slots : Option ℕ) (db : Db) → slots_full lane slots db ≡ true → IsFull slots db
  unfolding slots_full
  is_full none db e = cc e
  is_full (some slots) db e = ground (arith, e)

  has_slot : (slots : Option ℕ) (db : Db) → slots_full lane slots db ≡ false → ¬ IsFull slots db
  unfolding slots_full
  has_slot none db e h = h
  has_slot (some slots) db e h = ground (arith, e, h)

  nothing-eligible : (db : Db) → NothingReady db → All (λ j. is_eligible now lane j ≡ false) db.jobs
  nothing-eligible db h =
      All-imp (λ j. ¬ IsReady now lane j) _
        (λ j n. unready j (Bool-cases (is_eligible now lane j)) n) db.jobs h
    where
      unready :
          (j : Job)
          → (is_eligible now lane j ≡ true) ⊎ (is_eligible now lane j ≡ false)
          → ¬ IsReady now lane j
          → is_eligible now lane j ≡ false
      unready j (inl t) n = absurd (n (eligible-IsReady now lane j t))
      unready j (inr f) n = f

  eligible-nothing : (db : Db) → All (λ j. is_eligible now lane j ≡ false) db.jobs → NothingReady db
  eligible-nothing db h =
      All-imp (λ j. is_eligible now lane j ≡ false) _
        (λ j f r. cc (IsReady-eligible now lane j r, f)) db.jobs h

  -- Where the ids of the jobs ascend, a claim comes back empty exactly when the worker has a number of
  -- slots and at least so many jobs of the lane are running, or no job is in the state queued, due and
  -- in the lane.
  pub claim_next-none_iff :
      (slots : Option ℕ) (db : Db)
      → Ascending (λ j. j.id) 0 db.jobs
      → ((claim_next w pid now out_root lane slots db).1 ≡ none)
        ↔ (IsFull slots db ⊎ NothingReady db)
  unfolding claim_next
  claim_next-none_iff slots db ids = (empty_handed, refused)
    where
      empty_handed :
          (claim_next w pid now out_root lane slots db).1 ≡ none → IsFull slots db ⊎ NothingReady db
      empty_handed e = elim (Bool-cases (slots_full lane slots db)) [
        | inl full ↦ inl (is_full slots db full)
        | inr free ↦ elim (Option-cases (next_eligible now lane db)) [
          | inl n ↦ inr (eligible-nothing db (next_eligible-none now lane db n))
          | inr (row, n) ↦ cc (rw (free, n, claim_next) at e)
        ]
      ]

      refused :
          IsFull slots db ⊎ NothingReady db → (claim_next w pid now out_root lane slots db).1 ≡ none
      refused o = elim (Bool-cases (slots_full lane slots db)) [
        | inl full ↦ rw full refl
        | inr free ↦ elim (Option-cases (next_eligible now lane db)) [
          | inl n ↦ rw (free, n, claim_next) refl
          | inr (row, n) ↦ elim o [
            | inl full ↦ absurd (has_slot slots db free full)
            | inr all ↦ absurd (next_eligible-some now lane db row ids n (nothing-eligible db all))
          ]
        ]
      ]

  -- Locking one row adds at most one running job to a lane.
  count-lock :
      (k low : ℕ) (js : List Job)
      → Ascending (λ j. j.id) low js
      → count (occupies lane) (update (has_id k) (lock w pid now) js)
        ≤ suc (count (occupies lane) js)
  unfolding count update
  count-lock k low [] h = omega arith
  count-lock k low (j ∷ js) h = elim (Bool-cases (has_id k j)) [
    | inl e ↦ rw e (
        ground (
          arith,
          count-update (occupies lane) (has_id k) (lock w pid now) js (
              All-imp (λ i. j.id < i.id) _ (λ i b. ground arith) js
                (Ascending-above (λ i. i.id) j.id js h.1)),
        ))
    | inr e ↦ rw e (ground (arith, count-lock k j.id js h.1))
  ]

  -- Where the ids of the jobs ascend and the lane has at most `slots` running jobs, a claim with the
  -- ceiling `slots` leaves it with at most `slots`.
  pub claim_next-le_slots :
      (slots : ℕ) (db : Db)
      → Ascending (λ j. j.id) 0 db.jobs
      → count (occupies lane) db.jobs ≤ slots
      → count (occupies lane) (claim_next w pid now out_root lane (some slots) db).0.jobs ≤ slots
  unfolding claim_next take_job slots_full
  claim_next-le_slots slots db ids h =
      elim (Bool-cases (leb slots (count (occupies lane) db.jobs))) [
        | inl full ↦ rw full h
        | inr free ↦ elim (Option-cases (next_eligible now lane db)) [
          | inl n ↦ rw (free, n, claim_next) h
          | inr (row, n) ↦
              rw (free, n, claim_next) (ground (arith, count-lock row.id 0 db.jobs ids))
        ]
      ]
