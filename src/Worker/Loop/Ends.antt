-- ===== src/Worker/Loop/Ends.antt =====
-- How the loop of a worker ends, and what it leaves.
use spoolctl.Base.{
  ℕ, suc, ◌+◌, ◌≤◌, ◌<◌, ◌≡◌, ◌≢◌, ap, str_eq, if◌then◌else◌, refl, sym, subst, inl, inr, Bool,
  true, false, List, [], ◌∷◌, Option, none, some, String, ◌==◌, ==_iff, ==_refl, arith, All, any,
  length, Option-cases, Bool-cases, and_true,
}
use spoolctl.Store.Db.{Db}
use spoolctl.Models.{Job, JobState, is_running, is_queued}
use spoolctl.Sql.{count}
use spoolctl.Operations.Waiting.{Any}
use spoolctl.Store.Queries.{holds_drain, unsettled_count}
use spoolctl.Store.Invariant.{Inv}
use spoolctl.Store.History.{Reach, here, Reach-Inv}
use spoolctl.Store.Lease.{Others}
use spoolctl.Store.Lease.Steps.{Others-Reach, Reach-append}
use spoolctl.Worker.Running.{Summary, process_one}
use spoolctl.Worker.Cycle.{Lost, process_one-Lost}
use spoolctl.Worker.Leased.{AmongOthers, process_one-Reach}
use spoolctl.Worker.Loop.{
  Round, LoopEnd, returned, going_on, raised, is_settled, work_rounds, work_loop,
}

abbrev is_stopped : Round → Bool
is_stopped r = r.stopped

-- At the time t nothing of the lane is running, and what is queued there is not due yet and was never
-- tried.
abbrev pub Drained : String → ℕ → Db → Type 0
Drained lane t db =
    All
      (λ j.
        str_eq j.queue lane ≡ true
        → (j.state ≢ JobState.running)
          × (j.state ≡ JobState.queued → (t < j.next_run_at) × (j.attempts ≡ 0)))
      db.jobs

none-Drained :
    (lane : String) (t : ℕ) (js : List Job)
    → count (holds_drain lane t) js ≡ 0
    → All
        (λ j.
          str_eq j.queue lane ≡ true
          → (j.state ≢ JobState.running)
            × (j.state ≡ JobState.queued → (t < j.next_run_at) × (j.attempts ≡ 0)))
        js
unfolding count
none-Drained lane t [] e = tt
none-Drained lane t (j ∷ js) e =
    let (free, rest) = apart (holds_drain lane t j) (count (holds_drain lane t) js) e in
    (
      λ q. (
        (λ r. absurd (ground (arith, free, q, ap is_running r))),
        (λ r. (ground (arith, free, q, ap is_queued r), ground (arith, free, q, ap is_queued r))),
      ),
      none-Drained lane t js rest,
    )
  where
    apart : (b : Bool) (n : ℕ) → (if b then suc n else n) ≡ 0 → (b ≡ false) × (n ≡ 0)
    apart b n h = (ground (arith, h), ground (arith, h))

unsettled-Drained :
    (lane : String) (t : ℕ) (db : Db) → unsettled_count lane t db ≡ 0 → Drained lane t db
unfolding unsettled_count
unsettled-Drained lane t db e = none-Drained lane t db.jobs e

-- What the loop's end means, of the rounds given, the greatest number of jobs that they can run, and
-- the database that is left. `lost r db` says that in the round r, from db, a row just claimed was
-- removed by others before it was read back.
pub data EndMeans (lost : Round → Db → Type 0) (lane : String) (drain : Bool) (rounds : List Round)
    (most : ℕ) (db : Db) : LoopEnd → Type 0 where
  drained :
      (n t : ℕ)
      → n ≤ most
      → drain ≡ true
      → any (λ r. r.counted_at == t) rounds ≡ true
      → Drained lane t db
      → EndMeans lost lane drain rounds most db (returned true n)
  stopped :
      (n : ℕ)
      → n ≤ most
      → any is_stopped rounds ≡ true
      → EndMeans lost lane drain rounds most db (returned false n)
  unstopped :
      (n : ℕ)
      → n ≤ most
      → any is_stopped rounds ≡ false
      → EndMeans lost lane drain rounds most db (going_on n)
  removed : Any (λ r. lost r db) rounds → EndMeans lost lane drain rounds most db raised

EndMeans-cons :
    {lost : Round → Db → Type 0} {lane : String} {drain : Bool} {rounds : List Round}
    {most most' : ℕ} {db : Db} {end : LoopEnd} (r : Round)
    → most ≤ most'
    → r.stopped ≡ false
    → EndMeans lost lane drain rounds most db end
    → EndMeans lost lane drain (r ∷ rounds) most' db end
EndMeans-cons r h e (drained n t few d timed zero) =
    drained n t (omega (arith, h, few)) d (ground (arith, timed)) zero
EndMeans-cons r h e (stopped n few any_stop) =
    stopped n (omega (arith, h, few)) (ground (arith, any_stop))
EndMeans-cons r h e (unstopped n few no_stop) =
    unstopped n (omega (arith, h, few)) (ground (arith, no_stop, e))
EndMeans-cons r h e (EndMeans.removed gone) = EndMeans.removed (inr gone)

module _ (w : String) (pid : ℕ) (out_root lane : String) (slots : Option ℕ) (drain : Bool) where
  -- What others do around a round are their transactions.
  pub record Visited (r : Round) : Type 0 where
    pub first : (d : Db) → Others w pid d (r.before d)
    pub during : AmongOthers w pid r.around
    pub last : (d : Db) → Others w pid d (r.before_count d)

  -- A row that the worker has just claimed in that round is removed by others before it is read back.
  abbrev pub LostIn : Round → Db → Type 0
  LostIn r db = Lost w pid out_root lane slots r.around db

  abbrev pub Ends : List Round → ℕ → Db → Db × LoopEnd → Type 0
  Ends rounds most db s = Reach db s.0 × EndMeans LostIn lane drain rounds most s.0 s.1

  Ends-cons :
      {rounds : List Round} {most most' : ℕ} {db mid : Db} {s : Db × LoopEnd} (r : Round)
      → Reach db mid
      → most ≤ most'
      → r.stopped ≡ false
      → Ends rounds most mid s
      → Ends (r ∷ rounds) most' db s
  Ends-cons r reach few go (rest, means) = (Reach-append reach rest, EndMeans-cons r few go means)

  module _ (r : Round) (rounds : List Round) (n : ℕ) (db : Db) where
    abbrev run : Db × LoopEnd
    run = work_rounds w pid out_root lane slots drain (r ∷ rounds) n db

    abbrev later : ℕ → Db → Db × LoopEnd
    later = work_rounds w pid out_root lane slots drain rounds

    run-stopped : r.stopped ≡ true → run ≡ (db, returned false n)
    unfolding work_rounds
    run-stopped t = rw (t, work_rounds) refl

    run-raised :
        r.stopped ≡ false
        → process_one w pid out_root lane slots r.around (r.before db) ≡ none
        → run ≡ (r.before db, LoopEnd.raised)
    unfolding work_rounds
    run-raised go e = rw (go, e, work_rounds) refl

    module _ (go : r.stopped ≡ false) (db' : Db) where
      run-executed :
          (summary : Summary)
          → process_one w pid out_root lane slots r.around (r.before db) ≡ some (db', some summary)
          → run ≡ later (suc n) db'
      unfolding work_rounds
      run-executed summary e = rw (go, e, work_rounds) refl

      module _
          (e : process_one w pid out_root lane slots r.around (r.before db)
            ≡ some (db', none)) where
        run-settled :
            is_settled lane drain r (r.before_count db') ≡ true
            → run ≡ (r.before_count db', returned true n)
        unfolding work_rounds
        run-settled d = rw (go, e, d, work_rounds) refl

        run-idle :
            is_settled lane drain r (r.before_count db') ≡ false
            → run ≡ later n (r.before_count db')
        unfolding work_rounds
        run-idle d = rw (go, e, d, work_rounds) refl

  work_rounds-Ends :
      (rounds : List Round) (n most : ℕ) (db : Db)
      → n + length rounds ≤ most
      → Inv db
      → All Visited rounds
      → Ends rounds most db (work_rounds w pid out_root lane slots drain rounds n db)
  work_rounds-Ends [] n most db few v h =
      unfold work_rounds in (here, unstopped n (omega (arith, few)) refl)
  work_rounds-Ends (r ∷ rounds) n most db few v h = elim (Bool-cases r.stopped) [
    | inl t ↦
        subst (Ends (r ∷ rounds) most db) (sym (run-stopped r rounds n db t))
          (here, stopped n (omega (arith, few)) (ground (arith, t)))
    | inr t ↦
        let first = r.before db in
        let to_first = Others-Reach (h.0.first db) in
        let u : Inv first = Reach-Inv v to_first in
        elim (Option-cases (process_one w pid out_root lane slots r.around first)) [
          | inl e ↦ subst (Ends (r ∷ rounds) most db) (sym (run-raised r rounds n db t e)) (
            to_first,
            EndMeans.removed (inl (process_one-Lost w pid out_root lane slots r.around first e)),
          )
          | inr ((db', some summary), e) ↦
              let reach = Reach-append to_first (
                process_one-Reach w pid out_root lane slots r.around first db' (some summary) u
                  h.0.during e) in
              subst (Ends (r ∷ rounds) most db) (sym (run-executed r rounds n db t db' summary e)) (
                Ends-cons r reach (omega arith) t (
                  work_rounds-Ends rounds (suc n) most db' (omega (arith, few)) (Reach-Inv v reach)
                    h.1))
          | inr ((db', none), e) ↦
              let reach =
                Reach-append
                  (Reach-append to_first (
                    process_one-Reach w pid out_root lane slots r.around first db' none u h.0.during
                      e))
                  (Others-Reach (h.0.last db')) in
              elim (Bool-cases (is_settled lane drain r (r.before_count db'))) [
                | inl d ↦
                    subst (Ends (r ∷ rounds) most db) (sym (run-settled r rounds n db t db' e d)) (
                      reach,
                      drained n r.counted_at (omega (arith, few)) (and_true _ _ d).0
                          (ground (arith, ==_refl r.counted_at))
                          (unsettled-Drained lane r.counted_at (r.before_count db')
                            ((==_iff _ _).0 (and_true _ _ d).1)),
                    )
                | inr d ↦
                    subst (Ends (r ∷ rounds) most db) (sym (run-idle r rounds n db t db' e d)) (
                      Ends-cons r reach (omega arith) t (
                        work_rounds-Ends rounds n most (r.before_count db') (omega (arith, few))
                          (Reach-Inv v reach) h.1))
              ]
        ]
  ]

pub work_loop-Ends :
    (w : String) (pid : ℕ) (out_root lane : String) (slots : Option ℕ) (drain : Bool)
    (rounds : List Round) (db : Db)
    → Inv db
    → All (Visited w pid out_root lane slots drain) rounds
    → Ends w pid out_root lane slots drain rounds
        (length rounds)
        db
        (work_loop w pid out_root lane slots drain rounds db)
unfolding work_loop
work_loop-Ends w pid out_root lane slots drain rounds db v h =
    work_rounds-Ends w pid out_root lane slots drain rounds 0 (length rounds) db (omega arith) v h
