-- ===== src/Worker/Loop.antt =====
-- worker.work_loop, over the list of its rounds.
pub mod Ends
use spoolctl.Base.{ℕ, suc, Bool, true, false, ◌&&◌, List, [], ◌∷◌, Option, none, some, String, ◌==◌}
use spoolctl.Models.{Time}
use spoolctl.Store.Db.{Db}
use spoolctl.Store.Queries.{unsettled_count}
use spoolctl.Worker.Running.{Surroundings, Summary, process_one}

-- One round of the loop: whether a signal has set `stop` when it begins, what others do to the database
-- before it and before the count at its end, the surroundings of its cycle, and the clock at the count.
pub record Round : Type 0 where
  pub stopped : Bool
  pub before : Db → Db
  pub around : Surroundings
  pub before_count : Db → Db
  pub counted_at : Time

-- `returned drained executed`; an exception of the store, after which the database is not followed; or
-- the rounds given do not end the loop.
pub data LoopEnd : Type 0 where
  returned : Bool → ℕ → LoopEnd
  raised : LoopEnd
  going_on : ℕ → LoopEnd

-- The drain's check, after a cycle that claimed nothing.
abbrev pub is_settled : String → Bool → Round → Db → Bool
is_settled lane drain r db = drain && unsettled_count lane r.counted_at db == 0

module _ (w : String) (pid : ℕ) (out_root lane : String) (slots : Option ℕ) (drain : Bool) where
  -- `executed` is the number of jobs run before.
  unfoldable pub work_rounds : List Round → ℕ → Db → Db × LoopEnd
  unfolding process_one unsettled_count
  work_rounds [] executed db = (db, going_on executed)
  work_rounds (r ∷ rounds) executed db = elim r.stopped [
    | true ↦ (db, returned false executed)
    | false ↦ elim (process_one w pid out_root lane slots r.around (r.before db)) [
      | none ↦ (r.before db, raised)
      | some (db', some summary) ↦ work_rounds rounds (suc executed) db'
      | some (db', none) ↦ elim (is_settled lane drain r (r.before_count db')) [
        | true ↦ (r.before_count db', returned true executed)
        | false ↦ work_rounds rounds executed (r.before_count db')
      ]
    ]
  ]

  unfoldable pub work_loop : List Round → Db → Db × LoopEnd
  unfolding work_rounds
  work_loop rounds db = work_rounds rounds 0 db
