-- ===== src/Operations/Output/Shown.antt =====
-- Which attempt operations.output_operation shows.
use spoolctl.Base.{
  ℕ, ◌≤◌, ◌≡◌, ◌⊎◌, refl, sym, ap, ◌∙◌, inl, inr, true, false, List, [], ◌∷◌, Option, none, some,
  All, length, last?, head?, map, ◌==◌, ==_iff, Option-cases,
}
use spoolctl.Models.{FilePath, Attempt}
use spoolctl.Sql.{select, count}
use spoolctl.Sql.Laws.{All-imp, select-nil}
use spoolctl.Sql.Order.{All-select, All-unselect, All-order_by, All-head}
use spoolctl.Sql.Sorted.{All-unorder, All-last, last-order_by}
use spoolctl.Store.Db.{Db, of_job, get_job, get_attempts}
use spoolctl.Store.Prune.Matched.{length-get_attempts}
use spoolctl.Operations.Errors.{ErrorCode, Result, ok, err, cli_error}
use spoolctl.Operations.Waiting.{Any}
use spoolctl.Operations.Output.{
  StreamChoice, OutputData, read_stream, path_of, names, choose_attempt, stream_data, output_of,
  output_from, output_operation,
}

All-self : (xs : List Attempt) → All (λ x. Any (λ y. y ≡ x) xs) xs
All-self [] = tt
All-self (x ∷ xs) = (inl refl, All-imp (λ z. Any (λ y. y ≡ z) xs) _ (λ z h. inr h) xs (All-self xs))

module _ (job_id : ℕ) (db : Db) where
  -- An attempt of the job, which the database has.
  abbrev IsTry : Attempt → Type 0
  IsTry a = (of_job job_id a ≡ true) × Any (λ y. y ≡ a) db.attempts

  get_attempts-IsTry : All IsTry (get_attempts job_id db)
  unfolding get_attempts
  get_attempts-IsTry = All-order_by IsTry _ (select (of_job job_id) db.attempts) (
      All-select (λ a. Any (λ y. y ≡ a) db.attempts) (of_job job_id) db.attempts
        (All-self db.attempts))

  -- The attempt asked for has that number; where none is asked for, none of the job has a greater one.
  abbrev pub IsAsked : Option ℕ → Attempt → Type 0
  IsAsked (some n) a = a.attempt_no ≡ n
  IsAsked none a = All (λ b. of_job job_id b ≡ true → b.attempt_no ≤ a.attempt_no) db.attempts

  chosen-IsAsked :
      (asked : Option ℕ) (a : Attempt)
      → choose_attempt asked (get_attempts job_id db) ≡ some a
      → IsTry a × IsAsked asked a
  unfolding choose_attempt get_attempts
  chosen-IsAsked none a e = (
    All-last IsTry (get_attempts job_id db) a get_attempts-IsTry e,
    All-unselect (λ b. b.attempt_no ≤ a.attempt_no) (of_job job_id) db.attempts
        (last-order_by (λ b. b.attempt_no) (select (of_job job_id) db.attempts) a e),
  )
  chosen-IsAsked (some n) a e =
      let (hit, try) =
        All-head (λ b. ((b.attempt_no == n) ≡ true) × IsTry b)
          (select (λ b. b.attempt_no == n) (get_attempts job_id db)) a
          (All-select IsTry (λ b. b.attempt_no == n) (get_attempts job_id db) get_attempts-IsTry)
          e in
      (try, (==_iff a.attempt_no n).0 hit)

  head-none : (xs : List Attempt) → head? xs ≡ none → xs ≡ []
  head-none [] e = refl
  head-none (x ∷ xs) e = cc e

  -- No attempt of the job has the number asked for.
  abbrev pub IsMissing : Option ℕ → Type 0
  IsMissing none = ⊥
  IsMissing (some n) = All (λ a. of_job job_id a ≡ true → (a.attempt_no == n) ≡ false) db.attempts

  last-some : (x : Attempt) (xs : List Attempt) → last? (x ∷ xs) ≡ none → ⊥
  last-some x [] e = cc e
  last-some x (y ∷ xs) e = last-some y xs e

  unchosen-IsMissing :
      (asked : Option ℕ) (x : Attempt) (xs : List Attempt)
      → get_attempts job_id db ≡ x ∷ xs
      → choose_attempt asked (get_attempts job_id db) ≡ none
      → IsMissing asked
  unfolding choose_attempt get_attempts
  unchosen-IsMissing none x xs some_tries e = last-some x xs (sym (ap last? some_tries) ∙ e)
  unchosen-IsMissing (some n) x xs some_tries e =
      All-unselect (λ a. (a.attempt_no == n) ≡ false) (of_job job_id) db.attempts
        (All-unorder (λ a. (a.attempt_no == n) ≡ false) _ (select (of_job job_id) db.attempts)
          (select-nil (λ b. b.attempt_no == n) (get_attempts job_id db) (head-none _ e)))

  module _ (open' : FilePath → Option (List ℕ)) (asked : Option ℕ) (stream : StreamChoice) where
    -- What each answer says of the attempts in the database.
    abbrev pub Shows : Result (Option OutputData) → Type 0
    Shows (err e) =
        (e ≡ cli_error ErrorCode.not_found) × ((get_job job_id db ≡ none) ⊎ IsMissing asked)
    Shows (ok none) = count (of_job job_id) db.attempts ≡ 0
    Shows (ok (some d)) =
        (a : Attempt) × (of_job job_id a ≡ true)
        × Any (λ y. y ≡ a) db.attempts
        × IsAsked asked a
        × (d.attempt_no ≡ a.attempt_no)
        × (d.attempts_total ≡ count (of_job job_id) db.attempts)
        × (d.streams ≡ map (stream_data open' a) (names stream))
        × (d.stream_bytes ≡ map (λ name. read_stream open' (path_of a name)) (names stream))

    from-Shows :
        (as' : List Attempt) (chosen : Option Attempt)
        → get_attempts job_id db ≡ as'
        → choose_attempt asked (get_attempts job_id db) ≡ chosen
        → Shows (output_from open' job_id stream as' chosen)
    unfolding output_of
    from-Shows [] chosen e c = sym (length-get_attempts db job_id) ∙ ap length e
    from-Shows (x ∷ xs) none e c = (refl, inr (unchosen-IsMissing asked x xs e c))
    from-Shows (x ∷ xs) (some a) e c =
        let (try, ask) = chosen-IsAsked asked a c in
        (a, try.0, try.1, ask, refl, ap length (sym e) ∙ length-get_attempts db job_id, refl, refl)

    -- An answer shows the streams of an attempt that the database has for the job: the one with the
    -- number asked for or, where none is asked for, one whose number is the greatest; and it says how
    -- many attempts the job has. It is empty only where the job has none, and a refusal is NOT_FOUND,
    -- only where the job is not there or has no attempt with that number.
    pub output_operation-Shows : Shows (output_operation open' job_id asked stream db)
    unfolding output_operation
    output_operation-Shows = elim (Option-cases (get_job job_id db)) [
      | inl e ↦ rw (e, output_operation) (refl, inl e)
      | inr (job, e) ↦
          rw (e, output_operation)
            (from-Shows (get_attempts job_id db) (choose_attempt asked (get_attempts job_id db))
              refl refl)
    ]
