-- ===== src/Examples/Commands.antt =====
-- The handlers of the command line, at the small queue.
use spoolctl.Base.{
  ℕ, ◌≡◌, ◌↔◌, ◌*◌, refl, arith, true, false, Bool, List, [], ◌∷◌, ◌&&◌, none, some, leb, ltb,
}
use spoolctl.Base.Int.{pos}
use spoolctl.Models.{Job, is_running}
use spoolctl.Models.Suggest.{Word, codes}
use spoolctl.Store.Db.{get_job}
use spoolctl.Operations.Errors.{ErrorsRegistered}
use spoolctl.Operations.Requests.{add_operation}
use spoolctl.Operations.Waiting.{Poll, deadline_of}
use spoolctl.Validation.{value}
use spoolctl.Validation.Ints.{number_of, digits_of, job_id_arg}
use spoolctl.Validation.Floats.{Floats, is_digit, parse_duration_seconds, parse_positive_float}
use spoolctl.Validation.Floats.Units.{IsUnit, in_seconds, in_minutes, in_hours, in_days}
use spoolctl.Validation.Floats.Durations.{Spelled, Accepted, parse_duration_seconds_iff}
use spoolctl.Cli.Verbs.{cmd_cancel, cmd_retry, cmd_prune, cmd_wait, wait_args}
use spoolctl.Cli.Verbs.Consent.{unconfirmed-spares}
use spoolctl.Cli.Verbs.Exits.{ExitMeans, handlers-ErrorsRegistered, cmd_wait-ExitMeans}
use spoolctl.Examples.States.{command, no_metadata, submitted, claimed}
use spoolctl.Examples.Parsed.{ascii}
use spoolctl.Examples.Prunes.{sizes, small_files}

-- Floats that are whole.
abbrev pub wholes : Floats ℕ
wholes = record {
  read = λ w. elim (digits_of ascii w) [ none ↦ none | some ds ↦ some (number_of 0 ds) ];
  whole = λ n. n;
  is_finite = λ v. true;
  less = ltb;
  leq = leb;
  times = ◌*◌;
  abs = λ v. v;
}

abbrev is_letter : ℕ → Bool
is_letter c = leb 97 c && leb c 122

letters_apart : (c : ℕ) → is_letter c ≡ true → is_digit ascii c ≡ false
letters_apart c h = ground (arith, h)

units_letters : (c factor : ℕ) → IsUnit c factor → is_letter c ≡ true
units_letters c factor in_seconds = refl
units_letters c factor in_minutes = refl
units_letters c factor in_hours = refl
units_letters c factor in_days = refl

parse_duration_seconds_iff_example :
    (parse_duration_seconds ascii wholes is_letter (codes "90m") ≡ value 5400) ↔ (
      (number : Word) × (factor : ℕ) × Spelled (codes "90m") number factor
      × Accepted ascii wholes number factor 5400)
parse_duration_seconds_iff_example =
    parse_duration_seconds_iff ascii wholes is_letter letters_apart refl units_letters refl
      (codes "90m") 5400

unconfirmed-spares_example :
    ((i : ℕ) (j : Job)
      → get_job i claimed ≡ some j
      → is_running j.state ≡ true
      → get_job i (cmd_cancel ascii (codes "1") true false 300 claimed).0 ≡ some j)
    × ((cmd_prune ascii wholes is_letter sizes
          (λ s. s)
          (codes "30d")
          (codes "done")
          false
          true
          (λ d. d)
          claimed
          small_files).0
        ≡ (claimed, small_files))
unconfirmed-spares_example =
    unconfirmed-spares ascii wholes is_letter sizes (λ s. s) (λ d. d) claimed small_files 300
      (codes "1") (codes "30d") (codes "done") true

handlers-ErrorsRegistered_example :
    ErrorsRegistered (cmd_cancel ascii (codes "7") true true 300 claimed).1
    × ErrorsRegistered (cmd_retry ascii (codes "7") true 300 claimed).1
    × ErrorsRegistered
        (cmd_prune ascii wholes is_letter sizes
          (λ s. s)
          (codes "30d")
          (codes "done")
          true
          true
          (λ d. d)
          claimed
          small_files).1
    × ErrorsRegistered (add_operation command 300 none no_metadata claimed).1
handlers-ErrorsRegistered_example =
    handlers-ErrorsRegistered ascii command none no_metadata 300 claimed wholes is_letter sizes
      (λ s. s) (λ d. d) small_files (codes "7") (codes "30d") (codes "done") true true

abbrev waits : List Poll
waits = record { db = submitted; clock = 150 } ∷ record { db = claimed; clock = 400 } ∷ []

args_accepted :
    wait_args ascii wholes (codes "1" ∷ []) (some (codes "200")) (codes "5")
    ≡ value (pos 1 ∷ [], some 200)
unfolding wait_args job_id_arg parse_positive_float
args_accepted = refl

cmd_wait-ExitMeans_example : ExitMeans (1 ∷ []) (deadline_of (some 200) 100) waits (
    cmd_wait ascii wholes
      (λ s. s)
      (codes "1" ∷ [])
      (some (codes "200"))
      (codes "5")
      100
      submitted
      waits)
cmd_wait-ExitMeans_example =
    cmd_wait-ExitMeans ascii wholes (λ s. s) (codes "1" ∷ []) (some (codes "200")) (codes "5") 100
      submitted waits (pos 1 ∷ []) (some 200) args_accepted
