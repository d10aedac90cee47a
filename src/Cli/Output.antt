-- ===== src/Cli/Output.antt =====
-- cli.cmd_output. What the human form prints is made of the same data.
pub mod Raw
use spoolctl.Base.{ℕ, ◌-◌, ◌^◌, Bool, not, ◌&&◌, List, [], ◌∷◌, Option, none, some, true, false}
use spoolctl.Base.Int.{ℤ, pos}
use spoolctl.Models.{FilePath}
use spoolctl.Models.Suggest.{Word}
use spoolctl.Store.Db.{Db}
use spoolctl.Operations.Errors.{Result, ok, err}
use spoolctl.Operations.Output.{StreamName, StreamChoice, OutputData, only, both, output_operation}
use spoolctl.Validation.{Python, Parsed, value, ◌>>=◌, ◌>>◌, require}
use spoolctl.Validation.Ints.{job_id_arg}
use spoolctl.Cli.Verbs.{nat_of, internal_error}
use spoolctl.Cli.Events.{int64_max, map_nat, optional_int}

pub record OutputArgs : Type 0 where
  pub id : Word
  pub attempt : Option Word
  pub raw : Bool
  pub json : Bool
  pub stream : StreamChoice

-- The warning that there are no attempts, the bytes of one stream, the envelope's data, or the human
-- form of the data.
pub data OutputAnswer : Type 0 where
  no_attempts : OutputAnswer
  bytes : List ℕ → OutputAnswer
  envelope : OutputData → OutputAnswer
  human : OutputData → OutputAnswer

abbrev pub is_both : StreamChoice → Bool
is_both both = true
is_both (only name) = false

-- streams[0]
abbrev pub first_stream : List (List ℕ) → Result OutputAnswer
first_stream [] = err internal_error
first_stream (blob ∷ blobs) = ok (bytes blob)

abbrev pub output_form : Bool → Bool → OutputData → Result OutputAnswer
output_form true json d = first_stream d.stream_bytes
output_form false true d = ok (envelope d)
output_form false false d = ok (human d)

abbrev pub output_answer : Bool → Bool → Result (Option OutputData) → Result OutputAnswer
output_answer raw json (err e) = err e
output_answer raw json (ok none) = ok no_attempts
output_answer raw json (ok (some d)) = output_form raw json d

module _ (py : Python) where
  unfoldable pub output_values : OutputArgs → Parsed (ℕ × Option ℕ)
  unfolding job_id_arg
  output_values args = do
    job_id ← job_id_arg py args.id
    attempt_no ← optional_int py 1 int64_max args.attempt
    require (not (args.raw && args.json)) none
    require (not (args.raw && is_both args.stream)) none
    value (nat_of job_id, map_nat attempt_no)

  unfoldable pub cmd_output :
      (FilePath → Option (List ℕ)) → OutputArgs → Db → Parsed (Result OutputAnswer)
  unfolding output_values output_operation
  cmd_output open' args db = do
    v ← output_values args
    value (output_answer args.raw args.json (output_operation open' v.0 v.1 args.stream db))
