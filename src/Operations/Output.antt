-- ===== src/Operations/Output.antt =====
-- operations.output_operation, with the files that open reads as a parameter. What is
-- previewed is given before the decoding of its bytes.
pub mod Shown
use spoolctl.Base.{
  ℕ, Bool, true, false, not, ◌&&◌, List, [], ◌∷◌, Option, none, some, length, last?, head?, map,
  take, ltb, ◌==◌, if◌then◌else◌,
}
use spoolctl.Base.Int.{ℤ, pos, negsuc}
use spoolctl.Models.{FilePath, Attempt, AttemptState}
use spoolctl.Sql.{select}
use spoolctl.Store.Db.{Db, get_job, get_attempts}
use spoolctl.Operations.Errors.{ErrorCode, Result, ok, err, cli_error}

pub data StreamName : Type 0 where
  stdout stderr : StreamName

pub data StreamChoice : Type 0 where
  only : StreamName → StreamChoice
  both : StreamChoice

abbrev pub preview_bytes : ℕ
preview_bytes = 4096

-- A file that is not there is empty: `none` is FileNotFoundError. Another OSError, which escapes, is not
-- modelled.
unfoldable pub read_stream : (FilePath → Option (List ℕ)) → FilePath → List ℕ
read_stream open' path = elim (open' path) [ none ↦ [] | some blob ↦ blob ]

pub record StreamData : Type 0 where
  pub name : StreamName
  pub path : FilePath
  pub preview : List ℕ
  pub preview_truncated : Bool
  pub size_bytes : ℕ

pub record OutputData : Type 0 where
  pub attempt_no : ℕ
  pub attempt_state : AttemptState
  pub attempts_total : ℕ
  pub job_id : ℕ
  pub streams : List StreamData
  -- The values of stream_bytes, which stands beside the data.
  pub stream_bytes : List (List ℕ)

abbrev pub names : StreamChoice → List StreamName
names (only name) = name ∷ []
names both = StreamName.stdout ∷ StreamName.stderr ∷ []

abbrev pub path_of : Attempt → StreamName → FilePath
path_of a StreamName.stdout = a.stdout_path
path_of a StreamName.stderr = a.stderr_path

-- The attempt asked for, or the last one.
unfoldable pub choose_attempt : Option ℕ → List Attempt → Option Attempt
choose_attempt none attempts = last? attempts
choose_attempt (some n) attempts = head? (select (λ a. a.attempt_no == n) attempts)

module _ (open' : FilePath → Option (List ℕ)) where
  unfoldable pub stream_data : Attempt → StreamName → StreamData
  unfolding read_stream
  stream_data a name =
      let blob = read_stream open' (path_of a name) in
      record {
        name = name;
        path = path_of a name;
        preview = take preview_bytes blob;
        preview_truncated = ltb preview_bytes (length blob);
        size_bytes = length blob;
      }

  unfoldable pub output_of : ℕ → StreamChoice → List Attempt → Attempt → OutputData
  unfolding stream_data read_stream
  output_of job_id stream attempts a = record {
    attempt_no = a.attempt_no;
    attempt_state = a.state;
    attempts_total = length attempts;
    job_id = job_id;
    streams = map (stream_data a) (names stream);
    stream_bytes = map (λ name. read_stream open' (path_of a name)) (names stream);
  }

  abbrev pub output_from :
      ℕ → StreamChoice → List Attempt → Option Attempt → Result (Option OutputData)
  output_from job_id stream [] chosen = ok none
  output_from job_id stream (a ∷ as') none = err (cli_error ErrorCode.not_found)
  output_from job_id stream (a ∷ as') (some chosen) =
      ok (some (output_of job_id stream (a ∷ as') chosen))

  -- `ok none` is the warning NO_ATTEMPTS_YET.
  unfoldable pub output_operation : ℕ → Option ℕ → StreamChoice → Db → Result (Option OutputData)
  unfolding choose_attempt output_of get_job get_attempts
  output_operation job_id attempt_no stream db = elim (get_job job_id db) [
    | none ↦ err (cli_error ErrorCode.not_found)
    | some job ↦
        let attempts = get_attempts job_id db in
        output_from job_id stream attempts (choose_attempt attempt_no attempts)
  ]
