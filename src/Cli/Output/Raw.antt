-- ===== src/Cli/Output/Raw.antt =====
-- Which bytes cli.cmd_output writes.
use spoolctl.Base.{
  ℕ, ◌≡◌, refl, sym, subst, Bool, true, false, not, ◌&&◌, List, Option, none, some, map, arith,
}
use spoolctl.Models.{FilePath, Attempt}
use spoolctl.Store.Db.{Db, of_job}
use spoolctl.Operations.Errors.{Result, ok, err}
use spoolctl.Operations.Waiting.{Any}
use spoolctl.Operations.Output.{
  StreamName, StreamChoice, OutputData, only, both, names, path_of, read_stream, output_operation,
}
use spoolctl.Operations.Output.Shown.{IsAsked, Shows, output_operation-Shows}
use spoolctl.Validation.{Python, value, passed, bound}
use spoolctl.Validation.Ints.{job_id_arg}
use spoolctl.Cli.Events.{int64_max, optional_int}
use spoolctl.Cli.Events.Accepted.{value_injective}
use spoolctl.Cli.Output.{
  OutputArgs, OutputAnswer, no_attempts, bytes, envelope, human, is_both, first_stream,
  output_answer, output_values, cmd_output,
}

module _ (py : Python) (args : OutputArgs) where
  output_values-apart :
      (v : ℕ × Option ℕ)
      → output_values py args ≡ value v
      → ((args.raw && args.json) ≡ false) × ((args.raw && is_both args.stream) ≡ false)
  unfolding output_values
  output_values-apart v e =
      let (i, e1, k1) = bound (job_id_arg py args.id) _ e in
      let (a, e2, k2) = bound (optional_int py 1 int64_max args.attempt) _ k1 in
      let (t3, k3) = passed (not (args.raw && args.json)) none _ k2 in
      let (t4, k4) = passed (not (args.raw && is_both args.stream)) none _ k3 in
      (ground (arith, t3), ground (arith, t4))

module _ (open' : FilePath → Option (List ℕ)) (job_id : ℕ) (asked : Option ℕ) (db : Db) where
  -- The bytes of the stream of that name of the attempt that is asked for.
  abbrev pub IsStream : StreamName → List ℕ → Type 0
  IsStream name blob =
      (a : Attempt) × (of_job job_id a ≡ true)
      × Any (λ y. y ≡ a) db.attempts
      × IsAsked job_id db asked a
      × (blob ≡ read_stream open' (path_of a name))

  -- What the answer says of the forms.
  abbrev pub IsForm : StreamChoice → Bool → Bool → Result OutputAnswer → Type 0
  IsForm stream raw json (err e) = Shows job_id db open' asked stream (err e)
  IsForm stream raw json (ok no_attempts) = Shows job_id db open' asked stream (ok none)
  IsForm stream raw json (ok (bytes blob)) =
      (raw ≡ true)
      × (json ≡ false)
      × (name : StreamName) × (stream ≡ only name)
      × IsStream name blob
  IsForm stream raw json (ok (envelope d)) =
      (raw ≡ false) × (json ≡ true) × Shows job_id db open' asked stream (ok (some d))
  IsForm stream raw json (ok (human d)) =
      (raw ≡ false) × (json ≡ false) × Shows job_id db open' asked stream (ok (some d))

  bytes-IsForm :
      (stream : StreamChoice) (json : Bool) (blobs : List (List ℕ)) (a : Attempt)
      → json ≡ false
      → is_both stream ≡ false
      → of_job job_id a ≡ true
      → Any (λ y. y ≡ a) db.attempts
      → IsAsked job_id db asked a
      → blobs ≡ map (λ name. read_stream open' (path_of a name)) (names stream)
      → IsForm stream true json (first_stream blobs)
  bytes-IsForm both json blobs a j b of_it any_of ask e = absurd (ground (arith, b))
  bytes-IsForm (only name) json blobs a j b of_it any_of ask e =
      subst (λ bs. IsForm (only name) true json (first_stream bs)) (sym e)
        (refl, j, name, refl, (a, of_it, any_of, ask, refl))

  answer-IsForm :
      (stream : StreamChoice) (raw json : Bool) (r : Result (Option OutputData))
      → (raw && json) ≡ false
      → (raw && is_both stream) ≡ false
      → Shows job_id db open' asked stream r
      → IsForm stream raw json (output_answer raw json r)
  answer-IsForm stream raw json (err e) j b s = s
  answer-IsForm stream raw json (ok none) j b s = s
  answer-IsForm stream true json (ok (some d)) j b (a, of_it, any_of, ask, n, t, shown, blobs) =
      bytes-IsForm stream json d.stream_bytes a j b of_it any_of ask blobs
  answer-IsForm stream false true (ok (some d)) j b s = (refl, refl, s)
  answer-IsForm stream false false (ok (some d)) j b s = (refl, refl, s)

-- When output's arguments are accepted: with --raw it writes the whole bytes of the one stream that
-- --stream names, and that only without --json; else it shows the streams asked for, in the envelope
-- exactly with --json. They are those of an attempt that the database has for the job: the one with the
-- number asked for or, where none is asked for, one whose number is the greatest. That there are no
-- attempts is said only where the job has none, and a refusal is NOT_FOUND, only where the job is not
-- there or has no attempt with that number.
pub cmd_output-IsForm :
    (py : Python) (open' : FilePath → Option (List ℕ)) (args : OutputArgs) (db : Db)
    (r : Result OutputAnswer)
    → cmd_output py open' args db ≡ value r
    → (v : ℕ × Option ℕ) × (output_values py args ≡ value v)
      × IsForm open' v.0 v.1 db args.stream args.raw args.json r
unfolding cmd_output
cmd_output-IsForm py open' args db r e =
    let (v, accepted, k) = bound (output_values py args) _ e in
    let (j, b) = output_values-apart py args v accepted in
    (
      v,
      accepted,
      subst (IsForm open' v.0 v.1 db args.stream args.raw args.json) (value_injective k) (
          answer-IsForm open' v.0 v.1 db args.stream args.raw args.json
            (output_operation open' v.0 v.1 args.stream db) j b
            (output_operation-Shows v.0 db open' v.1 args.stream)),
    )
