-- ===== src/Cli/Verbs/Exits.antt =====
-- The exit codes of the handlers: those of refusals, and what the exit code of wait tells a script.
use spoolctl.Base.{
  ℕ, ◌≡◌, refl, sym, subst, inl, inr, String, Bool, true, false, List, [], ◌∷◌, Option, none, some,
  all, any, is_none, arith,
}
use spoolctl.Base.Int.{ℤ}
use spoolctl.Models.{Time, Job}
use spoolctl.Models.Suggest.{Word}
use spoolctl.Store.Db.{Db}
use spoolctl.Operations.Errors.{Result, ErrorsRegistered, registered_exit, exit_transient}
use spoolctl.Operations.Requests.{cancel_operation, add_operation, requests-ErrorsRegistered}
use spoolctl.Operations.Pruning.{FileCalls}
use spoolctl.Operations.Waiting.{
  Poll, WaitOutcome, WaitMeans, Any, all_settled, has_state_done, is_settled, is_past, jobs_of,
  wait_step, wait_loop, deadline_of, wait_operation, wait_operation-Means,
}
use spoolctl.Store.Submit.{Execution, Metadata}
use spoolctl.Validation.{Python, Parsed, value, refused, raised}
use spoolctl.Validation.Floats.{Floats, parse_duration_seconds}
use spoolctl.Validation.Ints.{job_id_arg}
use spoolctl.Validation.States.{parse_prune_states}
use spoolctl.Cli.Verbs.{
  cancel_gate, nat_of, cmd_cancel, cmd_retry, cmd_prune, cmd_wait, with_value, prune_gate,
  wait_args, wait_exit, nats_of, micros_of, exit_job_failure,
}

with_value-registered :
    {A S B : Type 0} (s : S) (o : Parsed A) (k : A → S × Result B)
    → ((a : A) → ErrorsRegistered (k a).1)
    → ErrorsRegistered (with_value s o k).1
unfolding registered_exit
with_value-registered s (value a) k g = g a
with_value-registered s (refused hint) k g = refl
with_value-registered s raised k g = refl

prune_gate-registered :
    {S A : Type 0} (s : S) (confirmed dry_run : Bool) (rest : S × Result A)
    → ErrorsRegistered rest.1
    → ErrorsRegistered (prune_gate s confirmed dry_run rest).1
unfolding registered_exit
prune_gate-registered s true true rest h = refl
prune_gate-registered s true false rest h = h
prune_gate-registered s false true rest h = h
prune_gate-registered s false false rest h = refl

module _ (ids : List ℕ) (deadline : Option Time) where
  -- A wait that is past its deadline is refused with the exit code of a transient failure.
  abbrev TimesOut : WaitOutcome → Type 0
  TimesOut (WaitOutcome.refused e) = e.exit_code ≡ exit_transient
  TimesOut _ = Unit {0}

  step-TimesOut :
      (o : Option Bool) (past : Bool) (jobs : List (Option Job)) (rest : WaitOutcome)
      → TimesOut rest
      → TimesOut (wait_step o past jobs rest)
  step-TimesOut none past jobs rest h = tt
  step-TimesOut (some true) past jobs rest h = tt
  step-TimesOut (some false) true jobs rest h = refl
  step-TimesOut (some false) false jobs rest h = h

  loop-TimesOut : (polls : List Poll) → TimesOut (wait_loop ids deadline polls)
  unfolding wait_loop
  loop-TimesOut [] = tt
  loop-TimesOut (p ∷ ps) =
      step-TimesOut (all_settled (jobs_of ids p.db)) (is_past deadline p.clock) (jobs_of ids p.db)
        (wait_loop ids deadline ps) (loop-TimesOut ps)

  -- What each exit code says of the polls: 0, that at one of them all jobs are done; 6, that at one of
  -- them all are settled and not all are done; 4, that at one of them some job is not settled and the
  -- deadline has passed.
  pub record ExitMeans (polls : List Poll) (code : Option ℕ) : Type 0 where
    pub success :
        code ≡ some 0
        → Any
            (λ p.
              (all is_settled (jobs_of ids p.db) ≡ true)
              × (all has_state_done (jobs_of ids p.db) ≡ true))
            polls
    pub failure :
        code ≡ some exit_job_failure
        → Any
            (λ p.
              (all is_settled (jobs_of ids p.db) ≡ true)
              × (all has_state_done (jobs_of ids p.db) ≡ false))
            polls
    pub timeout :
        code ≡ some exit_transient
        → Any
            (λ p. (all is_settled (jobs_of ids p.db) ≡ false) × (is_past deadline p.clock ≡ true))
            polls

  Any-poll :
      (P Q : Poll → Type 0) (polls : List Poll)
      → ((p : Poll) → P p → Q p)
      → Any P polls
      → Any Q polls
  Any-poll P Q [] f h = elim h [ ]
  Any-poll P Q (p ∷ ps) f (inl h) = inl (f p h)
  Any-poll P Q (p ∷ ps) f (inr h) = inr (Any-poll P Q ps f h)

  settled_at :
      (b : Bool) (jobs : List (Option Job)) (p : Poll)
      → (jobs ≡ jobs_of ids p.db) × (all is_settled jobs ≡ true) × (b ≡ all has_state_done jobs)
      → (all is_settled (jobs_of ids p.db) ≡ true) × (all has_state_done (jobs_of ids p.db) ≡ b)
  settled_at b jobs p (e, s, d) = (
    subst (λ js. all is_settled js ≡ true) e s,
    subst (λ js. all has_state_done js ≡ b) e (sym d),
  )

  outcome-ExitMeans :
      (polls : List Poll) (o : WaitOutcome)
      → WaitMeans ids deadline polls o
      → TimesOut o
      → ExitMeans polls (wait_exit o)
  unfolding wait_exit
  outcome-ExitMeans polls WaitOutcome.waiting m t = record {
    success = λ e. cc;
    failure = λ e. cc;
    timeout = λ e. cc;
  }
  outcome-ExitMeans polls WaitOutcome.raised m t = record {
    success = λ e. ground (arith, e);
    failure = λ e. ground (arith, e);
    timeout = λ e. ground (arith, e);
  }
  outcome-ExitMeans polls (WaitOutcome.refused c) m t = record {
    success = λ e. ground (arith, e, t);
    failure = λ e. ground (arith, e, t);
    timeout = λ e. m.1;
  }
  outcome-ExitMeans polls (WaitOutcome.settled true jobs) m t = record {
    success = λ e. Any-poll _ _ polls (settled_at true jobs) m;
    failure = λ e. ground (arith, e);
    timeout = λ e. ground (arith, e);
  }
  outcome-ExitMeans polls (WaitOutcome.settled false jobs) m t = record {
    success = λ e. ground (arith, e);
    failure = λ e. Any-poll _ _ polls (settled_at false jobs) m;
    timeout = λ e. ground (arith, e);
  }

operation-ExitMeans :
    (ids : List ℕ) (timeout : Option Time) (started : Time) (db : Db) (polls : List Poll)
    (gone : Bool)
    → any is_none (jobs_of ids db) ≡ gone
    → ExitMeans ids
        (deadline_of timeout started)
        polls
        (wait_exit (wait_operation ids timeout started db polls))
unfolding wait_exit wait_operation
operation-ExitMeans ids timeout started db polls true e =
    rw ((wait_operation-Means ids timeout started db polls).0 e) (record {
      success = λ t. ground (arith, t);
      failure = λ t. ground (arith, t);
      timeout = λ t. ground (arith, t);
    })
operation-ExitMeans ids timeout started db polls false e =
    outcome-ExitMeans ids (deadline_of timeout started) polls
      (wait_operation ids timeout started db polls)
      ((wait_operation-Means ids timeout started db polls).1 e)
      (rw (e, wait_operation) (loop-TimesOut ids (deadline_of timeout started) polls))

module _ (py : Python) (x : Execution) (key : Option String) (m : Metadata) (now : Time)
    (db : Db) where
  cancel-registered :
      (k : ℕ) (running confirmed : Bool)
      → ErrorsRegistered (cancel_gate db running confirmed (cancel_operation k running now db)).1
  unfolding registered_exit
  cancel-registered k true false = refl
  cancel-registered k true true = (requests-ErrorsRegistered k true now x key m db).0
  cancel-registered k false confirmed = (requests-ErrorsRegistered k false now x key m db).0

  -- The handlers of cancel, retry and prune, and the operation behind add, report each refusal (of the
  -- handler, of a parser or of the operation) with the exit code that the registry gives its error
  -- code.
  pub handlers-ErrorsRegistered :
      {F Files : Type 0} (fl : Floats F) (is_alpha : ℕ → Bool) (os : FileCalls Files)
      (cutoff_of : F → Time) (meanwhile : Db → Db) (files : Files) (id older_than state : Word)
      (flag confirmed : Bool)
      → ErrorsRegistered (cmd_cancel py id flag confirmed now db).1
        × ErrorsRegistered (cmd_retry py id flag now db).1
        × ErrorsRegistered
            (cmd_prune py fl is_alpha os cutoff_of older_than state confirmed flag meanwhile db
              files).1
        × ErrorsRegistered (add_operation x now key m db).1
  unfolding cmd_cancel cmd_retry cmd_prune
  handlers-ErrorsRegistered fl is_alpha os cutoff_of meanwhile files id older_than state flag
        confirmed =
      (
        with_value-registered db (job_id_arg py id) _
            (λ k. cancel-registered (nat_of k) flag confirmed),
        with_value-registered db (job_id_arg py id) _
            (λ k. (requests-ErrorsRegistered (nat_of k) flag now x key m db).1),
        with_value-registered (db, files) (parse_duration_seconds py fl is_alpha older_than) _
            (λ seconds.
              with_value-registered (db, files) (parse_prune_states py state) _
                (λ states. prune_gate-registered (db, files) confirmed flag _ tt)),
        (requests-ErrorsRegistered 0 flag now x key m db).2,
      )

module _ (py : Python) {F : Type 0} (fl : Floats F) (micros : F → Time) where
  -- When wait's arguments are accepted: it exits with 0 only if at one of its polls all the jobs asked
  -- for are done, with 6 only if at one of them all are settled and not all are done, and with 4 only
  -- if at one of them some job is not settled and the deadline has passed.
  pub cmd_wait-ExitMeans :
      (ids : List Word) (timeout : Option Word) (poll_interval : Word) (started : Time) (db : Db)
      (polls : List Poll) (is : List ℤ) (limit : Option F)
      → wait_args py fl ids timeout poll_interval ≡ value (is, limit)
      → ExitMeans
          (nats_of is)
          (deadline_of (micros_of micros limit) started)
          polls
          (cmd_wait py fl micros ids timeout poll_interval started db polls)
  unfolding cmd_wait
  cmd_wait-ExitMeans ids timeout poll_interval started db polls is limit e =
      rw (e, cmd_wait)
        (operation-ExitMeans (nats_of is) (micros_of micros limit) started db polls
          (any is_none (jobs_of (nats_of is) db)) refl)
