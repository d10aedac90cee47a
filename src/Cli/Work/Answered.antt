-- ===== src/Cli/Work/Answered.antt =====
-- What the answer of cli.cmd_work says of the work that was done.
use spoolctl.Base.{
  ℕ, ◌≡◌, ◌⊎◌, refl, sym, subst, inl, inr, Bool, true, false, not, ◌&&◌, List, Option, none, some,
  String, All, length, Bool-cases, arith,
}
use spoolctl.Models.Suggest.{Word}
use spoolctl.Store.Db.{Db}
use spoolctl.Store.Invariant.{Inv}
use spoolctl.Store.History.{Reach, here}
use spoolctl.Validation.{Python, value, passed, bound}
use spoolctl.Validation.Floats.{Floats, max_poll_interval_seconds}
use spoolctl.Worker.Running.{Surroundings, Summary, process_one}
use spoolctl.Worker.Cycle.{Lost, process_one-Lost}
use spoolctl.Worker.Leased.{AmongOthers, process_one-Reach}
use spoolctl.Worker.Loop.{Round, LoopEnd, work_loop}
use spoolctl.Worker.Loop.Ends.{EndMeans, Visited, work_loop-Ends}
use spoolctl.Cli.Verbs.{optional_float}
use spoolctl.Cli.Events.{map_nat}
use spoolctl.Cli.Work.{
  WorkArgs, WorkEnv, WorkValues, WorkAnswer, ran_once, drained, stopped, internal, working,
  work_values, or_default, once_answer, loop_answer, work_with, cmd_work,
  validate_positive_float_env,
}

module _ {F : Type 0} (fl : Floats F) (py : Python) where
  work_values-apart :
      (env : WorkEnv) (args : WorkArgs) (v : WorkValues)
      → work_values py fl env args ≡ value v
      → (args.drain && args.once) ≡ false
  unfolding work_values
  work_values-apart env args v e =
      let (i, e1, k1) = bound (validate_positive_float_env py fl env.heartbeat_interval) _ e in
      let (t, e2, k2) = bound (validate_positive_float_env py fl env.reap_threshold) _ k1 in
      let (p, e3, k3) =
        bound (optional_float py fl max_poll_interval_seconds args.poll_interval) _ k2 in
      let (one, k4) = passed (not (args.drain && args.once)) none _ k3 in ground (arith, one)

module _ (text : Word → String) (default_worker_id : String) (pid : ℕ) (out_root : String)
    (args : WorkArgs) (v : WorkValues) (around : Surroundings) (rounds : List Round) (db : Db) where
  abbrev pub worker : String
  worker = or_default text default_worker_id v.worker_id

  abbrev pub lane : String
  lane = text v.lane

  -- A row that the worker has just claimed is removed by others before it is read back.
  abbrev pub LostAround : Surroundings → Db → Type 0
  LostAround s d = Lost worker pid out_root lane (map_nat v.slots) s d

  abbrev pub Means : Bool → Db → LoopEnd → Type 0
  Means drain db' end =
      EndMeans (λ r d. LostAround r.around d) lane drain rounds (length rounds) db' end

  -- What an answer says, in the database that is left.
  abbrev pub Says : Db → WorkAnswer → Type 0
  Says db' (ran_once summary) =
      (args.once ≡ true)
      × (args.drain ≡ false)
      × (process_one worker pid out_root lane (map_nat v.slots) around db ≡ some (db', summary))
  Says db' (drained settled executed) =
      (args.once ≡ false) × (args.drain ≡ true) × Means true db' (LoopEnd.returned settled executed)
  Says db' stopped =
      (args.once ≡ false)
      × (args.drain ≡ false)
      × (executed : ℕ) × Means false db' (LoopEnd.returned false executed)
  Says db' internal =
      ((args.once ≡ true) × LostAround around db)
      ⊎ ((args.once ≡ false) × Means args.drain db' LoopEnd.raised)
  Says db' (working executed) =
      (args.once ≡ false) × Means args.drain db' (LoopEnd.going_on executed)

  loop-Says :
      (drain : Bool) (db' : Db) (end : LoopEnd)
      → args.drain ≡ drain
      → args.once ≡ false
      → Means drain db' end
      → Says db' (loop_answer drain end)
  loop-Says true db' (LoopEnd.returned settled executed) d o m = (o, d, m)
  loop-Says false db' (LoopEnd.returned true executed) d o
        (EndMeans.drained n t few asked timed zero) =
      cc asked
  loop-Says false db' (LoopEnd.returned false executed) d o m = (o, d, executed, m)
  loop-Says drain db' LoopEnd.raised d o m = inr (o, rw d m)
  loop-Says drain db' (LoopEnd.going_on executed) d o m = (o, rw d m)

  abbrev work : Db × WorkAnswer
  work = work_with text default_worker_id pid out_root args v around rounds db

  once_run :
      args.once ≡ true
      → work ≡ once_answer db (process_one worker pid out_root lane (map_nat v.slots) around db)
  unfolding work_with
  once_run t = rw (t, work_with) refl

  abbrev loop : Db × LoopEnd
  loop = work_loop worker pid out_root lane (map_nat v.slots) args.drain rounds db

  loop_run : args.once ≡ false → work ≡ (loop.0, loop_answer args.drain loop.1)
  unfolding work_with
  loop_run f = rw (f, work_with) refl

  once-Says :
      (o : Option (Db × Option Summary))
      → process_one worker pid out_root lane (map_nat v.slots) around db ≡ o
      → args.once ≡ true
      → args.drain ≡ false
      → (o ≡ none → LostAround around db)
      → ((db' : Db) (summary : Option Summary) → o ≡ some (db', summary) → Reach db db')
      → Reach db (once_answer db o).0 × Says (once_answer db o).0 (once_answer db o).1
  once-Says none e t f gone reaches = (here, inl (t, gone refl))
  once-Says (some (db', summary)) e t f gone reaches = (reaches db' summary refl, (t, f, e))

  abbrev pub Works : Db × WorkAnswer → Type 0
  Works s = Reach db s.0 × Says s.0 s.1

  module _ (inv : Inv db) (others : AmongOthers worker pid around)
      (visits : All (Visited worker pid out_root lane (map_nat v.slots) args.drain) rounds) where
    pub work_with-Works : (args.drain && args.once) ≡ false → Works work
    work_with-Works apart = elim (Bool-cases args.once) [
      | inl t ↦ subst Works (sym (once_run t)) (
          once-Says (process_one worker pid out_root lane (map_nat v.slots) around db) refl t
            (ground (arith, apart, t))
            (process_one-Lost worker pid out_root lane (map_nat v.slots) around db)
            (λ db' summary e.
              process_one-Reach worker pid out_root lane (map_nat v.slots) around db db' summary inv
                others e))
      | inr f ↦
          let ends =
            work_loop-Ends worker pid out_root lane (map_nat v.slots) args.drain rounds db inv
              visits in
          subst Works (sym (loop_run f)) (ends.0, loop-Says args.drain _ _ refl f ends.1)
    ]

pub cmd_work-Works :
    (py : Python) {F : Type 0} (fl : Floats F) (text : Word → String) (default_worker_id : String)
    (pid : ℕ) (out_root : String) (env : WorkEnv) (args : WorkArgs) (v : WorkValues)
    (around : Surroundings) (rounds : List Round) (db : Db)
    → work_values py fl env args ≡ value v
    → Inv db
    → AmongOthers (or_default text default_worker_id v.worker_id) pid around
    → All
        (Visited
          (or_default text default_worker_id v.worker_id)
          pid
          out_root
          (text v.lane)
          (map_nat v.slots)
          args.drain)
        rounds
    → (s : Db × WorkAnswer) × (cmd_work text default_worker_id pid out_root py fl env args around
          rounds db
        ≡ value s)
      × Works text default_worker_id pid out_root args v around rounds db s
unfolding cmd_work
cmd_work-Works py fl text default_worker_id pid out_root env args v around rounds db e inv others
      visits =
    (
      work_with text default_worker_id pid out_root args v around rounds db,
      rw e refl,
      work_with-Works text default_worker_id pid out_root args v around rounds db inv others visits
          (work_values-apart fl py env args v e),
    )
