-- ===== src/Store/Queries.antt =====
-- The read-only queries of spoolctl/store.py: listing, counting, and the event ledger.
pub mod Limited
pub mod Totals
use spoolctl.Base.{
  ℕ, suc, ◌+◌, String, Bool, true, false, ◌&&◌, ◌||◌, List, [], ◌∷◌, Option, none, some, ltb, leb,
  ◌==◌, any, map, take, head?, last?, length, sql_eq, str_eq, if◌then◌else◌,
}
use mathlib.Core.List.{reverse}
use mathlib.Core.Option
use spoolctl.Base.Int.{ℤ, leb_ℤ}
use spoolctl.Models.{
  Time, Job, JobState, Attempt, Event, ErrorText, FilePath, is_queued, is_running, is_dead,
  job_state_eq,
}
use spoolctl.Sql.{select, count, max_of, min_of, order_by}
use spoolctl.Store.Db.{Db, get_attempts, event_of_job}

-- LIMIT n, where 0 stands for no limit.
unfoldable pub limited {ℓ} : {A : Type ℓ} → ℕ → List A → List A
limited n xs = if n == 0 then xs else take n xs

-- The optional filters of list_jobs; no states (None or the empty list) is every state.
abbrev pub in_states : Option (List JobState) → JobState → Bool
in_states none s = true
in_states (some []) s = true
in_states (some (t ∷ ts)) s = any (job_state_eq s) (t ∷ ts)

abbrev pub in_queue : Option String → Job → Bool
in_queue none j = true
in_queue (some queue) j = str_eq j.queue queue

abbrev pub has_priority : Option ℤ → Job → Bool
has_priority none j = true
has_priority (some least) j = leb_ℤ least j.priority

abbrev pub is_listed : Option (List JobState) → Option String → Option ℤ → Job → Bool
is_listed states queue priority_min j =
    in_states states j.state && (in_queue queue j && has_priority priority_min j)

-- ORDER BY id DESC
unfoldable pub list_jobs : Option (List JobState) → ℕ → Option String → Option ℤ → Db → List Job
unfolding limited
list_jobs states limit queue priority_min db =
    limited limit (reverse (select (is_listed states queue priority_min) db.jobs))

-- MIN(id); the caller reads no more of job_id_bounds.
unfoldable pub first_job_id : Db → Option ℕ
first_job_id db = min_of (λ j. j.id) (λ j. true) db.jobs

-- queue=lane AND (state='running' OR (state='queued' AND (next_run_at <= now OR attempts > 0)))
abbrev pub holds_drain : String → Time → Job → Bool
holds_drain lane now j =
    str_eq j.queue lane
    && (is_running j.state || (is_queued j.state && (leb j.next_run_at now || ltb 0 j.attempts)))

unfoldable pub unsettled_count : String → Time → Db → ℕ
unsettled_count lane now db = count (holds_drain lane now) db.jobs

-- The dictionary of the counts by state, zero where there is no job.
pub record StateCounts : Type 0 where
  pub canceled : ℕ
  pub dead : ℕ
  pub done : ℕ
  pub failed : ℕ
  pub queued : ℕ
  pub running : ℕ

abbrev pub in_state : JobState → Job → Bool
in_state s j = job_state_eq j.state s

-- The same table read with WHERE p, for each state.
unfoldable pub counts_where : (Job → Bool) → Db → StateCounts
counts_where p db = record {
  canceled = count (λ j. p j && in_state JobState.canceled j) db.jobs;
  dead = count (λ j. p j && in_state JobState.dead j) db.jobs;
  done = count (λ j. p j && in_state JobState.done j) db.jobs;
  failed = count (λ j. p j && in_state JobState.failed j) db.jobs;
  queued = count (λ j. p j && in_state JobState.queued j) db.jobs;
  running = count (λ j. p j && in_state JobState.running j) db.jobs;
}

unfoldable pub state_counts : Db → StateCounts
unfolding counts_where
state_counts db = counts_where (λ j. true) db

-- state='queued' AND next_run_at > now
abbrev pub is_scheduled : Time → Job → Bool
is_scheduled now j = is_queued j.state && ltb now j.next_run_at

pub record QueueStatus : Type 0 where
  pub queue : String
  pub counts : StateCounts
  pub scheduled : ℕ

-- The queues that some job is in, each once; they are the keys of a dictionary, whose order is
-- not kept.
unfoldable pub add_queue : String → List String → List String
add_queue q [] = q ∷ []
add_queue q (r ∷ rs) = let rest = add_queue q rs in if str_eq r q then r ∷ rs else r ∷ rest

unfoldable pub queue_names : List Job → List String
unfolding add_queue
queue_names [] = []
queue_names (j ∷ js) = add_queue j.queue (queue_names js)

unfoldable pub queue_status : Time → Db → String → QueueStatus
unfolding counts_where
queue_status now db q = record {
  queue = q;
  counts = counts_where (λ j. str_eq j.queue q) db;
  scheduled = count (λ j. str_eq j.queue q && is_scheduled now j) db.jobs;
}

abbrev pub add_counts : StateCounts → StateCounts → StateCounts
add_counts c d = record {
  canceled = c.canceled + d.canceled;
  dead = c.dead + d.dead;
  done = c.done + d.done;
  failed = c.failed + d.failed;
  queued = c.queued + d.queued;
  running = c.running + d.running;
}

abbrev pub no_counts : StateCounts
no_counts = record { canceled = 0; dead = 0; done = 0; failed = 0; queued = 0; running = 0 }

-- `counts[state] += n` and `scheduled += queue_scheduled`, over the grouped rows.
unfoldable pub add_up : List QueueStatus → StateCounts × ℕ
add_up [] = (no_counts, 0)
add_up (q ∷ qs) =
    let (counts, scheduled) = add_up qs in (add_counts q.counts counts, q.scheduled + scheduled)

unfoldable pub status_counts : Time → Db → StateCounts × ℕ × List QueueStatus
unfolding queue_names queue_status add_up
status_counts now db =
    let queues = map (queue_status now db) (queue_names db.jobs) in
    let (counts, scheduled) = add_up queues in (counts, scheduled, queues)

-- ORDER BY finished_at DESC, id DESC; a NULL is less than any time.
abbrev pub finish_time : Option Time → ℕ
finish_time none = 0
finish_time (some t) = suc t

abbrev pub died_later : Job → Job → Bool
died_later j i =
    let s = finish_time j.finished_at in
    let t = finish_time i.finished_at in if ltb t s then true else s == t && ltb i.id j.id

-- One entry of recent_dead; the command is cut to 80 characters where it is shown.
pub record DeadJob : Type 0 where
  pub id : ℕ
  pub argv : List String
  pub attempts : ℕ
  pub crashes : ℕ
  pub last_error : Option ErrorText
  pub finished_at : Option Time
  pub stdout_path : Option FilePath
  pub stderr_path : Option FilePath

-- LEFT JOIN with the attempt of the greatest attempt_no.
unfoldable pub dead_job : Db → Job → DeadJob
dead_job db j =
    let latest = last? (get_attempts j.id db) in
    record {
      id = j.id;
      argv = j.argv;
      attempts = j.attempts;
      crashes = j.crashes;
      last_error = j.last_error;
      finished_at = j.finished_at;
      stdout_path = Option.map (λ a. a.stdout_path) latest;
      stderr_path = Option.map (λ a. a.stderr_path) latest;
    }

unfoldable pub recent_dead : ℕ → Db → List DeadJob
unfolding dead_job
recent_dead limit db =
    map (dead_job db) (take limit (order_by died_later (select (λ j. is_dead j.state) db.jobs)))

-- COALESCE(MAX(id), 0)
unfoldable pub event_high_water : Db → ℕ
event_high_water db = max_of (λ e. e.id) (λ e. true) db.events

abbrev pub event_of : Option ℕ → Event → Bool
event_of none e = true
event_of (some job_id) e = event_of_job job_id e

unfoldable pub first_event_id : Option ℕ → Db → Option ℕ
first_event_id job_id db = min_of (λ e. e.id) (event_of job_id) db.events

abbrev pub is_after : ℕ → Option ℕ → Event → Bool
is_after since_id job_id e = ltb since_id e.id && event_of job_id e

-- ORDER BY id ASC, with a limit where it is positive.
unfoldable pub list_events : ℕ → Option ℕ → ℕ → Db → List Event
unfolding limited
list_events since_id job_id limit db = limited limit (select (is_after since_id job_id) db.events)
